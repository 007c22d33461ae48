-- ===== src/Ruby/Functions.antt =====
-- The module `dbgscript` of Ruby scripts: src/rubyprov/dbgscript.cpp.
use dbgscript.Base.{ℕ, Bool, true, false, Option, some, none, List, if◌then◌else◌}
use dbgscript.Console.{Text}
use dbgscript.Frames.{DbgScriptThread}
use dbgscript.Host.{Host}
use dbgscript.ReadString.{util_check_abort}
use dbgscript.Script.{Outcome, raised, interrupted, Script}
use dbgscript.TypedObject.{TypedObject}
use dbgscript.Objects.{Services, read_string, read_wide_string, utf8}
use dbgscript.Functions.{
  ModuleServices, create_typed, exec_command, current_thread, get_threads, get_global, resolve_enum,
  read_ptr, module_read_bytes, field_offset, get_type_size, get_nearest_sym, search_memory, get_peb,
}
use dbgscript.Values.{Value, number, pos}
use dbgscript.Ruby.TypedObject.{ruby_alloc_typed_object}

module _ {W : Type 0} (svc : ModuleServices W) where
  abbrev num : ℕ → Value
  num n = number (pos n)

  abbrev alloc : ℕ → Option Text → ℕ → ℕ → ℕ → Bool → Script W TypedObject
  alloc = ruby_alloc_typed_object svc.objects

  unfoldable pub ruby_create_typed_object : Text → ℕ → Script W TypedObject
  ruby_create_typed_object type_name addr = create_typed svc alloc num type_name addr false

  unfoldable pub ruby_create_typed_pointer : Text → ℕ → Script W TypedObject
  ruby_create_typed_pointer type_name addr = create_typed svc alloc num type_name addr true

  unfoldable pub ruby_execute_command : Text → Script W (Unit {0})
  ruby_execute_command command = exec_command svc alloc num command

  unfoldable pub ruby_current_thread : Script W DbgScriptThread
  ruby_current_thread = current_thread svc alloc num

  unfoldable pub ruby_get_threads : Script W (List DbgScriptThread)
  ruby_get_threads = get_threads svc alloc num

  unfoldable pub ruby_get_global : Text → Script W TypedObject
  ruby_get_global symbol = get_global svc alloc num symbol

  unfoldable pub ruby_resolve_enum : Text → ℕ → Script W Value
  ruby_resolve_enum enum_type value = resolve_enum svc alloc num enum_type value

  unfoldable pub ruby_read_ptr : ℕ → Script W Value
  ruby_read_ptr addr = read_ptr svc alloc num addr

  unfoldable pub ruby_module_read_bytes : ℕ → ℕ → Script W Text
  ruby_module_read_bytes addr count = module_read_bytes svc alloc num addr count

  unfoldable pub ruby_field_offset : Text → Text → Script W Value
  ruby_field_offset type field = field_offset svc alloc num type field

  unfoldable pub ruby_get_type_size : Text → Script W Value
  ruby_get_type_size type = get_type_size svc alloc num type

  unfoldable pub ruby_get_nearest_sym : ℕ → Script W Value
  ruby_get_nearest_sym addr = get_nearest_sym svc alloc num addr

  unfoldable pub ruby_search_memory : ℕ → ℕ → Text → ℕ → Script W Value
  ruby_search_memory start size pattern granularity =
      search_memory svc alloc num start size pattern granularity

  unfoldable pub ruby_get_peb : Script W Value
  ruby_get_peb = get_peb svc alloc num

  unfoldable pub ruby_module_read_string : ℕ → ℕ → Host W → Option (Outcome Text)
  ruby_module_read_string addr count h =
      let o : Services W = svc.objects in
      if util_check_abort o.control h.world
      then some (raised interrupted)
      else read_string svc.objects addr count h.world

  unfoldable pub ruby_module_read_wide_string : ℕ → ℕ → Host W → Option (Outcome Text)
  ruby_module_read_wide_string addr count h =
      let o : Services W = svc.objects in
      if util_check_abort o.control h.world
      then some (raised interrupted)
      else elim (read_wide_string svc.objects addr count h.world) [
        | some r ↦ some (utf8 svc.objects r)
        | none ↦ none
      ]
