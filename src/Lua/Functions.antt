-- ===== src/Lua/Functions.antt =====
-- The module `dbgscript` of Lua scripts: src/luaprov/dbgscript.cpp.
use dbgscript.Base.{ℕ, ◌%◌, Bool, true, false, Option, some, none, List, if◌then◌else◌}
use dbgscript.Console.{Text, long_mod}
use dbgscript.Frames.{DbgScriptThread}
use dbgscript.Host.{Host}
use dbgscript.ReadString.{util_check_abort}
use dbgscript.Script.{Outcome, raised, interrupted, Script}
use dbgscript.TypedObject.{TypedObject}
use dbgscript.Objects.{Services, read_string, read_wide_string, utf8}
use dbgscript.Functions.{
  ModuleServices, create_typed, exec_command, current_thread, get_threads, get_global, resolve_enum,
  read_ptr, module_read_bytes, field_offset, get_type_size, get_nearest_sym, search_memory, get_peb,
}
use dbgscript.Values.{Value, number, to_signed}
use dbgscript.Lua.TypedObject.{lua_alloc_new_typed_object}

module _ {W : Type 0} (svc : ModuleServices W) where
  abbrev num : ℕ → Value
  num n = number (to_signed 64 n)

  abbrev alloc : ℕ → Option Text → ℕ → ℕ → ℕ → Bool → Script W TypedObject
  alloc = lua_alloc_new_typed_object svc.objects

  unfoldable pub lua_create_typed_object : Text → ℕ → Script W TypedObject
  lua_create_typed_object type_name addr = create_typed svc alloc num type_name addr false

  unfoldable pub lua_create_typed_pointer : Text → ℕ → Script W TypedObject
  lua_create_typed_pointer type_name addr = create_typed svc alloc num type_name addr true

  unfoldable pub lua_execute_command : Text → Script W (Unit {0})
  lua_execute_command command = exec_command svc alloc num command

  unfoldable pub lua_current_thread : Script W DbgScriptThread
  lua_current_thread = current_thread svc alloc num

  unfoldable pub lua_get_threads : Script W (List DbgScriptThread)
  lua_get_threads = get_threads svc alloc num

  unfoldable pub lua_get_global : Text → Script W TypedObject
  lua_get_global symbol = get_global svc alloc num symbol

  unfoldable pub lua_resolve_enum : Text → ℕ → Script W Value
  lua_resolve_enum enum_type value = resolve_enum svc alloc num enum_type value

  unfoldable pub lua_read_ptr : ℕ → Script W Value
  lua_read_ptr addr = read_ptr svc alloc num addr

  -- The counts of the reads are cut to a ULONG or an `int`.
  unfoldable pub lua_module_read_bytes : ℕ → ℕ → Script W Text
  lua_module_read_bytes addr count = module_read_bytes svc alloc num addr (count % long_mod)

  unfoldable pub lua_field_offset : Text → Text → Script W Value
  lua_field_offset type field = field_offset svc alloc num type field

  unfoldable pub lua_get_type_size : Text → Script W Value
  lua_get_type_size type = get_type_size svc alloc num type

  unfoldable pub lua_get_nearest_sym : ℕ → Script W Value
  lua_get_nearest_sym addr = get_nearest_sym svc alloc num addr

  -- The granularity is cut to a ULONG.
  unfoldable pub lua_search_memory : ℕ → ℕ → Text → ℕ → Script W Value
  lua_search_memory start size pattern granularity =
      search_memory svc alloc num start size pattern (granularity % long_mod)

  unfoldable pub lua_get_peb : Script W Value
  lua_get_peb = get_peb svc alloc num

  unfoldable pub lua_module_read_string : ℕ → ℕ → Host W → Option (Outcome Text)
  lua_module_read_string addr count h =
      let o : Services W = svc.objects in
      if util_check_abort o.control h.world
      then some (raised interrupted)
      else read_string svc.objects addr (count % long_mod) h.world

  unfoldable pub lua_module_read_wide_string : ℕ → ℕ → Host W → Option (Outcome Text)
  lua_module_read_wide_string addr count h =
      let o : Services W = svc.objects in
      if util_check_abort o.control h.world
      then some (raised interrupted)
      else elim (read_wide_string svc.objects addr (count % long_mod) h.world) [
        | some r ↦ some (utf8 svc.objects r)
        | none ↦ none
      ]
