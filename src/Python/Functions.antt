-- ===== src/Python/Functions.antt =====
-- The module `dbgscript` of Python scripts: src/pythonprov/dbgscript.cpp.
use dbgscript.Base.{ℕ, Bool, true, false, Option, some, List, if◌then◌else◌}
use dbgscript.Console.{Text}
use dbgscript.Frames.{DbgScriptThread}
use dbgscript.Host.{Host}
use dbgscript.ReadString.{util_check_abort}
use dbgscript.Script.{
  Outcome, returned, raised, interrupted, call_failed, result_beside_exception, Script,
}
use dbgscript.TypedObject.{TypedObject}
use dbgscript.Objects.{Services, read_string, read_wide_string}
use dbgscript.Functions.{
  ModuleServices, create_typed, exec_command, current_thread, get_threads, get_global, resolve_enum,
  read_ptr, module_read_bytes, field_offset, get_type_size, get_nearest_sym, search_memory, get_peb,
}
use dbgscript.Values.{Value, number, pos}
use dbgscript.Python.TypedObject.{python_alloc_typed_object}

module _ {W : Type 0} (svc : ModuleServices W) where
  abbrev num : ℕ → Value
  num n = number (pos n)

  abbrev alloc : ℕ → Option Text → ℕ → ℕ → ℕ → Bool → Script W TypedObject
  alloc = python_alloc_typed_object svc.objects

  unfoldable pub python_create_typed_object : Text → ℕ → Script W TypedObject
  python_create_typed_object type_name addr = create_typed svc alloc num type_name addr false

  unfoldable pub python_create_typed_pointer : Text → ℕ → Script W TypedObject
  python_create_typed_pointer type_name addr = create_typed svc alloc num type_name addr true

  -- A failure is set as the exception, and None is returned beside it.
  unfoldable pub python_execute_command : Text → Script W (Unit {0})
  python_execute_command command h =
      let (r, h') = exec_command svc alloc num command h in
      (
        elim r [
          | raised (call_failed hr) ↦ raised (result_beside_exception hr)
          | raised e ↦ raised e
          | returned u ↦ returned u
        ],
        h',
      )

  unfoldable pub python_current_thread : Script W DbgScriptThread
  python_current_thread = current_thread svc alloc num

  unfoldable pub python_get_threads : Script W (List DbgScriptThread)
  python_get_threads = get_threads svc alloc num

  unfoldable pub python_get_global : Text → Script W TypedObject
  python_get_global symbol = get_global svc alloc num symbol

  unfoldable pub python_resolve_enum : Text → ℕ → Script W Value
  python_resolve_enum enum_type value = resolve_enum svc alloc num enum_type value

  unfoldable pub python_read_ptr : ℕ → Script W Value
  python_read_ptr addr = read_ptr svc alloc num addr

  unfoldable pub python_module_read_bytes : ℕ → ℕ → Script W Text
  python_module_read_bytes addr count = module_read_bytes svc alloc num addr count

  unfoldable pub python_field_offset : Text → Text → Script W Value
  python_field_offset type field = field_offset svc alloc num type field

  unfoldable pub python_get_type_size : Text → Script W Value
  python_get_type_size type = get_type_size svc alloc num type

  unfoldable pub python_get_nearest_sym : ℕ → Script W Value
  python_get_nearest_sym addr = get_nearest_sym svc alloc num addr

  unfoldable pub python_search_memory : ℕ → ℕ → Text → ℕ → Script W Value
  python_search_memory start size pattern granularity =
      search_memory svc alloc num start size pattern granularity

  unfoldable pub python_get_peb : Script W Value
  python_get_peb = get_peb svc alloc num

  unfoldable pub python_module_read_string : ℕ → ℕ → Host W → Option (Outcome Text)
  python_module_read_string addr count h =
      let o : Services W = svc.objects in
      if util_check_abort o.control h.world
      then some (raised interrupted)
      else read_string svc.objects addr count h.world

  unfoldable pub python_module_read_wide_string : ℕ → ℕ → Host W → Option (Outcome Text)
  python_module_read_wide_string addr count h =
      let o : Services W = svc.objects in
      if util_check_abort o.control h.world
      then some (raised interrupted)
      else read_wide_string svc.objects addr count h.world
