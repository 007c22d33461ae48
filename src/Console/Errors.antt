-- ===== src/Console/Errors.antt =====
-- The error lines that the host and the support library print, with the arguments they show.
use dbgscript.Base.{ℕ, List}

-- include/dserrors.h, and the lines that src/ writes out in place.
pub data Diagnostic : Type 0 where
  -- ERR_EXEC_CMD_FAILED_FMT
  exec_cmd_failed : List ℕ → ℕ → Diagnostic
  failed_get_sym_scope failed_set_sym_scope : ℕ → Diagnostic
  script_not_found : Diagnostic
  failed_create_sym_grp failed_get_num_sym failed_get_teb : ℕ → Diagnostic
  failed_get_sym_entry_info failed_get_sym_name : ℕ → Diagnostic
  failed_get_type_name failed_get_module_name : Diagnostic
  failed_get_type_id : List ℕ → ℕ → Diagnostic
  failed_install_output_cb failed_get_num_threads failed_get_thread_ids : ℕ → Diagnostic
  failed_get_name_by_offset failed_read_ptr : ℕ → ℕ → Diagnostic
  no_vtable : ℕ → Diagnostic
  -- src/support/dstypedobject.cpp
  set_from_type_id_failed : ℕ → Diagnostic
  set_ptr_from_type_id_failed : ℕ → Diagnostic
  no_such_field : List ℕ → Diagnostic
  get_field_failed get_array_element_failed init_typed_object_failed : ℕ → Diagnostic
  not_pointer_or_array : Diagnostic
  -- src/support/dsstackframe.cpp
  failed_get_frame_index failed_get_scope failed_get_stack_trace : ℕ → Diagnostic
  -- src/cmdline.cpp
  switch_needs_language : Diagnostic
  unknown_switch : List ℕ → Diagnostic
  -- src/dllmain.cpp
  invalid_dll_path : List ℕ → List ℕ → Diagnostic
  provider_key_not_found no_providers_found : Diagnostic
  provider_value_not_string no_such_provider : List ℕ → Diagnostic
  runscript_needs_argument evalstring_needs_argument : Diagnostic
  failed_convert_args : Diagnostic
  failed_parse_args script_failed : ℕ → Diagnostic
  vm_already_started vm_not_started : Diagnostic
  -- src/luaprov/luascriptprovider.cpp
  no_arguments_given lua_newstate_failed : Diagnostic
  failed_convert_wide : ℕ → Diagnostic
  lua_compile_error lua_runtime_error : ℕ → List ℕ → Diagnostic
  -- src/pythonprov/pythonscriptprovider.cpp
  module_name_expected : Diagnostic
  failed_open_file : List ℕ → ℕ → Diagnostic
  exiting_system_exit : Diagnostic
  -- src/rubyprov/rubyscriptprovider.cpp
  exception_in_message ruby_cleanup_failed : ℕ → Diagnostic
  unhandled_exception : List ℕ → List ℕ → Diagnostic
  stack_trace_begins : Diagnostic
  stack_trace_line : List ℕ → Diagnostic
