-- ===== src/Frames.antt =====
-- Threads, stack frames and their variables: src/support/dsthread.cpp,
-- src/support/dsstackframe.cpp, and the enumerations of src/support/util.cpp.
pub mod Guarded
pub mod Enumeration
use dbgscript.Base.{ℕ, zero, suc, ◌+◌, List, not, ◌&&◌, ◌==◌, if◌then◌else◌}
use dbgscript.Console.{Text, Diagnostic}
use dbgscript.Exec.{HResult, failed, e_nointerface, Reply, Result, ok, err, Exec, pure, ◌>>=◌, ◌>>◌}
use dbgscript.Engine.{SystemObjects, Symbols, Control, SymbolEntry, SymbolGroups}
use dbgscript.Host.{Host, report, query, query_or}
use dbgscript.AutoSwitch.{with_thread, with_frame}

-- include/dsthread.h
pub record DbgScriptThread : Type 0 where
  pub engine_id : ℕ
  pub thread_id : ℕ

-- include/dsstackframe.h
pub record DbgScriptStackFrame : Type 0 where
  pub frame_number : ℕ
  pub instruction_offset : ℕ

module _ {W : Type 0} (sys : SystemObjects W) where
  unfoldable pub ds_thread_get_teb : DbgScriptThread → Exec (Host W) ℕ
  ds_thread_get_teb thread =
      with_thread sys thread.engine_id (query_or Diagnostic.failed_get_teb sys.current_thread_teb)

  unfoldable pub util_count_threads : Exec (Host W) ℕ
  util_count_threads = query_or Diagnostic.failed_get_num_threads sys.number_threads

  unfoldable pub util_enum_threads : ℕ → Exec (Host W) (List ℕ × List ℕ)
  util_enum_threads count =
      query_or Diagnostic.failed_get_thread_ids (sys.thread_ids_by_index count)

  unfoldable pub util_get_peb : Exec (Host W) ℕ
  util_get_peb = query sys.current_process_peb

  unfoldable pub ds_get_stack_trace :
      Control W → DbgScriptThread → ℕ → Exec (Host W) (List (ℕ × ℕ) × ℕ)
  ds_get_stack_trace control thread count =
      with_thread sys thread.engine_id
        (query_or Diagnostic.failed_get_stack_trace (control.stack_trace count))

  unfoldable pub ds_get_current_stack_frame :
      Symbols W → DbgScriptThread → Exec (Host W) DbgScriptStackFrame
  ds_get_current_stack_frame syms thread = with_thread sys thread.engine_id do
    cur_frame_idx ← query_or Diagnostic.failed_get_frame_index syms.current_scope_frame_index
    offset ← query_or Diagnostic.failed_get_scope syms.scope_instruction_offset
    pure (record { frame_number = cur_frame_idx; instruction_offset = offset })

  -- The snapshot of a frame's variables, taken under both guards.
  unfoldable pub snapshot : Symbols W → DbgScriptThread → DbgScriptStackFrame → ℕ → Exec (Host W) ℕ
  snapshot syms thd stack_frame flags = with_thread sys thd.engine_id (
      with_frame syms stack_frame.frame_number
        (query_or Diagnostic.failed_create_sym_grp (syms.scope_symbol_group flags)))

  -- The number of variables, and their symbol group.
  unfoldable pub util_count_stack_frame_variables :
      Symbols W → SymbolGroups W → DbgScriptThread → DbgScriptStackFrame → ℕ → Exec (Host W) (ℕ × ℕ)
  util_count_stack_frame_variables syms groups thd stack_frame flags = do
    sym_grp ← snapshot syms thd stack_frame flags
    num_vars ← query_or Diagnostic.failed_get_num_sym (groups.number_symbols sym_grp)
    pure (num_vars, sym_grp)

module _ {W : Type 0} (groups : SymbolGroups W) where
  -- `EnumStackFrameVarsCb`, with its user context in the state.
  abbrev pub VarsCallback : Type 0
  VarsCallback = SymbolEntry → Text → ℕ → Host W → HResult × Host W

  -- The second half of a round: the name, then the callback.
  unfoldable pub name_and_call : ℕ → VarsCallback → ℕ → SymbolEntry → Exec (Host W) (Unit {0})
  name_and_call sym_grp callback i entry h =
      let (hr, sym_name) = groups.symbol_name sym_grp i h.world in
      if failed hr
      then (err hr, report (Diagnostic.failed_get_sym_name hr) h)
      else (let (hr', h') = callback entry sym_name i h in
          (if failed hr' then err hr' else ok tt, h'))

  -- One round of the loop. An entry that is optimized away comes with `E_NOINTERFACE`.
  unfoldable pub visit : ℕ → VarsCallback → ℕ → Exec (Host W) (Unit {0})
  unfolding name_and_call
  visit sym_grp callback i h =
      let (hr, entry) = groups.entry_information sym_grp i h.world in
      if failed hr && not (hr == e_nointerface)
      then (err hr, report (Diagnostic.failed_get_sym_entry_info hr) h)
      else name_and_call sym_grp callback i entry h

  -- The rounds from `i` on, so many of them.
  unfoldable pub visit_from : ℕ → VarsCallback → ℕ → ℕ → Exec (Host W) (Unit {0})
  visit_from sym_grp callback i zero h = (ok tt, h)
  visit_from sym_grp callback i (suc left) h =
      let (r, h') = visit sym_grp callback i h in
      elim r [ ok _ ↦ visit_from sym_grp callback (i + 1) left h' | err hr ↦ (err hr, h') ]

  unfoldable pub util_enum_stack_frame_variables : ℕ → ℕ → VarsCallback → Exec (Host W) (Unit {0})
  util_enum_stack_frame_variables sym_grp num_sym callback h =
      let (r, h') = visit_from sym_grp callback 0 num_sym h in
      (r, record h' { world = groups.release sym_grp h'.world })
