-- ===== src/AutoSwitch.antt =====
-- The scope guards of src/support/util.cpp, CAutoSwitchThread and CAutoSwitchStackFrame. A guard is
-- built, switched, and destroyed when its block is left, by its end or by `goto exit`.
pub mod Thread
pub mod Frame
use dbgscript.Base.{ℕ, ◌-◌, ◌^◌, Bool, false, true, not, ◌==◌, if◌then◌else◌}
use dbgscript.Console.{Diagnostic}
use dbgscript.Exec.{HResult, failed, Result, err, Exec}
use dbgscript.Engine.{SystemObjects, Symbols}
use dbgscript.Host.{Host, report}

-- `(ULONG)-1`
abbrev pub no_index : ℕ
no_index = 2 ^ 32 - 1

pub record AutoSwitchThread : Type 0 where
  pub target_thread_id : ℕ
  pub prev_thread_id : ℕ
  pub did_switch : Bool

-- The constructor.
abbrev pub auto_switch_thread : ℕ → AutoSwitchThread
auto_switch_thread engine_id = record {
  target_thread_id = engine_id;
  prev_thread_id = no_index;
  did_switch = false;
}

module _ {W : Type 0} (sys : SystemObjects W) where
  -- `CAutoSwitchThread::Switch`
  unfoldable pub switch_thread : AutoSwitchThread → Host W → HResult × AutoSwitchThread × Host W
  switch_thread a h =
      let (hr, current) = sys.current_thread_id h.world in
      let a' : AutoSwitchThread = record a { prev_thread_id = current } in
      if failed hr
      then (hr, a', h)
      else if current == a.target_thread_id
      then (hr, a', h)
      else (let (hr', w) = sys.set_current_thread_id a.target_thread_id h.world in
          if failed hr'
          then (hr', a', record h { world = w })
          else (hr', record a' { did_switch = true }, record h { world = w }))

  -- The destructor.
  unfoldable pub revert_thread : AutoSwitchThread → Host W → Host W
  revert_thread a h =
      if a.did_switch
      then record h { world = (sys.set_current_thread_id a.prev_thread_id h.world).1 }
      else h

  -- A block under the guard: `goto exit` if the switch fails, else the rest of the block.
  unfoldable pub with_thread : {A : Type 0} → ℕ → Exec (Host W) A → Exec (Host W) A
  unfolding switch_thread revert_thread
  with_thread engine_id body h =
      let (hr, a, h') = switch_thread (auto_switch_thread engine_id) h in
      let (r, h'') = if failed hr then (err hr, h') else body h' in (r, revert_thread a h'')

pub record AutoSwitchStackFrame : Type 0 where
  pub target_idx : ℕ
  pub prev_idx : ℕ
  pub did_switch : Bool

abbrev pub auto_switch_stack_frame : ℕ → AutoSwitchStackFrame
auto_switch_stack_frame new_idx = record {
  target_idx = new_idx;
  prev_idx = no_index;
  did_switch = false;
}

module _ {W : Type 0} (syms : Symbols W) where
  -- `CAutoSwitchStackFrame::Switch`
  unfoldable pub switch_frame :
      AutoSwitchStackFrame → Host W → HResult × AutoSwitchStackFrame × Host W
  switch_frame a h =
      let (hr, current) = syms.current_scope_frame_index h.world in
      let a' : AutoSwitchStackFrame = record a { prev_idx = current } in
      if failed hr
      then (hr, a', report (Diagnostic.failed_get_sym_scope hr) h)
      else if current == a.target_idx
      then (hr, a', h)
      else (let (hr', w) = syms.set_scope_frame_by_index a.target_idx h.world in
          if failed hr'
          then (hr', a', report (Diagnostic.failed_set_sym_scope hr') (record h { world = w }))
          else (hr', record a' { did_switch = true }, record h { world = w }))

  -- The destructor.
  unfoldable pub revert_frame : AutoSwitchStackFrame → Host W → Host W
  revert_frame a h =
      if a.did_switch
      then (if a.prev_idx == no_index
          then h
          else (let (hr, w) = syms.set_scope_frame_by_index a.prev_idx h.world in
              let h' : Host W = record h { world = w } in
              if failed hr then report (Diagnostic.failed_set_sym_scope hr) h' else h'))
      else h

  unfoldable pub with_frame : {A : Type 0} → ℕ → Exec (Host W) A → Exec (Host W) A
  unfolding switch_frame revert_frame
  with_frame frame_number body h =
      let (hr, a, h') = switch_frame (auto_switch_stack_frame frame_number) h in
      let (r, h'') = if failed hr then (err hr, h') else body h' in (r, revert_frame a h'')
