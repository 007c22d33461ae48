-- ===== src/Frames/Guarded.antt =====
-- The questions of src/support/dsthread.cpp and src/support/dsstackframe.cpp under the guards of
-- src/support/util.cpp.
use dbgscript.Base.{ℕ, List, ◌≡◌, arith}
use dbgscript.Exec.{ok, of_reply, Exec}
use dbgscript.Engine.{SystemObjects, Symbols, Control, SymbolGroups}
use dbgscript.Host.{Host}
use dbgscript.AutoSwitch.{with_frame}
use dbgscript.AutoSwitch.Thread.{
  ThreadLaws, current, CanReturn, KeepsThread, with_thread_restores, with_thread_on_target,
}
use dbgscript.AutoSwitch.Frame.{FrameLaws, FrameKeepsThread, current_frame, with_frame_on_target}
use dbgscript.Frames.{
  DbgScriptThread, DbgScriptStackFrame, ds_thread_get_teb, ds_get_stack_trace,
  ds_get_current_stack_frame, snapshot, util_count_stack_frame_variables,
}

module _ {W : Type 0} (sys : SystemObjects W) (laws : ThreadLaws sys) where
  -- An action that leaves the current thread as it was, if the engine can go back to it.
  abbrev pub RestoresThread : {A : Type 0} → Exec (Host W) A → Type 0
  RestoresThread m =
      (h : Host W) → CanReturn sys laws h → current sys laws (m h).1 ≡ current sys laws h

  with_frame_keeps :
      {A : Type 0} (syms : Symbols W) (frame : ℕ) (body : Exec (Host W) A)
      → FrameKeepsThread sys syms
      → KeepsThread sys laws body
      → KeepsThread sys laws (with_frame syms frame body)
  unfolding with_frame
  with_frame_keeps syms frame body keeps kept h =
      let h' : Host W = record h { world = (syms.set_scope_frame_by_index frame h.world).1 } in
      ground (
        arith,
        kept h,
        kept h',
        keeps frame h.world,
        keeps (syms.current_scope_frame_index h.world).1 (body h').1.world,
      )

  snapshot-restores :
      (syms : Symbols W) (thread : DbgScriptThread) (frame : DbgScriptStackFrame) (flags : ℕ)
      → FrameKeepsThread sys syms
      → RestoresThread (snapshot sys syms thread frame flags)
  unfolding snapshot
  snapshot-restores syms thread frame flags keeps h back =
      with_thread_restores sys laws thread.engine_id _ h
        (with_frame_keeps syms frame.frame_number _ keeps (λ h'. ground arith)) back

  count-restores :
      (syms : Symbols W) (groups : SymbolGroups W) (thread : DbgScriptThread)
      (frame : DbgScriptStackFrame) (flags : ℕ)
      → FrameKeepsThread sys syms
      → RestoresThread (util_count_stack_frame_variables sys syms groups thread frame flags)
  unfolding util_count_stack_frame_variables
  count-restores syms groups thread frame flags keeps h back =
      ground (arith, snapshot-restores syms thread frame flags keeps h back)

  -- Let the engine be able to go back to the current thread, and let switching frames not switch
  -- threads. Then asking for the TEB, for the stack trace, for the current frame and for the
  -- variables of a frame all leave the current thread as it was, whether they answer or fail.
  pub questions_restore_thread :
      (syms : Symbols W) (control : Control W) (groups : SymbolGroups W) (thread : DbgScriptThread)
      (frame : DbgScriptStackFrame) (count flags : ℕ) (h : Host W)
      → FrameKeepsThread sys syms
      → CanReturn sys laws h
      → (current sys laws (ds_thread_get_teb sys thread h).1 ≡ current sys laws h)
        × (current sys laws (ds_get_stack_trace sys control thread count h).1 ≡ current sys laws h)
        × (current sys laws (ds_get_current_stack_frame sys syms thread h).1 ≡ current sys laws h)
        × (current sys laws
              (util_count_stack_frame_variables sys syms groups thread frame flags h).1
            ≡ current sys laws h)
  unfolding ds_thread_get_teb ds_get_stack_trace ds_get_current_stack_frame
  questions_restore_thread syms control groups thread frame count flags h keeps back = (
    with_thread_restores sys laws thread.engine_id _ h (λ h'. ground arith) back,
    with_thread_restores sys laws thread.engine_id _ h (λ h'. ground arith) back,
    with_thread_restores sys laws thread.engine_id _ h (λ h'. ground arith) back,
    count-restores syms groups thread frame flags keeps h back,
  )

  -- Let switching frames keep the current thread. A TEB, a stack trace or a symbol group that comes
  -- back is the engine's answer in a state where the thread asked for was current, and for the symbol
  -- group the frame asked for too.
  pub answers_on_target :
      (syms : Symbols W) (frames : FrameLaws syms) (control : Control W) (thread : DbgScriptThread)
      (frame : DbgScriptStackFrame) (count flags : ℕ) (h : Host W)
      → FrameKeepsThread sys syms
      → ((teb : ℕ)
          → (ds_thread_get_teb sys thread h).0 ≡ ok teb
          → (g : Host W) × (current sys laws g ≡ thread.engine_id)
            × (of_reply (sys.current_thread_teb g.world) ≡ ok teb))
        × ((trace : List (ℕ × ℕ) × ℕ)
            → (ds_get_stack_trace sys control thread count h).0 ≡ ok trace
            → (g : Host W) × (current sys laws g ≡ thread.engine_id)
              × (of_reply (control.stack_trace count g.world) ≡ ok trace))
        × ((group : ℕ)
            → (snapshot sys syms thread frame flags h).0 ≡ ok group
            → (g : Host W) × (current sys laws g ≡ thread.engine_id)
              × (current_frame syms frames g ≡ frame.frame_number)
              × (of_reply (syms.scope_symbol_group flags g.world) ≡ ok group))
  unfolding ds_thread_get_teb ds_get_stack_trace snapshot
  answers_on_target syms frames control thread frame count flags h keeps = (
    λ teb e.
        let (g, on, there) = with_thread_on_target sys laws thread.engine_id _ h teb e in
        (g, on, ground arith),
    λ trace e.
        let (g, on, there) = with_thread_on_target sys laws thread.engine_id _ h trace e in
        (g, on, ground arith),
    λ group e.
        let (g, on, there) = with_thread_on_target sys laws thread.engine_id _ h group e in
        let (f, entered, framed, here) =
          with_frame_on_target syms frames frame.frame_number _ g group there in
        (f, ground (arith, on, entered, keeps frame.frame_number g.world), framed, ground arith),
  )
