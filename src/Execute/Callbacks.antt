-- ===== src/Execute/Callbacks.antt =====
-- The guard CAutoSetOutputCallback of src/support/util.cpp: whose callbacks are installed after a
-- command.
use dbgscript.Base.{ℕ, ◌≡◌, true, false, arith}
use dbgscript.Console.{Text, buffering_on}
use dbgscript.Exec.{failed}
use dbgscript.Engine.{Control, Client}
use dbgscript.Host.{Host}
use dbgscript.Platform.{CopyText}
use dbgscript.Execute.{captured, util_execute_command}

-- What the guard relies on in DbgEng.
pub record ClientLaws {W : Type 0} (client : Client W) : Type 0 where
  -- Callbacks that are accepted are installed.
  pub accepted :
      (cb : ℕ) (w : W)
      → failed (client.set_output_callbacks cb w).0 ≡ false
      → (client.output_callbacks (client.set_output_callbacks cb w).1).1 ≡ cb

module _ {W : Type 0} (copy : CopyText) (client : Client W) (control : Control W)
    (laws : ClientLaws client) where
  abbrev pub installed : Host W → ℕ
  installed h = (client.output_callbacks h.world).1

  -- A command that is run while output is buffered leaves the callbacks that were installed before,
  -- whether it succeeds, fails, or its output cannot be captured, if the engine tells which callbacks
  -- those are and takes them back.
  pub execute_restores_callbacks :
      (command : Text) (h : Host W)
      → buffering_on h.console ≡ true
      → failed (client.output_callbacks h.world).0 ≡ false
      → ((w : W) → failed (client.set_output_callbacks (installed h) w).0 ≡ false)
      → installed (util_execute_command copy client control command h).1 ≡ installed h
  unfolding util_execute_command captured
  execute_restores_callbacks command h on known back =
      let w : W = (client.set_output_callbacks h.buffered_output_callbacks h.world).1 in
      let w' : W = (control.execute command w).2 in
      ground
        (arith, laws.accepted (installed h) w (back w), laws.accepted (installed h) w' (back w'))
