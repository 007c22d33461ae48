-- ===== src/Extension/Commands/Unbuffered.antt =====
-- The output that runscript of src/dllmain.cpp leaves.
use dbgscript.Base.{
  ℕ, ◌≡◌, sym, ◌∙◌, true, false, List, [], ◌∷◌, ◌++◌, append-nil, arith, Bool, if◌then◌else◌,
}
use dbgscript.Console.{Text, Message, Diagnostic, diagnosed, Console, util_flush_message_buffer}
use dbgscript.Console.Stream.{
  emitted, emitted-append, stream, IsConsole, stream-flush, buf_position-flush,
}
use dbgscript.Exec.{HResult, failed}
use dbgscript.Platform.{CopyText}
use dbgscript.Extension.{Extension, Com, Loader, ProviderCode, Runtime}
use dbgscript.Extension.Commands.{
  runscript_body, unload_after, runscript, stop_buffering, script_failed_line, complain,
}

is_buffering-flush : (c : Console) → (util_flush_message_buffer c).is_buffering ≡ c.is_buffering
unfolding util_flush_message_buffer
is_buffering-flush c = ground arith

-- After the flush all that was shown has been printed.
emitted-flush :
    (c : Console) → IsConsole c → emitted (util_flush_message_buffer c).outputs ≡ stream c
emitted-flush c h = rw (← stream-flush c h, buf_position-flush c) (sym (append-nil _))

module _ {W : Type 0} (ole : Com W) (copy : CopyText) (loader : Loader W) (code_of : ProviderCode W)
    (runtime : Runtime W) where
  -- The state in which the run, with the unloading of its provider, has left the extension.
  abbrev pub run_and_unloaded : ℕ → Text → Extension W → Extension W
  run_and_unloaded client args e =
      let (hr, initialized, e') = runscript_body ole copy loader code_of runtime client args e in
      unload_after ole copy loader code_of runtime e.start_vm_enabled initialized e'

  -- The end of the command, from the state before it.
  abbrev ended : HResult → Extension W → Console
  ended hr e =
      (script_failed_line ole copy loader code_of runtime hr
        (record e { host = stop_buffering ole copy loader code_of runtime e.host })).host.console

  ended-empty :
      (hr : HResult) (e : Extension W)
      → ((ended hr e).is_buffering ≡ 0) × ((ended hr e).buf_position ≡ 0)
  unfolding script_failed_line
  ended-empty hr e =
      let c : Console = record (e.host.console) { is_buffering = 0 } in
      (ground (arith, is_buffering-flush c), ground (arith, buf_position-flush c))

  ended-emitted :
      (hr : HResult) (e : Extension W)
      → IsConsole e.host.console
      → emitted (ended hr e).outputs ≡ stream e.host.console
  unfolding script_failed_line emitted
  ended-emitted hr e valid =
      let c : Console = record (e.host.console) { is_buffering = 0 } in
      let printed : emitted (util_flush_message_buffer c).outputs ≡ stream e.host.console =
        emitted-flush c (record { size = valid.size; room = valid.room; no_nul = valid.no_nul }) in
      go (failed hr) printed
    where
      go :
          (b : Bool)
          → emitted
              (util_flush_message_buffer (record (e.host.console) { is_buffering = 0 })).outputs
            ≡ stream e.host.console
          → emitted
              (if b
                then complain
                    (Diagnostic.script_failed hr)
                    (record e { host = stop_buffering ole copy loader code_of runtime e.host })
                else record e {
                  host = stop_buffering ole copy loader code_of runtime e.host;
                }).host.console.outputs
            ≡ stream e.host.console
      go true printed =
          emitted-append
            (util_flush_message_buffer (record (e.host.console) { is_buffering = 0 })).outputs
            (diagnosed (Diagnostic.script_failed hr) ∷ [])
          ∙ append-nil _
          ∙ printed
      go false printed = printed

  ended-last :
      (hr : HResult) (e : Extension W)
      → failed hr ≡ true
      → (before : List Message) × ((ended hr e).outputs
          ≡ before ++ diagnosed (Diagnostic.script_failed hr) ∷ [])
  unfolding script_failed_line
  ended-last hr e bad = (
    (util_flush_message_buffer (record (e.host.console) { is_buffering = 0 })).outputs,
    ground arith,
  )

  -- However `!runscript` ends, buffering is off and nothing waits in the buffer; if the buffer was
  -- valid when the script and its provider stopped, all that had been shown or was waiting then has
  -- been printed, in order; and the line that tells of a failure comes last.
  pub runscript_ends_unbuffered :
      (client : ℕ) (args : Text) (e : Extension W)
      → let (hr, e') = runscript ole copy loader code_of runtime client args e in
        (e'.host.console.is_buffering ≡ 0)
        × (e'.host.console.buf_position ≡ 0)
        × (IsConsole (run_and_unloaded client args e).host.console
            → emitted e'.host.console.outputs
              ≡ stream (run_and_unloaded client args e).host.console)
        × (failed hr ≡ true
            → (before : List Message) × (e'.host.console.outputs
                ≡ before ++ diagnosed (Diagnostic.script_failed hr) ∷ []))
  unfolding runscript
  runscript_ends_unbuffered client args e =
      let hr : HResult = (runscript_body ole copy loader code_of runtime client args e).0 in
      let stopped : Extension W = run_and_unloaded client args e in
      (
        (ended-empty hr stopped).0,
        (ended-empty hr stopped).1,
        ended-emitted hr stopped,
        ended-last hr stopped,
      )
