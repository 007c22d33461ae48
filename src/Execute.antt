-- ===== src/Execute.antt =====
-- Debugger commands: the callback object of src/support/outputcallback.cpp, its guard
-- CAutoSetOutputCallback, and UtilExecuteCommand of src/support/util.cpp.
pub mod Captured
pub mod Callbacks
use dbgscript.Base.{ℕ, List, [], ◌∷◌, not, ◌==◌, if◌then◌else◌, length}
use dbgscript.Console.{Text, Console, Diagnostic, buffering_on, util_buffer_output}
use dbgscript.Exec.{HResult, failed, Result, ok, err, Exec}
use dbgscript.Engine.{Control, Client}
use dbgscript.Host.{Host, report}
use dbgscript.Platform.{CopyText}

-- `DEBUG_OUTPUT_NORMAL`
abbrev pub output_normal : ℕ
output_normal = 1

-- `_countof(Buf)`
abbrev pub callback_cch : ℕ
callback_cch = 4096

module _ (copy : CopyText) where
  -- `DbgScriptOutputCallbacks::Output`
  unfoldable pub callback_output : ℕ → Text → Console → Console
  callback_output mask text c =
      if not (mask == output_normal)
      then c
      else record c { callback_buf = (copy callback_cch text).1 }

  -- The calls that a command makes, in order.
  unfoldable pub deliver : List (ℕ × Text) → Console → Console
  deliver [] c = c
  deliver ((mask, text) ∷ calls) c = deliver calls (callback_output mask text c)

pub record AutoSetOutputCallback : Type 0 where
  pub target : ℕ
  pub prev : ℕ

-- The constructor; the null pointer is 0.
abbrev pub auto_set_output_callback : ℕ → AutoSetOutputCallback
auto_set_output_callback cb = record { target = cb; prev = 0 }

module _ {W : Type 0} (client : Client W) where
  -- `CAutoSetOutputCallback::Install`
  unfoldable pub install : AutoSetOutputCallback → Host W → HResult × AutoSetOutputCallback × Host W
  install a h =
      let (hr, before) = client.output_callbacks h.world in
      let a' : AutoSetOutputCallback = record a { prev = before } in
      if failed hr
      then (hr, a', h)
      else (let (hr', w) = client.set_output_callbacks a.target h.world in
          (hr', a', record h { world = w }))

  -- The destructor.
  unfoldable pub uninstall : AutoSetOutputCallback → Host W → Host W
  uninstall a h = record h { world = (client.set_output_callbacks a.prev h.world).1 }

module _ {W : Type 0} (copy : CopyText) (client : Client W) (control : Control W) where
  -- The block that captures the output of a command.
  unfoldable pub captured : Text → Exec (Host W) (Unit {0})
  unfolding install uninstall
  captured command h =
      let (hr, a, h') = install client (auto_set_output_callback h.buffered_output_callbacks) h in
      if failed hr
      then (err hr, uninstall client a (report (Diagnostic.failed_install_output_cb hr) h'))
      else (let (hr', calls, w) = control.execute command h'.world in
          let h'' : Host W = record h' { world = w; console = deliver copy calls h'.console } in
          if failed hr'
          then (err hr', uninstall client a (report (Diagnostic.exec_cmd_failed command hr') h''))
          else (ok tt, uninstall client a h''))

  unfoldable pub util_execute_command : Text → Exec (Host W) (Unit {0})
  util_execute_command command h =
      if buffering_on h.console
      then (let (r, h') = captured command h in
          elim r [
            | ok _ ↦
                let buf = h'.console.callback_buf in
                (ok tt, record h' { console = util_buffer_output buf (length buf) h'.console })
            | err hr ↦ (err hr, h')
          ])
      else (let (hr, calls, w) = control.execute command h.world in
          let h' : Host W = record h { world = w } in
          if failed hr
          then (err hr, report (Diagnostic.exec_cmd_failed command hr) h')
          else (ok tt, h'))
