-- ===== src/Transcript.antt =====
-- What scripts of the three languages print, over a whole run: the events of src/luaprov,
-- src/pythonprov and src/rubyprov that touch the message buffer, in any order.
pub mod Ordered
use dbgscript.Base.{true, if◌then◌else◌, List, [], ◌∷◌, ◌++◌}
use dbgscript.Console.{Text, Console, buffering_on}
use dbgscript.Console.Buffering.{kept}
use dbgscript.Engine.{Control}
use dbgscript.Host.{Host}
use dbgscript.Script.{Outcome, returned, raised}
use dbgscript.Lua.Output.{lua_output_cb, lua_start_buffering, lua_stop_buffering}
use dbgscript.Python.Output.{dbg_script_io_write, python_start_buffering, python_stop_buffering}
use dbgscript.Ruby.Output.{dbg_script_std_io_write, ruby_start_buffering, ruby_stop_buffering}

pub data Language : Type 0 where
  lua python ruby : Language

-- A script prints a text, starts or stops buffering, or the world behind the engine moves on.
pub data Event (W : Type 0) : Type 0 where
  writes : Language → Text → Event W
  starts stops : Language → Event W
  moves : W → Event W

-- A text counts when the call returned: whole, or as far as the buffer takes it.
abbrev pub accepted : {A : Type 0} → Console → Text → Outcome A → Text
accepted c text (returned a) = if buffering_on c then kept text else text
accepted c text (raised e) = []

module _ {W : Type 0} (control : Control W) where
  -- The text that an event adds, and the host after it.
  unfoldable pub run_event : Event W → Host W → Text × Host W
  run_event (writes lua text) h =
      let (r, h') = lua_output_cb true text h in (accepted h.console text r, h')
  run_event (writes python text) h =
      let (r, h') = dbg_script_io_write control text h in (accepted h.console text r, h')
  run_event (writes ruby text) h =
      let (r, h') = dbg_script_std_io_write control text h in (accepted h.console text r, h')
  run_event (starts lua) h = ([], (lua_start_buffering h).1)
  run_event (starts python) h = ([], (python_start_buffering h).1)
  run_event (starts ruby) h = ([], (ruby_start_buffering h).1)
  run_event (stops lua) h = ([], (lua_stop_buffering h).1)
  run_event (stops python) h = ([], (python_stop_buffering h).1)
  run_event (stops ruby) h = ([], (ruby_stop_buffering control h).1)
  run_event (moves w) h = ([], record h { world = w })

  unfoldable pub run_events : List (Event W) → Host W → Text × Host W
  run_events [] h = ([], h)
  run_events (e ∷ es) h =
      let (t, h') = run_event e h in let (t', h'') = run_events es h' in (t ++ t', h'')
