-- ===== src/Ruby/Output.antt =====
-- The output of Ruby scripts: DbgScriptStdIO_write of src/rubyprov/rubyscriptprovider.cpp,
-- DbgScript_start_buffering and DbgScript_stop_buffering of src/rubyprov/dbgscript.cpp.
use dbgscript.Console.{Text, printed}
use dbgscript.Engine.{Control}
use dbgscript.Script.{
  Script, unless_aborted, on_console, buffer_or_output, increment_buffering, stopping,
}

module _ {W : Type 0} where
  unfoldable pub dbg_script_std_io_write : Control W → Text → Script W (Unit {0})
  dbg_script_std_io_write control input =
      unless_aborted control (on_console (buffer_or_output (λ t. printed t) input))

  unfoldable pub ruby_start_buffering : Script W (Unit {0})
  ruby_start_buffering = on_console increment_buffering

  -- Only here the user's abort comes first.
  unfoldable pub ruby_stop_buffering : Control W → Script W (Unit {0})
  ruby_stop_buffering control = unless_aborted control stopping
