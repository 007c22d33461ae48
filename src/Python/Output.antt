-- ===== src/Python/Output.antt =====
-- The output of Python scripts: DbgScriptIO_write of src/pythonprov/dbgscriptio.cpp,
-- dbgscript_start_buffering and dbgscript_stop_buffering of src/pythonprov/dbgscript.cpp.
use dbgscript.Base.{ℕ, length}
use dbgscript.Console.{Text, printed}
use dbgscript.Engine.{Control}
use dbgscript.Script.{
  Script, returned, unless_aborted, on_console, buffer_or_output, increment_buffering, stopping,
}

module _ {W : Type 0} where
  -- The argument has been parsed as a string. The number of characters is returned.
  unfoldable pub dbg_script_io_write : Control W → Text → Script W ℕ
  dbg_script_io_write control data_ = unless_aborted control λ h. (
    returned (length data_),
    record h { console = buffer_or_output (λ t. printed t) data_ h.console },
  )

  unfoldable pub python_start_buffering : Script W (Unit {0})
  python_start_buffering = on_console increment_buffering

  unfoldable pub python_stop_buffering : Script W (Unit {0})
  python_stop_buffering = stopping
