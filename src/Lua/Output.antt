-- ===== src/Lua/Output.antt =====
-- The output of Lua scripts: luaOutputCb of src/luaprov/luascriptprovider.cpp, dbgscript_startBuffering
-- and dbgscript_stopBuffering of src/luaprov/dbgscript.cpp.
use dbgscript.Base.{Bool, if◌then◌else◌}
use dbgscript.Console.{Text, printed, printed_as_error}
use dbgscript.Script.{Script, on_console, buffer_or_output, increment_buffering, stopping}

module _ {W : Type 0} where
  -- `is_normal` is `out_type == lua_outputNormal`; the length is that of the C string.
  unfoldable pub lua_output_cb : Bool → Text → Script W (Unit {0})
  lua_output_cb is_normal buf =
      on_console (buffer_or_output (λ t. if is_normal then printed t else printed_as_error t) buf)

  unfoldable pub lua_start_buffering : Script W (Unit {0})
  lua_start_buffering = on_console increment_buffering

  unfoldable pub lua_stop_buffering : Script W (Unit {0})
  lua_stop_buffering = stopping
