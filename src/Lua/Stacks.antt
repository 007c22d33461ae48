-- ===== src/Lua/Stacks.antt =====
-- Threads and stack frames of Lua scripts: src/luaprov/thread.cpp and
-- src/luaprov/stackframe.cpp.
use dbgscript.Base.{ℕ, List}
use dbgscript.Engine.{SystemObjects, SymbolGroups}
use dbgscript.Frames.{DbgScriptThread, DbgScriptStackFrame}
use dbgscript.Script.{Script, give, unless_aborted}
use dbgscript.TypedObject.{TypedObject}
use dbgscript.Objects.{Services}
use dbgscript.Stacks.{
  FrameObject, scope_group_arguments, scope_group_locals, thread_get_teb, thread_get_stack,
  thread_current_frame, OnError, jumped, get_variables,
}
use dbgscript.Values.{Value, number, to_signed}
use dbgscript.Lua.TypedObject.{lua_alloc_new_typed_object}

module _ {W : Type 0} (svc : Services W) where
  unfoldable pub lua_thread_engine_id : DbgScriptThread → Script W Value
  lua_thread_engine_id thd = unless_aborted svc.control (give (number (to_signed 64 thd.engine_id)))

  unfoldable pub lua_thread_thread_id : DbgScriptThread → Script W Value
  lua_thread_thread_id thd = unless_aborted svc.control (give (number (to_signed 64 thd.thread_id)))

  unfoldable pub lua_stack_frame_frame_number : FrameObject → Script W Value
  lua_stack_frame_frame_number o =
      let f : DbgScriptStackFrame = o.frame in
      unless_aborted svc.control (give (number (to_signed 64 f.frame_number)))

  unfoldable pub lua_stack_frame_instruction_offset : FrameObject → Script W Value
  lua_stack_frame_instruction_offset o =
      let f : DbgScriptStackFrame = o.frame in
      unless_aborted svc.control (give (number (to_signed 64 f.instruction_offset)))

module _ {W : Type 0} (svc : Services W) (sys : SystemObjects W) where
  unfoldable pub lua_thread_get_teb : DbgScriptThread → Script W Value
  lua_thread_get_teb thd = thread_get_teb svc sys (λ n. number (to_signed 64 n)) thd

  unfoldable pub lua_thread_get_stack : DbgScriptThread → Script W (List FrameObject)
  lua_thread_get_stack thd = thread_get_stack svc sys thd

  unfoldable pub lua_thread_current_frame : DbgScriptThread → Script W FrameObject
  lua_thread_current_frame thd = thread_current_frame svc sys thd

-- An error in Lua leaves the callback, and the enumeration, by a jump.
abbrev pub lua_on_error : OnError
lua_on_error e = jumped e

module _ {W : Type 0} (svc : Services W) (sys : SystemObjects W) (groups : SymbolGroups W) where
  unfoldable pub lua_get_variables : FrameObject → ℕ → Script W (List TypedObject)
  lua_get_variables f flags =
      get_variables groups (lua_alloc_new_typed_object svc) lua_on_error svc sys f flags

  unfoldable pub lua_stack_frame_get_locals : FrameObject → Script W (List TypedObject)
  lua_stack_frame_get_locals f = lua_get_variables f scope_group_locals

  unfoldable pub lua_stack_frame_get_args : FrameObject → Script W (List TypedObject)
  lua_stack_frame_get_args f = lua_get_variables f scope_group_arguments
