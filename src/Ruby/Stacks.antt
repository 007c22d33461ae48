-- ===== src/Ruby/Stacks.antt =====
-- Threads and stack frames of Ruby scripts: src/rubyprov/thread.cpp and
-- src/rubyprov/stackframe.cpp.
use dbgscript.Base.{ℕ, List}
use dbgscript.Engine.{SystemObjects, SymbolGroups}
use dbgscript.Frames.{DbgScriptThread, DbgScriptStackFrame}
use dbgscript.Script.{Script, give, unless_aborted}
use dbgscript.TypedObject.{TypedObject}
use dbgscript.Objects.{Services}
use dbgscript.Stacks.{
  FrameObject, scope_group_arguments, scope_group_locals, thread_get_teb, thread_get_stack,
  thread_current_frame, OnError, jumped, get_variables,
}
use dbgscript.Values.{Value, number, pos}
use dbgscript.Ruby.TypedObject.{ruby_alloc_typed_object}

module _ {W : Type 0} (svc : Services W) where
  unfoldable pub ruby_thread_engine_id : DbgScriptThread → Script W Value
  ruby_thread_engine_id thd = unless_aborted svc.control (give (number (pos thd.engine_id)))

  unfoldable pub ruby_thread_thread_id : DbgScriptThread → Script W Value
  ruby_thread_thread_id thd = unless_aborted svc.control (give (number (pos thd.thread_id)))

  unfoldable pub ruby_stack_frame_frame_number : FrameObject → Script W Value
  ruby_stack_frame_frame_number o =
      let f : DbgScriptStackFrame = o.frame in give (number (pos f.frame_number))

  unfoldable pub ruby_stack_frame_instruction_offset : FrameObject → Script W Value
  ruby_stack_frame_instruction_offset o =
      let f : DbgScriptStackFrame = o.frame in give (number (pos f.instruction_offset))

module _ {W : Type 0} (svc : Services W) (sys : SystemObjects W) where
  unfoldable pub ruby_thread_get_teb : DbgScriptThread → Script W Value
  ruby_thread_get_teb thd = thread_get_teb svc sys (λ n. number (pos n)) thd

  unfoldable pub ruby_thread_get_stack : DbgScriptThread → Script W (List FrameObject)
  ruby_thread_get_stack thd = thread_get_stack svc sys thd

  unfoldable pub ruby_thread_current_frame : DbgScriptThread → Script W FrameObject
  ruby_thread_current_frame thd = thread_current_frame svc sys thd

-- An exception in Ruby leaves the callback, and the enumeration, by a jump.
abbrev pub ruby_on_error : OnError
ruby_on_error e = jumped e

module _ {W : Type 0} (svc : Services W) (sys : SystemObjects W) (groups : SymbolGroups W) where
  unfoldable pub ruby_get_variables : FrameObject → ℕ → Script W (List TypedObject)
  ruby_get_variables f flags =
      get_variables groups (ruby_alloc_typed_object svc) ruby_on_error svc sys f flags

  unfoldable pub ruby_stack_frame_get_locals : FrameObject → Script W (List TypedObject)
  ruby_stack_frame_get_locals f = ruby_get_variables f scope_group_locals

  unfoldable pub ruby_stack_frame_get_args : FrameObject → Script W (List TypedObject)
  ruby_stack_frame_get_args f = ruby_get_variables f scope_group_arguments
