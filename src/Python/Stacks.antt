-- ===== src/Python/Stacks.antt =====
-- Threads and stack frames of Python scripts: src/pythonprov/thread.cpp and
-- src/pythonprov/stackframe.cpp.
use dbgscript.Base.{ℕ, List}
use dbgscript.Exec.{e_outofmemory}
use dbgscript.Engine.{SystemObjects, SymbolGroups}
use dbgscript.Frames.{DbgScriptThread}
use dbgscript.Script.{Script}
use dbgscript.TypedObject.{TypedObject}
use dbgscript.Objects.{Services}
use dbgscript.Stacks.{
  FrameObject, scope_group_arguments, scope_group_locals, thread_get_teb, thread_get_stack,
  thread_current_frame, OnError, failed_with, get_variables,
}
use dbgscript.Values.{Value, number, pos}
use dbgscript.Python.TypedObject.{python_alloc_typed_object}

module _ {W : Type 0} (svc : Services W) (sys : SystemObjects W) where
  unfoldable pub python_thread_get_teb : DbgScriptThread → Script W Value
  python_thread_get_teb thd = thread_get_teb svc sys (λ n. number (pos n)) thd

  unfoldable pub python_thread_get_stack : DbgScriptThread → Script W (List FrameObject)
  python_thread_get_stack thd = thread_get_stack svc sys thd

  unfoldable pub python_thread_current_frame : DbgScriptThread → Script W FrameObject
  python_thread_current_frame thd = thread_current_frame svc sys thd

-- The callback returns E_OUTOFMEMORY, whatever the exception was.
abbrev pub python_on_error : OnError
python_on_error e = failed_with e_outofmemory

module _ {W : Type 0} (svc : Services W) (sys : SystemObjects W) (groups : SymbolGroups W) where
  unfoldable pub python_get_variables : FrameObject → ℕ → Script W (List TypedObject)
  python_get_variables f flags =
      get_variables groups (python_alloc_typed_object svc) python_on_error svc sys f flags

  unfoldable pub python_stack_frame_get_locals : FrameObject → Script W (List TypedObject)
  python_stack_frame_get_locals f = python_get_variables f scope_group_locals

  unfoldable pub python_stack_frame_get_args : FrameObject → Script W (List TypedObject)
  python_stack_frame_get_args f = python_get_variables f scope_group_arguments
