-- ===== src/Stacks.antt =====
-- Threads and stack frames in scripts, in the words that the thread.cpp and the stackframe.cpp of
-- src/luaprov, src/pythonprov and src/rubyprov share.
pub mod Places
pub mod Variables
use dbgscript.Base.{
  ℕ, zero, suc, ◌+◌, Bool, false, some, List, [], ◌∷◌, not, ◌&&◌, ◌==◌, if◌then◌else◌, take,
}
use dbgscript.Console.{Text, Diagnostic}
use dbgscript.Exec.{HResult, failed, e_nointerface, Exec}
use dbgscript.Engine.{SystemObjects, Symbols, SymbolEntry, SymbolGroups}
use dbgscript.Host.{Host, report}
use dbgscript.Frames.{
  DbgScriptThread, DbgScriptStackFrame, ds_thread_get_teb, ds_get_stack_trace,
  ds_get_current_stack_frame, util_count_stack_frame_variables,
}
use dbgscript.Script.{
  Outcome, returned, raised, ScriptError, call_failed, Script, give, unless_aborted, ◌>>=◌, calling,
}
use dbgscript.TypedObject.{TypedObject}
use dbgscript.Objects.{Services}
use dbgscript.Functions.{Allocate}
use dbgscript.Values.{Value}

-- A frame in a script keeps the thread that it came from.
pub record FrameObject : Type 0 where
  pub frame : DbgScriptStackFrame
  pub thread : DbgScriptThread

-- The flags DEBUG_SCOPE_GROUP_ARGUMENTS and DEBUG_SCOPE_GROUP_LOCALS.
abbrev pub scope_group_arguments : ℕ
scope_group_arguments = 1

abbrev pub scope_group_locals : ℕ
scope_group_locals = 2

-- `_countof(frames)`
abbrev pub max_frames : ℕ
max_frames = 512

abbrev pub frames_of : DbgScriptThread → List (ℕ × ℕ) → List FrameObject
frames_of thd [] = []
frames_of thd ((n, offset) ∷ fs) =
    record { frame = record { frame_number = n; instruction_offset = offset }; thread = thd }
    ∷ frames_of thd fs

module _ {W : Type 0} (svc : Services W) (sys : SystemObjects W) where
  unfoldable pub thread_get_teb : (ℕ → Value) → DbgScriptThread → Script W Value
  thread_get_teb num thd =
      unless_aborted svc.control (calling (ds_thread_get_teb sys thd) >>= λ t. give (num t))

  unfoldable pub thread_get_stack : DbgScriptThread → Script W (List FrameObject)
  thread_get_stack thd = unless_aborted svc.control (
      calling (ds_get_stack_trace sys svc.control thd max_frames) >>= λ filled.
      give (frames_of thd (take filled.1 filled.0)))

  unfoldable pub thread_current_frame : DbgScriptThread → Script W FrameObject
  thread_current_frame thd = unless_aborted svc.control (
      calling (ds_get_current_stack_frame sys svc.syms thd) >>= λ f.
      give (record { frame = f; thread = thd }))

-- How a round over the variables ends: an object, a failure that the enumeration returns, or an error
-- of the script's runtime that jumps over the enumeration.
pub data Round (A : Type 0) : Type 0 where
  made : A → Round A
  failed_with : HResult → Round A
  jumped : ScriptError → Round A

-- What a callback makes of an object that could not be made.
abbrev pub OnError : Type 0
OnError = ScriptError → Round TypedObject

-- An object in front of the others.
abbrev pub add_object : TypedObject → Round (List TypedObject) → Round (List TypedObject)
add_object o (made os) = made (o ∷ os)
add_object o (failed_with hr) = failed_with hr
add_object o (jumped error) = jumped error

-- The rounds behind a round, which only an object is followed by.
abbrev pub after_round :
    {W : Type 0}
    → Round TypedObject
    → (Host W → Round (List TypedObject) × Host W)
    → Host W
    → Round (List TypedObject) × Host W
after_round (made o) rest h = let (r, h') = rest h in (add_object o r, h')
after_round (failed_with hr) rest h = (failed_with hr, h)
after_round (jumped error) rest h = (jumped error, h)

module _ {W : Type 0} (groups : SymbolGroups W) where
  -- The release behind the loop, which a jump passes over.
  unfoldable pub released : ℕ → Round (List TypedObject) → Script W (List TypedObject)
  released sym_grp (made os) h = (returned os, record h { world = groups.release sym_grp h.world })
  released sym_grp (failed_with hr) h =
      (raised (call_failed hr), record h { world = groups.release sym_grp h.world })
  released sym_grp (jumped error) h = (raised error, h)

module _ {W : Type 0} (groups : SymbolGroups W) (alloc : Allocate W) (on_error : OnError) where
  -- One round of `UtilEnumStackFrameVariables` with the callback in it. An entry that is optimized
  -- away comes with `E_NOINTERFACE`.
  unfoldable pub variable : ℕ → ℕ → Host W → Round TypedObject × Host W
  variable sym_grp i h =
      let (hr, entry) = groups.entry_information sym_grp i h.world in
      if failed hr && not (hr == e_nointerface)
      then (failed_with hr, report (Diagnostic.failed_get_sym_entry_info hr) h)
      else (let (hr', sym_name) = groups.symbol_name sym_grp i h.world in
          if failed hr'
          then (failed_with hr', report (Diagnostic.failed_get_sym_name hr') h)
          else (let e : SymbolEntry = entry in
              let (r, h') =
                alloc e.entry_size (some sym_name) e.entry_type_id e.entry_module_base
                  e.entry_offset false h in
              (elim r [ returned o ↦ made o | raised error ↦ on_error error ], h')))

  -- The rounds from `i` on, so many of them: the objects in order, or how the loop was left.
  unfoldable pub variables_from : ℕ → ℕ → ℕ → Host W → Round (List TypedObject) × Host W
  variables_from sym_grp i zero h = (made [], h)
  variables_from sym_grp i (suc left) h =
      let (r, h') = variable sym_grp i h in after_round r (variables_from sym_grp (i + 1) left) h'

  -- `getVariablesHelper`
  unfoldable pub get_variables :
      Services W → SystemObjects W → FrameObject → ℕ → Script W (List TypedObject)
  get_variables svc sys f flags = unless_aborted svc.control (
      calling (util_count_stack_frame_variables sys svc.syms groups f.thread f.frame flags)
      >>= λ counted h.
          let (num_sym, sym_grp) = counted in
          let (r, h') = variables_from sym_grp 0 num_sym h in released groups sym_grp r h')
