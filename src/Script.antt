-- ===== src/Script.antt =====
-- What the providers of the three languages share: a script's call into the host, which returns a
-- value or raises an error in the script, and the output side of it.
pub mod Passing
use dbgscript.Base.{ℕ, ◌+◌, ◌%◌, Bool, true, false, ◌==◌, if◌then◌else◌, length}
use dbgscript.Console.{
  Text, Message, Console, print, long_mod, buffering_on, util_buffer_output,
  util_flush_message_buffer,
}
use dbgscript.Exec.{HResult, ok, err, Exec}
use dbgscript.Engine.{Control}
use dbgscript.Host.{Host}
use dbgscript.ReadString.{is_negative, util_check_abort}

-- The errors that the providers raise, with what their texts show.
pub data ScriptError : Type 0 where
  -- CHECK_ABORT
  interrupted : ScriptError
  buffering_not_started : ScriptError
  -- a support call that failed, with its code
  call_failed : HResult → ScriptError
  failed_at : ℕ → HResult → ScriptError
  -- a name with which nothing was found
  no_such_property no_such_global : Text → ScriptError
  unknown_type : Text → ScriptError
  pattern_not_found : ScriptError
  -- a null result without an exception, and a result beside one
  result_beside_exception : HResult → ScriptError
  no_exception read_only : ScriptError
  no_such_method no_such_getter : Text → ScriptError
  invalid_object unsupported_type_id not_an_object not_an_array : ScriptError
  not_primitive wrong_argument out_of_range : ScriptError

pub data Outcome (A : Type 0) : Type 0 where
  returned : A → Outcome A
  raised : ScriptError → Outcome A

-- What happened before an error stays.
abbrev pub Script : Type 0 → Type 0 → Type 0
Script W A = Host W → Outcome A × Host W

module _ {W : Type 0} where
  abbrev pub give : {A : Type 0} → A → Script W A
  give a h = (returned a, h)

  abbrev pub throw : {A : Type 0} → ScriptError → Script W A
  throw e h = (raised e, h)

  -- The macro CHECK_ABORT in front of the rest of a function.
  abbrev pub unless_aborted : {A : Type 0} → Control W → Script W A → Script W A
  unless_aborted control rest h =
      if util_check_abort control h.world then (raised interrupted, h) else rest h

  abbrev pub on_console : (Console → Console) → Script W (Unit {0})
  on_console f h = (returned tt, record h { console = f h.console })

infixl 5 ◌>>=◌ ◌>>◌
abbrev pub ◌>>=◌ : {W A B : Type 0} → Script W A → (A → Script W B) → Script W B
◌>>=◌ m f h = let (r, h') = m h in elim r [ returned a ↦ f a h' | raised e ↦ (raised e, h') ]

abbrev pub ◌>>◌ : {W A B : Type 0} → Script W A → Script W B → Script W B
m >> k = m >>= λ _. k

-- A support call: its failure is raised with its code.
abbrev pub calling : {W A : Type 0} → Exec (Host W) A → Script W A
calling m h =
    let (r, h') = m h in (elim r [ ok a ↦ returned a | err hr ↦ raised (call_failed hr) ], h')

-- The test of `IsBuffering` in front of every text of a script.
unfoldable pub buffer_or_output : (Text → Message) → Text → Console → Console
buffer_or_output say text c =
    if buffering_on c then util_buffer_output text (length text) c else print (say text) c

-- `InterlockedIncrement(&hostCtxt->IsBuffering)`
unfoldable pub increment_buffering : Console → Console
increment_buffering c = record c { is_buffering = (c.is_buffering + 1) % long_mod }

-- `InterlockedDecrement` and what hangs on the new value: whether there was a session, and the
-- console.
unfoldable pub decrement_buffering : Console → Bool × Console
decrement_buffering c =
    let new_val = (c.is_buffering + 4294967295) % long_mod in
    let c' : Console = record c { is_buffering = new_val } in
    if is_negative new_val
    then (false, record c { is_buffering = 0 })
    else (true, if new_val == 0 then util_flush_message_buffer c' else c')

-- `stop_buffering`, as all three providers write it.
abbrev pub stopping : {W : Type 0} → Script W (Unit {0})
stopping h =
    let (started, c) = decrement_buffering h.console in
    let h' : Host _ = record h { console = c } in
    (if started then returned tt else raised buffering_not_started, h')
