-- ===== src/Tests/Scripts.antt =====
-- Scripts of the three languages, run on one machine.
use dbgscript.Base.{
  ℕ, ◌+◌, ◌≤◌, ◌≡◌, refl, true, false, some, List, [], ◌∷◌, ◌++◌, map, codes, replicate, take,
  length-replicate, length-take, min, arith,
}
use dbgscript.Console.{Text}
use dbgscript.Console.Stream.{stream, emitted}
use dbgscript.Engine.{UserInput}
use dbgscript.Exec.{s_ok}
use dbgscript.ReadString.{util_check_abort}
use dbgscript.Objects.{Services}
use dbgscript.Objects.Access.{Agree, access-Agree}
use dbgscript.TypedObject.{TypedObject}
use dbgscript.Lua.Input.{LuaInput, lua_get_c_cb}
use dbgscript.Lua.Input.Queue.{InputLaws, Reads, get_c_cb-Reads}
use dbgscript.Transcript.{lua, python, ruby, Event, writes, starts, stops, run_events}
use dbgscript.Transcript.Ordered.{IsSettled, run_events-IsSettled, stops_print_all}
use dbgscript.Values.{little_endian, int16, builtin_type}
use dbgscript.Values.Reading.{
  TypedMemory, lua_typed_object_getvalue, python_typed_object_get_value, ruby_typed_object_value,
}
use dbgscript.Values.Agreement.{signed16, Converted, getters-Converted}
use dbgscript.Tests.World.{
  Machine, control, symbols, spaces, advanced, copy_text, object_data, host,
}
use dbgscript.Tests.Output.{console-IsConsole}

host-IsSettled : IsSettled host.console
host-IsSettled = record {
  valid = console-IsConsole;
  count = omega arith;
  settled = λ e. absurd (omega (arith, e));
}

abbrev events : List (Event Machine)
events = starts lua ∷ writes python (codes "hi") ∷ stops ruby ∷ []

run_events-IsSettled_example :
    let (t, h') = run_events control events host in
    IsSettled h'.console
    × (stream h'.console ≡ stream host.console ++ t)
    × (h'.console.is_buffering ≤ 1 + 3)
run_events-IsSettled_example =
    run_events-IsSettled control events host host-IsSettled (tt, (ground arith, (tt, tt)))
      (omega arith)

pub not_aborted : util_check_abort control host.world ≡ false
unfolding util_check_abort
not_aborted = refl

stops_print_all_example :
    let (t, h') = run_events control (map (λ l. stops l) (ruby ∷ [])) host in
    (t ≡ []) × (h'.console.is_buffering ≡ 0) × (emitted h'.console.outputs ≡ stream host.console)
stops_print_all_example = stops_print_all control (ruby ∷ []) host host-IsSettled not_aborted refl

-- A short of -2 in the target.
abbrev short_object : TypedObject
short_object = record {
  name = codes "x";
  type_name = codes "short";
  module_name = codes "app";
  typed_data = record object_data { base_type_id = 0x80000004; tag = 16; size = 2 };
  typed_data_valid = true;
  value = replicate 8 0;
  value_valid = false;
}

abbrev memory : TypedMemory Machine
memory addr base type_id room w = (s_ok, 254 ∷ 255 ∷ [])

short_kind : builtin_type 0x80000004 ≡ int16
unfolding builtin_type
short_kind = refl

getters-Converted_example :
    Converted int16 16 true
      (little_endian (254 ∷ 255 ∷ []))
      (lua_typed_object_getvalue control memory short_object host).0
      (python_typed_object_get_value control memory short_object host).0
      (ruby_typed_object_value control memory short_object host).0
getters-Converted_example =
    getters-Converted control memory short_object host (254 ∷ 255 ∷ []) not_aborted refl refl
      short_kind signed16 refl refl

abbrev pub services : Services Machine
services = record {
  control = control;
  syms = symbols;
  spaces = spaces;
  adv = advanced;
  copy = copy_text;
  malloc = λ i n. true;
  header = 100;
  new_object = short_object;
  to_utf8 = λ t. (0, some t);
}

-- The user types `ab`.
abbrev typed : Text
typed = b'a' ∷ b'b' ∷ 0 ∷ []

abbrev user : UserInput Machine
user room w = (s_ok, (take room typed, min room 3), w)

abbrev no_input : LuaInput
no_input = record { input_buf = replicate 2048 0; next_input_char = 0; valid_input_chars = 0 }

user_laws : InputLaws user
user_laws = record {
  counted = λ room w fine some_. (length-take room typed, omega arith, omega arith);
  bounded = λ room w. omega (arith, length-take room typed);
}

get_c_cb-Reads_example : Reads user no_input host.world (lua_get_c_cb user no_input host.world)
get_c_cb-Reads_example =
    get_c_cb-Reads user user_laws no_input host.world
      (record { size = length-replicate {A = ℕ} 2048 0; room = omega arith })

access-Agree_example : Agree services memory short_object host
access-Agree_example = access-Agree services memory short_object host not_aborted refl
