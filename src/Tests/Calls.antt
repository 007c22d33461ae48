-- ===== src/Tests/Calls.antt =====
-- Calls of scripts into the module, its threads and its frames, run on one machine.
use dbgscript.Base.{◌≡◌, refl, codes, text_eq}
use dbgscript.Console.{Text}
use dbgscript.Exec.{s_ok, ok}
use dbgscript.AutoSwitch.{with_thread, with_frame}
use dbgscript.Frames.{util_count_stack_frame_variables, snapshot}
use dbgscript.Script.{Outcome, returned, raised, unknown_type}
use dbgscript.Functions.{ModuleServices}
use dbgscript.Functions.Unknown.{unknown_type_is_zero}
use dbgscript.Stacks.{FrameObject}
use dbgscript.Stacks.Variables.{
  Enumerated, escapes, out_of_memory, counting, get_variables-Enumerated,
}
use dbgscript.Values.{Value, number, pos}
use dbgscript.Lua.TypedObject.{lua_alloc_new_typed_object}
use dbgscript.Lua.Functions.{lua_create_typed_object, lua_field_offset, lua_get_type_size}
use dbgscript.Lua.Stacks.{lua_get_variables}
use dbgscript.Python.TypedObject.{python_alloc_typed_object}
use dbgscript.Python.Functions.{
  python_create_typed_object, python_field_offset, python_get_type_size,
}
use dbgscript.Python.Stacks.{python_get_variables}
use dbgscript.Ruby.TypedObject.{ruby_alloc_typed_object}
use dbgscript.Ruby.Functions.{ruby_create_typed_object, ruby_field_offset, ruby_get_type_size}
use dbgscript.Ruby.Stacks.{ruby_get_variables}
use dbgscript.Tests.World.{Machine, system, client, groups, host}
use dbgscript.Tests.Types.{host-IsCoherent}
use dbgscript.Tests.Scripts.{services, not_aborted}

abbrev module_services : ModuleServices Machine
module_services = record {
  objects = services;
  sys = system;
  client = client;
  current_thread_system_id = λ w. (s_ok, 41);
  offset_by_name = λ s w. (s_ok, 64);
  constant_name = λ k n w. (s_ok, codes "One");
  search_virtual = λ start size pattern gran w. (s_ok, start);
  hex = λ n. codes "0x1";
}

abbrev missing : Text
missing = codes "D"

abbrev field_ : Text
field_ = codes "f"

unknown_type_is_zero_example :
    let zero_ : Outcome Value = returned (number (pos 0)) in
    ((lua_get_type_size module_services missing host).0 ≡ zero_)
    × ((python_get_type_size module_services missing host).0 ≡ zero_)
    × ((ruby_get_type_size module_services missing host).0 ≡ zero_)
    × ((lua_field_offset module_services missing field_ host).0 ≡ zero_)
    × ((python_field_offset module_services missing field_ host).0 ≡ zero_)
    × ((ruby_field_offset module_services missing field_ host).0 ≡ zero_)
    × ((lua_create_typed_object module_services missing 64 host).0 ≡ raised (unknown_type missing))
    × ((python_create_typed_object module_services missing 64 host).0
        ≡ raised (unknown_type missing))
    × ((ruby_create_typed_object module_services missing 64 host).0 ≡ raised (unknown_type missing))
unfolding text_eq
unknown_type_is_zero_example =
    unknown_type_is_zero module_services missing field_ host host-IsCoherent not_aborted 64 refl

-- The second frame of the second thread.
abbrev frame_object : FrameObject
frame_object = record {
  frame = record { frame_number = 1; instruction_offset = 4194305 };
  thread = record { engine_id = 1; thread_id = 41 };
}

two_counted : (counting services system groups frame_object 1 host).0 ≡ ok (2, 77)
unfolding util_count_stack_frame_variables snapshot with_thread with_frame
two_counted = refl

get_variables-Enumerated_example :
    Enumerated groups 77
      (lua_alloc_new_typed_object services)
      escapes
      2
      (counting services system groups frame_object 1 host).1
      (lua_get_variables services system groups frame_object 1 host)
    × Enumerated groups 77
        (python_alloc_typed_object services)
        (out_of_memory groups 77)
        2
        (counting services system groups frame_object 1 host).1
        (python_get_variables services system groups frame_object 1 host)
    × Enumerated groups 77
        (ruby_alloc_typed_object services)
        escapes
        2
        (counting services system groups frame_object 1 host).1
        (ruby_get_variables services system groups frame_object 1 host)
get_variables-Enumerated_example =
    get_variables-Enumerated services system groups frame_object 1 host 2 77 not_aborted two_counted
