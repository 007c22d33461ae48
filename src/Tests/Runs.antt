-- ===== src/Tests/Runs.antt =====
-- Runs of scripts, on a machine whose state is the height of the stack of Lua.
use dbgscript.Base.{ℕ, ◌+◌, ◌-◌, ◌≡◌, refl, true, false, [], ◌∷◌, arith, codes}
use dbgscript.Console.{Diagnostic}
use dbgscript.Exec.{e_fail, ok, err}
use dbgscript.Engine.{Files}
use dbgscript.Host.{Host}
use dbgscript.Running.{ToAnsi}
use dbgscript.Running.Reports.{Follows, errors_follow_output}
use dbgscript.Lua.Running.{LuaApi, call_chunk, script_and_args, lua_run, lua_run_string}
use dbgscript.Lua.Running.Stack.{LuaLaws}
use dbgscript.Lua.Running.Height.{Grown, lua_run-Grown}
use dbgscript.Ruby.Running.{RubyApi, ruby_run_string}
use dbgscript.Tests.World.{copy_text, console}
use dbgscript.Tests.Output.{console-IsConsole}

-- Every chunk compiles, and raises an error.
abbrev lua_stack : LuaApi ℕ
lua_stack = record {
  new_state = λ w. (true, 0);
  close = λ w. 0;
  set_stdio_callbacks = λ w. w;
  open_libs = λ w. w;
  require_module = λ t g w. w;
  load_file = λ t w. (0, w + 1);
  load_string = λ t w. (0, w + 1);
  p_call = λ b h. (2, h);
  message = λ w. codes "attempt to index a nil value";
  get_global = λ t w. w + 1;
  get_field = λ t w. w + 1;
  set_field = λ t w. w - 1;
  remove_second = λ w. w - 1;
  insert_second = λ w. w;
  concat_two = λ w. w - 1;
  pop = λ w. w - 1;
  create_table = λ n w. w + 1;
  push_string = λ t w. w + 1;
  raw_set = λ n w. w - 1;
  set_global = λ t w. w - 1;
}

height : LuaLaws lua_stack (λ w. w)
height = record {
  load_file = λ t w. refl;
  load_string = λ t w. refl;
  called = λ b h e. ground arith;
  call_failed = λ b h e. refl;
  get_global = λ t w. refl;
  get_field = λ t w. refl;
  set_field = λ t w. refl;
  remove_second = λ w. refl;
  insert_second = λ w. refl;
  concat_two = λ w. refl;
  pop = λ w. refl;
  create_table = λ n w. refl;
  push_string = λ t w. refl;
  raw_set = λ n w. refl;
  set_global = λ t w. refl;
}

abbrev stack_host : Host ℕ
stack_host = record {
  world = 0;
  console = console;
  caches = record { sym_cache = []; mod_cache = []; type_name_cache = [] };
  script_path = [];
  buffered_output_callbacks = 9;
}

-- Every name is that of a file.
abbrev all_files : Files ℕ
all_files = record { attributes = λ p w. 32; widen = λ t. t }

abbrev narrow : ToAnsi
narrow room t = (0, t)

lua_run-Grown_example :
    Grown lua_stack narrow
      (λ w. w)
      0
      (script_and_args lua_stack narrow copy_text all_files
        (codes "-d" ∷ codes "c:\\s.lua" ∷ [])
        stack_host)
      (lua_run lua_stack narrow copy_text all_files
        (codes "-d" ∷ codes "c:\\s.lua" ∷ [])
        stack_host)
    × ((lua_run_string lua_stack (codes "x.y()") stack_host).1.world ≡ 0)
lua_run-Grown_example =
    lua_run-Grown lua_stack (λ w. w) height narrow copy_text all_files
      (codes "-d" ∷ codes "c:\\s.lua" ∷ []) (codes "x.y()") stack_host

-- Every text raises an exception.
abbrev ruby_vm : RubyApi ℕ
ruby_vm = record {
  exception_message = λ h. (0, codes "undefined method", h);
  exception_class = λ w. codes "NoMethodError";
  backtrace = λ h. (codes "(eval):1" ∷ [], h);
  set_script = λ t w. w;
  set_argv = λ a w. w;
  load = λ t h. (true, h);
  eval_string = λ t h. (true, h);
  init_global_heap = λ w. w;
  sysinit = λ w. w;
  setup = λ w. (0, w);
  set_ext_filter = λ f w. w;
  init_loadpath = λ w. w;
  init_enc = λ w. w;
  init_ext = λ w. w;
  define_singleton_method = λ o m w. w;
  init_module = λ m w. w;
  undef_kernel_method = λ m w. w;
  undefine_class = λ c w. w;
  cleanup = λ w. (0, w);
  cleanup_global_heap = λ w. w;
}

errors_follow_output_example :
    Follows console
      (Diagnostic.lua_runtime_error 2 (codes "attempt to index a nil value"))
      (call_chunk lua_stack false stack_host).1.console
    × ((call_chunk lua_stack false stack_host).0 ≡ err e_fail)
    × Follows console
        (Diagnostic.unhandled_exception (codes "NoMethodError") (codes "undefined method"))
        (ruby_run_string ruby_vm (codes "x.y") stack_host).1.console
    × ((ruby_run_string ruby_vm (codes "x.y") stack_host).0 ≡ ok tt)
errors_follow_output_example =
    errors_follow_output lua_stack ruby_vm false (codes "x.y") stack_host refl console-IsConsole
      refl refl (λ g. refl) console-IsConsole
