-- ===== src/Tests/Commands.antt =====
-- The commands of the host DLL, run on one machine.
use dbgscript.Base.{
  ◌+◌, ◌≡◌, ◌≢◌, refl, true, false, some, List, [], ◌∷◌, ◌++◌, map, codes, take, length, arith,
}
use dbgscript.Console.{Text, Message, script_path_line, diagnosed, Diagnostic}
use dbgscript.Console.Stream.{emitted, stream, IsConsole}
use dbgscript.Exec.{s_ok, e_fail, failed, ok}
use dbgscript.Extension.{
  Pointers, ScriptProviderInfo, Extension, Com, Loader, ProviderCode, Runtime,
}
use dbgscript.Extension.Ifaces.{re_acquire_ifaces_if_needed, re_acquire_again}
use dbgscript.Extension.Providers.Ready.{AllReady, NoneLoaded}
use dbgscript.Extension.ScriptPath.{scriptpath}
use dbgscript.Extension.ScriptPath.Lists.{with_commas, NoCommas, scriptpath_lists}
use dbgscript.Extension.Commands.{runscript, evalstring, startvm, stopvm}
use dbgscript.Extension.Commands.Unbuffered.{run_and_unloaded, runscript_ends_unbuffered}
use dbgscript.Extension.Commands.Clean.{runs-NoneLoaded}
use dbgscript.Extension.Commands.Session.{commands-AllReady, vm_session}
use dbgscript.Tests.World.{Machine, copy_text, copy_laws, host}

-- Interfaces are numbers behind their client's.
abbrev ole : Com Machine
ole = record { query_interface = λ client iid w. (s_ok, client + iid + 1, w); release = λ x w. w }

abbrev loader : Loader Machine
loader = record {
  set_dll_directory = λ path w. (true, s_ok, w);
  load_library = λ path w. (500, s_ok, w);
  get_proc_address = λ handle name w. (600 + length name, s_ok);
  free_library = λ handle w. w;
}

-- A provider whose runs fail.
abbrev provider_code : ProviderCode Machine
provider_code = record {
  init_dll = λ f h. h;
  cleanup_dll = λ f h. h;
  create = λ f h. (700, h);
  init = λ p h. (s_ok, h);
  run = λ p args h. (e_fail, h);
  run_string = λ p text h. (e_fail, h);
  cleanup = λ p h. h;
}

abbrev runtime : Runtime Machine
runtime = record {
  widen = λ text. text;
  multi_byte_to_wide_char = λ room text. (length text + 1, take room text);
  command_line_to_argv = λ text. (some (text ∷ []), s_ok);
  tick_count = λ w. 1000;
}

abbrev lua : ScriptProviderInfo
lua = record {
  dll_file_name = codes "c" ++ 92 ∷ codes "lua.dll";
  lang_id = codes "lua";
  handle = 0;
  init_func = 0;
  cleanup_func = 0;
  create_func = 0;
  script_provider = 0;
}

abbrev extension : Extension Machine
extension = record {
  h_module = 0;
  pointers = record {
    debug_client = 100;
    debug_control = 101;
    debug_sys_obj = 102;
    debug_symbols = 103;
    debug_advanced = 104;
    debug_data_spaces = 105;
  };
  host = host;
  script_providers = lua ∷ [];
  start_vm_enabled = false;
}

re_acquire_again_example :
    let s' : Pointers × Machine =
      (re_acquire_ifaces_if_needed ole 200 (extension.pointers, host.world)).1 in
    (s'.0.debug_client ≡ 200) × (re_acquire_ifaces_if_needed ole 200 s' ≡ (ok tt, s'))
re_acquire_again_example = re_acquire_again ole 200 (extension.pointers, host.world)

extension-AllReady : AllReady extension.script_providers
extension-AllReady = (λ loaded. absurd (loaded refl), tt)

abbrev line : Text
line = codes "-l lua -- a.lua"

commands-AllReady_example :
    AllReady
      (runscript ole copy_text loader provider_code runtime 100 line extension).1.script_providers
    × AllReady
        (evalstring ole copy_text loader provider_code runtime 100 line
          extension).1.script_providers
    × AllReady (startvm ole copy_text loader provider_code runtime 100 extension).1.script_providers
    × AllReady (stopvm ole copy_text loader provider_code runtime 100 extension).1.script_providers
commands-AllReady_example =
    commands-AllReady ole copy_text loader provider_code runtime 100 line extension
      extension-AllReady

runscript_ends_unbuffered_example :
    let (hr, e') = runscript ole copy_text loader provider_code runtime 100 line extension in
    let e : Extension Machine =
      run_and_unloaded ole copy_text loader provider_code runtime 100 line extension in
    (e'.host.console.is_buffering ≡ 0)
    × (e'.host.console.buf_position ≡ 0)
    × (IsConsole e.host.console → emitted e'.host.console.outputs ≡ stream e.host.console)
    × (failed hr ≡ true
        → (before : List Message) × (e'.host.console.outputs
            ≡ before ++ diagnosed (Diagnostic.script_failed hr) ∷ []))
runscript_ends_unbuffered_example =
    runscript_ends_unbuffered ole copy_text loader provider_code runtime 100 line extension

vm_session_example :
    let (started, e1) = startvm ole copy_text loader provider_code runtime 100 extension in
    let (stopped, e2) = stopvm ole copy_text loader provider_code runtime 100 extension in
    (failed started ≡ false
      → (extension.start_vm_enabled ≡ false)
        × (e1.start_vm_enabled ≡ true)
        × (e1.script_providers ≡ extension.script_providers))
    × (failed started ≡ true → e1.start_vm_enabled ≡ extension.start_vm_enabled)
    × (failed stopped ≡ false
        → (extension.start_vm_enabled ≡ true)
          × (e2.start_vm_enabled ≡ false)
          × NoneLoaded e2.script_providers)
    × (failed stopped ≡ true
        → (e2.start_vm_enabled ≡ extension.start_vm_enabled)
          × (e2.script_providers ≡ extension.script_providers))
vm_session_example = vm_session ole copy_text loader provider_code runtime 100 extension

same_client : (re_acquire_ifaces_if_needed ole 100 (extension.pointers, host.world)).0 ≡ ok tt
unfolding re_acquire_ifaces_if_needed
same_client = refl

scriptpath_lists_example :
    let args : Text = codes "a,b" in
    let e' : Extension Machine = (scriptpath ole copy_text (λ p. s_ok) 100 args extension).1 in
    (args ≢ [] → (with_commas e'.host.script_path ≡ args) × NoCommas e'.host.script_path)
    × (args ≡ [] → e'.host.script_path ≡ extension.host.script_path)
    × (((p : Text) → failed s_ok ≡ false)
        → e'.host.console.outputs
          ≡ extension.host.console.outputs ++ map (λ p. script_path_line p) e'.host.script_path)
scriptpath_lists_example =
    scriptpath_lists ole copy_text copy_laws (λ p. s_ok) 100 (codes "a,b") extension same_client
      (omega arith)

runs-NoneLoaded_example :
    NoneLoaded
      (runscript ole copy_text loader provider_code runtime 100 line extension).1.script_providers
    × NoneLoaded
        (evalstring ole copy_text loader provider_code runtime 100 line
          extension).1.script_providers
runs-NoneLoaded_example =
    runs-NoneLoaded ole copy_text loader provider_code runtime 100 line extension (λ i h. refl) refl
      (refl, tt)
