-- ===== src/Python/Running.antt =====
-- The Python provider at work: src/pythonprov/pythonscriptprovider.cpp, and the input of
-- src/pythonprov/dbgscriptio.cpp. The counts of references to Python objects are left out.
use dbgscript.Base.{
  ℕ, ◌^◌, Bool, true, false, Option, none, some, List, [], ◌∷◌, not, ◌&&◌, ltb, leb, ◌==◌, ◌+◌, ◌%◌,
  if◌then◌else◌, codes, text_eq, replicate, write_at, c_string, set, min, take, ◌||◌,
}
use dbgscript.Console.{Text, Diagnostic}
use dbgscript.Exec.{HResult, e_fail, e_invalidarg, ok, err, Exec, ◌>>=◌}
use dbgscript.Engine.{Files, Control, UserInput}
use dbgscript.Host.{Host, report}
use dbgscript.Platform.{CopyText}
use dbgscript.FindScript.{util_find_script_file}
use dbgscript.Script.{Script, give, unless_aborted}
use dbgscript.Running.{directory_of, max_path, ToAnsi, is_switch, on_world}

-- How a text that was run as a module ended.
pub data RunEnd : Type 0 where
  finished system_exit exception : RunEnd

-- The functions of Python that the provider calls. Those that run Python code act on the whole host,
-- and say whether they gave an object.
pub record PythonApi (W : Type 0) : Type 0 where
  -- `runpy`, its `_run_module_as_main`, the arguments, and the call
  pub import_runpy : Host W → Bool × Host W
  pub get_run_module : Host W → Bool × Host W
  pub build_args : Text → Host W → Bool × Host W
  pub call : Host W → Bool × Host W
  -- `PyErr_Print`
  pub print_error : Host W → Host W
  -- `PySys_SetArgv`
  pub set_argv : List Text → W → W
  -- `PyRun_SimpleFile`
  pub run_simple_file : Text → Host W → ℕ × Host W
  -- the module `__main__`, and `PyRun_StringFlags` in its dictionary
  pub add_main : Host W → Bool × Host W
  pub run_string_flags : Text → Host W → RunEnd × Host W
  -- `PyErr_Fetch`, `PyErr_NormalizeException` and `PyErr_Display`
  pub display_error : Host W → Host W
  -- `_wfopen`, or the error, and `fclose`
  pub open_file : Text → W → Option ℕ × W
  pub close_file : W → W

-- The functions of Python and of Windows that start and stop the runtime.
pub record PythonRuntime (W : Type 0) : Type 0 where
  pub create_global_heap : W → W
  pub append_inittab : Text → W → W
  pub destroy_global_heap : W → W
  -- the path of the provider's own DLL
  pub module_file_name : W → Text
  pub set_python_home : Text → W → W
  pub initialize : W → W
  pub finalize : W → W
  -- `dbgscript` becomes a name of `__main__`
  pub import_dbgscript : W → W
  pub add_main_module : W → W
  pub set_main_attribute : Text → W → W
  -- `PySys_SetObject` with null
  pub remove_sys_object : Text → W → W

-- `HRESULT_FROM_WIN32`
unfoldable pub hresult_from_win32 : ℕ → HResult
hresult_from_win32 x = if (x == 0) || leb (2 ^ 31) x then x else 0x80070000 + x % 65536

-- The switches in front of the script's name: the module of the last `-m`, and what follows them.
unfoldable pub python_switches :
    {W : Type 0} → Option Text → List Text → Exec (Host W) (Option Text × List Text)
python_switches module_to_run [] h = (ok (module_to_run, []), h)
python_switches module_to_run (arg ∷ []) h =
    if is_switch arg
    then (if text_eq arg (codes "-m")
        then (err e_invalidarg, report Diagnostic.module_name_expected h)
        else (err e_invalidarg, report (Diagnostic.unknown_switch arg) h))
    else (ok (module_to_run, arg ∷ []), h)
python_switches module_to_run (arg ∷ next ∷ args) h =
    let rest = python_switches (some next) args h in
    if is_switch arg
    then (if text_eq arg (codes "-m")
        then rest
        else (err e_invalidarg, report (Diagnostic.unknown_switch arg) h))
    else (ok (module_to_run, arg ∷ next ∷ args), h)

-- A step behind one that gave an object.
abbrev pub and_then :
    {W : Type 0} → (Host W → Bool × Host W) → (Host W → Bool × Host W) → Host W → Bool × Host W
and_then m k h = let (given, h') = m h in if given then k h' else (false, h')

module _ {W : Type 0} (py : PythonApi W) where
  unfoldable pub run_module : Text → Host W → Bool × Host W
  run_module module_name h =
      let (ret, h') =
        and_then py.import_runpy
          (and_then py.get_run_module (and_then (py.build_args module_name) py.call)) h in
      if ret then (true, h') else (false, py.print_error h')

  unfoldable pub run_as_module : Text → Exec (Host W) (Unit {0})
  run_as_module module_name h =
      let (ret, h') = run_module module_name h in (if ret then ok tt else err e_fail, h')

  -- The answer of `PyRun_SimpleFile` is not looked at.
  unfoldable pub run_file : Text → Text → Exec (Host W) (Unit {0})
  run_file full_script_name ansi_script_name h =
      let (error, w) = py.open_file full_script_name h.world in
      elim error [
        | some doserr ↦ (
          (if ltb (hresult_from_win32 doserr) (2 ^ 31)
              then ok tt
              else err (hresult_from_win32 doserr)),
          report (Diagnostic.failed_open_file full_script_name doserr) (record h { world = w }),
        )
        | none ↦
            let (_, h') = py.run_simple_file ansi_script_name (record h { world = w }) in
            (ok tt, on_world py.close_file h')
      ]

  module _ (to_ansi : ToAnsi) (copy : CopyText) (files : Files W) where
    -- Finds the script that the first argument names, in the mode of modules too, and sets the
    -- arguments: the path, and its narrow form.
    unfoldable pub set_up_args : Option Text → Text → List Text → Exec (Host W) (Text × Text)
    set_up_args module_to_run script args =
        util_find_script_file copy files script max_path >>= λ path h.
        let (error, ansi) = to_ansi max_path path in
        if not (error == 0)
        then (err e_fail, report (Diagnostic.failed_convert_wide error) h)
        else (let argv : List Text = elim module_to_run [
          | some name ↦ name ∷ path ∷ args
          | none ↦ path ∷ args
        ] in
            (ok (path, ansi), on_world (py.set_argv argv) h))

    unfoldable pub python_run_with : Option Text → List Text → Exec (Host W) (Unit {0})
    python_run_with (some name) [] = run_as_module name
    python_run_with (some name) (script ∷ args) =
        set_up_args (some name) script args >>= λ _. run_as_module name
    python_run_with none [] = λ h. (ok tt, h)
    python_run_with none (script ∷ args) =
        set_up_args none script args >>= λ names. run_file names.0 names.1

    unfoldable pub python_run : List Text → Exec (Host W) (Unit {0})
    python_run argv = python_switches none argv >>= λ parsed. python_run_with parsed.0 parsed.1

  -- The line about an exit goes to the verbose output.
  unfoldable pub python_run_string : Text → Exec (Host W) (Unit {0})
  python_run_string script_string h =
      let (given, h1) = py.add_main h in
      let (end_, h2) = py.run_string_flags script_string h1 in
      if not given then (err e_fail, h1) else elim end_ [
        | finished ↦ (ok tt, h2)
        | system_exit ↦ (ok tt, report Diagnostic.exiting_system_exit h2)
        | exception ↦ (err e_fail, py.display_error h2)
      ]

module _ {W : Type 0} (rt : PythonRuntime W) where
  -- A path of the DLL without a backslash is a fault.
  unfoldable pub python_start_vm : W → Option W
  python_start_vm w =
      let w1 = rt.append_inittab (codes "dbgscript") (rt.create_global_heap w) in
      elim (directory_of (rt.module_file_name w1)) [
        | none ↦ none
        | some dir ↦
            let w2 =
              rt.add_main_module
                (rt.import_dbgscript (rt.initialize (rt.set_python_home dir w1))) in
            some
              (rt.remove_sys_object (codes "exit") (rt.set_main_attribute (codes "dbgscript") w2))
      ]

  unfoldable pub python_stop_vm : W → W
  python_stop_vm w = rt.destroy_global_heap (rt.finalize w)

-- The line that `readline` hands on: an empty line as a new line, and Ctrl-Z as the end of the input.
unfoldable pub line_read : Text → ℕ → Text
line_read buf actual_len =
    if ltb 1 actual_len && text_eq (take 1 buf) (0x1A ∷ [])
    then set buf 0 0
    else if actual_len == 1
    then set buf 0 10
    else buf

module _ {W : Type 0} (control : Control W) where
  unfoldable pub dbg_script_io_readline : UserInput W → ℕ → Script W Text
  dbg_script_io_readline input max_to_read = unless_aborted control λ h.
      let (hr, (bytes, actual_len), w) = input (min max_to_read 4096) h.world in
      give (c_string (line_read (write_at (replicate 4096 0) 0 bytes) actual_len))
        (record h { world = w })

  -- `FlushCallbacks` of the client
  unfoldable pub dbg_script_io_flush : (W → W) → Script W (Unit {0})
  dbg_script_io_flush flush_callbacks =
      unless_aborted control λ h. give tt (on_world flush_callbacks h)
