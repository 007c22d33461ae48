-- ===== src/Ruby/Running.antt =====
-- The Ruby provider at work: src/rubyprov/rubyscriptprovider.cpp. The memory statistics of the debug
-- runtime are left out.
use dbgscript.Base.{
  ℕ, ◌+◌, Bool, false, List, [], ◌∷◌, not, ◌==◌, if◌then◌else◌, codes, text_eq, replicate, write_at,
  c_string, length, ◌||◌,
}
use dbgscript.Console.{Text, Diagnostic, util_flush_message_buffer}
use dbgscript.Exec.{e_fail, e_invalidarg, ok, err, Exec, ◌>>=◌}
use dbgscript.Engine.{Files, Control, UserInput}
use dbgscript.Host.{Host, report}
use dbgscript.Platform.{CopyText}
use dbgscript.FindScript.{util_find_script_file}
use dbgscript.Script.{Script, give, unless_aborted}
use dbgscript.Running.{max_path, ToAnsi, on_world}

-- The functions of Ruby that the provider calls. Those that run Ruby code act on the whole host.
pub record RubyApi (W : Type 0) : Type 0 where
  -- `rb_protect` of the method `message`: the status, and the message
  pub exception_message : Host W → ℕ × Text × Host W
  pub exception_class : W → Text
  pub backtrace : Host W → List Text × Host W
  -- `ruby_script` and `ruby_set_argv`
  pub set_script : Text → W → W
  pub set_argv : List Text → W → W
  -- `rb_load` and `rb_eval_string`: whether they raised
  pub load : Text → Host W → Bool × Host W
  pub eval_string : Text → Host W → Bool × Host W
  -- the heap, `ruby_sysinit`, and the status of `ruby_setup`
  pub init_global_heap : W → W
  pub sysinit : W → W
  pub setup : W → ℕ × W
  pub set_ext_filter : (Text → Bool) → W → W
  pub init_loadpath : W → W
  pub init_enc : W → W
  pub init_ext : W → W
  -- the object and the method
  pub define_singleton_method : Text → Text → W → W
  pub init_module : Text → W → W
  pub undef_kernel_method : Text → W → W
  pub undefine_class : Text → W → W
  -- the status of `ruby_cleanup`
  pub cleanup : W → ℕ × W
  pub cleanup_global_heap : W → W

-- `x_lockedDownExtensions`
abbrev pub locked_down_extensions : List Text
locked_down_extensions =
    codes "bigdecimal.so"
    ∷ codes "continuation.so"
    ∷ codes "coverage.so"
    ∷ codes "date_core.so"
    ∷ codes "digest.so"
    ∷ codes "digest/bubblebabble.so"
    ∷ codes "digest/md5.so"
    ∷ codes "digest/rmd160.so"
    ∷ codes "digest/sha1.so"
    ∷ codes "digest/sha2.so"
    ∷ codes "etc.so"
    ∷ codes "fcntl.so"
    ∷ codes "fiber.so"
    ∷ codes "io/console.so"
    ∷ codes "io/nonblock.so"
    ∷ codes "json/ext/generator.so"
    ∷ codes "json/ext/parser.so"
    ∷ codes "mathn/complex.so"
    ∷ codes "mathn/rational.so"
    ∷ codes "nkf.so"
    ∷ codes "objspace.so"
    ∷ codes "pathname.so"
    ∷ codes "psych.so"
    ∷ codes "racc/cparse.so"
    ∷ codes "rbconfig/sizeof.so"
    ∷ codes "ripper.so"
    ∷ codes "sdbm.so"
    ∷ codes "socket.so"
    ∷ codes "stringio.so"
    ∷ codes "strscan.so"
    ∷ codes "thread.so"
    ∷ codes "win32ole.so"
    ∷ []

-- `x_classesToUndefine`
abbrev pub classes_to_undefine : List Text
classes_to_undefine =
    codes "File"
    ∷ codes "FileTest"
    ∷ codes "Process"
    ∷ codes "Fiber"
    ∷ codes "Thread"
    ∷ codes "Dir"
    ∷ codes "Signal"
    ∷ []

-- Whether the name is one of the list.
unfoldable pub listed : List Text → Text → Bool
listed [] name = false
listed (n ∷ ns) name = text_eq name n || listed ns name

abbrev pub extension_filter : Text → Bool
extension_filter name = listed locked_down_extensions name

-- The rest of the lines of a stack trace.
unfoldable pub print_frames : {W : Type 0} → List Text → Host W → Host W
print_frames [] h = h
print_frames (f ∷ fs) h = print_frames fs (report (Diagnostic.stack_trace_line f) h)

module _ {W : Type 0} (rb : RubyApi W) where
  unfoldable pub top_level_exception_handler : Host W → Host W
  top_level_exception_handler h =
      let (status, message, h1) = rb.exception_message h in
      if not (status == 0)
      then report (Diagnostic.exception_in_message status) h1
      else (let h2 : Host W = record h1 { console = util_flush_message_buffer h1.console } in
          let (stack_trace, h3) =
            rb.backtrace
              (report (Diagnostic.unhandled_exception (rb.exception_class h2.world) message) h2) in
          print_frames stack_trace (report Diagnostic.stack_trace_begins h3))

  -- `rb_rescue2` around a run that says whether it raised.
  unfoldable pub rescued : Bool × Host W → Host W
  rescued (raised_, h) = if raised_ then top_level_exception_handler h else h

  module _ (to_ansi : ToAnsi) where
    unfoldable pub narrow_argv_from_wide : List Text → Exec (Host W) (List Text)
    narrow_argv_from_wide [] h = (ok [], h)
    narrow_argv_from_wide (arg ∷ args) h =
        let (error, ansi) = to_ansi (length arg + 1) arg in
        let (rest, h') = narrow_argv_from_wide args h in
        if not (error == 0)
        then (err e_fail, report (Diagnostic.failed_convert_wide error) h)
        else (elim rest [ ok narrow ↦ ok (ansi ∷ narrow) | err hr ↦ err hr ], h')

    -- The run of a script by the narrow arguments.
    unfoldable pub run_script_guarded : List Text → Host W → Host W
    run_script_guarded [] h = h
    run_script_guarded (name ∷ args) h =
        rescued (rb.load name (on_world (λ w. rb.set_argv (name ∷ args) (rb.set_script name w)) h))

    unfoldable pub ruby_run : CopyText → Files W → List Text → Exec (Host W) (Unit {0})
    ruby_run copy files [] = λ h. (err e_invalidarg, report Diagnostic.no_arguments_given h)
    ruby_run copy files (script ∷ args) =
        util_find_script_file copy files script max_path >>= λ path.
        narrow_argv_from_wide (path ∷ args) >>= λ narrow h. (ok tt, run_script_guarded narrow h)

  unfoldable pub ruby_run_string : Text → Exec (Host W) (Unit {0})
  ruby_run_string script_string h = (ok tt, rescued (rb.eval_string script_string h))

  unfoldable pub undefine_each : List Text → W → W
  undefine_each [] w = w
  undefine_each (c ∷ cs) w = undefine_each cs (rb.undefine_class c w)

  -- `LOCKDOWN` is a switch of the build.
  unfoldable pub lockdown_ruby : Bool → W → W
  lockdown_ruby lockdown w =
      let w' = rb.undef_kernel_method (codes "exit!") (rb.undef_kernel_method (codes "exit") w) in
      if lockdown
      then undefine_each classes_to_undefine (rb.undef_kernel_method (codes "open") w')
      else w'

  -- The classes, once the runtime is set up.
  unfoldable pub open_runtime : Bool → W → W
  open_runtime lockdown w =
      let w0 = if lockdown then rb.set_ext_filter extension_filter w else w in
      let w1 = rb.init_ext (rb.init_enc (rb.init_loadpath w0)) in
      let w2 = rb.define_singleton_method (codes "stdout") (codes "write") w1 in
      let w3 = rb.define_singleton_method (codes "stderr") (codes "write") w2 in
      let w4 = rb.define_singleton_method (codes "stdin") (codes "gets") w3 in
      let w5 = rb.init_module (codes "Thread") (rb.init_module (codes "DbgScript") w4) in
      let w6 = rb.init_module (codes "TypedObject") (rb.init_module (codes "StackFrame") w5) in
      lockdown_ruby lockdown w6

  unfoldable pub ruby_start_vm : Bool → Exec (Host W) (Unit {0})
  ruby_start_vm lockdown h =
      let (status, w) = rb.setup (rb.sysinit (rb.init_global_heap h.world)) in
      if not (status == 0)
      then (err e_fail, record h { world = w })
      else (ok tt, record h { world = open_runtime lockdown w })

  unfoldable pub ruby_stop_vm : Host W → Host W
  ruby_stop_vm h =
      let (status, w) = rb.cleanup h.world in
      let h' : Host W = record h { world = w } in
      on_world rb.cleanup_global_heap
        (if not (status == 0) then report (Diagnostic.ruby_cleanup_failed status) h' else h')

  unfoldable pub dbg_script_std_io_gets : Control W → UserInput W → Script W Text
  dbg_script_std_io_gets control input = unless_aborted control λ h.
      let (hr, (bytes, actual_len), w) = input 4096 h.world in
      give (c_string (write_at (replicate 4096 0) 0 bytes)) (record h { world = w })
