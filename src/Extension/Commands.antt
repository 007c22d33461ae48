-- ===== src/Extension/Commands.antt =====
-- The commands runscript, evalstring, startvm and stopvm of src/dllmain.cpp.
pub mod Unbuffered
pub mod Clean
pub mod Stages
pub mod Session
use dbgscript.Base.{
  ℕ, zero, ◌+◌, ◌-◌, ◌%◌, ◌^◌, Bool, true, false, Option, none, some, List, [], ◌∷◌, not, ltb, ◌&&◌,
  if◌then◌else◌, set,
}
use dbgscript.Console.{
  Text, Message, Console, Diagnostic, diagnosed, execution_time, evaluating, print,
  util_flush_message_buffer,
}
use dbgscript.Exec.{HResult, failed, s_ok, e_fail, e_invalidarg, e_outofmemory, Result, ok, err}
use dbgscript.Host.{Host, report}
use dbgscript.Platform.{CopyText}
use dbgscript.Cmdline.{ParsedArgs, Parsed, no_args, parse_args}
use dbgscript.Extension.{ScriptProviderInfo, Extension, Com, Loader, ProviderCode, Runtime}
use dbgscript.Extension.Ifaces.{re_acquire_ifaces_if_needed}
use dbgscript.Extension.Providers.{
  unload_script_provider, load_script_provider_if_needed, unload_all_script_providers,
  find_script_provider,
}

-- How a command ends: its code, the place of the provider that it initialized, and the state.
abbrev pub Stage : Type 0 → Type 0
Stage W = HResult × Option (ℕ × ScriptProviderInfo) × Extension W

module _ {W : Type 0} where
  abbrev pub with_host : (Host W → Host W) → Extension W → Extension W
  with_host f e = record e { host = f e.host }

  abbrev pub say : Message → Extension W → Extension W
  say line = with_host λ h. record h { console = print line h.console }

  abbrev pub complain : Diagnostic → Extension W → Extension W
  complain d = with_host (report d)

  -- A provider's record is written back to its place.
  abbrev pub write_back : ℕ → ScriptProviderInfo → Host W → Extension W → Extension W
  write_back k info h e = record e { host = h; script_providers = set e.script_providers k info }

module _ {W : Type 0} (ole : Com W) (copy : CopyText) (loader : Loader W) (code_of : ProviderCode W)
    (runtime : Runtime W) where
  unfoldable pub util_convert_ansi_to_wide : Text → Option Text
  util_convert_ansi_to_wide ansi_str =
      let (cch_buf, _) = runtime.multi_byte_to_wide_char 0 ansi_str in
      let (ret, wide_buf) = runtime.multi_byte_to_wide_char cch_buf ansi_str in
      if ltb 0 ret then some wide_buf else none

  -- The start that every command shares.
  unfoldable pub re_acquired : ℕ → Extension W → HResult × Extension W
  re_acquired client e =
      let (r, (p, w)) = re_acquire_ifaces_if_needed ole client (e.pointers, e.host.world) in
      (
        elim r [ ok _ ↦ s_ok | err hr ↦ hr ],
        record e { pointers = p; host = record (e.host) { world = w } },
      )

  -- `ParseArgs` on a copy of the arguments. The first case stands for fuel that has run out.
  unfoldable pub parsed : Text → Extension W → Result ParsedArgs × Extension W
  parsed args e = elim (parse_args runtime.widen args no_args e.host.console) [
    | none ↦ (err e_fail, e)
    | some (r, c) ↦ (r, with_host (λ h. record h { console = c }) e)
  ]

  -- After `findScriptProvider`: `loadScriptProviderIfNeeded`, and `rest` once it has succeeded;
  -- `skip` ends before the load, with success.
  unfoldable pub load_found :
      Bool
      → Result (ℕ × ScriptProviderInfo) × Host W
      → Extension W
      → (ℕ → ScriptProviderInfo → Extension W → Stage W)
      → Stage W
  load_found skip (err hr, h) e rest = (hr, none, record e { host = h })
  load_found true (ok (k, info), h) e rest = (s_ok, none, record e { host = h })
  load_found false (ok (k, info), h) e rest =
      let (hr, info', h') = load_script_provider_if_needed copy loader code_of info h in
      let e' : Extension W = write_back k info' h' e in
      if failed hr then (hr, none, e') else rest k info' e'

  unfoldable pub loaded :
      Bool → Text → Extension W → (ℕ → ScriptProviderInfo → Extension W → Stage W) → Stage W
  loaded skip lang_id e rest =
      load_found skip (find_script_provider lang_id e.script_providers e.host) e rest

  -- From the conversion of the script's arguments to the report of the time.
  unfoldable pub run_loaded : ParsedArgs → ℕ → ℕ → ScriptProviderInfo → Extension W → Stage W
  run_loaded args start_time k info e =
      let on : Option (ℕ × ScriptProviderInfo) = some (k, info) in
      elim (util_convert_ansi_to_wide args.remaining_args) [
        | none ↦ (e_outofmemory, on, complain Diagnostic.failed_convert_args e)
        | some wide ↦
            let (vector, last) = runtime.command_line_to_argv wide in
            elim vector [
              | none ↦ (last, on, complain (Diagnostic.failed_parse_args last) e)
              | some arg_list ↦
                  let (hr, h) = code_of.run info.script_provider arg_list e.host in
                  let e' : Extension W = record e { host = h } in
                  let elapsed = (2 ^ 32 + runtime.tick_count h.world - start_time) % 2 ^ 32 in
                  (
                    hr,
                    on,
                    if not (failed hr) && args.time_run
                        then say (execution_time elapsed) e'
                        else e',
                  )
            ]
      ]

  -- `runscript`, before the label `exit`.
  unfoldable pub runscript_body : ℕ → Text → Extension W → Stage W
  runscript_body client args e =
      let (hr, e1) = re_acquired client e in
      if failed hr then (hr, none, e1) else elim args [
        | [] ↦ (e_invalidarg, none, complain Diagnostic.runscript_needs_argument e1)
        | c ∷ cs ↦
            let (r, e2) = parsed (c ∷ cs) e1 in
            elim r [
              | err hr' ↦ (hr', none, e2)
              | ok parsed_args ↦
                  loaded false parsed_args.lang_id e2
                    (run_loaded parsed_args (runtime.tick_count e2.host.world))
            ]
      ]

  -- The provider that a command has initialized is unloaded, without a VM.
  unfoldable pub unload_after : Bool → Option (ℕ × ScriptProviderInfo) → Extension W → Extension W
  unload_after vm none e = e
  unload_after vm (some (k, info)) e =
      let (info', h) = unload_script_provider copy loader code_of info e.host in
      if vm then e else write_back k info' h e

  -- `IsBuffering = 0; UtilFlushMessageBuffer(…)`
  abbrev pub stop_buffering : Host W → Host W
  stop_buffering h = record h {
    console = util_flush_message_buffer (record (h.console) { is_buffering = 0 });
  }

  unfoldable pub script_failed_line : HResult → Extension W → Extension W
  script_failed_line hr e = if failed hr then complain (Diagnostic.script_failed hr) e else e

  unfoldable pub runscript : ℕ → Text → Extension W → HResult × Extension W
  runscript client args e =
      let (hr, initialized, e1) = runscript_body client args e in
      let e2 = unload_after e.start_vm_enabled initialized e1 in
      (hr, script_failed_line hr (with_host stop_buffering e2))

  unfoldable pub eval_loaded : ParsedArgs → ℕ → ScriptProviderInfo → Extension W → Stage W
  eval_loaded args k info e =
      let e1 : Extension W = say (evaluating args.remaining_args) e in
      let (hr, h) = code_of.run_string info.script_provider args.remaining_args e1.host in
      (hr, some (k, info), record e1 { host = h })

  -- `evalstring`, before the label `exit`.
  unfoldable pub evalstring_body : ℕ → Text → Extension W → Stage W
  evalstring_body client args e =
      let (hr, e1) = re_acquired client e in
      if failed hr then (hr, none, e1) else elim args [
        | [] ↦ (e_invalidarg, none, complain Diagnostic.evalstring_needs_argument e1)
        | c ∷ cs ↦
            let (r, e2) = parsed (c ∷ cs) e1 in
            elim r [
              | err hr' ↦ (hr', none, e2)
              | ok parsed_args ↦
                  loaded (elim parsed_args.remaining_args [ [] ↦ true | _ ∷ _ ↦ false ])
                    parsed_args.lang_id e2 (eval_loaded parsed_args)
            ]
      ]

  unfoldable pub evalstring : ℕ → Text → Extension W → HResult × Extension W
  evalstring client args e =
      let (hr, initialized, e1) = evalstring_body client args e in
      (hr, script_failed_line hr (unload_after e.start_vm_enabled initialized e1))

  unfoldable pub startvm : ℕ → Extension W → HResult × Extension W
  startvm client e =
      let (hr, e1) = re_acquired client e in
      if failed hr
      then (hr, e1)
      else if e1.start_vm_enabled
      then (e_invalidarg, complain Diagnostic.vm_already_started e1)
      else (hr, record e1 { start_vm_enabled = true })

  unfoldable pub stopvm : ℕ → Extension W → HResult × Extension W
  stopvm client e =
      let (hr, e1) = re_acquired client e in
      if failed hr
      then (hr, e1)
      else if not e1.start_vm_enabled
      then (e_invalidarg, complain Diagnostic.vm_not_started e1)
      else (let (infos, h) =
            unload_all_script_providers copy loader code_of e1.script_providers e1.host in
          (hr, record e1 { host = h; script_providers = infos; start_vm_enabled = false }))
