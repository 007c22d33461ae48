-- ===== src/Extension/Commands/Stages.antt =====
-- The stages of runscript and evalstring of src/dllmain.cpp, for any property of the list of providers
-- that a load keeps.
use dbgscript.Base.{
  ℕ, ◌≡◌, refl, subst, sym, true, false, inl, inr, none, some, List, [], ◌∷◌, arith, set, Bool,
  Bool-cases,
}
use dbgscript.Console.{Text}
use dbgscript.Exec.{HResult, failed, Result, ok, err, Result-cases}
use dbgscript.Host.{Host}
use dbgscript.Cmdline.{ParsedArgs}
use dbgscript.Platform.{CopyText}
use dbgscript.Extension.{ScriptProviderInfo, Extension, Com, Loader, ProviderCode, Runtime}
use dbgscript.Extension.Providers.{
  provider_at, find_script_provider, load_script_provider_if_needed,
}
use dbgscript.Extension.Commands.{
  Stage, re_acquired, parsed, load_found, loaded, run_loaded, runscript_body, eval_loaded,
  evalstring_body, write_back, script_failed_line,
}

module _ {W : Type 0} (ole : Com W) (copy : CopyText) (loader : Loader W) (code_of : ProviderCode W)
    (runtime : Runtime W) where
  -- `keeps` is what the providers keep, and `one` what holds of them and of the one that has just
  -- been loaded.
  abbrev pub StageKeeps :
      (List ScriptProviderInfo → Type 0)
      → (ℕ → ScriptProviderInfo → List ScriptProviderInfo → Type 0)
      → Stage W
      → Type 0
  StageKeeps keeps one s =
      (s.1 ≡ none → keeps s.2.script_providers)
      × ((k : ℕ) (info : ScriptProviderInfo)
          → s.1 ≡ some (k, info)
          → one k info s.2.script_providers)

  -- Loading a provider that was found leads from the one to the other, or keeps the first if it fails.
  abbrev pub LoadKeeps :
      (List ScriptProviderInfo → Type 0)
      → (ℕ → ScriptProviderInfo → List ScriptProviderInfo → Type 0)
      → Type 0
  LoadKeeps keeps one =
      (lang_id : Text) (infos : List ScriptProviderInfo) (k : ℕ) (info : ScriptProviderInfo)
      (h : Host W)
      → keeps infos
      → provider_at lang_id infos ≡ some (k, info)
      → let (hr, info', h') = load_script_provider_if_needed copy loader code_of info h in
        (failed hr ≡ true → keeps (set infos k info'))
        × (failed hr ≡ false → one k info' (set infos k info'))

  pub re_acquired-same :
      (client : ℕ) (e : Extension W)
      → ((re_acquired ole copy loader code_of runtime client e).1.script_providers
          ≡ e.script_providers)
        × ((re_acquired ole copy loader code_of runtime client e).1.start_vm_enabled
            ≡ e.start_vm_enabled)
  unfolding re_acquired
  re_acquired-same client e = (refl, refl)

  parsed-same :
      (args : Text) (e : Extension W)
      → (parsed ole copy loader code_of runtime args e).1.script_providers ≡ e.script_providers
  unfolding parsed
  parsed-same args e = ground arith

  pub failed_line-same :
      (hr : HResult) (e : Extension W)
      → (script_failed_line ole copy loader code_of runtime hr e).script_providers
        ≡ e.script_providers
  unfolding script_failed_line
  failed_line-same hr e = ground arith

  run_loaded-same :
      (args : ParsedArgs) (start : ℕ) (k : ℕ) (info : ScriptProviderInfo) (e : Extension W)
      → let s : Stage W = run_loaded ole copy loader code_of runtime args start k info e in
        (s.1 ≡ some (k, info)) × (s.2.script_providers ≡ e.script_providers)
  unfolding run_loaded
  run_loaded-same args start k info e = (ground arith, ground arith)

module _ {W : Type 0} (ole : Com W) (copy : CopyText) (loader : Loader W) (code_of : ProviderCode W)
    (runtime : Runtime W) (keeps : List ScriptProviderInfo → Type 0)
    (one : ℕ → ScriptProviderInfo → List ScriptProviderInfo → Type 0)
    (load : LoadKeeps ole copy loader code_of runtime keeps one) where
  abbrev Keeps : Stage W → Type 0
  Keeps s = StageKeeps ole copy loader code_of runtime keeps one s

  -- What follows a load.
  abbrev RestKeeps : (ℕ → ScriptProviderInfo → Extension W → Stage W) → Type 0
  RestKeeps rest =
      (k : ℕ) (info : ScriptProviderInfo) (e : Extension W)
      → one k info e.script_providers
      → Keeps (rest k info e)

  load_found-Keeps :
      (skip : Bool) (lang_id : Text) (r : Result (ℕ × ScriptProviderInfo)) (h : Host W)
      (e : Extension W) (rest : ℕ → ScriptProviderInfo → Extension W → Stage W)
      → keeps e.script_providers
      → ((k : ℕ) (info : ScriptProviderInfo)
          → r ≡ ok (k, info)
          → provider_at lang_id e.script_providers ≡ some (k, info))
      → RestKeeps rest
      → Keeps (load_found ole copy loader code_of runtime skip (r, h) e rest)
  unfolding load_found
  load_found-Keeps skip lang_id (err hr) h e rest all at then_ = (λ none'. all, λ j found some'. cc)
  load_found-Keeps true lang_id (ok (k, info)) h e rest all at then_ =
      (λ none'. all, λ j found some'. cc)
  load_found-Keeps false lang_id (ok (k, info)) h e rest all at then_ =
      let r : HResult × ScriptProviderInfo × Host W =
        load_script_provider_if_needed copy loader code_of info h in
      let (failing, fine) = load lang_id e.script_providers k info h all (at k info refl) in
      elim (Bool-cases (failed r.0)) [
        | inl bad ↦ rw bad (λ none'. failing bad, λ j found some'. cc)
        | inr good ↦ rw good (then_ k r.1 (write_back k r.1 r.2 e) (fine good))
      ]

  find-at :
      (lang_id : Text) (infos : List ScriptProviderInfo) (h : Host W) (k : ℕ)
      (info : ScriptProviderInfo)
      → (find_script_provider lang_id infos h).0 ≡ ok (k, info)
      → provider_at lang_id infos ≡ some (k, info)
  unfolding find_script_provider
  find-at lang_id infos h k info e = grind arith

  loaded-Keeps :
      (skip : Bool) (lang_id : Text) (e : Extension W)
      (rest : ℕ → ScriptProviderInfo → Extension W → Stage W)
      → keeps e.script_providers
      → RestKeeps rest
      → Keeps (loaded ole copy loader code_of runtime skip lang_id e rest)
  unfolding loaded
  loaded-Keeps skip lang_id e rest all then_ =
      let r : Result (ℕ × ScriptProviderInfo) × Host W =
        find_script_provider lang_id e.script_providers e.host in
      load_found-Keeps skip lang_id r.0 r.1 e rest all
        (λ k info at. find-at lang_id e.script_providers e.host k info at) then_

  run_loaded-Keeps :
      (args : ParsedArgs) (start : ℕ)
      → RestKeeps (run_loaded ole copy loader code_of runtime args start)
  run_loaded-Keeps args start k info e holds =
      let (on, same) = run_loaded-same ole copy loader code_of runtime args start k info e in
      (
        λ none'. cc on,
        λ j found at.
            let which : (k, info) ≡ (j, found) = grind (arith, on, at) in
            subst (λ (q : (ℕ × ScriptProviderInfo) × List ScriptProviderInfo). one q.0.0 q.0.1 q.1)
              (λ i. (which i, sym same i)) holds,
      )

  eval_loaded-Keeps :
      (args : ParsedArgs) → RestKeeps (eval_loaded ole copy loader code_of runtime args)
  unfolding eval_loaded
  eval_loaded-Keeps args k info e holds = (
    λ none'. cc,
    λ j found at.
        let which : (k, info) ≡ (j, found) = grind (arith, at) in
        subst (λ (q : ℕ × ScriptProviderInfo). one q.0 q.1 e.script_providers) which holds,
  )

  started :
      (client : ℕ) (e : Extension W)
      → keeps e.script_providers
      → keeps (re_acquired ole copy loader code_of runtime client e).1.script_providers
  started client e all =
      subst (λ p. keeps p) (sym (re_acquired-same ole copy loader code_of runtime client e).0) all

  parsed_on :
      (client : ℕ) (args : Text) (e : Extension W)
      → keeps e.script_providers
      → let e1 : Extension W = (re_acquired ole copy loader code_of runtime client e).1 in
        keeps (parsed ole copy loader code_of runtime args e1).1.script_providers
  parsed_on client args e all =
      let e1 : Extension W = (re_acquired ole copy loader code_of runtime client e).1 in
      subst (λ p. keeps p) (sym (parsed-same ole copy loader code_of runtime args e1))
        (started client e all)

  pub runscript_body-Keeps :
      (client : ℕ) (args : Text) (e : Extension W)
      → keeps e.script_providers
      → Keeps (runscript_body ole copy loader code_of runtime client args e)
  unfolding runscript_body
  runscript_body-Keeps client [] e all =
      elim (Bool-cases (failed (re_acquired ole copy loader code_of runtime client e).0)) [
        | inl bad ↦ rw bad (λ none'. started client e all, λ j found some'. cc)
        | inr good ↦ rw good (λ none'. started client e all, λ j found some'. cc)
      ]
  runscript_body-Keeps client (c ∷ cs) e all =
      let e1 : Extension W = (re_acquired ole copy loader code_of runtime client e).1 in
      let e2 : Extension W = (parsed ole copy loader code_of runtime (c ∷ cs) e1).1 in
      let all2 : keeps e2.script_providers = parsed_on client (c ∷ cs) e all in
      elim (Bool-cases (failed (re_acquired ole copy loader code_of runtime client e).0)) [
        | inl bad ↦ rw bad (λ none'. started client e all, λ j found some'. cc)
        | inr good ↦
            rw good (elim (Result-cases (parsed ole copy loader code_of runtime (c ∷ cs) e1).0) [
              | inl (p, fine) ↦ rw fine (
                  loaded-Keeps false p.lang_id e2 _ all2
                    (run_loaded-Keeps p (runtime.tick_count e2.host.world)))
              | inr (hr, wrong) ↦ rw wrong (λ none'. all2, λ j found some'. cc)
            ])
      ]

  pub evalstring_body-Keeps :
      (client : ℕ) (args : Text) (e : Extension W)
      → keeps e.script_providers
      → Keeps (evalstring_body ole copy loader code_of runtime client args e)
  unfolding evalstring_body
  evalstring_body-Keeps client [] e all =
      elim (Bool-cases (failed (re_acquired ole copy loader code_of runtime client e).0)) [
        | inl bad ↦ rw bad (λ none'. started client e all, λ j found some'. cc)
        | inr good ↦ rw good (λ none'. started client e all, λ j found some'. cc)
      ]
  evalstring_body-Keeps client (c ∷ cs) e all =
      let e1 : Extension W = (re_acquired ole copy loader code_of runtime client e).1 in
      let e2 : Extension W = (parsed ole copy loader code_of runtime (c ∷ cs) e1).1 in
      let all2 : keeps e2.script_providers = parsed_on client (c ∷ cs) e all in
      elim (Bool-cases (failed (re_acquired ole copy loader code_of runtime client e).0)) [
        | inl bad ↦ rw bad (λ none'. started client e all, λ j found some'. cc)
        | inr good ↦
            rw good (elim (Result-cases (parsed ole copy loader code_of runtime (c ∷ cs) e1).0) [
              | inl (p, fine) ↦ rw fine (loaded-Keeps _ p.lang_id e2 _ all2 (eval_loaded-Keeps p))
              | inr (hr, wrong) ↦ rw wrong (λ none'. all2, λ j found some'. cc)
            ])
      ]
