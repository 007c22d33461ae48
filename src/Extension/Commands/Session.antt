-- ===== src/Extension/Commands/Session.antt =====
-- The script providers between the commands of src/dllmain.cpp, and the VM session.
use dbgscript.Base.{
  ℕ, zero, suc, ◌≡◌, refl, subst, sym, true, false, inl, inr, none, some, List, [], ◌∷◌, arith, set,
  Bool, Bool-cases, Option-cases, text_eq,
}
use dbgscript.Console.{Text}
use dbgscript.Exec.{HResult, failed}
use dbgscript.Platform.{CopyText}
use dbgscript.Extension.{ScriptProviderInfo, Extension, Com, Loader, ProviderCode, Runtime}
use dbgscript.Extension.Providers.{provider_at, load_script_provider_if_needed}
use dbgscript.Extension.Providers.Ready.{
  IsReady, AllReady, NoneLoaded, unload-gone, load-IsReady, unload_all-NoneLoaded,
}
use dbgscript.Extension.Commands.{
  Stage, re_acquired, runscript_body, unload_after, runscript, evalstring_body, evalstring, startvm,
  stopvm,
}
use dbgscript.Extension.Commands.Stages.{
  StageKeeps, LoadKeeps, runscript_body-Keeps, evalstring_body-Keeps, re_acquired-same,
  failed_line-same,
}

AllReady-set :
    (infos : List ScriptProviderInfo) (k : ℕ) (info : ScriptProviderInfo)
    → AllReady infos
    → IsReady info
    → AllReady (set infos k info)
AllReady-set [] k info all one = tt
AllReady-set (x ∷ xs) zero info all one = (one, all.1)
AllReady-set (x ∷ xs) (suc k) info all one = (all.0, AllReady-set xs k info all.1 one)

AllReady-provider_at :
    (lang_id : Text) (infos : List ScriptProviderInfo) (k : ℕ) (info : ScriptProviderInfo)
    → AllReady infos
    → provider_at lang_id infos ≡ some (k, info)
    → IsReady info
unfolding provider_at
AllReady-provider_at lang_id [] k info all e = cc
AllReady-provider_at lang_id (x ∷ xs) k info all e = elim (Bool-cases (text_eq x.lang_id lang_id)) [
  | inl here ↦ let same : x ≡ info = grind arith in subst (λ p. IsReady p) same all.0
  | inr there ↦ elim (Option-cases (provider_at lang_id xs)) [
    | inl nowhere ↦ grind arith
    | inr ((j, found), at) ↦
        let same : found ≡ info = grind arith in
        subst (λ p. IsReady p) same (AllReady-provider_at lang_id xs j found all.1 at)
  ]
]

NoneLoaded-AllReady : (infos : List ScriptProviderInfo) → NoneLoaded infos → AllReady infos
NoneLoaded-AllReady [] none' = tt
NoneLoaded-AllReady (x ∷ xs) none' =
    (λ loaded. absurd (loaded none'.0), NoneLoaded-AllReady xs none'.1)

module _ {W : Type 0} (ole : Com W) (copy : CopyText) (loader : Loader W) (code_of : ProviderCode W)
    (runtime : Runtime W) where
  -- Each provider is ready, and so is the one that has been loaded.
  abbrev OneReady : ℕ → ScriptProviderInfo → List ScriptProviderInfo → Type 0
  OneReady k info infos = AllReady infos × IsReady info

  load-Keeps : LoadKeeps ole copy loader code_of runtime AllReady OneReady
  load-Keeps lang_id infos k info h all at =
      let ready : IsReady (load_script_provider_if_needed copy loader code_of info h).1 =
        load-IsReady copy loader code_of info h
          (AllReady-provider_at lang_id infos k info all at) in
      let all' = AllReady-set infos k _ all ready in (λ bad. all', λ good. (all', ready))

  unload_after-AllReady :
      (vm : Bool) (s : Stage W)
      → StageKeeps ole copy loader code_of runtime AllReady OneReady s
      → AllReady (unload_after ole copy loader code_of runtime vm s.1 s.2).script_providers
  unfolding unload_after
  unload_after-AllReady vm (hr, none, e) all = all.0 refl
  unload_after-AllReady true (hr, some (k, info), e) all = (all.1 k info refl).0
  unload_after-AllReady false (hr, some (k, info), e) all =
      AllReady-set e.script_providers k _ (all.1 k info refl).0
        (λ loaded. absurd (loaded (unload-gone copy loader code_of info e.host)))

  runscript-AllReady :
      (client : ℕ) (args : Text) (e : Extension W)
      → AllReady e.script_providers
      → AllReady (runscript ole copy loader code_of runtime client args e).1.script_providers
  unfolding runscript
  runscript-AllReady client args e all =
      let s : Stage W = runscript_body ole copy loader code_of runtime client args e in
      subst (λ p. AllReady p) (sym (failed_line-same ole copy loader code_of runtime s.0 _))
        (unload_after-AllReady e.start_vm_enabled s (
          runscript_body-Keeps ole copy loader code_of runtime AllReady OneReady load-Keeps client
            args e all))

  evalstring-AllReady :
      (client : ℕ) (args : Text) (e : Extension W)
      → AllReady e.script_providers
      → AllReady (evalstring ole copy loader code_of runtime client args e).1.script_providers
  unfolding evalstring
  evalstring-AllReady client args e all =
      let s : Stage W = evalstring_body ole copy loader code_of runtime client args e in
      subst (λ p. AllReady p) (sym (failed_line-same ole copy loader code_of runtime s.0 _))
        (unload_after-AllReady e.start_vm_enabled s (
          evalstring_body-Keeps ole copy loader code_of runtime AllReady OneReady load-Keeps client
            args e all))

  startvm-same :
      (client : ℕ) (e : Extension W)
      → (startvm ole copy loader code_of runtime client e).1.script_providers ≡ e.script_providers
  unfolding startvm
  startvm-same client e = ground (arith, re_acquired-same ole copy loader code_of runtime client e)

  stopvm-AllReady :
      (client : ℕ) (e : Extension W)
      → AllReady e.script_providers
      → AllReady (stopvm ole copy loader code_of runtime client e).1.script_providers
  unfolding stopvm
  stopvm-AllReady client e all =
      let r : HResult × Extension W = re_acquired ole copy loader code_of runtime client e in
      let all1 : AllReady r.1.script_providers =
        subst (λ p. AllReady p) (sym (re_acquired-same ole copy loader code_of runtime client e).0)
          all in
      elim (Bool-cases (failed r.0)) [
        | inl bad ↦ rw bad all1
        | inr good ↦ elim (Bool-cases r.1.start_vm_enabled) [
          | inl on ↦
              rw (good, on)
                (NoneLoaded-AllReady _
                  (unload_all-NoneLoaded copy loader code_of r.1.script_providers r.1.host))
          | inr off ↦ rw (good, off) all1
        ]
      ]

  -- If every provider that has an instance also has a module and the functions that unloading it
  -- needs, then the same holds after each of the four commands, however it ends.
  pub commands-AllReady :
      (client : ℕ) (args : Text) (e : Extension W)
      → AllReady e.script_providers
      → AllReady (runscript ole copy loader code_of runtime client args e).1.script_providers
        × AllReady (evalstring ole copy loader code_of runtime client args e).1.script_providers
        × AllReady (startvm ole copy loader code_of runtime client e).1.script_providers
        × AllReady (stopvm ole copy loader code_of runtime client e).1.script_providers
  commands-AllReady client args e all = (
    runscript-AllReady client args e all,
    evalstring-AllReady client args e all,
    subst (λ p. AllReady p) (sym (startvm-same client e)) all,
    stopvm-AllReady client e all,
  )

  -- `!startvm` succeeds only without a session, starts one, and keeps the providers; `!stopvm`
  -- succeeds only in a session, ends it, and leaves no provider loaded. When either fails, the session
  -- is as it was.
  pub vm_session :
      (client : ℕ) (e : Extension W)
      → let (started, e1) = startvm ole copy loader code_of runtime client e in
        let (stopped, e2) = stopvm ole copy loader code_of runtime client e in
        (failed started ≡ false
          → (e.start_vm_enabled ≡ false)
            × (e1.start_vm_enabled ≡ true)
            × (e1.script_providers ≡ e.script_providers))
        × (failed started ≡ true → e1.start_vm_enabled ≡ e.start_vm_enabled)
        × (failed stopped ≡ false
            → (e.start_vm_enabled ≡ true)
              × (e2.start_vm_enabled ≡ false)
              × NoneLoaded e2.script_providers)
        × (failed stopped ≡ true
            → (e2.start_vm_enabled ≡ e.start_vm_enabled)
              × (e2.script_providers ≡ e.script_providers))
  unfolding startvm stopvm
  vm_session client e =
      let r : HResult × Extension W = re_acquired ole copy loader code_of runtime client e in
      let (same, flag) = re_acquired-same ole copy loader code_of runtime client e in
      let gone = unload_all-NoneLoaded copy loader code_of r.1.script_providers r.1.host in
      (
        λ good. (ground (arith, flag), ground (arith, flag), ground (arith, same)),
        λ bad. ground (arith, flag),
        λ good.
            let fine : failed r.0 ≡ false = ground arith in
            let on : r.1.start_vm_enabled ≡ true = ground arith in
            (ground (arith, flag), ground (arith, flag), rw (fine, on) gone),
        λ bad. (ground (arith, flag), ground (arith, same)),
      )
