-- ===== src/Extension/Commands/Clean.antt =====
-- runscript and evalstring of src/dllmain.cpp without a VM session: the providers that are loaded.
use dbgscript.Base.{
  ℕ, zero, suc, ◌≡◌, refl, subst, sym, true, false, inl, inr, none, some, List, [], ◌∷◌, arith, set,
  Bool, Bool-cases, Option-cases, text_eq,
}
use dbgscript.Console.{Text}
use dbgscript.Exec.{failed}
use dbgscript.Host.{Host}
use dbgscript.Platform.{CopyText}
use dbgscript.Extension.{ScriptProviderInfo, Extension, Com, Loader, ProviderCode, Runtime}
use dbgscript.Extension.Providers.{
  before_last, provider_at, bind_callbacks, create_instance, load_and_create_script_provider,
  load_script_provider_if_needed,
}
use dbgscript.Extension.Providers.Ready.{NoneLoaded, unload-gone}
use dbgscript.Extension.Commands.{
  Stage, runscript_body, unload_after, runscript, evalstring_body, evalstring,
}
use dbgscript.Extension.Commands.Stages.{
  StageKeeps, LoadKeeps, runscript_body-Keeps, evalstring_body-Keeps, failed_line-same,
}

NoneLoaded-set :
    (infos : List ScriptProviderInfo) (k : ℕ) (info : ScriptProviderInfo)
    → NoneLoaded infos
    → info.script_provider ≡ 0
    → NoneLoaded (set infos k info)
NoneLoaded-set [] k info all gone = tt
NoneLoaded-set (x ∷ xs) zero info all gone = (gone, all.1)
NoneLoaded-set (x ∷ xs) (suc k) info all gone = (all.0, NoneLoaded-set xs k info all.1 gone)

NoneLoaded-set-set :
    (infos : List ScriptProviderInfo) (k : ℕ) (info info' : ScriptProviderInfo)
    → NoneLoaded infos
    → info'.script_provider ≡ 0
    → NoneLoaded (set (set infos k info) k info')
NoneLoaded-set-set [] k info info' all gone = tt
NoneLoaded-set-set (x ∷ xs) zero info info' all gone = (gone, all.1)
NoneLoaded-set-set (x ∷ xs) (suc k) info info' all gone =
    (all.0, NoneLoaded-set-set xs k info info' all.1 gone)

NoneLoaded-provider_at :
    (lang_id : Text) (infos : List ScriptProviderInfo) (k : ℕ) (info : ScriptProviderInfo)
    → NoneLoaded infos
    → provider_at lang_id infos ≡ some (k, info)
    → info.script_provider ≡ 0
unfolding provider_at
NoneLoaded-provider_at lang_id [] k info all e = cc
NoneLoaded-provider_at lang_id (x ∷ xs) k info all e =
    elim (Bool-cases (text_eq x.lang_id lang_id)) [
      | inl here ↦
          let same : x ≡ info = grind arith in subst (λ p. p.script_provider ≡ 0) same all.0
      | inr there ↦ elim (Option-cases (provider_at lang_id xs)) [
        | inl nowhere ↦ grind arith
        | inr ((j, found), at) ↦
            let same : found ≡ info = grind arith in
            subst (λ p. p.script_provider ≡ 0) same
              (NoneLoaded-provider_at lang_id xs j found all.1 at)
      ]
    ]

-- The methods `Init` of the providers succeed.
abbrev pub InitSucceeds : {W : Type 0} → ProviderCode W → Type 0
InitSucceeds {W} code_of = (i : ℕ) (h : Host W) → failed (code_of.init i h).0 ≡ false

module _ {W : Type 0} (copy : CopyText) (loader : Loader W) (code_of : ProviderCode W)
    (good : InitSucceeds code_of) where
  create-fails :
      (info : ScriptProviderInfo) (h : Host W)
      → failed (create_instance copy loader code_of info h).0 ≡ true
      → (create_instance copy loader code_of info h).1.script_provider ≡ 0
  unfolding create_instance
  create-fails info h bad =
      let (instance_, h2) = code_of.create info.create_func (code_of.init_dll info.init_func h) in
      ground (arith, good instance_ h2)

  bind-same :
      (info : ScriptProviderInfo) (w : W)
      → (bind_callbacks copy loader code_of info w).2.script_provider ≡ info.script_provider
  unfolding bind_callbacks
  bind-same info w = ground arith

  -- A load that fails leaves no instance.
  load-fails :
      (info : ScriptProviderInfo) (h : Host W)
      → info.script_provider ≡ 0
      → failed (load_script_provider_if_needed copy loader code_of info h).0 ≡ true
      → (load_script_provider_if_needed copy loader code_of info h).1.script_provider ≡ 0
  unfolding load_script_provider_if_needed load_and_create_script_provider
  load-fails info h unloaded bad =
      elim (Option-cases (before_last 92 (copy 260 info.dll_file_name).1)) [
        | inl no_path ↦ ground (arith, no_path)
        | inr (path, at) ↦
            let (f_ok, hr, w) = loader.set_dll_directory path h.world in
            let (m, hr', w') = loader.load_library info.dll_file_name w in
            let info' : ScriptProviderInfo = record info { handle = m } in
            let bound : ScriptProviderInfo = (bind_callbacks copy loader code_of info' w').2 in
            ground (arith, at, bind-same info' w', create-fails bound (record h { world = w' }))
      ]

module _ {W : Type 0} (ole : Com W) (copy : CopyText) (loader : Loader W) (code_of : ProviderCode W)
    (runtime : Runtime W) where
  -- Unloading the provider that has been loaded leaves none.
  abbrev OneLoaded : ℕ → ScriptProviderInfo → List ScriptProviderInfo → Type 0
  OneLoaded k info infos =
      (x : ScriptProviderInfo) → x.script_provider ≡ 0 → NoneLoaded (set infos k x)

  load-Keeps : InitSucceeds code_of → LoadKeeps ole copy loader code_of runtime NoneLoaded OneLoaded
  load-Keeps good lang_id infos k info h all at =
      let unloaded : info.script_provider ≡ 0 =
        NoneLoaded-provider_at lang_id infos k info all at in
      let info' : ScriptProviderInfo =
        (load_script_provider_if_needed copy loader code_of info h).1 in
      (
        λ bad.
            NoneLoaded-set infos k info' all
              (load-fails copy loader code_of good info h unloaded bad),
        λ fine x gone. NoneLoaded-set-set infos k info' x all gone,
      )

  unload_after-NoneLoaded :
      (vm : Bool) (s : Stage W)
      → vm ≡ false
      → StageKeeps ole copy loader code_of runtime NoneLoaded OneLoaded s
      → NoneLoaded (unload_after ole copy loader code_of runtime vm s.1 s.2).script_providers
  unfolding unload_after
  unload_after-NoneLoaded vm (hr, none, e) off all = all.0 refl
  unload_after-NoneLoaded true (hr, some (k, info), e) off all = cc
  unload_after-NoneLoaded false (hr, some (k, info), e) off all =
      all.1 k info refl _ (unload-gone copy loader code_of info e.host)

  -- Without a VM session, and if the `Init` methods of the providers succeed: when no provider is
  -- loaded before `!runscript` or `!evalstring`, none is loaded after it, however it ends.
  pub runs-NoneLoaded :
      (client : ℕ) (args : Text) (e : Extension W)
      → InitSucceeds code_of
      → e.start_vm_enabled ≡ false
      → NoneLoaded e.script_providers
      → NoneLoaded (runscript ole copy loader code_of runtime client args e).1.script_providers
        × NoneLoaded (evalstring ole copy loader code_of runtime client args e).1.script_providers
  unfolding runscript evalstring
  runs-NoneLoaded client args e good off all =
      let run : Stage W = runscript_body ole copy loader code_of runtime client args e in
      let eval : Stage W = evalstring_body ole copy loader code_of runtime client args e in
      let load = load-Keeps good in
      (
        subst (λ p. NoneLoaded p) (sym (failed_line-same ole copy loader code_of runtime run.0 _))
            (unload_after-NoneLoaded e.start_vm_enabled run off (
              runscript_body-Keeps ole copy loader code_of runtime NoneLoaded OneLoaded load client
                args e all)),
        subst (λ p. NoneLoaded p) (sym (failed_line-same ole copy loader code_of runtime eval.0 _))
            (unload_after-NoneLoaded e.start_vm_enabled eval off (
              evalstring_body-Keeps ole copy loader code_of runtime NoneLoaded OneLoaded load client
                args e all)),
      )
