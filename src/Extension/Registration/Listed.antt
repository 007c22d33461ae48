-- ===== src/Extension/Registration/Listed.antt =====
-- What registerScriptProviders and DebugExtensionUninitialize of src/dllmain.cpp leave behind.
use dbgscript.Base.{
  ℕ, zero, suc, ◌+◌, ◌%◌, ◌<◌, ◌≡◌, refl, ap, ◌∙◌, false, some, List, [], ◌∷◌, ◌++◌, arith, length,
  length-append, ◌==◌, text_eq, text_eq_refl,
}
use dbgscript.Console.{Text}
use dbgscript.Exec.{s_ok}
use dbgscript.Host.{Host}
use dbgscript.Platform.{CopyText}
use dbgscript.Extension.{ScriptProviderInfo, Extension, Com, Loader, ProviderCode}
use dbgscript.Extension.Ifaces.{release_dbg_eng_ifaces}
use dbgscript.Extension.Providers.{unload_all_script_providers, provider_at}
use dbgscript.Extension.Registration.{
  RegValue, Registry, reg_sz, info_of, register_from, finish_registration,
  register_script_providers, unload_each, cleanup_script_providers, debug_extension_uninitialize,
}

-- The key holds these values from an index on, and then no more.
abbrev pub Enumerates : {W : Type 0} → Registry W → W → ℕ → List RegValue → Type 0
Enumerates reg w idx [] = (reg.enum_value idx w).0 ≡ 259
Enumerates reg w idx (v ∷ vs) =
    (reg.enum_value idx w ≡ (0, v)) × Enumerates reg w ((idx + 1) % 0x100000000) vs

abbrev pub AllStrings : List RegValue → Type 0
AllStrings [] = Unit
AllStrings (v ∷ vs) = (v.val_type ≡ reg_sz) × AllStrings vs

-- No value registers the language.
abbrev pub NoneNamed : CopyText → Text → List RegValue → Type 0
NoneNamed copy lang [] = Unit
NoneNamed copy lang (v ∷ vs) =
    (text_eq (copy 64 v.val_name).1 lang ≡ false) × NoneNamed copy lang vs

-- Each value's provider, put before the ones that stand there.
abbrev pushed : CopyText → List RegValue → List ScriptProviderInfo → List ScriptProviderInfo
pushed copy [] infos = infos
pushed copy (v ∷ vs) infos = pushed copy vs (info_of copy v ∷ infos)

pushed-append :
    (copy : CopyText) (before after : List RegValue) (infos : List ScriptProviderInfo)
    → pushed copy (before ++ after) infos ≡ pushed copy after (pushed copy before infos)
pushed-append copy [] after infos = refl
pushed-append copy (v ∷ vs) after infos = pushed-append copy vs after (info_of copy v ∷ infos)

-- Later values move a provider further back, and hide it only under its own language.
provider_at-pushed :
    (copy : CopyText) (lang : Text) (after : List RegValue) (infos : List ScriptProviderInfo)
    (k : ℕ)
    → (found : ScriptProviderInfo) → provider_at lang infos ≡ some (k, found)
    → NoneNamed copy lang after
    → provider_at lang (pushed copy after infos) ≡ some (length after + k, found)
provider_at-pushed copy lang [] infos k found e others = e ∙ ap (λ n. some (n, found)) (omega arith)
provider_at-pushed copy lang (v ∷ vs) infos k found e (other, others) =
    let next : provider_at lang (info_of copy v ∷ infos) ≡ some (suc k, found) =
      unfold provider_at in rw (other, e) refl in
    provider_at-pushed copy lang vs (info_of copy v ∷ infos) (suc k) found next others
    ∙ ap (λ n. some (n, found)) (omega arith)

provider_at-head :
    (info : ScriptProviderInfo) (infos : List ScriptProviderInfo)
    → provider_at info.lang_id (info ∷ infos) ≡ some (0, info)
unfolding provider_at
provider_at-head info infos = rw (text_eq_refl info.lang_id) refl

module _ {W : Type 0} (copy : CopyText) (reg : Registry W) where
  register_from-strings :
      (fuel idx : ℕ) (vals : List RegValue) (infos : List ScriptProviderInfo) (h : Host W)
      → Enumerates reg h.world idx vals
      → AllStrings vals
      → length vals < fuel
      → register_from copy reg fuel idx infos h ≡ some (s_ok, pushed copy vals infos, h)
  unfolding register_from
  register_from-strings zero idx vals infos h listed strings enough = absurd (omega arith)
  register_from-strings (suc fuel) idx [] infos h listed strings enough = rw listed refl
  register_from-strings (suc fuel) idx (v ∷ vs) infos h (here, listed) (string, strings) enough =
      rw (here, string)
        (register_from-strings fuel ((idx + 1) % 0x100000000) vs (info_of copy v ∷ infos) h listed
          strings (omega arith))

  AllStrings-last :
      (before after : List RegValue) (v : RegValue)
      → AllStrings (before ++ v ∷ after)
      → AllStrings after
  AllStrings-last [] after v (s, ss) = ss
  AllStrings-last (b ∷ bs) after v (s, ss) = AllStrings-last bs after v ss

  length-pushed :
      (vals : List RegValue) (infos : List ScriptProviderInfo)
      → length (pushed copy vals infos) ≡ length vals + length infos
  length-pushed [] infos = omega arith
  length-pushed (v ∷ vs) infos = omega (arith, length-pushed vs (info_of copy v ∷ infos))

  -- If the key of the providers opens and holds these values, all strings, and no value behind `v`
  -- is cut to its language: with a round for each value and one more, the registration succeeds,
  -- closes the key, adds a provider for each value, and the language of `v` then finds the provider
  -- of `v`, behind one for each later value.
  pub register_finds_last :
      (before after : List RegValue) (v : RegValue) (infos : List ScriptProviderInfo) (h : Host W)
      → (fuel : ℕ)
      → let opened : W = (reg.open_key h.world).1 in
        (reg.open_key h.world).0 ≡ 0
        → Enumerates reg opened 0 (before ++ v ∷ after)
        → AllStrings (before ++ v ∷ after)
        → NoneNamed copy (copy 64 v.val_name).1 after
        → length (before ++ v ∷ after) < fuel
        → (infos' : List ScriptProviderInfo) × (register_script_providers copy reg fuel infos h
            ≡ some (s_ok, infos', record h { world = reg.close_key opened }))
          × (length infos' ≡ length (before ++ v ∷ after) + length infos)
          × (provider_at (copy 64 v.val_name).1 infos' ≡ some (length after, info_of copy v))
  unfolding register_script_providers finish_registration
  register_finds_last before after v infos h fuel open_ listed strings others enough =
      let vals : List RegValue = before ++ v ∷ after in
      let opened : Host W = record h { world = (reg.open_key h.world).1 } in
      let count : length (pushed copy vals infos) ≡ length vals + length infos =
        length-pushed vals infos in
      let some_ : (length (pushed copy vals infos) == 0) ≡ false =
        ground (arith, count, length-append before (v ∷ after)) in
      let under : List ScriptProviderInfo = pushed copy before infos in
      let found : provider_at (copy 64 v.val_name).1 (pushed copy vals infos)
          ≡ some (length after + 0, info_of copy v) =
        rw (pushed-append copy before (v ∷ after) infos) (
          provider_at-pushed copy (copy 64 v.val_name).1 after (info_of copy v ∷ under) 0
            (info_of copy v) (provider_at-head (info_of copy v) under) others) in
      (
        pushed copy vals infos,
        rw (open_, register_from-strings fuel 0 vals infos opened listed strings enough, some_)
            refl,
        count,
        found ∙ ap (λ n. some (n, info_of copy v)) (omega arith),
      )

module _ {W : Type 0} (copy : CopyText) (loader : Loader W) (code_of : ProviderCode W) where
  unload_each-unload_all :
      (infos : List ScriptProviderInfo) (h : Host W)
      → unload_each copy loader code_of infos h
        ≡ (unload_all_script_providers copy loader code_of infos h).1
  unfolding unload_each unload_all_script_providers
  unload_each-unload_all [] h = refl
  unload_each-unload_all (info ∷ infos) h = unload_each-unload_all infos _

  pub uninitialize_clears :
      (ole : Com W) (e : Extension W)
      → let e' : Extension W = debug_extension_uninitialize copy loader code_of ole e in
        let h : Host W =
          (unload_all_script_providers copy loader code_of e.script_providers e.host).1 in
        (e'.script_providers ≡ [])
        × (e'.pointers ≡ record {
          debug_client = 0;
          debug_control = 0;
          debug_sys_obj = 0;
          debug_symbols = 0;
          debug_advanced = 0;
          debug_data_spaces = 0;
        })
        × (e'.host ≡ record h { world = (release_dbg_eng_ifaces ole (e.pointers, h.world)).1 })
  unfolding debug_extension_uninitialize cleanup_script_providers release_dbg_eng_ifaces
  uninitialize_clears ole e =
      (refl, refl, rw (unload_each-unload_all e.script_providers e.host) refl)
