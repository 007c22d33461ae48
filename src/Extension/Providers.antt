-- ===== src/Extension/Providers.antt =====
-- The script providers of src/dllmain.cpp: how one is loaded, found and unloaded.
pub mod Ready
use dbgscript.Base.{
  ℕ, suc, zero, Bool, true, List, [], ◌∷◌, Option, none, some, not, ◌==◌, if◌then◌else◌, text_eq,
  codes, get_elem?, set,
}
use dbgscript.Console.{Text, Diagnostic}
use dbgscript.Exec.{Result, ok, err, HResult, failed, s_ok, e_fail, e_invalidarg}
use dbgscript.Host.{Host, report}
use dbgscript.Platform.{CopyText}
use dbgscript.Extension.{ScriptProviderInfo, Loader, ProviderCode}

-- What `*strrchr(path, '\\\\') = 0` leaves of a path: what stands before its last backslash.
unfoldable pub before_last : ℕ → Text → Option Text
before_last c [] = none
before_last c (x ∷ xs) =
    let rest = before_last c xs in
    elim rest [ some t ↦ some (x ∷ t) | none ↦ if x == c then some [] else none ]

module _ {W : Type 0} (copy : CopyText) (loader : Loader W) (code_of : ProviderCode W) where
  -- An action on a provider's record, with the code that it ends by.
  abbrev pub OnProvider : Type 0
  OnProvider = ScriptProviderInfo → Host W → HResult × ScriptProviderInfo × Host W

  unfoldable pub unload_script_provider : ScriptProviderInfo → Host W → ScriptProviderInfo × Host W
  unload_script_provider info h =
      if not (info.script_provider == 0)
      then (let h1 = code_of.cleanup info.script_provider h in
          let h2 = code_of.cleanup_dll info.cleanup_func h1 in
          (
            record info {
              script_provider = 0;
              handle = 0;
              create_func = 0;
              cleanup_func = 0;
              init_func = 0;
            },
            record h2 { world = loader.free_library info.handle h2.world },
          ))
      else (info, h)

  -- The loop over `x_CallbackBindings`, which stores what `GetProcAddress` gives before it is tested:
  -- the code, and whether it left by `goto exit`.
  unfoldable pub bind_callbacks : ScriptProviderInfo → W → Bool × HResult × ScriptProviderInfo
  bind_callbacks info w =
      let (f, hr) = loader.get_proc_address info.handle (codes "ScriptProviderInit") w in
      let (g, hr') = loader.get_proc_address info.handle (codes "ScriptProviderCleanup") w in
      let (k, hr'') = loader.get_proc_address info.handle (codes "ScriptProviderCreate") w in
      if f == 0
      then (true, hr, record info { init_func = f })
      else if g == 0
      then (true, hr', record info { init_func = f; cleanup_func = g })
      else (
        k == 0,
        if k == 0 then hr'' else s_ok,
        record info { init_func = f; cleanup_func = g; create_func = k },
      )

  -- From the call of the DLL's initialization on.
  unfoldable pub create_instance : OnProvider
  create_instance info h =
      let h1 = code_of.init_dll info.init_func h in
      let (instance_, h2) = code_of.create info.create_func h1 in
      let info' : ScriptProviderInfo = record info { script_provider = instance_ } in
      if instance_ == 0
      then (e_fail, info', h2)
      else (let (hr, h3) = code_of.init instance_ h2 in (hr, info', h3))

  unfoldable pub load_and_create_script_provider : OnProvider
  unfolding before_last
  load_and_create_script_provider info h = elim (before_last 92 (copy 260 info.dll_file_name).1) [
    | none ↦
        (e_invalidarg, info, report (Diagnostic.invalid_dll_path info.dll_file_name info.lang_id) h)
    | some dll_path ↦
        let (f_ok, hr, w) = loader.set_dll_directory dll_path h.world in
        if not f_ok
        then (hr, info, record h { world = w })
        else (let (m, hr', w') = loader.load_library info.dll_file_name w in
            let info' : ScriptProviderInfo = record info { handle = m } in
            let h' : Host W = record h { world = w' } in
            if m == 0
            then (hr', info', h')
            else (let (unbound, hr'', bound) = bind_callbacks info' w' in
                if unbound then (hr'', bound, h') else create_instance bound h'))
  ]

  unfoldable pub load_script_provider_if_needed : OnProvider
  load_script_provider_if_needed info h =
      if info.script_provider == 0 then load_and_create_script_provider info h else (s_ok, info, h)

  unfoldable pub unload_all_script_providers :
      List ScriptProviderInfo → Host W → List ScriptProviderInfo × Host W
  unload_all_script_providers [] h = ([], h)
  unload_all_script_providers (info ∷ infos) h =
      let (info', h') = unload_script_provider info h in
      let (infos', h'') = unload_all_script_providers infos h' in (info' ∷ infos', h'')

-- The first provider of a language, with its place in the list.
unfoldable pub provider_at : Text → List ScriptProviderInfo → Option (ℕ × ScriptProviderInfo)
provider_at lang_id [] = none
provider_at lang_id (info ∷ infos) =
    let rest = provider_at lang_id infos in
    if text_eq info.lang_id lang_id
    then some (0, info)
    else elim rest [ some (k, found) ↦ some (suc k, found) | none ↦ none ]

-- `findScriptProvider`: both callers pass the array `LangId`, so the test of its address holds. The
-- place stands for the pointer.
unfoldable pub find_script_provider :
    {W : Type 0}
    → Text
    → List ScriptProviderInfo
    → Host W
    → Result (ℕ × ScriptProviderInfo) × Host W
unfolding provider_at
find_script_provider lang_id infos h = elim (provider_at lang_id infos) [
  | some found ↦ (ok found, h)
  | none ↦ (err e_invalidarg, report (Diagnostic.no_such_provider lang_id) h)
]
