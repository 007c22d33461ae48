-- ===== src/Extension/Providers/Ready.antt =====
-- Providers of src/dllmain.cpp with an instance, and what unloading them needs.
use dbgscript.Base.{◌≡◌, ◌≢◌, List, [], ◌∷◌, arith}
use dbgscript.Host.{Host}
use dbgscript.Platform.{CopyText}
use dbgscript.Extension.{ScriptProviderInfo, Loader, ProviderCode}
use dbgscript.Extension.Providers.{
  unload_script_provider, bind_callbacks, create_instance, load_and_create_script_provider,
  load_script_provider_if_needed, unload_all_script_providers,
}

-- The assertion of `unloadScriptProvider`, with the function that it calls.
abbrev pub IsReady : ScriptProviderInfo → Type 0
IsReady info =
    info.script_provider ≢ 0 → (info.handle ≢ 0) × (info.cleanup_func ≢ 0) × (info.create_func ≢ 0)

abbrev pub AllReady : List ScriptProviderInfo → Type 0
AllReady [] = Unit
AllReady (info ∷ infos) = IsReady info × AllReady infos

abbrev pub NoneLoaded : List ScriptProviderInfo → Type 0
NoneLoaded [] = Unit
NoneLoaded (info ∷ infos) = (info.script_provider ≡ 0) × NoneLoaded infos

module _ {W : Type 0} (copy : CopyText) (loader : Loader W) (code_of : ProviderCode W) where
  pub unload-gone :
      (info : ScriptProviderInfo) (h : Host W)
      → (unload_script_provider copy loader code_of info h).0.script_provider ≡ 0
  unfolding unload_script_provider
  unload-gone info h = ground arith

  pub load-IsReady :
      (info : ScriptProviderInfo) (h : Host W)
      → IsReady info
      → IsReady (load_script_provider_if_needed copy loader code_of info h).1
  unfolding load_script_provider_if_needed load_and_create_script_provider bind_callbacks
      create_instance
  load-IsReady info h ready = ground arith

  pub unload_all-NoneLoaded :
      (infos : List ScriptProviderInfo) (h : Host W)
      → NoneLoaded (unload_all_script_providers copy loader code_of infos h).0
  unfolding unload_all_script_providers
  unload_all-NoneLoaded [] h = tt
  unload_all-NoneLoaded (info ∷ infos) h = (
    unload-gone info h,
    unload_all-NoneLoaded infos (unload_script_provider copy loader code_of info h).1,
  )
