-- ===== src/Extension/Registration.antt =====
-- registerScriptProviders, cleanupScriptProviders and the entry points of the extension in
-- src/dllmain.cpp: DebugExtensionInitialize, DebugExtensionUninitialize and DllMain.
pub mod Listed
use dbgscript.Base.{
  ℕ, zero, suc, ◌+◌, ◌%◌, Bool, Option, none, some, List, [], ◌∷◌, not, ◌==◌, ◌||◌, leb,
  if◌then◌else◌, length,
}
use dbgscript.Console.{Text, Diagnostic}
use dbgscript.Exec.{HResult, failed, s_ok, e_invalidarg, ok, err}
use dbgscript.Host.{Host, report}
use dbgscript.Platform.{CopyText}
use dbgscript.Extension.{ScriptProviderInfo, Extension, Com, Loader, ProviderCode}
use dbgscript.Extension.Ifaces.{acquire_dbg_eng_ifaces, release_dbg_eng_ifaces}
use dbgscript.Extension.Providers.{unload_script_provider}

-- What `RegEnumValue` fills in: the name of a value, its type, and its data read as a string.
pub record RegValue : Type 0 where
  pub val_name : Text
  pub val_type : ℕ
  pub data_text : Text

-- The key of the providers in the registry, by the Windows error codes of the calls. The index that
-- is asked for is a DWORD.
pub record Registry (W : Type 0) : Type 0 where
  pub open_key : W → ℕ × W
  pub enum_value : ℕ → W → ℕ × RegValue
  pub close_key : W → W

abbrev pub error_success : ℕ
error_success = 0

abbrev pub error_file_not_found : ℕ
error_file_not_found = 2

abbrev pub error_no_more_items : ℕ
error_no_more_items = 259

-- `HRESULT_FROM_WIN32`: zero and negative codes stay, the others get the facility of Windows.
abbrev pub hresult_from_win32 : ℕ → HResult
hresult_from_win32 ret = if (ret == 0) || leb 0x80000000 ret then ret else 0x80070000 + ret % 65536

-- `REG_SZ`
abbrev pub reg_sz : ℕ
reg_sz = 1

-- `new ScriptProviderInfo` with the two copies that registration makes, into
-- `LangId[64]` and `DllFileName[MAX_PATH + 1]`; the other members are null.
abbrev pub info_of : CopyText → RegValue → ScriptProviderInfo
info_of copy v = record {
  dll_file_name = (copy 261 v.data_text).1;
  lang_id = (copy 64 v.val_name).1;
  handle = 0;
  init_func = 0;
  cleanup_func = 0;
  create_func = 0;
  script_provider = 0;
}

module _ {W : Type 0} (copy : CopyText) (reg : Registry W) where
  -- The loop over the values, from an index on: the code that it leaves by, the providers and the
  -- host. The first number bounds the rounds; `none` is a loop that has not ended by then.
  unfoldable pub register_from :
      ℕ → ℕ → List ScriptProviderInfo → Host W → Option (HResult × List ScriptProviderInfo × Host W)
  register_from zero idx infos h = none
  register_from (suc fuel) idx infos h =
      let (ret, v) = reg.enum_value idx h.world in
      let rest = register_from fuel ((idx + 1) % 0x100000000) (info_of copy v ∷ infos) h in
      if ret == error_no_more_items
      then some (s_ok, infos, h)
      else if not (ret == error_success)
      then some (hresult_from_win32 ret, infos, h)
      else if not (v.val_type == reg_sz)
      then some (e_invalidarg, infos, report (Diagnostic.provider_value_not_string v.val_name) h)
      else rest

  -- What stands behind the loop: an empty list is an error, and the key is closed on every exit.
  unfoldable pub finish_registration :
      HResult → List ScriptProviderInfo → Host W → HResult × List ScriptProviderInfo × Host W
  finish_registration hr infos h =
      let closed : Host W = record h { world = reg.close_key h.world } in
      let told : Host W = report Diagnostic.no_providers_found h in
      if failed hr || not (length infos == 0)
      then (hr, infos, closed)
      else (e_invalidarg, infos, record told { world = reg.close_key told.world })

  unfoldable pub register_script_providers :
      ℕ → List ScriptProviderInfo → Host W → Option (HResult × List ScriptProviderInfo × Host W)
  register_script_providers fuel infos h =
      let (ret, w) = reg.open_key h.world in
      let opened : Host W = record h { world = w } in
      if not (ret == error_success)
      then some (
        hresult_from_win32 ret,
        infos,
        if ret == error_file_not_found
            then report Diagnostic.provider_key_not_found opened
            else opened,
      )
      else elim (register_from fuel 0 infos opened) [
        | none ↦ none
        | some (hr, infos', h') ↦ some (finish_registration hr infos' h')
      ]

module _ {W : Type 0} (copy : CopyText) (loader : Loader W) (code_of : ProviderCode W) where
  -- The loop of `cleanupScriptProviders`, which deletes each element after it is unloaded.
  unfoldable pub unload_each : List ScriptProviderInfo → Host W → Host W
  unload_each [] h = h
  unload_each (info ∷ infos) h =
      unload_each infos (unload_script_provider copy loader code_of info h).1

  unfoldable pub cleanup_script_providers : Extension W → Extension W
  cleanup_script_providers e = record e {
    host = unload_each e.script_providers e.host;
    script_providers = [];
  }

  -- The pointers are released after the providers are gone.
  unfoldable pub debug_extension_uninitialize : Com W → Extension W → Extension W
  debug_extension_uninitialize ole e =
      let e' : Extension W = cleanup_script_providers e in
      let (p, w) = release_dbg_eng_ifaces ole (e'.pointers, e'.host.world) in
      record e' { pointers = p; host = record (e'.host) { world = w } }

-- `DebugCreate` gives a client. `output_cb` is the address that `GetDbgScriptOutputCb` returns.
module _ {W : Type 0} (ole : Com W) (copy : CopyText) (reg : Registry W)
    (debug_create : W → HResult × ℕ × W) (output_cb : ℕ) where
  -- From the registration on.
  unfoldable pub register_into : ℕ → Extension W → Option (HResult × Extension W)
  register_into fuel e = elim (register_script_providers copy reg fuel e.script_providers e.host) [
    | none ↦ none
    | some (hr, infos, h) ↦ some (hr, record e { host = h; script_providers = infos })
  ]

  -- The version and the flags that it hands out are always 1.0 and 0.
  unfoldable pub debug_extension_initialize : ℕ → Extension W → Option (HResult × Extension W)
  debug_extension_initialize fuel e =
      let (hr, client, w) = debug_create e.host.world in
      if failed hr
      then some (hr, record e { host = record (e.host) { world = w } })
      else (let (r, (p, w')) = acquire_dbg_eng_ifaces ole client (e.pointers, w) in
          let e' : Extension W = record e { pointers = p; host = record (e.host) { world = w' } } in
          elim r [
            | err hr' ↦ some (hr', e')
            | ok _ ↦
                register_into fuel
                  (record e' { host = record (e'.host) { buffered_output_callbacks = output_cb } })
          ])

-- `DLL_PROCESS_ATTACH`
abbrev pub dll_process_attach : ℕ
dll_process_attach = 1

-- `DllMain`, on the module handle of the context: it always returns TRUE.
unfoldable pub dll_main : {W : Type 0} → ℕ → ℕ → Extension W → Extension W
dll_main hinst_dll fdw_reason e =
    if fdw_reason == dll_process_attach then record e { h_module = hinst_dll } else e
