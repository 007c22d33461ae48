-- ===== src/Extension.antt =====
-- The state of the host DLL, src/dllmain.cpp: the interfaces that it holds, the script providers that
-- it has registered, and the code that it calls behind them.
pub mod Ifaces
pub mod Providers
pub mod Registration
pub mod ScriptPath
pub mod Commands
use dbgscript.Base.{ℕ, List, Bool, Option}
use dbgscript.Console.{Text}
use dbgscript.Exec.{HResult}
use dbgscript.Host.{Host}

-- The interface pointers of `DbgScriptHostContext`, by their address, with 0 for null.
pub record Pointers : Type 0 where
  pub debug_client : ℕ
  pub debug_control : ℕ
  pub debug_sys_obj : ℕ
  pub debug_symbols : ℕ
  pub debug_advanced : ℕ
  pub debug_data_spaces : ℕ

-- `struct ScriptProviderInfo`, by the addresses that it holds, without its memory statistics.
pub record ScriptProviderInfo : Type 0 where
  pub dll_file_name : Text
  pub lang_id : Text
  pub handle : ℕ
  pub init_func : ℕ
  pub cleanup_func : ℕ
  pub create_func : ℕ
  pub script_provider : ℕ

pub record Extension (W : Type 0) : Type 0 where
  -- `HModule`
  pub h_module : ℕ
  pub pointers : Pointers
  pub host : Host W
  -- the list `ScriptProviders`, head first
  pub script_providers : List ScriptProviderInfo
  pub start_vm_enabled : Bool

-- IUnknown, on the addresses of interfaces: `QueryInterface` for the interface of a number, and
-- `Release`.
pub record Com (W : Type 0) : Type 0 where
  pub query_interface : ℕ → ℕ → W → HResult × ℕ × W
  pub release : ℕ → W → W

-- The loader of Windows. A call that fails comes with the HRESULT of the last error.
pub record Loader (W : Type 0) : Type 0 where
  pub set_dll_directory : Text → W → Bool × HResult × W
  pub load_library : Text → W → ℕ × HResult × W
  pub get_proc_address : ℕ → Text → W → ℕ × HResult
  pub free_library : ℕ → W → W

-- The code of the provider DLLs, by the addresses of its functions and of its instances. It runs on
-- the whole host context.
pub record ProviderCode (W : Type 0) : Type 0 where
  pub init_dll : ℕ → Host W → Host W
  pub cleanup_dll : ℕ → Host W → Host W
  pub create : ℕ → Host W → ℕ × Host W
  -- the methods of IScriptProvider
  pub init : ℕ → Host W → HResult × Host W
  pub run : ℕ → List Text → Host W → HResult × Host W
  pub run_string : ℕ → Text → Host W → HResult × Host W
  pub cleanup : ℕ → Host W → Host W

-- What the commands take from the C runtime and from Windows.
pub record Runtime (W : Type 0) : Type 0 where
  -- `mbstowcs_s`
  pub widen : Text → Text
  -- `MultiByteToWideChar`: the room, the text, what is returned and what is written
  pub multi_byte_to_wide_char : ℕ → Text → ℕ × Text
  -- `CommandLineToArgvW`: no vector comes with the HRESULT of the last error
  pub command_line_to_argv : Text → Option (List Text) × HResult
  -- `GetTickCount`
  pub tick_count : W → ℕ
