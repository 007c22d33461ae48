-- ===== src/Functions.antt =====
-- The functions of the module that scripts import, in the words that the three dbgscript.cpp of
-- src/luaprov, src/pythonprov and src/rubyprov share: each takes how its language makes an object and
-- a number.
pub mod Unknown
use dbgscript.Base.{
  ℕ, zero, suc, ◌+◌, ◌-◌, Bool, true, false, Option, none, some, List, [], ◌∷◌, ◌==◌, if◌then◌else◌,
  c_string,
}
use dbgscript.Console.{Text}
use dbgscript.Exec.{HResult, failed, e_invalidarg, Reply, Result, ok, err, Exec}
use dbgscript.Engine.{SystemObjects, Client, Control, ModuleAndTypeId}
use dbgscript.Host.{Host}
use dbgscript.SymCache.{get_cached_symbol_type}
use dbgscript.TypeInfo.{util_get_field_offset, util_get_type_size, util_get_nearest_symbol}
use dbgscript.Frames.{DbgScriptThread, util_count_threads, util_enum_threads, util_get_peb}
use dbgscript.Execute.{util_execute_command}
use dbgscript.ReadString.{util_read_pointer}
use dbgscript.Script.{
  Outcome, returned, raised, ScriptError, call_failed, unknown_type, wrong_argument,
  pattern_not_found, Script, give, unless_aborted, ◌>>=◌, calling,
}
use dbgscript.TypedObject.{TypedObject}
use dbgscript.Objects.{Services, read_bytes}
use dbgscript.Values.{Value, text}

-- What the functions call besides what objects do.
pub record ModuleServices (W : Type 0) : Type 0 where
  pub objects : Services W
  pub sys : SystemObjects W
  pub client : Client W
  -- `GetCurrentThreadSystemId`, `GetOffsetByName` and `GetConstantName`
  pub current_thread_system_id : W → Reply ℕ
  pub offset_by_name : Text → W → Reply ℕ
  pub constant_name : ModuleAndTypeId → ℕ → W → Reply Text
  -- `SearchVirtual`: start, size, pattern and granularity
  pub search_virtual : ℕ → ℕ → Text → ℕ → W → Reply ℕ
  -- "%#I64x"
  pub hex : ℕ → Text

-- `HRESULT_FROM_NT(STATUS_NO_MORE_ENTRIES)`
abbrev pub no_more_entries : HResult
no_more_entries = 0x9000001A

-- How a language makes an object: size, name, type id, module base, address, and whether the object
-- is a pointer.
abbrev pub Allocate : Type 0 → Type 0
Allocate W = ℕ → Option Text → ℕ → ℕ → ℕ → Bool → Script W TypedObject

abbrev pub asking : {W A : Type 0} → (W → Reply A) → Script W A
asking call h =
    let (hr, a) = call h.world in (if failed hr then raised (call_failed hr) else returned a, h)

-- The two lists, an object for each place.
abbrev pub threads_of : List ℕ → List ℕ → List DbgScriptThread
threads_of (e ∷ es) (s ∷ ss) = record { engine_id = e; thread_id = s } ∷ threads_of es ss
threads_of _ _ = []

-- The out-parameters start at 0, which a success that does not write them leaves there.
abbrev pub or_zero : (ℕ → Value) → Option ℕ → Value
or_zero num (some n) = num n
or_zero num none = num 0

module _ {W : Type 0} (svc : ModuleServices W) (alloc : Allocate W) (num : ℕ → Value) where
  abbrev objects_ : Services W
  objects_ = svc.objects

  -- The type of a name, or an error.
  unfoldable pub typed : Text → (ModuleAndTypeId → Script W TypedObject) → Script W TypedObject
  typed name then_ h =
      let (info, h') = get_cached_symbol_type objects_.syms name h in
      elim info [ some i ↦ then_ i h' | none ↦ (raised (unknown_type name), h') ]

  unfoldable pub create_typed : Text → ℕ → Bool → Script W TypedObject
  create_typed type_name addr want_pointer =
      unless_aborted objects_.control
        (typed type_name λ i. alloc 0 none i.type_id i.module_base addr want_pointer)

  unfoldable pub exec_command : Text → Script W (Unit {0})
  exec_command command =
      unless_aborted objects_.control
        (calling (util_execute_command objects_.copy svc.client objects_.control command))

  unfoldable pub current_thread : Script W DbgScriptThread
  current_thread = unless_aborted objects_.control (
      asking svc.sys.current_thread_id >>= λ e.
      asking svc.current_thread_system_id >>= λ s. give (record { engine_id = e; thread_id = s }))

  unfoldable pub get_threads : Script W (List DbgScriptThread)
  get_threads = unless_aborted objects_.control (
      calling (util_count_threads svc.sys) >>= λ n.
      calling (util_enum_threads svc.sys n) >>= λ ids. give (threads_of ids.0 ids.1))

  unfoldable pub get_global : Text → Script W TypedObject
  get_global symbol = unless_aborted objects_.control (
      asking (svc.offset_by_name symbol) >>= λ addr.
      typed symbol λ i. alloc 0 (some symbol) i.type_id i.module_base addr false)

  unfoldable pub resolve_enum : Text → ℕ → Script W Value
  resolve_enum enum_type value = unless_aborted objects_.control λ h.
      let (info, h') = get_cached_symbol_type objects_.syms enum_type h in
      elim info [
        | none ↦ (raised (unknown_type enum_type), h')
        | some i ↦ (asking (svc.constant_name i value) >>= λ t. give (text t)) h'
      ]

  unfoldable pub read_ptr : ℕ → Script W Value
  read_ptr addr =
      unless_aborted objects_.control
        (asking (util_read_pointer objects_.spaces addr) >>= λ p. give (num p))

  unfoldable pub module_read_bytes : ℕ → ℕ → Script W Text
  module_read_bytes addr count = unless_aborted objects_.control (read_bytes objects_ addr count)

  unfoldable pub field_offset : Text → Text → Script W Value
  field_offset type field =
      unless_aborted objects_.control
        (calling (util_get_field_offset objects_.syms type field) >>= λ n. give (or_zero num n))

  unfoldable pub get_type_size : Text → Script W Value
  get_type_size type =
      unless_aborted objects_.control
        (calling (util_get_type_size objects_.syms type) >>= λ n. give (or_zero num n))

  unfoldable pub get_nearest_sym : ℕ → Script W Value
  get_nearest_sym addr = unless_aborted objects_.control λ h.
      let ((hr, name), h') = util_get_nearest_symbol objects_.syms objects_.copy svc.hex addr h in
      (if failed hr then raised (call_failed hr) else returned (text (c_string name)), h')

  unfoldable pub search_memory : ℕ → ℕ → Text → ℕ → Script W Value
  search_memory start size pattern granularity = unless_aborted objects_.control λ h.
      let (hr, match_addr) = svc.search_virtual start size pattern granularity h.world in
      if failed hr
      then (if hr == e_invalidarg
          then (raised wrong_argument, h)
          else if hr == no_more_entries
          then (raised pattern_not_found, h)
          else (raised (call_failed hr), h))
      else (returned (num match_addr), h)

  unfoldable pub get_peb : Script W Value
  get_peb = unless_aborted objects_.control (calling (util_get_peb svc.sys) >>= λ p. give (num p))
