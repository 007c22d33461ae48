-- ===== src/Objects.antt =====
-- What the providers do with typed objects, in the words that their files share: src/luaprov,
-- src/pythonprov and src/rubyprov, each with a typedobject.cpp.
mod Calls
pub mod Access
pub mod Strings
use dbgscript.Base.{
  ℕ, zero, ◌*◌, ◌+◌, ◌/◌, Bool, Option, none, some, not, ◌==◌, ◌&&◌, ◌||◌, ◌-◌, ltb, if◌then◌else◌,
  codes, c_string,
}
use mathlib.Core.Option
use dbgscript.Console.{Text}
use dbgscript.Exec.{HResult, failed, Exec, Reply}
use dbgscript.Engine.{TypedData, Symbols, DataSpaces, Advanced, Control}
use dbgscript.Host.{Host}
use dbgscript.Platform.{CopyText}
use dbgscript.ReadString.{
  is_negative, util_read_ansi_string, util_read_wide_string, util_read_bytes,
}
use dbgscript.Script.{
  ScriptError, invalid_object, not_an_array, wrong_argument, call_failed, Outcome, returned, raised,
  Script, give, throw, calling,
}
use dbgscript.TypedObject.{
  TypedObject, sym_tag_array_type, OnObject, ds_wrap_typed_data, ds_initialize_typed_object,
  ds_typed_object_get_field, ds_typed_object_get_array_element, ds_typed_object_get_runtime_type,
}

-- What a provider calls.
pub record Services (W : Type 0) : Type 0 where
  pub control : Control W
  pub syms : Symbols W
  pub spaces : DataSpaces W
  pub adv : Advanced W
  pub copy : CopyText
  -- `malloc`, and the size of `EXT_TYPED_DATA`, as in TypedObject
  pub malloc : ℕ → ℕ → Bool
  pub header : ℕ
  -- the memory of an object that the runtime of a language has just allocated
  pub new_object : TypedObject
  -- `WideCharToMultiByte` to UTF-8: none is a failure, with the last error
  pub to_utf8 : Text → ℕ × Option Text

-- The name of array elements, `ARRAY_ELEM_NAME`.
abbrev pub array_elem_name : Text
array_elem_name = codes "<arr-elem>"

-- `MAX_READ_STRING_LEN`
abbrev pub max_read_string_len : ℕ
max_read_string_len = 2048

-- `!count || count > MAX_READ_STRING_LEN - 1`, on an `int` given by its bit pattern.
abbrev pub refuses : ℕ → Bool
refuses count = (count == 0) || (not (is_negative count) && ltb (max_read_string_len - 1) count)

abbrev pub or_code : {A B : Type 0} → (A → Outcome B) → Reply A → Outcome B
or_code f (hr, a) = if failed hr then raised (call_failed hr) else f a

-- `checkTypedData`, in front of the rest of a function.
abbrev pub checked : {W A : Type 0} → TypedObject → Script W A → Script W A
checked o rest h = if not o.typed_data_valid then (raised invalid_object, h) else rest h

module _ {W : Type 0} (svc : Services W) where
  -- A new object, filled by a call of the support library.
  abbrev pub filled : OnObject W → Script W TypedObject
  filled fill h =
      let (hr, o, h') = fill svc.new_object h in
      (if failed hr then raised (call_failed hr) else returned o, h')

  abbrev pub wrapped : Text → TypedData → Script W TypedObject
  wrapped name typed_data = filled (ds_wrap_typed_data svc.copy svc.syms name typed_data)

  abbrev pub initialized : ℕ → Option Text → ℕ → ℕ → ℕ → Bool → Script W TypedObject
  initialized size name type_id module_base virtual_address want_pointer = filled (
      ds_initialize_typed_object svc.copy svc.syms svc.adv size name type_id module_base
        virtual_address want_pointer)

  abbrev pub runtime_object : TypedObject → Script W TypedObject
  runtime_object o =
      filled (ds_typed_object_get_runtime_type svc.copy svc.syms svc.spaces svc.adv o)

  abbrev pub element : TypedObject → ℕ → Script W TypedData
  element o index = calling (ds_typed_object_get_array_element svc.adv o index)

  abbrev pub field : TypedObject → Text → Bool → Script W TypedData
  field o name print_missing =
      calling (ds_typed_object_get_field svc.adv svc.malloc svc.header o name print_missing)

  -- The number of elements from the element at 0, on C's terms: none is a division by zero.
  unfoldable pub count_elements : TypedObject → Host W → Option (Outcome ℕ) × Host W
  count_elements o h =
      let d : TypedData = o.typed_data in
      let (r, h') = element o 0 h in
      elim r [
        | raised e ↦ (some (raised e), h')
        | returned first ↦ (
          let f : TypedData = first in
              if f.size == 0 then none else some (returned (d.size / f.size)),
          h',
        )
      ]

  abbrev pub length_of : TypedObject → Host W → Option (Outcome ℕ) × Host W
  length_of o h =
      let d : TypedData = o.typed_data in
      if not o.typed_data_valid
      then (some (raised invalid_object), h)
      else if not (d.tag == sym_tag_array_type)
      then (some (raised not_an_array), h)
      else count_elements o h

  -- `LuaReadString`, `PyReadString` and `RbReadString`; none is a store out of bounds.
  unfoldable pub read_string : ℕ → ℕ → W → Option (Outcome Text)
  read_string addr count w =
      if refuses count
      then some (raised wrong_argument)
      else Option.map (λ r. or_code (λ buf. returned (c_string buf)) r)
          (util_read_ansi_string svc.spaces addr max_read_string_len count w)

  -- The wide string, before its conversion.
  unfoldable pub read_wide_string : ℕ → ℕ → W → Option (Outcome Text)
  read_wide_string addr count w =
      if refuses count
      then some (raised wrong_argument)
      else Option.map (λ r. or_code (λ buf. returned (c_string buf)) r)
          (util_read_wide_string svc.spaces addr max_read_string_len count w)

  abbrev pub utf8 : Outcome Text → Outcome Text
  utf8 (returned wide) = elim (svc.to_utf8 wide).1 [
    | some t ↦ returned t
    | none ↦ raised (call_failed (svc.to_utf8 wide).0)
  ]
  utf8 (raised e) = raised e

  -- The bytes read, at most `count`.
  unfoldable pub read_bytes : ℕ → ℕ → Script W Text
  read_bytes addr count h =
      (or_code (λ b. returned b) (util_read_bytes svc.spaces addr count h.world), h)
