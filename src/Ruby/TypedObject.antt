-- ===== src/Ruby/TypedObject.antt =====
-- Typed objects of Ruby: src/rubyprov/typedobject.cpp, and the reads of src/rubyprov/util.cpp.
use dbgscript.Base.{ℕ, ◌-◌, ◌^◌, ltb, Bool, true, false, Option, none, some, not, if◌then◌else◌}
use dbgscript.Console.{Text}
use dbgscript.Engine.{TypedData}
use dbgscript.Host.{Host}
use dbgscript.ReadString.{util_check_abort}
use dbgscript.Script.{
  Outcome, returned, raised, interrupted, invalid_object, no_such_method, out_of_range,
  wrong_argument, Script, give, unless_aborted, ◌>>=◌,
}
use dbgscript.TypedObject.{TypedObject}
use dbgscript.Objects.{
  Services, array_elem_name, wrapped, initialized, runtime_object, element, field, checked,
  length_of, read_string, read_wide_string, utf8, read_bytes,
}
use dbgscript.Values.{ℤ, negsuc, Value, number, text, pos}

-- A key of `[]`: a string, what converts to an integer, or neither.
pub data RbKey : Type 0 where
  int_key : ℤ → RbKey
  str_key : Text → RbKey
  other_key : RbKey

-- `NUM2INT`, sign-extended to the 64 bits of an index: `none` is a RangeError.
unfoldable pub num2int : ℤ → Option ℕ
num2int (pos n) = if ltb n (2 ^ 31) then some n else none
num2int (negsuc n) = if ltb n (2 ^ 31) then some (2 ^ 64 - 1 - n) else none

module _ {W : Type 0} (svc : Services W) where
  unfoldable pub alloc_typed_obj_from_typed_data : Text → TypedData → Script W TypedObject
  alloc_typed_obj_from_typed_data name typed_data = wrapped svc name typed_data

  unfoldable pub ruby_alloc_typed_object : ℕ → Option Text → ℕ → ℕ → ℕ → Bool → Script W TypedObject
  ruby_alloc_typed_object size name type_id module_base virtual_address want_pointer =
      initialized svc size name type_id module_base virtual_address want_pointer

  unfoldable pub ruby_typed_object_deref : TypedObject → Script W TypedObject
  ruby_typed_object_deref o =
      unless_aborted svc.control
        (checked o (element svc o 0 >>= λ d. alloc_typed_obj_from_typed_data o.name d))

  unfoldable pub typed_object_get_item : TypedObject → RbKey → Script W TypedObject
  typed_object_get_item o key = unless_aborted svc.control (
      checked o λ h. elim key [
        | str_key name ↦ (field svc o name true >>= λ d. alloc_typed_obj_from_typed_data name d) h
        | int_key int ↦ elim (num2int int) [
          | none ↦ (raised out_of_range, h)
          | some index ↦
              (element svc o index >>= λ d. alloc_typed_obj_from_typed_data array_elem_name d) h
        ]
        | other_key ↦ (raised wrong_argument, h)
      ])

  -- A call of a method that is not there is a field, silently; what the super class raises else.
  unfoldable pub typed_object_method_missing : TypedObject → Text → Script W TypedObject
  typed_object_method_missing o name = unless_aborted svc.control λ h.
      if not o.typed_data_valid
      then (raised (no_such_method name), h)
      else (let (r, h') = field svc o name false h in
          elim r [
            | raised e ↦ (raised (no_such_method name), h')
            | returned d ↦ alloc_typed_obj_from_typed_data name d h'
          ])

  unfoldable pub typed_object_length : TypedObject → Host W → Option (Outcome ℕ) × Host W
  typed_object_length o h =
      if util_check_abort svc.control h.world
      then (some (raised interrupted), h)
      else length_of svc o h

  unfoldable pub typed_object_data_size : TypedObject → Script W Value
  typed_object_data_size o =
      let d : TypedData = o.typed_data in unless_aborted svc.control (give (number (pos d.size)))

  unfoldable pub typed_object_name : TypedObject → Script W Value
  typed_object_name o = unless_aborted svc.control (give (text o.name))

  unfoldable pub typed_object_type : TypedObject → Script W Value
  typed_object_type o = unless_aborted svc.control (give (text o.type_name))

  unfoldable pub typed_object_module : TypedObject → Script W Value
  typed_object_module o = unless_aborted svc.control (give (text o.module_name))

  unfoldable pub typed_object_address : TypedObject → Script W Value
  typed_object_address o =
      let d : TypedData = o.typed_data in unless_aborted svc.control (give (number (pos d.offset)))

  unfoldable pub rb_read_bytes : ℕ → ℕ → Script W Text
  rb_read_bytes addr count = read_bytes svc addr count

  unfoldable pub rb_read_string : ℕ → ℕ → W → Option (Outcome Text)
  rb_read_string addr count w = read_string svc addr count w

  unfoldable pub rb_read_wide_string : ℕ → ℕ → W → Option (Outcome Text)
  rb_read_wide_string addr count w = elim (read_wide_string svc addr count w) [
    | some r ↦ some (utf8 svc r)
    | none ↦ none
  ]

  -- A method that reads a string at the object; `count` is the `int` that `NUM2INT` gives of the
  -- argument, or -1 without one. More than one argument is an error of the caller's, and is left out,
  -- as is an argument that is not an `int`.
  abbrev string_method :
      (ℕ → ℕ → W → Option (Outcome Text)) → TypedObject → ℕ → Host W → Option (Outcome Text)
  string_method read o count h =
      let d : TypedData = o.typed_data in
      if util_check_abort svc.control h.world
      then some (raised interrupted)
      else if o.typed_data_valid
      then read d.offset count h.world
      else some (raised invalid_object)

  unfoldable pub ruby_typed_object_read_string : TypedObject → ℕ → Host W → Option (Outcome Text)
  ruby_typed_object_read_string = string_method rb_read_string

  unfoldable pub ruby_typed_object_read_wide_string :
      TypedObject → ℕ → Host W → Option (Outcome Text)
  ruby_typed_object_read_wide_string = string_method rb_read_wide_string

  unfoldable pub ruby_typed_object_read_bytes : TypedObject → ℕ → Script W Text
  ruby_typed_object_read_bytes o count =
      let d : TypedData = o.typed_data in unless_aborted svc.control (rb_read_bytes d.offset count)

  unfoldable pub ruby_typed_object_get_runtime_obj : TypedObject → Script W TypedObject
  ruby_typed_object_get_runtime_obj o = unless_aborted svc.control (runtime_object svc o)
