-- ===== src/Python/TypedObject.antt =====
-- Typed objects of Python: src/pythonprov/typedobject.cpp, and the reads of src/pythonprov/util.cpp.
use dbgscript.Base.{
  ℕ, Bool, true, Option, none, some, [], ◌∷◌, ◌&&◌, ◌==◌, ltb, if◌then◌else◌, codes,
}
use dbgscript.Console.{Text}
use dbgscript.Engine.{TypedData}
use dbgscript.Host.{Host}
use dbgscript.ReadString.{util_check_abort}
use dbgscript.Script.{
  Outcome, raised, interrupted, invalid_object, no_exception, read_only, wrong_argument, Script,
  give, throw, unless_aborted, ◌>>=◌,
}
use dbgscript.TypedObject.{TypedObject}
use dbgscript.Objects.{
  Services, array_elem_name, wrapped, initialized, runtime_object, element, field, checked,
  length_of, read_string, read_wide_string, read_bytes,
}

-- A key of `[]`: an integer that fits Py_ssize_t, by its 64 bits, a string, or neither.
pub data PyKey : Type 0 where
  int_key : ℕ → PyKey
  str_key : Text → PyKey
  other_key : PyKey

-- `PyUnicode_AsASCIIString`
abbrev pub is_ascii : Text → Bool
is_ascii [] = true
is_ascii (c ∷ cs) = ltb c 128 && is_ascii cs

-- What an attribute is: one of the class, with what it gave, or a field of the target.
pub data PyAttribute (A : Type 0) : Type 0 where
  of_class : A → PyAttribute A
  field_object : TypedObject → PyAttribute A

-- `SetReadOnlyProperty`
unfoldable pub set_read_only_property : {W : Type 0} → Script W (Unit {0})
set_read_only_property = throw read_only

module _ {W : Type 0} (svc : Services W) where
  unfoldable pub python_alloc_sub_typed_object : Text → TypedData → Script W TypedObject
  python_alloc_sub_typed_object name typed_data = wrapped svc name typed_data

  unfoldable pub python_alloc_typed_object :
      ℕ → Option Text → ℕ → ℕ → ℕ → Bool → Script W TypedObject
  python_alloc_typed_object size name type_id module_base virtual_address want_pointer =
      initialized svc size name type_id module_base virtual_address want_pointer

  unfoldable pub python_typed_object_deref : TypedObject → Script W TypedObject
  python_typed_object_deref o =
      unless_aborted svc.control
        (checked o (element svc o 0 >>= λ d. python_alloc_sub_typed_object o.name d))

  unfoldable pub typed_object_sequence_get_item : TypedObject → ℕ → Script W TypedObject
  typed_object_sequence_get_item o index =
      unless_aborted svc.control
        (checked o (element svc o index >>= λ d. python_alloc_sub_typed_object array_elem_name d))

  -- A field by its name, when the name is ASCII.
  abbrev ascii_field : TypedObject → Text → Script W TypedObject
  ascii_field o name h =
      if is_ascii name
      then (field svc o name true >>= λ d. python_alloc_sub_typed_object name d) h
      else (raised wrong_argument, h)

  -- The index -1 ends the call before the sequence is asked.
  unfoldable pub typed_object_mapping_subscript : TypedObject → PyKey → Script W TypedObject
  typed_object_mapping_subscript o key = unless_aborted svc.control λ h. elim key [
    | int_key index ↦
        if index == 18446744073709551615
        then (raised no_exception, h)
        else typed_object_sequence_get_item o index h
    | str_key name ↦ checked o (ascii_field o name) h
    | other_key ↦ (raised wrong_argument, h)
  ]

  -- `generic` is `PyObject_GenericGetAttr`, with none for an AttributeError.
  unfoldable pub typed_object_getattro :
      {A : Type 0}
      → (Text → TypedObject → Script W (Option A))
      → TypedObject
      → Text
      → Script W (PyAttribute A)
  typed_object_getattro generic o attr = generic attr o >>= λ found. elim found [
    | some a ↦ give (of_class a)
    | none ↦ ascii_field o attr >>= λ f. give (field_object f)
  ]

  -- The abort is not looked at.
  unfoldable pub typed_object_sequence_length : TypedObject → Host W → Option (Outcome ℕ) × Host W
  typed_object_sequence_length o h = length_of svc o h

  unfoldable pub typed_object_str : TypedObject → Script W Text
  typed_object_str o = unless_aborted svc.control (give (codes "dbgscript.TypedObject"))

  unfoldable pub py_read_bytes : ℕ → ℕ → Script W Text
  py_read_bytes addr count = read_bytes svc addr count

  unfoldable pub py_read_string : ℕ → ℕ → W → Option (Outcome Text)
  py_read_string addr count w = read_string svc addr count w

  unfoldable pub py_read_wide_string : ℕ → ℕ → W → Option (Outcome Text)
  py_read_wide_string addr count w = read_wide_string svc addr count w

  -- A method that reads a string at the object; `count` is -1 without an argument.
  abbrev string_method :
      (ℕ → ℕ → W → Option (Outcome Text)) → TypedObject → ℕ → Host W → Option (Outcome Text)
  string_method read o count h =
      let d : TypedData = o.typed_data in
      if util_check_abort svc.control h.world
      then some (raised interrupted)
      else if o.typed_data_valid
      then read d.offset count h.world
      else some (raised invalid_object)

  unfoldable pub python_typed_object_read_string : TypedObject → ℕ → Host W → Option (Outcome Text)
  python_typed_object_read_string = string_method py_read_string

  unfoldable pub python_typed_object_read_wide_string :
      TypedObject → ℕ → Host W → Option (Outcome Text)
  python_typed_object_read_wide_string = string_method py_read_wide_string

  unfoldable pub python_typed_object_read_bytes : TypedObject → ℕ → Script W Text
  python_typed_object_read_bytes o count =
      let d : TypedData = o.typed_data in unless_aborted svc.control (py_read_bytes d.offset count)

  unfoldable pub python_typed_object_get_runtime_obj : TypedObject → Script W TypedObject
  python_typed_object_get_runtime_obj o = unless_aborted svc.control (runtime_object svc o)
