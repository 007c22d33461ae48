-- ===== src/Values/Reading.antt =====
-- luaValueFromCValue of src/luaprov/typedobject.cpp, pyValueFromCValue of
-- src/pythonprov/typedobject.cpp and rbValueFromCValue of src/rubyprov/typedobject.cpp, with the
-- getters that read the value first.
use dbgscript.Base.{ℕ, true, not, ◌==◌, if◌then◌else◌, [], ◌∷◌, write_at}
use dbgscript.Console.{Text}
use dbgscript.Exec.{failed, Reply}
use dbgscript.Engine.{Control, TypedData}
use dbgscript.Host.{Host}
use dbgscript.Script.{
  Outcome, returned, raised, unsupported_type_id, invalid_object, not_primitive, call_failed,
  interrupted,
}
use dbgscript.ReadString.{util_check_abort}
use dbgscript.TypedObject.{
  TypedObject, sym_tag_pointer_type, sym_tag_enum, ds_typed_object_is_primitive,
}
use dbgscript.Values.{
  pos, to_signed, BuiltinType, char_type, int8, int16, int32, int64, uint8, uint16, uint32, uint64,
  float32, float64, bool_type, long32, ulong32, wchar, builtin_type, Value, number, text, truth,
  floating, byte_val, word_val, dw_val, ui64_val, bool_val,
}

-- `lua_pushinteger` takes a signed integer of 64 bits.
abbrev lua_integer : ℕ → Value
lua_integer n = number (to_signed 64 n)

-- The switches over `BaseTypeId`.
unfoldable pub lua_base_value : BuiltinType → Text → Outcome Value
lua_base_value char_type v = returned (text (byte_val v ∷ []))
lua_base_value int8 v = returned (lua_integer (byte_val v))
lua_base_value uint8 v = returned (lua_integer (byte_val v))
lua_base_value int16 v = returned (lua_integer (word_val v))
lua_base_value uint16 v = returned (lua_integer (word_val v))
lua_base_value wchar v = returned (lua_integer (word_val v))
lua_base_value int32 v = returned (lua_integer (dw_val v))
lua_base_value long32 v = returned (lua_integer (dw_val v))
lua_base_value uint32 v = returned (lua_integer (dw_val v))
lua_base_value ulong32 v = returned (lua_integer (dw_val v))
lua_base_value int64 v = returned (lua_integer (ui64_val v))
lua_base_value uint64 v = returned (lua_integer (ui64_val v))
lua_base_value bool_type v = returned (truth (bool_val v))
lua_base_value float32 v = returned (floating 32 (dw_val v))
lua_base_value float64 v = returned (floating 64 (ui64_val v))
lua_base_value _ v = raised unsupported_type_id

unfoldable pub py_base_value : BuiltinType → Text → Outcome Value
py_base_value char_type v = returned (text (byte_val v ∷ []))
py_base_value int8 v = returned (number (pos (byte_val v)))
py_base_value uint8 v = returned (number (pos (byte_val v)))
py_base_value int16 v = returned (number (pos (word_val v)))
py_base_value uint16 v = returned (number (pos (word_val v)))
py_base_value wchar v = returned (text (word_val v ∷ []))
py_base_value int32 v = returned (number (to_signed 32 (dw_val v)))
py_base_value long32 v = returned (number (to_signed 32 (dw_val v)))
py_base_value uint32 v = returned (number (pos (dw_val v)))
py_base_value ulong32 v = returned (number (pos (dw_val v)))
py_base_value int64 v = returned (number (to_signed 64 (ui64_val v)))
py_base_value uint64 v = returned (number (pos (ui64_val v)))
py_base_value bool_type v = returned (truth (bool_val v))
py_base_value float32 v = returned (floating 32 (dw_val v))
py_base_value float64 v = returned (floating 64 (ui64_val v))
py_base_value _ v = raised unsupported_type_id

-- `INT2FIX` of a DWORD is its unsigned number.
unfoldable pub rb_base_value : BuiltinType → Text → Outcome Value
rb_base_value char_type v = returned (text (byte_val v ∷ []))
rb_base_value int8 v = returned (number (pos (byte_val v)))
rb_base_value uint8 v = returned (number (pos (byte_val v)))
rb_base_value int16 v = returned (number (pos (word_val v)))
rb_base_value uint16 v = returned (number (pos (word_val v)))
rb_base_value wchar v = returned (number (pos (word_val v)))
rb_base_value int32 v = returned (number (pos (dw_val v)))
rb_base_value long32 v = returned (number (pos (dw_val v)))
rb_base_value uint32 v = returned (number (pos (dw_val v)))
rb_base_value ulong32 v = returned (number (pos (dw_val v)))
rb_base_value int64 v = returned (number (to_signed 64 (ui64_val v)))
rb_base_value uint64 v = returned (number (pos (ui64_val v)))
rb_base_value bool_type v = returned (truth (bool_val v))
rb_base_value float32 v = returned (floating 32 (dw_val v))
rb_base_value float64 v = returned (floating 64 (ui64_val v))
rb_base_value _ v = raised unsupported_type_id

abbrev tag_of : TypedObject → ℕ
tag_of o = let d : TypedData = o.typed_data in d.tag

abbrev base_of : TypedObject → BuiltinType
base_of o = let d : TypedData = o.typed_data in builtin_type d.base_type_id

unfoldable pub lua_value_from_c_value : TypedObject → Outcome Value
lua_value_from_c_value o =
    if tag_of o == sym_tag_pointer_type
    then returned (lua_integer (ui64_val o.value))
    else if tag_of o == sym_tag_enum
    then returned (lua_integer (dw_val o.value))
    else lua_base_value (base_of o) o.value

unfoldable pub py_value_from_c_value : TypedObject → Outcome Value
py_value_from_c_value o =
    if tag_of o == sym_tag_pointer_type
    then returned (number (pos (ui64_val o.value)))
    else if tag_of o == sym_tag_enum
    then returned (number (pos (dw_val o.value)))
    else py_base_value (base_of o) o.value

unfoldable pub rb_value_from_c_value : TypedObject → Outcome Value
rb_value_from_c_value o =
    if tag_of o == sym_tag_pointer_type
    then returned (number (pos (ui64_val o.value)))
    else if tag_of o == sym_tag_enum
    then returned (number (pos (dw_val o.value)))
    else rb_base_value (base_of o) o.value

-- `ReadTypedDataVirtual` of IDebugSymbols3, at an address, for a module and a type, into so many
-- bytes: the bytes read.
abbrev pub TypedMemory : Type 0 → Type 0
TypedMemory W = ℕ → ℕ → ℕ → ℕ → W → Reply Text

-- What a call on an object gives: the object after it, too.
abbrev pub OnSelf : Type 0 → Type 0 → Type 0
OnSelf W A = TypedObject → Host W → Outcome A × TypedObject × Host W

module _ {W : Type 0} (control : Control W) (memory : TypedMemory W) where
  -- From `ReadTypedDataVirtual` on, which all three getters share.
  abbrev read_then : (TypedObject → Outcome Value) → OnSelf W Value
  read_then convert o h =
      let d : TypedData = o.typed_data in
      let (hr, bytes) = memory d.offset d.mod_base d.data_type_id 8 h.world in
      let o' : TypedObject = record o { value = write_at o.value 0 bytes } in
      let o'' : TypedObject = record o' { value_valid = true } in
      if failed hr then (raised (call_failed hr), o', h) else (convert o'', o'', h)

  abbrev get_value : (TypedObject → Outcome Value) → OnSelf W Value
  get_value convert o h =
      if util_check_abort control h.world
      then (raised interrupted, o, h)
      else if not o.typed_data_valid
      then (raised invalid_object, o, h)
      else if not (ds_typed_object_is_primitive o)
      then (raised not_primitive, o, h)
      else read_then convert o h

  unfoldable pub lua_typed_object_getvalue : OnSelf W Value
  lua_typed_object_getvalue = get_value λ o. lua_value_from_c_value o

  unfoldable pub python_typed_object_get_value : OnSelf W Value
  python_typed_object_get_value = get_value λ o. py_value_from_c_value o

  unfoldable pub ruby_typed_object_value : OnSelf W Value
  ruby_typed_object_value = get_value λ o. rb_value_from_c_value o
