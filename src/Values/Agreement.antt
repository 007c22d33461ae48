-- ===== src/Values/Agreement.antt =====
-- The integers that the getters of src/luaprov/typedobject.cpp, src/pythonprov/typedobject.cpp and
-- src/rubyprov/typedobject.cpp make of the target's memory, beside those of C.
use dbgscript.Base.{
  ℕ, ◌+◌, ◌-◌, ◌⊎◌, ◌/◌, ◌^◌, ◌≤◌, ◌<◌, ◌≡◌, ◌≢◌, sym, subst, Bool, true, false, arith,
  if◌then◌else◌, take, length, write_at, take-write_at,
}
use dbgscript.Console.{Text}
use dbgscript.Exec.{s_ok}
use dbgscript.Engine.{Control, TypedData}
use dbgscript.Host.{Host}
use dbgscript.Script.{Outcome, returned}
use dbgscript.ReadString.{util_check_abort}
use dbgscript.TypedObject.{TypedObject, sym_tag_base_type, ds_typed_object_is_primitive}
use dbgscript.Values.{
  ℤ, pos, to_signed, BuiltinType, int8, int16, int32, int64, uint8, uint16, uint32, uint64, long32,
  ulong32, wchar, builtin_type, Value, number, little_endian,
}
use dbgscript.Values.Reading.{
  lua_base_value, py_base_value, rb_base_value, lua_value_from_c_value, py_value_from_c_value,
  rb_value_from_c_value, TypedMemory, lua_typed_object_getvalue, python_typed_object_get_value,
  ruby_typed_object_value,
}

-- The integer types of C, with their bits and whether they are signed.
pub data IsInteger : BuiltinType → ℕ → Bool → Type 0 where
  signed8 : IsInteger int8 8 true
  signed16 : IsInteger int16 16 true
  signed32 : IsInteger int32 32 true
  long_signed : IsInteger long32 32 true
  signed64 : IsInteger int64 64 true
  unsigned8 : IsInteger uint8 8 false
  unsigned16 : IsInteger uint16 16 false
  wide_character : IsInteger wchar 16 false
  unsigned32 : IsInteger uint32 32 false
  long_unsigned : IsInteger ulong32 32 false
  unsigned64 : IsInteger uint64 64 false

-- The C value of `w` bits of memory.
abbrev pub c_value : ℕ → Bool → ℕ → ℤ
c_value w signed n = if signed then to_signed w n else pos n

-- What the three languages make of an integer of `w` bits, with the unsigned value `n`.
pub record Converted (t : BuiltinType) (w : ℕ) (signed : Bool) (n : ℕ)
    (lua_value py_value rb_value : Outcome Value) : Type 0 where
  -- below the sign bit all agree with C, but for Python's characters
  pub below :
      n < 2 ^ (w - 1)
      → (lua_value ≡ returned (number (pos n)))
        × (rb_value ≡ returned (number (pos n)))
        × (t ≢ wchar → py_value ≡ returned (number (pos n)))
  -- Python is exact from 32 bits on
  pub python_wide : 32 ≤ w → py_value ≡ returned (number (c_value w signed n))
  -- Ruby is exact at 64 bits, and for every unsigned type
  pub ruby_exact : (w ≡ 64) ⊎ (signed ≡ false) → rb_value ≡ returned (number (c_value w signed n))
  -- Lua is exact for unsigned types below 64 bits, and reads 64 bits as signed
  pub lua_narrow :
      signed ≡ false → w < 64 → n < 2 ^ w → lua_value ≡ returned (number (c_value w signed n))
  pub lua_wide : w ≡ 64 → lua_value ≡ returned (number (to_signed 64 n))

switches :
    (t : BuiltinType) (w : ℕ) (signed : Bool) (v : Text)
    → IsInteger t w signed
    → Converted t w signed
        (little_endian (take (w / 8) v))
        (lua_base_value t v)
        (py_base_value t v)
        (rb_base_value t v)
unfolding lua_base_value py_base_value rb_base_value
switches _ _ _ v signed8 = ground arith
switches _ _ _ v signed16 = ground arith
switches _ _ _ v signed32 = ground arith
switches _ _ _ v long_signed = ground arith
switches _ _ _ v signed64 = ground arith
switches _ _ _ v unsigned8 = ground arith
switches _ _ _ v unsigned16 = ground arith
switches _ _ _ v wide_character = ground arith
switches _ _ _ v unsigned32 = ground arith
switches _ _ _ v long_unsigned = ground arith
switches _ _ _ v unsigned64 = ground arith

module _ {W : Type 0} (control : Control W) (memory : TypedMemory W) where
  -- For an object of an integer type of C whose bytes the engine reads, if the user does not
  -- interrupt: below the sign bit the values that the three languages get are the C value (but a
  -- wide character is text in Python); Python is exact from 32 bits on, Ruby at 64 bits and for
  -- unsigned types, and Lua for unsigned types below 64 bits, and Lua reads 64 bits as signed.
  pub getters-Converted :
      (o : TypedObject) (h : Host W) (bytes : Text)
      → {t : BuiltinType} {w : ℕ} {signed : Bool}
      → let d : TypedData = o.typed_data in
        util_check_abort control h.world ≡ false
        → o.typed_data_valid ≡ true
        → d.tag ≡ sym_tag_base_type
        → builtin_type d.base_type_id ≡ t
        → IsInteger t w signed
        → memory d.offset d.mod_base d.data_type_id 8 h.world ≡ (s_ok, bytes)
        → length bytes ≡ w / 8
        → Converted t w signed
            (little_endian bytes)
            (lua_typed_object_getvalue control memory o h).0
            (python_typed_object_get_value control memory o h).0
            (ruby_typed_object_value control memory o h).0
  unfolding lua_typed_object_getvalue python_typed_object_get_value ruby_typed_object_value
      lua_value_from_c_value py_value_from_c_value rb_value_from_c_value
      ds_typed_object_is_primitive
  getters-Converted o h bytes {t} {w} {signed} calm valid base type_ kind read size =
      let whole : 0 + length bytes ≡ length bytes = omega arith in
      let front : take (w / 8) (write_at o.value 0 bytes) ≡ bytes = rw (sym size) (
        subst (λ n. take n (write_at o.value 0 bytes) ≡ bytes) whole
          (take-write_at o.value 0 bytes (omega arith))) in
      rw (calm, valid, base, type_, read)
        (subst
          (λ b.
            Converted t w signed (little_endian b) (lua_base_value t (write_at o.value 0 bytes))
              (py_base_value t (write_at o.value 0 bytes))
              (rb_base_value t (write_at o.value 0 bytes)))
          front (switches t w signed (write_at o.value 0 bytes) kind))
