-- ===== src/Values.antt =====
-- The value of a primitive object: `enum BuiltinType` and the union `TypedObjectValue` of
-- include/dstypedobject.h, and the values of the script languages that are made of it.
pub mod Reading
pub mod Agreement
use dbgscript.Base.{
  ℕ, zero, suc, ◌+◌, ◌-◌, ◌*◌, ◌^◌, Bool, not, Option, some, none, List, [], ◌∷◌, ltb, leb, ◌==◌,
  if◌then◌else◌, take, get_elem?,
}
use dbgscript.Console.{Text}

-- `negsuc n` is -(n + 1).
pub data ℤ : Type 0 where
  pos negsuc : ℕ → ℤ

-- A word of `w` bits, read as two's complement.
abbrev pub to_signed : ℕ → ℕ → ℤ
to_signed w n = if ltb n (2 ^ (w - 1)) then pos n else negsuc (2 ^ w - n - 1)

-- `enum BuiltinType`, up to DNTYPE_WCHAR; `other` is what stands behind.
pub data BuiltinType : Type 0 where
  void_type char_type wchar_t int8 int16 int32 int64 uint8 uint16 uint32 uint64 : BuiltinType
  float32 float64 float80 bool_type long32 ulong32 hresult wchar other : BuiltinType

-- The enumerators in order, from DBG_NATIVE_TYPE_BASE on.
abbrev builtin_types : List BuiltinType
builtin_types =
    void_type ∷ char_type ∷ wchar_t ∷ int8 ∷ int16 ∷ int32 ∷ int64 ∷ uint8 ∷ uint16 ∷ uint32
    ∷ uint64 ∷ float32 ∷ float64 ∷ float80 ∷ bool_type ∷ long32 ∷ ulong32 ∷ hresult ∷ wchar ∷ []

abbrev pub native_type_base : ℕ
native_type_base = 0x80000000

unfoldable pub builtin_type : ℕ → BuiltinType
builtin_type id =
    if ltb id native_type_base
    then other
    else elim (get_elem? builtin_types (id - native_type_base)) [ some t ↦ t | none ↦ other ]

-- What a script gets. A floating-point number is kept as its bits, of 32 or of 64.
pub data Value : Type 0 where
  number : ℤ → Value
  text : Text → Value
  truth : Bool → Value
  floating : ℕ → ℕ → Value

-- The unsigned number in the first bytes of a memory, the lowest first.
unfoldable pub little_endian : Text → ℕ
little_endian [] = 0
little_endian (b ∷ bs) = b + 256 * little_endian bs

-- The views of the union.
module _ (value : Text) where
  abbrev pub byte_val : ℕ
  byte_val = little_endian (take 1 value)

  abbrev pub word_val : ℕ
  word_val = little_endian (take 2 value)

  abbrev pub dw_val : ℕ
  dw_val = little_endian (take 4 value)

  abbrev pub ui64_val : ℕ
  ui64_val = little_endian (take 8 value)

  abbrev pub bool_val : Bool
  bool_val = not (byte_val == 0)
