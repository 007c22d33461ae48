-- ===== src/Lua/TypedObject.antt =====
-- Typed objects of Lua: src/luaprov/typedobject.cpp.
use dbgscript.Base.{
  ℕ, ◌%◌, Bool, true, Option, none, some, List, [], ◌∷◌, not, if◌then◌else◌, codes,
}
use dbgscript.Console.{Text, long_mod}
use dbgscript.Engine.{TypedData}
use dbgscript.Host.{Host}
use dbgscript.ReadString.{util_check_abort}
use dbgscript.Script.{
  Outcome, returned, raised, interrupted, invalid_object, wrong_argument, Script, give, throw,
  unless_aborted, ◌>>=◌,
}
use dbgscript.TypedObject.{TypedObject}
use dbgscript.Objects.{
  Services, wrapped, initialized, runtime_object, element, field, checked, length_of, read_string,
  read_wide_string, utf8, read_bytes,
}
use dbgscript.Values.{Value, number, text, to_signed}
use dbgscript.Values.Reading.{TypedMemory, OnSelf, lua_typed_object_getvalue}
use dbgscript.Lua.Properties.{LuaResult, value, object, LuaClassProperty}

-- A key of an index: an integer, by its 64 bits, a string, or neither.
pub data LuaKey : Type 0 where
  integer_key : ℕ → LuaKey
  string_key : Text → LuaKey
  other_key : LuaKey

-- A call that leaves the object as it is.
abbrev pub reading : {W A : Type 0} → (TypedObject → Script W A) → OnSelf W A
reading f o h = let (r, h') = f o h in (r, o, h')

module _ {W : Type 0} (svc : Services W) where
  unfoldable pub lua_alloc_sub_typed_object : Text → TypedData → Script W TypedObject
  lua_alloc_sub_typed_object name typed_data =
      unless_aborted svc.control (wrapped svc name typed_data)

  unfoldable pub lua_alloc_new_typed_object :
      ℕ → Option Text → ℕ → ℕ → ℕ → Bool → Script W TypedObject
  lua_alloc_new_typed_object size name type_id module_base virtual_address want_pointer =
      unless_aborted svc.control
        (initialized svc size name type_id module_base virtual_address want_pointer)

  -- The field of a name, from the test of the key on.
  abbrev named_field : TypedObject → LuaKey → Script W TypedObject
  named_field o (string_key name) = field svc o name true >>= λ d. lua_alloc_sub_typed_object name d
  named_field o _ = throw wrong_argument

  -- `getFieldHelper`, on an object that the caller has checked.
  unfoldable pub get_field_helper : TypedObject → LuaKey → Script W TypedObject
  get_field_helper o key = unless_aborted svc.control (named_field o key)

  -- `TypedObject_getfield` passes no object, so the helper checks its own.
  unfoldable pub lua_typed_object_getfield : TypedObject → LuaKey → Script W TypedObject
  lua_typed_object_getfield o key = unless_aborted svc.control (checked o (named_field o key))

  unfoldable pub lua_typed_object_deref : TypedObject → Script W TypedObject
  lua_typed_object_deref o =
      unless_aborted svc.control (element svc o 0 >>= λ d. lua_alloc_sub_typed_object o.name d)

  unfoldable pub lua_typed_object_len : TypedObject → Host W → Option (Outcome ℕ) × Host W
  lua_typed_object_len o h =
      if util_check_abort svc.control h.world
      then (some (raised interrupted), h)
      else length_of svc o h

  unfoldable pub lua_typed_object_getname : TypedObject → Script W Value
  lua_typed_object_getname o = unless_aborted svc.control (give (text o.name))

  unfoldable pub lua_typed_object_gettype : TypedObject → Script W Value
  lua_typed_object_gettype o = unless_aborted svc.control (give (text o.type_name))

  unfoldable pub lua_typed_object_getmodule : TypedObject → Script W Value
  lua_typed_object_getmodule o = unless_aborted svc.control (give (text o.module_name))

  unfoldable pub lua_typed_object_getsize : TypedObject → Script W Value
  lua_typed_object_getsize o =
      let d : TypedData = o.typed_data in
      unless_aborted svc.control (give (number (to_signed 64 d.size)))

  unfoldable pub lua_typed_object_getaddress : TypedObject → Script W Value
  lua_typed_object_getaddress o =
      let d : TypedData = o.typed_data in
      unless_aborted svc.control (give (number (to_signed 64 d.offset)))

  unfoldable pub lua_typed_object_get_runtime_object : TypedObject → Script W TypedObject
  lua_typed_object_get_runtime_object o = unless_aborted svc.control (runtime_object svc o)

  -- `LuaReadString` and the method in front of it; `count` is the optional argument,
  -- -1 without, by its 64 bits, of which the cast to `int` keeps the low half.
  unfoldable pub lua_typed_object_read_string : TypedObject → ℕ → Host W → Option (Outcome Text)
  lua_typed_object_read_string o count h =
      let d : TypedData = o.typed_data in
      if util_check_abort svc.control h.world
      then some (raised interrupted)
      else if not o.typed_data_valid
      then some (raised invalid_object)
      else read_string svc d.offset (count % long_mod) h.world

  unfoldable pub lua_typed_object_read_wide_string :
      TypedObject → ℕ → Host W → Option (Outcome Text)
  lua_typed_object_read_wide_string o count h =
      let d : TypedData = o.typed_data in
      if util_check_abort svc.control h.world
      then some (raised interrupted)
      else if not o.typed_data_valid
      then some (raised invalid_object)
      else elim (read_wide_string svc d.offset (count % long_mod) h.world) [
        | some r ↦ some (utf8 svc r)
        | none ↦ none
      ]

  -- The count is cut to a ULONG.
  unfoldable pub lua_typed_object_read_bytes : TypedObject → ℕ → Script W Text
  lua_typed_object_read_bytes o count =
      let d : TypedData = o.typed_data in
      unless_aborted svc.control (read_bytes svc d.offset (count % long_mod))

  abbrev as_value : Script W Value → Script W LuaResult
  as_value m = m >>= λ v. give (value v)

  abbrev as_object : Script W TypedObject → Script W LuaResult
  as_object m = m >>= λ o. give (object o)

  -- `x_TypedObjectProps`. Each has a getter.
  abbrev property : Text → OnSelf W LuaResult → LuaClassProperty W
  property name get = record { name = name; getter = some get }

  unfoldable pub typed_object_props : TypedMemory W → List (LuaClassProperty W)
  typed_object_props memory =
      property (codes "name") (reading λ o. as_value (lua_typed_object_getname o))
      ∷ property (codes "size") (reading λ o. as_value (lua_typed_object_getsize o))
      ∷ property (codes "type") (reading λ o. as_value (lua_typed_object_gettype o))
      ∷ property (codes "module") (reading λ o. as_value (lua_typed_object_getmodule o))
      ∷ property (codes "value") (λ o h.
        let (r, o', h') = lua_typed_object_getvalue svc.control memory o h in
        (elim r [ returned v ↦ returned (value v) | raised e ↦ raised e ], o', h'))
      ∷ property (codes "address") (reading λ o. as_value (lua_typed_object_getaddress o))
      ∷ property (codes "deref") (reading λ o. as_object (lua_typed_object_deref o))
      ∷ []
