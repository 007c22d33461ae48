-- ===== src/Lua/Index.antt =====
-- The indexer of Lua's typed objects: `TypedObject_index` and the metatable of
-- src/luaprov/typedobject.cpp.
use dbgscript.Base.{[], ◌∷◌, if◌then◌else◌, codes}
use dbgscript.Console.{Text}
use dbgscript.ReadString.{util_check_abort}
use dbgscript.Script.{Outcome, returned, raised, interrupted, wrong_argument, give, ◌>>=◌}
use dbgscript.Objects.{Services, array_elem_name, element, checked}
use dbgscript.Values.Reading.{TypedMemory, OnSelf}
use dbgscript.Lua.Properties.{
  LuaResult, lua_nil, object, Table, lua_build_property_table, lua_class_prop_indexer,
}
use dbgscript.Lua.TypedObject.{
  LuaKey, integer_key, string_key, other_key, reading, lua_alloc_sub_typed_object, get_field_helper,
  typed_object_props,
}

-- The names in the metatable: what `luaL_newmetatable` puts there, `g_typedObjectMethods`, and
-- `LUA_PROPERTIES_KEY`.
abbrev named : Text → Text × Text
named t = (t, t)

unfoldable pub typed_object_members : Table Text
typed_object_members =
    named (codes "__name")
    ∷ named (codes "__index")
    ∷ named (codes "__len")
    ∷ named (codes "f")
    ∷ named (codes "field")
    ∷ named (codes "getRuntimeObject")
    ∷ named (codes "readString")
    ∷ named (codes "readWideString")
    ∷ named (codes "readBytes")
    ∷ named (codes "__properties")
    ∷ []

module _ {W : Type 0} (svc : Services W) (memory : TypedMemory W) where
  -- What follows a property lookup: nil falls back to the field.
  unfoldable pub or_field : Text → Outcome LuaResult → OnSelf W LuaResult
  or_field name (returned lua_nil) o h =
      reading (λ x. checked x (get_field_helper svc x (string_key name) >>= λ y. give (object y))) o
        h
  or_field name r o h = (r, o, h)

  unfoldable pub lua_typed_object_index : LuaKey → OnSelf W LuaResult
  lua_typed_object_index key o h =
      if util_check_abort svc.control h.world then (raised interrupted, o, h) else elim key [
        | integer_key i ↦
            reading
              (λ x. checked x (
                element svc x i >>= λ d.
                lua_alloc_sub_typed_object svc array_elem_name d >>= λ y. give (object y)))
              o h
        | string_key name ↦
            let (r, o', h') =
              lua_class_prop_indexer typed_object_members
                (lua_build_property_table (typed_object_props svc memory) []) name o h in
            or_field name r o' h'
        | other_key ↦ (raised wrong_argument, o, h)
      ]
