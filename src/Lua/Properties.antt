-- ===== src/Lua/Properties.antt =====
-- Class properties of Lua tables: src/luaprov/classprop.cpp.
use dbgscript.Base.{◌≡◌, refl, Option, none, some, List, [], ◌∷◌, text_eq, if◌then◌else◌}
use dbgscript.Console.{Text}
use dbgscript.Host.{Host}
use dbgscript.Script.{returned, raised, no_such_getter}
use dbgscript.TypedObject.{TypedObject}
use dbgscript.Values.{Value}
use dbgscript.Values.Reading.{OnSelf}

-- What an indexed object gives: nil, an element of its metatable by its name, a value or an object.
pub data LuaResult : Type 0 where
  lua_nil : LuaResult
  member : Text → LuaResult
  value : Value → LuaResult
  object : TypedObject → LuaResult

-- The table of a property's accessors, with `get`; `set` is not read here.
abbrev pub Accessors : Type 0 → Type 0
Accessors W = Option (OnSelf W LuaResult)

-- `LuaClassProperty`, by its name and its getter.
pub record LuaClassProperty (W : Type 0) : Type 0 where
  pub name : Text
  pub getter : Option (OnSelf W LuaResult)

-- A table with text for keys; `lua_setfield` writes in front.
abbrev pub Table : Type 0 → Type 0
Table A = List (Text × A)

-- `lua_gettable`: the newest entry of a key.
unfoldable pub get_table : {A : Type 0} → Text → Table A → Option A
get_table k [] = none
get_table k ((k', a) ∷ t) = let rest = get_table k t in if text_eq k' k then some a else rest

module _ {W : Type 0} where
  unfoldable pub lua_build_property_table :
      List (LuaClassProperty W) → Table (Accessors W) → Table (Accessors W)
  lua_build_property_table [] t = t
  lua_build_property_table (p ∷ ps) t = lua_build_property_table ps ((p.name, p.getter) ∷ t)

  -- `members` are the names in the metatable, `props` its table of properties.
  unfoldable pub lua_class_prop_indexer :
      Table Text → Table (Accessors W) → Text → OnSelf W LuaResult
  lua_class_prop_indexer members props key o h = elim (get_table key members) [
    | some name ↦ (returned (member name), o, h)
    | none ↦ elim (get_table key props) [
      | none ↦ (returned lua_nil, o, h)
      | some none ↦ (raised (no_such_getter key), o, h)
      | some (some getter) ↦ getter o h
    ]
  ]

module _ {W : Type 0} (members : Table Text) (props : Table (Accessors W)) (key : Text)
    (o : TypedObject) (h : Host W) where
  pub indexer_nil :
      get_table key members ≡ none
      → get_table key props ≡ none
      → lua_class_prop_indexer members props key o h ≡ (returned lua_nil, o, h)
  unfolding lua_class_prop_indexer
  indexer_nil no_member no_prop = rw (lua_class_prop_indexer, no_member, no_prop) refl
