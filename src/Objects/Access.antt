-- ===== src/Objects/Access.antt =====
-- Elements, fields and lengths of typed objects, beside one another in the three languages:
-- src/luaprov/typedobject.cpp, src/pythonprov/typedobject.cpp and src/rubyprov/typedobject.cpp.
use dbgscript.Base.{
  ℕ, ◌-◌, ◌^◌, ◌<◌, some, ◌≡◌, ◌≢◌, refl, sym, ap, ◌∙◌, true, false, none, [], arith, ◌==◌,
}
use dbgscript.Console.{Text}
use dbgscript.Engine.{TypedData}
use dbgscript.Host.{Host}
use dbgscript.ReadString.{util_check_abort}
use dbgscript.Script.{out_of_range, Outcome, returned, raised, give, ◌>>=◌}
use dbgscript.TypedObject.{
  TypedObject, ds_typed_object_get_array_element, ds_typed_object_get_field,
}
use dbgscript.Objects.{Services, array_elem_name, wrapped, element, field}
use dbgscript.Values.{ℤ, pos, negsuc}
use dbgscript.Values.Reading.{TypedMemory}
use dbgscript.Lua.Properties.{LuaResult, object, get_table, indexer_nil, lua_build_property_table}
use dbgscript.Lua.TypedObject.{
  reading, integer_key, string_key, lua_alloc_sub_typed_object, get_field_helper,
  lua_typed_object_getfield, lua_typed_object_deref, lua_typed_object_len, typed_object_props,
}
use dbgscript.Lua.Index.{typed_object_members, or_field, lua_typed_object_index}
use dbgscript.Python.TypedObject.{
  int_key, str_key, is_ascii, python_alloc_sub_typed_object, python_typed_object_deref,
  typed_object_sequence_get_item, typed_object_mapping_subscript, typed_object_sequence_length,
}
use dbgscript.Ruby.TypedObject
use dbgscript.Ruby.TypedObject.{
  num2int, alloc_typed_obj_from_typed_data, ruby_typed_object_deref, typed_object_get_item,
  typed_object_length,
}
use dbgscript.Objects.Calls.{element-world, field-world, bind_ap, checked_valid, bind_assoc}

-- The integers that an `int` holds, and the 64 bits of an integer.
abbrev pub IsInt : ℤ → Type 0
IsInt (pos n) = n < 2 ^ 31
IsInt (negsuc n) = n < 2 ^ 31

abbrev pub word64 : ℤ → ℕ
word64 (pos n) = n
word64 (negsuc n) = 18446744073709551615 - n

-- What the accesses of the three languages give, beside one another. The index -1 ends in Python
-- before it is looked at; Ruby takes an index through an `int`; a name that is not ASCII is refused there.
pub record Agree {W : Type 0} (svc : Services W) (memory : TypedMemory W) (o : TypedObject)
    (h : Host W) : Type 0 where
  pub elements_agree :
      (i : ℕ)
      → i ≢ 18446744073709551615
      → lua_typed_object_index svc memory (integer_key i) o h
        ≡ reading
            (λ x. typed_object_mapping_subscript svc x (int_key i) >>= λ y. give (object y))
            o
            h
  pub ruby_elements_agree :
      (v : ℤ)
      → IsInt v
      → word64 v ≢ 18446744073709551615
      → typed_object_get_item svc o (TypedObject.int_key v) h
        ≡ typed_object_mapping_subscript svc o (int_key (word64 v)) h
  pub ruby_refuses :
      (v : ℤ)
      → ¬ IsInt v
      → typed_object_get_item svc o (TypedObject.int_key v) h ≡ (raised out_of_range, h)
  pub fields_agree :
      (name : Text)
      → is_ascii name ≡ true
      → (lua_typed_object_getfield svc o (string_key name) h
          ≡ typed_object_mapping_subscript svc o (str_key name) h)
        × (typed_object_get_item svc o (TypedObject.str_key name) h
            ≡ typed_object_mapping_subscript svc o (str_key name) h)
  pub derefs_agree :
      (lua_typed_object_deref svc o h ≡ python_typed_object_deref svc o h)
      × (ruby_typed_object_deref svc o h ≡ python_typed_object_deref svc o h)
  pub lengths_agree :
      (lua_typed_object_len svc o h ≡ typed_object_sequence_length svc o h)
      × (typed_object_length svc o h ≡ typed_object_sequence_length svc o h)
  -- of a name that is neither in the metatable nor a property
  pub falls_back :
      (name : Text)
      → get_table name typed_object_members ≡ none
      → get_table name (lua_build_property_table (typed_object_props svc memory) []) ≡ none
      → lua_typed_object_index svc memory (string_key name) o h
        ≡ reading
            (λ x. lua_typed_object_getfield svc x (string_key name) >>= λ y. give (object y))
            o
            h

module _ {W : Type 0} (svc : Services W) where
  module _ (o : TypedObject) (h : Host W) (calm : util_check_abort svc.control h.world ≡ false)
      (valid : o.typed_data_valid ≡ true) where
    alloc_calm :
        (name : Text) (d : TypedData) (h' : Host W)
        → h'.world ≡ h.world
        → lua_alloc_sub_typed_object svc name d h' ≡ wrapped svc name d h'
    unfolding lua_alloc_sub_typed_object
    alloc_calm name d h' same =
        let calm' : util_check_abort svc.control h'.world ≡ false =
          ap (λ w. util_check_abort svc.control w) same ∙ calm in
        simp calm' refl

    lua_element :
        (i : ℕ) (name : Text)
        → (element svc o i >>= λ d. lua_alloc_sub_typed_object svc name d) h
          ≡ (element svc o i >>= λ d. wrapped svc name d) h
    lua_element i name =
        bind_ap (λ d. lua_alloc_sub_typed_object svc name d) (λ d. wrapped svc name d)
          (element svc o i h)
          (λ d. alloc_calm name d (element svc o i h).1 (element-world svc o i h))

    lua_field :
        (name : Text)
        → (field svc o name true >>= λ d. lua_alloc_sub_typed_object svc name d) h
          ≡ (field svc o name true >>= λ d. wrapped svc name d) h
    lua_field name =
        bind_ap (λ d. lua_alloc_sub_typed_object svc name d) (λ d. wrapped svc name d)
          (field svc o name true h)
          (λ d. alloc_calm name d (field svc o name true h).1 (field-world svc o name true h))

    sequence_item :
        (i : ℕ)
        → typed_object_sequence_get_item svc o i h
          ≡ (element svc o i >>= λ d. wrapped svc array_elem_name d) h
    unfolding typed_object_sequence_get_item python_alloc_sub_typed_object
    sequence_item i =
        simp calm (checked_valid o (element svc o i >>= λ d. wrapped svc array_elem_name d) h valid)

    derefs :
        (lua_typed_object_deref svc o h ≡ python_typed_object_deref svc o h)
        × (ruby_typed_object_deref svc o h ≡ python_typed_object_deref svc o h)
    unfolding lua_typed_object_deref python_typed_object_deref ruby_typed_object_deref
        python_alloc_sub_typed_object alloc_typed_obj_from_typed_data
        ds_typed_object_get_array_element
    derefs = rw (calm, valid) (lua_element 0 o.name, refl)

    fields :
        (name : Text)
        → is_ascii name ≡ true
        → (lua_typed_object_getfield svc o (string_key name) h
            ≡ typed_object_mapping_subscript svc o (str_key name) h)
          × (typed_object_get_item svc o (TypedObject.str_key name) h
              ≡ typed_object_mapping_subscript svc o (str_key name) h)
    unfolding lua_typed_object_getfield typed_object_mapping_subscript typed_object_get_item
        python_alloc_sub_typed_object alloc_typed_obj_from_typed_data ds_typed_object_get_field
    fields name ascii = rw (calm, valid, ascii) (lua_field name, refl)

    lengths :
        (lua_typed_object_len svc o h ≡ typed_object_sequence_length svc o h)
        × (typed_object_length svc o h ≡ typed_object_sequence_length svc o h)
    unfolding lua_typed_object_len typed_object_sequence_length typed_object_length
    lengths = rw calm (refl, refl)

    elements :
        (i : ℕ)
        → i ≢ 18446744073709551615
        → typed_object_mapping_subscript svc o (int_key i) h
          ≡ typed_object_sequence_get_item svc o i h
    unfolding typed_object_mapping_subscript
    elements i small =
        let other : (i == 18446744073709551615) ≡ false = ground arith in rw (calm, other) refl

    num2int-IsInt : (v : ℤ) → IsInt v → num2int v ≡ some (word64 v)
    unfolding num2int
    num2int-IsInt (pos n) small = ground arith
    num2int-IsInt (negsuc n) small = ground arith

    num2int_refuses : (v : ℤ) → ¬ IsInt v → num2int v ≡ none
    unfolding num2int
    num2int_refuses (pos n) large = ground arith
    num2int_refuses (negsuc n) large = ground arith

    ruby_elements :
        (v : ℤ)
        → IsInt v
        → typed_object_get_item svc o (TypedObject.int_key v) h
          ≡ typed_object_sequence_get_item svc o (word64 v) h
    unfolding typed_object_get_item typed_object_sequence_get_item python_alloc_sub_typed_object
        alloc_typed_obj_from_typed_data ds_typed_object_get_array_element
    ruby_elements v small = rw (calm, valid, num2int-IsInt v small) refl

    ruby_refusals :
        (v : ℤ)
        → ¬ IsInt v
        → typed_object_get_item svc o (TypedObject.int_key v) h ≡ (raised out_of_range, h)
    unfolding typed_object_get_item
    ruby_refusals v large = rw (calm, valid, num2int_refuses v large) refl

    lua_elements :
        (memory : TypedMemory W) (i : ℕ)
        → lua_typed_object_index svc memory (integer_key i) o h
          ≡ reading (λ x. typed_object_sequence_get_item svc x i >>= λ y. give (object y)) o h
    unfolding lua_typed_object_index
    lua_elements memory i = rw calm (
        ap (λ (s : Outcome LuaResult × Host W). (s.0, o, s.1))
          (checked_valid o
              (element svc o i >>= λ d.
                lua_alloc_sub_typed_object svc array_elem_name d >>= λ y. give (object y))
              h valid
            ∙ bind_ap
                (λ d. lua_alloc_sub_typed_object svc array_elem_name d >>= λ y. give (object y))
                (λ d. wrapped svc array_elem_name d >>= λ y. give (object y)) (element svc o i h)
                (λ d.
                  ap
                    (λ (t : Outcome TypedObject × Host W). elim t.0 [
                      | returned y ↦ give (object y) t.1
                      | raised e ↦ (raised e, t.1)
                    ])
                    (alloc_calm array_elem_name d (element svc o i h).1 (element-world svc o i h)))
            ∙ bind_assoc (λ d. wrapped svc array_elem_name d) (λ y. give (object y))
                (element svc o i h)
            ∙ ap
                (λ (t : Outcome TypedObject × Host W). elim t.0 [
                  | returned y ↦ give (object y) t.1
                  | raised e ↦ (raised e, t.1)
                ])
                (sym (sequence_item i))))

    helper_checked :
        (name : Text)
        → get_field_helper svc o (string_key name) h
          ≡ lua_typed_object_getfield svc o (string_key name) h
    unfolding get_field_helper lua_typed_object_getfield
    helper_checked name = simp calm (
        sym (
          checked_valid o
            (λ h'. (field svc o name true >>= λ d. lua_alloc_sub_typed_object svc name d) h') h
            valid))

    -- A name that is neither in the metatable nor a property is a field.
    lua_falls_back :
        (memory : TypedMemory W) (name : Text)
        → get_table name typed_object_members ≡ none
        → get_table name (lua_build_property_table (typed_object_props svc memory) []) ≡ none
        → lua_typed_object_index svc memory (string_key name) o h
          ≡ reading
              (λ x. lua_typed_object_getfield svc x (string_key name) >>= λ y. give (object y))
              o
              h
    unfolding lua_typed_object_index or_field
    lua_falls_back memory name no_member no_property =
        rw
          (
            calm,
            indexer_nil typed_object_members
                (lua_build_property_table (typed_object_props svc memory) []) name o h no_member
                no_property,
          )
          (ap (λ (s : Outcome LuaResult × Host W). (s.0, o, s.1))
            (checked_valid o (get_field_helper svc o (string_key name) >>= λ y. give (object y)) h
                valid
              ∙ ap
                  (λ (t : Outcome TypedObject × Host W). elim t.0 [
                    | returned y ↦ give (object y) t.1
                    | raised e ↦ (raised e, t.1)
                  ])
                  (helper_checked name)))

  -- For an object with typed data, if the user does not interrupt: the object that an index of 64 bits
  -- (but -1) gives is the same in Lua and Python, with the same errors and the same output, and in
  -- Ruby too where the index is an `int`, any other being out of range there; a field of an ASCII
  -- name, a dereference and the length are the same in all three; and the index of Lua falls back to
  -- the field for every name that is neither in the metatable nor a property.
  pub access-Agree :
      (memory : TypedMemory W) (o : TypedObject) (h : Host W)
      → util_check_abort svc.control h.world ≡ false
      → o.typed_data_valid ≡ true
      → Agree svc memory o h
  access-Agree memory o h calm valid = record {
    elements_agree = λ i small.
        lua_elements o h calm valid memory i
        ∙ ap
            (λ (t : Outcome TypedObject × Host W).
              let s : Outcome LuaResult × Host W = elim t.0 [
                | returned y ↦ give (object y) t.1
                | raised e ↦ (raised e, t.1)
              ] in
              (s.0, o, s.1))
            (sym (elements o h calm valid i small));
    ruby_elements_agree = λ v int small.
        ruby_elements o h calm valid v int ∙ sym (elements o h calm valid (word64 v) small);
    ruby_refuses = λ v large. ruby_refusals o h calm valid v large;
    fields_agree = λ name ascii. fields o h calm valid name ascii;
    derefs_agree = derefs o h calm valid;
    lengths_agree = lengths o h calm valid;
    falls_back = λ name no_member no_property.
        lua_falls_back o h calm valid memory name no_member no_property;
  }
