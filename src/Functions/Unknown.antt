-- ===== src/Functions/Unknown.antt =====
-- The functions of the three dbgscript.cpp of src/luaprov, src/pythonprov and src/rubyprov that take
-- the name of a type.
use dbgscript.Base.{ℕ, ◌≡◌, refl, ◌∙◌, ap, Bool, false, Option, none}
use dbgscript.Console.{Text}
use dbgscript.Exec.{ok}
use dbgscript.Engine.{ModuleAndTypeId, Symbols}
use dbgscript.Host.{Host}
use dbgscript.ReadString.{util_check_abort}
use dbgscript.SymCache.{get_cached_symbol_type}
use dbgscript.SymCache.Coherence.{answer, IsCoherent, symbol_type-Looked}
use dbgscript.TypeInfo.{util_get_field_offset, util_get_type_size}
use dbgscript.TypeInfo.Unknown.{asked, type_questions_answer}
use dbgscript.Script.{Outcome, returned, raised, unknown_type, give, calling, ◌>>=◌}
use dbgscript.Script.Passing.{calm_pass, bind-calling}
use dbgscript.TypedObject.{TypedObject}
use dbgscript.Objects.{Services}
use dbgscript.Functions.{
  ModuleServices, Allocate, or_zero, typed, create_typed, field_offset, get_type_size,
}
use dbgscript.Values.{Value, number, pos}
use dbgscript.Lua.Functions.{lua_create_typed_object, lua_field_offset, lua_get_type_size}
use dbgscript.Python.Functions.{
  python_create_typed_object, python_field_offset, python_get_type_size,
}
use dbgscript.Ruby.Functions.{ruby_create_typed_object, ruby_field_offset, ruby_get_type_size}

module _ {W : Type 0} (svc : ModuleServices W) (type field : Text) (h : Host W) where
  abbrev objects_ : Services W
  objects_ = svc.objects

  -- The type that the engine knows by the name.
  abbrev pub known : Option ModuleAndTypeId
  known = let syms : Symbols W = objects_.syms in answer (syms.symbol_type_id type h.world)

  module _ (c : IsCoherent objects_.syms h)
      (calm : util_check_abort objects_.control h.world ≡ false) where
    module _ (alloc : Allocate W) (num : ℕ → Value) where
      size_unknown : known ≡ none → (get_type_size svc alloc num type h).0 ≡ returned (num 0)
      unfolding get_type_size
      size_unknown unknown =
          let e : (util_get_type_size objects_.syms type h).0 ≡ ok none =
            (type_questions_answer objects_.syms type field h c).0
            ∙ ap (λ k. asked objects_.syms (λ i. objects_.syms.type_size i h.world) k) unknown in
          ap (λ (s : Outcome Value × Host W). s.0)
            (calm_pass objects_.control
                (calling (util_get_type_size objects_.syms type) >>= λ n. give (or_zero num n)) h
                calm
              ∙ bind-calling (util_get_type_size objects_.syms type) (λ n. give (or_zero num n)) h
                  none e)

      offset_unknown : known ≡ none → (field_offset svc alloc num type field h).0 ≡ returned (num 0)
      unfolding field_offset
      offset_unknown unknown =
          let e : (util_get_field_offset objects_.syms type field h).0 ≡ ok none =
            (type_questions_answer objects_.syms type field h c).1
            ∙ ap (λ k. asked objects_.syms (λ i. objects_.syms.field_offset i field h.world) k)
                unknown in
          ap (λ (s : Outcome Value × Host W). s.0)
            (calm_pass objects_.control
                (calling (util_get_field_offset objects_.syms type field) >>= λ n.
                  give (or_zero num n))
                h calm
              ∙ bind-calling (util_get_field_offset objects_.syms type field)
                  (λ n. give (or_zero num n)) h none e)

      create_unknown :
          (addr : ℕ) (want_pointer : Bool)
          → known ≡ none
          → (create_typed svc alloc num type addr want_pointer h).0 ≡ raised (unknown_type type)
      unfolding create_typed typed
      create_unknown addr want_pointer unknown =
          let e : (get_cached_symbol_type objects_.syms type h).0 ≡ none =
            (symbol_type-Looked objects_.syms type h c).right ∙ unknown in
          ap (λ (s : Outcome TypedObject × Host W). s.0)
            (calm_pass objects_.control
              (typed svc alloc num type
                (λ i. alloc 0 none i.type_id i.module_base addr want_pointer))
              h calm)
          ∙ rw (typed, e) refl

    -- For a name that the engine does not know, when the caches are coherent and the user does not
    -- interrupt: in all three languages the size of the type and the offset of a field are the number
    -- 0, with no error raised, while making an object of the type raises one.
    pub unknown_type_is_zero :
        (addr : ℕ)
        → known ≡ none
        → let zero_ : Outcome Value = returned (number (pos 0)) in
          ((lua_get_type_size svc type h).0 ≡ zero_)
          × ((python_get_type_size svc type h).0 ≡ zero_)
          × ((ruby_get_type_size svc type h).0 ≡ zero_)
          × ((lua_field_offset svc type field h).0 ≡ zero_)
          × ((python_field_offset svc type field h).0 ≡ zero_)
          × ((ruby_field_offset svc type field h).0 ≡ zero_)
          × ((lua_create_typed_object svc type addr h).0 ≡ raised (unknown_type type))
          × ((python_create_typed_object svc type addr h).0 ≡ raised (unknown_type type))
          × ((ruby_create_typed_object svc type addr h).0 ≡ raised (unknown_type type))
    unfolding lua_get_type_size python_get_type_size ruby_get_type_size lua_field_offset
        python_field_offset ruby_field_offset lua_create_typed_object python_create_typed_object
        ruby_create_typed_object
    unknown_type_is_zero addr unknown = (
      size_unknown _ _ unknown,
      size_unknown _ _ unknown,
      size_unknown _ _ unknown,
      offset_unknown _ _ unknown,
      offset_unknown _ _ unknown,
      offset_unknown _ _ unknown,
      create_unknown _ _ addr false unknown,
      create_unknown _ _ addr false unknown,
      create_unknown _ _ addr false unknown,
    )
