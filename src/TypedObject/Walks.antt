-- ===== src/TypedObject/Walks.antt =====
-- What an object holds after DsInitializeTypedObject and DsWrapTypedData of
-- src/support/dstypedobject.cpp.
use dbgscript.Base.{
  ℕ, ◌≡◌, ◌≢◌, sym, ap, subst, ◌∙◌, Bool, true, false, inl, inr, Option, arith, take, if◌then◌else◌,
  Bool-cases,
}
use dbgscript.Console.{Text}
use dbgscript.Exec.{failed, ok, of_reply}
use dbgscript.Engine.{ModuleAndTypeId, TypedData, TypedDataOp, Symbols, Advanced}
use dbgscript.Host.{Caches, Host}
use dbgscript.Platform.{CopyText, CopyLaws, copy-eq-take}
use dbgscript.SymCache.Coherence.{IsCoherent}
use dbgscript.TypedObject.{
  TypedObject, invalid, set_names, set_typed_data, ds_wrap_typed_data, ds_initialize_typed_object,
  max_symbol_name_len,
}
use dbgscript.TypedObject.Names.{IsNamed, fill-Filled, given, set_names-Titled}

module _ {W : Type 0} (copy : CopyText) (copies : CopyLaws copy) (syms : Symbols W) where
  -- Wrapping typed data keeps the caches coherent; when it succeeds, the object has the name given,
  -- cut to 511 characters, exactly the data given, marked as valid, and the engine's names for their
  -- type and module.
  pub wrap_typed_data_object :
      (name : Text) (td : TypedData) (o : TypedObject) (h : Host W)
      → IsCoherent syms h
      → let r : ℕ × TypedObject × Host W = ds_wrap_typed_data copy syms name td o h in
        IsCoherent syms r.2
        × (failed r.0 ≡ false
            → (r.1.name ≡ take 511 name)
              × (r.1.typed_data ≡ td)
              × (r.1.typed_data_valid ≡ true)
              × IsNamed syms
                  (record { type_id = td.data_type_id; module_base = td.mod_base })
                  h.world
                  r.1)
  unfolding ds_wrap_typed_data
  wrap_typed_data_object name td o h c =
      let o' : TypedObject = record o {
        name = (copy max_symbol_name_len name).1;
        typed_data = td;
        typed_data_valid = true;
      } in
      let filled = fill-Filled copy copies syms td.data_type_id td.mod_base o' h c in
      (
        filled.coherent,
        λ e. (
          filled.others_kept.0 ∙ copy-eq-take copies max_symbol_name_len name (omega arith),
          filled.others_kept.1,
          filled.others_kept.2,
          filled.named e,
        ),
      )

module _ {W : Type 0} (syms : Symbols W) where
  -- Coherence speaks of the engine's state and of the caches alone.
  pub IsCoherent-same :
      (h h' : Host W)
      → h'.world ≡ h.world
      → h'.caches ≡ h.caches
      → IsCoherent syms h
      → IsCoherent syms h'
  IsCoherent-same h h' world caches c =
      subst (λ (p : W × Caches). IsCoherent syms (record h' { world = p.0; caches = p.1 }))
        (λ i. (sym world i, sym caches i))
        (record { symbols = c.symbols; modules = c.modules; types = c.types })

  IsNamed-same :
      {key : ModuleAndTypeId} {w : W} (o o' : TypedObject)
      → o'.type_name ≡ o.type_name
      → o'.module_name ≡ o.module_name
      → IsNamed syms key w o
      → IsNamed syms key w o'
  IsNamed-same o o' same_type same_module n = record {
    type_text = n.type_text;
    type_known = n.type_known;
    type_kept = same_type ∙ n.type_kept;
    module_text = n.module_text;
    module_known = n.module_known;
    module_kept = same_module ∙ n.module_kept;
  }

module _ {W : Type 0} (copy : CopyText) (copies : CopyLaws copy) (syms : Symbols W)
    (adv : Advanced W) where
  -- The request that makes an object, or a pointer to it, from its type and address.
  abbrev pub made_by : Bool → ℕ → ℕ → ℕ → TypedDataOp
  made_by want_pointer module_base virtual_address type_id =
      if want_pointer
      then TypedDataOp.set_ptr_from_type_id_and_u64 module_base virtual_address type_id
      else TypedDataOp.set_from_type_id_and_u64 module_base virtual_address type_id

  -- What the second half of `DsInitializeTypedObject` does when it succeeds.
  set_typed_data_ok :
      (size type_id module_base virtual_address : ℕ) (want_pointer : Bool) (o : TypedObject)
      (h : Host W)
      → let r : ℕ × TypedObject × Host W =
          set_typed_data copy syms adv size type_id module_base virtual_address want_pointer o h in
        (r.2.world ≡ h.world)
        × (r.2.caches ≡ h.caches)
        × (r.1.name ≡ o.name)
        × (r.1.type_name ≡ o.type_name)
        × (r.1.module_name ≡ o.module_name)
        × (failed r.0 ≡ false
            → virtual_address ≢ 0
            → (r.1.typed_data_valid ≡ true)
              × (of_reply
                    (adv.request (made_by want_pointer module_base virtual_address type_id) h.world)
                  ≡ ok r.1.typed_data))
        × (virtual_address ≡ 0
            → (r.1.typed_data_valid ≡ o.typed_data_valid)
              × (r.1.typed_data.size ≡ size)
              × (r.1.typed_data.offset ≡ 0))
  unfolding set_typed_data
  set_typed_data_ok size type_id module_base virtual_address want_pointer o h = (
    ground arith,
    ground arith,
    ground arith,
    ground arith,
    ground arith,
    λ e ne. (ground arith, ground arith),
    λ z. (ground arith, ground arith, ground arith),
  )

  -- With coherent caches, initializing an object keeps them coherent. When it succeeds, the object
  -- has the name given ("<unnamed>" if there is none), cut to 511 characters; with a module base, the
  -- engine's names of its type and module, and without one, "<invalid>" for both. At an address that
  -- is not null its data is what the engine makes of this type and address, as an object or as a
  -- pointer as wanted, and is marked as valid; at null it has the size given and the offset 0, and the
  -- mark stays as it was.
  pub initialize_object :
      (size : ℕ) (name : Option Text) (type_id module_base virtual_address : ℕ)
      (want_pointer : Bool) (o : TypedObject) (h : Host W)
      → IsCoherent syms h
      → let r : ℕ × TypedObject × Host W =
          ds_initialize_typed_object copy syms adv size name type_id module_base virtual_address
            want_pointer o h in
        IsCoherent syms r.2
        × (failed r.0 ≡ false
            → (r.1.name ≡ take 511 (given name))
              × (module_base ≢ 0
                  → IsNamed syms
                      (record { type_id = type_id; module_base = module_base })
                      h.world
                      r.1)
              × (module_base ≡ 0 → (r.1.type_name ≡ invalid) × (r.1.module_name ≡ invalid))
              × (virtual_address ≢ 0
                  → (r.1.typed_data_valid ≡ true)
                    × (of_reply (
                          adv.request
                            (made_by want_pointer module_base virtual_address type_id)
                            h.world)
                        ≡ ok r.1.typed_data))
              × (virtual_address ≡ 0
                  → (r.1.typed_data_valid ≡ o.typed_data_valid)
                    × (r.1.typed_data.size ≡ size)
                    × (r.1.typed_data.offset ≡ 0)))
  unfolding ds_initialize_typed_object
  initialize_object size name type_id module_base virtual_address want_pointer o h c =
      let n : ℕ × TypedObject × Host W = set_names copy syms name type_id module_base o h in
      let t = set_names-Titled copy copies syms name type_id module_base o h c in
      let d = set_typed_data_ok size type_id module_base virtual_address want_pointer n.1 n.2 in
      elim (Bool-cases (failed n.0)) [
        | inl bad ↦ rw (bad, ds_initialize_typed_object) (t.coherent, λ e. cc)
        | inr good ↦
            rw (good, ds_initialize_typed_object)
              (
                IsCoherent-same syms n.2 _ d.0 d.1 t.coherent,
                λ e. (
                  d.2 ∙ t.name_given,
                  λ ne. IsNamed-same syms n.1 _ d.3 d.4 (t.named good ne),
                  λ z. (d.3 ∙ (t.invalid_named good z).0, d.4 ∙ (t.invalid_named good z).1),
                  λ ne. (
                    (d.5 e ne).0,
                    ap
                          (λ w. of_reply (
                            adv.request (made_by want_pointer module_base virtual_address type_id)
                              w))
                          (sym t.same_world)
                        ∙ (d.5 e ne).1,
                  ),
                  λ z. ((d.6 z).0 ∙ t.data_kept.1, (d.6 z).1, (d.6 z).2),
                ),
              )
      ]
