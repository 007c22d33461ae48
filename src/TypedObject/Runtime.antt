-- ===== src/TypedObject/Runtime.antt =====
-- DsTypedObjectGetRuntimeType of src/support/dstypedobject.cpp: what a success means.
use dbgscript.Base.{
  ℕ, ◌≡◌, ◌≢◌, refl, sym, ap, ◌∙◌, subst, false, true, inl, inr, ◌⊎◌, none, some, arith, take,
  Bool-cases, Option-cases, before_first,
}
use dbgscript.Console.{Text}
use dbgscript.Exec.{HResult, failed, ok, err, of_reply, Reply, Result-cases}
use dbgscript.Engine.{ModuleAndTypeId, NearName, TypedDataOp, Symbols, DataSpaces, Advanced}
use dbgscript.Host.{Host}
use dbgscript.Platform.{CopyText, CopyLaws}
use dbgscript.SymCache.{get_cached_symbol_type}
use dbgscript.SymCache.Coherence.{answer, IsCoherent, symbol_type-Looked}
use dbgscript.TypedObject.{
  TypedObject, vftable_suffix, read_vptr, init_from_vtable, ds_initialize_typed_object,
  ds_typed_object_get_runtime_type,
}
use dbgscript.TypedObject.Names.{IsNamed}
use dbgscript.TypedObject.Walks.{initialize_object, IsCoherent-same}

module _ {W : Type 0} (copy : CopyText) (copies : CopyLaws copy) (syms : Symbols W)
    (spaces : DataSpaces W) (adv : Advanced W) where
  -- No object: the symbol names no vtable, or the engine knows no type by its class name.
  abbrev pub NoRuntimeType : Text → W → Type 0
  NoRuntimeType symbol w =
      (before_first vftable_suffix symbol ≡ none)
      ⊎ ((class_name : Text) × (before_first vftable_suffix symbol ≡ some class_name)
          × (answer (syms.symbol_type_id class_name w) ≡ none))

  -- The object for the type `info` of the class, at the address `addr`.
  pub record IsRuntimeObject (o : TypedObject) (symbol : Text) (addr : ℕ) (w : W)
      (new : TypedObject) : Type 0 where
    pub class_name : Text
    pub class_symbol : before_first vftable_suffix symbol ≡ some class_name
    pub info : ModuleAndTypeId
    pub known : answer (syms.symbol_type_id class_name w) ≡ some info
    pub name_kept : new.name ≡ take 511 o.name
    pub type_named : info.module_base ≢ 0 → IsNamed syms info w new
    pub data_made :
        addr ≢ 0
        → (new.typed_data_valid ≡ true)
          × (of_reply (
                adv.request
                  (TypedDataOp.set_from_type_id_and_u64 info.module_base addr info.type_id)
                  w)
              ≡ ok new.typed_data)

  read_vptr_keeps :
      (o : TypedObject) (h : Host W)
      → ((read_vptr copy syms spaces adv o h).1.world ≡ h.world)
        × ((read_vptr copy syms spaces adv o h).1.caches ≡ h.caches)
  unfolding read_vptr
  read_vptr_keeps o h = (ground arith, ground arith)

  init_cases :
      (o : TypedObject) (hr : HResult) (ptr addr : ℕ) (symbol : Text) (new : TypedObject)
      (h : Host W)
      → IsCoherent syms h
      → let r : HResult × TypedObject × Host W =
          init_from_vtable copy syms spaces adv o hr ptr addr symbol new h in
        failed r.0 ≡ false
        → (NoRuntimeType symbol h.world × (r.1 ≡ new)) ⊎ IsRuntimeObject o symbol addr h.world r.1
  unfolding init_from_vtable
  init_cases o hr ptr addr symbol new h c =
      elim (Option-cases (before_first vftable_suffix symbol)) [
        | inl no_vtable ↦ rw (no_vtable, init_from_vtable) (λ e. inl (inl refl, refl))
        | inr (cls, vtable) ↦
            let looked = symbol_type-Looked syms cls h c in
            elim (Option-cases (get_cached_symbol_type syms cls h).0) [
              | inl unknown ↦
                  rw (vtable, unknown, init_from_vtable)
                    (λ e. inl (inr (cls, refl, sym looked.right ∙ unknown), refl))
              | inr (info, found) ↦
                  let h' : Host W = (get_cached_symbol_type syms cls h).1 in
                  let made =
                    initialize_object copy copies syms adv o.typed_data.size (some o.name)
                      info.type_id info.module_base addr false new h' looked.coherent in
                  let n : TypedObject =
                    (ds_initialize_typed_object copy syms adv o.typed_data.size (some o.name)
                      info.type_id info.module_base addr false new h').1 in
                  rw (vtable, found, init_from_vtable)
                    (λ e. inr (
                      subst (λ (w : W). IsRuntimeObject o symbol addr w n) looked.untouched.0
                        (record {
                          class_name = cls;
                          class_symbol = vtable;
                          info = info;
                          known =
                              ap (λ w. answer (syms.symbol_type_id cls w)) looked.untouched.0
                              ∙ sym looked.right
                              ∙ found;
                          name_kept = (made.1 e).0;
                          type_named = (made.1 e).1;
                          data_made = (made.1 e).3;
                        })))
            ]
      ]

  read_vptr_fails :
      (o : TypedObject) (h : Host W) (hr : HResult)
      → (read_vptr copy syms spaces adv o h).0 ≡ err hr
      → failed hr ≡ true
  unfolding read_vptr
  read_vptr_fails o h hr e = ground arith

  -- What a walk that ended with the object `new'` has seen in the engine's state `w`, given the
  -- pointer and the address that it read.
  pub record Walked (o new new' : TypedObject) (w : W) (ptr addr : ℕ) : Type 0 where
    pub symbol : Text
    pub at_vtable : answer (syms.name_by_offset ptr w) ≢ none
    pub symbol_there : (syms.name_by_offset ptr w).1.near ≡ symbol
    pub outcome : (NoRuntimeType symbol w × (new' ≡ new)) ⊎ IsRuntimeObject o symbol addr w new'

  from_vptr :
      (o new : TypedObject) (h : Host W) (ptr addr : ℕ)
      → IsCoherent syms h
      → let name : Reply NearName = syms.name_by_offset ptr h.world in
        let r : HResult × TypedObject × Host W =
          init_from_vtable copy syms spaces adv o name.0 ptr addr name.1.near new h in
        failed name.0 ≡ false → failed r.0 ≡ false → Walked o new r.1 h.world ptr addr
  from_vptr o new h ptr addr c there e = record {
    symbol = (syms.name_by_offset ptr h.world).1.near;
    at_vtable = λ none'. ground (arith, there, none');
    symbol_there = refl;
    outcome = init_cases o _ ptr addr _ new h c e;
  }

  -- When the walk succeeds, with coherent caches, it has read the pointers of the object and the
  -- symbol at its vtable. Either the symbol shows no vtable of a class that the engine knows, and then
  -- the out-parameter is as the caller had it; or the new object is that of the class, under the name
  -- of the old one and at the address that was read.
  pub runtime_type_success :
      (o new : TypedObject) (h : Host W)
      → IsCoherent syms h
      → let r : HResult × TypedObject × Host W =
          ds_typed_object_get_runtime_type copy syms spaces adv o new h in
        failed r.0 ≡ false
        → (ptr addr : ℕ) × ((read_vptr copy syms spaces adv o h).0 ≡ ok (ptr, addr))
          × Walked o new r.1 h.world ptr addr
  unfolding ds_typed_object_get_runtime_type
  runtime_type_success o new h c =
      let h' : Host W = (read_vptr copy syms spaces adv o h).1 in
      let (world, caches) = read_vptr_keeps o h in
      let c' : IsCoherent syms h' = IsCoherent-same syms h h' world caches c in
      elim (Result-cases (read_vptr copy syms spaces adv o h).0) [
        | inr (hr, bad) ↦
            rw (bad, ds_typed_object_get_runtime_type) (λ e. cc (read_vptr_fails o h hr bad))
        | inl ((ptr, addr), good) ↦
            rw (good, ds_typed_object_get_runtime_type)
              (elim (Bool-cases (failed (syms.name_by_offset ptr h'.world).0)) [
                | inl no_symbol ↦ rw no_symbol (λ e. cc)
                | inr there ↦
                    let name : Reply NearName = syms.name_by_offset ptr h'.world in
                    let n : TypedObject =
                      (init_from_vtable copy syms spaces adv o name.0 ptr addr name.1.near new
                        h').1 in
                    rw there (λ e. (
                      ptr,
                      addr,
                      refl,
                      subst (λ (w : W). Walked o new n w ptr addr) world
                          (from_vptr o new h' ptr addr c' there e),
                    ))
              ])
      ]

  init_without_class :
      (o : TypedObject) (hr : HResult) (ptr addr : ℕ) (symbol : Text) (new : TypedObject)
      (h : Host W)
      → IsCoherent syms h
      → NoRuntimeType symbol h.world
      → let r : HResult × TypedObject × Host W =
          init_from_vtable copy syms spaces adv o hr ptr addr symbol new h in
        (r.0 ≡ hr) × (r.1 ≡ new)
  unfolding init_from_vtable
  init_without_class o hr ptr addr symbol new h c (inl no_vtable) =
      rw (no_vtable, init_from_vtable) (refl, refl)
  init_without_class o hr ptr addr symbol new h c (inr (cls, vtable, unknown)) =
      let looked = symbol_type-Looked syms cls h c in
      rw (vtable, looked.right ∙ unknown, init_from_vtable) (refl, refl)

  -- An object whose pointers can be read, whose vtable pointer has a symbol, but which has no vtable
  -- there or is of a class that the engine does not know: the call still succeeds, and leaves the
  -- out-parameter as the caller had it.
  pub NoRuntimeType-succeeds :
      (o new : TypedObject) (h : Host W) (ptr addr : ℕ)
      → IsCoherent syms h
      → (read_vptr copy syms spaces adv o h).0 ≡ ok (ptr, addr)
      → failed (syms.name_by_offset ptr h.world).0 ≡ false
      → NoRuntimeType (syms.name_by_offset ptr h.world).1.near h.world
      → let r : HResult × TypedObject × Host W =
          ds_typed_object_get_runtime_type copy syms spaces adv o new h in
        (failed r.0 ≡ false) × (r.1 ≡ new)
  unfolding ds_typed_object_get_runtime_type
  NoRuntimeType-succeeds o new h ptr addr c read there none' =
      let h' : Host W = (read_vptr copy syms spaces adv o h).1 in
      let (world, caches) = read_vptr_keeps o h in
      let c' : IsCoherent syms h' = IsCoherent-same syms h h' world caches c in
      let there' : failed (syms.name_by_offset ptr h'.world).0 ≡ false =
        subst (λ (w : W). failed (syms.name_by_offset ptr w).0 ≡ false) (sym world) there in
      let name : Reply NearName = syms.name_by_offset ptr h'.world in
      let nothing : NoRuntimeType name.1.near h'.world =
        subst (λ (w : W). NoRuntimeType (syms.name_by_offset ptr w).1.near w) (sym world) none' in
      let (code, same) = init_without_class o name.0 ptr addr name.1.near new h' c' nothing in
      rw (read, there', ds_typed_object_get_runtime_type)
        (subst (λ (hr : HResult). failed hr ≡ false) (sym code) there', same)
