-- ===== src/TypedObject/Names.antt =====
-- The names that fillTypeAndModuleName of src/support/dstypedobject.cpp gives an object.
use dbgscript.Base.{
  ℕ, ◌≡◌, ◌≢◌, refl, sym, ap, ◌∙◌, false, inl, inr, Option, none, some, arith, take, Bool-cases,
  Option-cases, ◌==◌,
}
use dbgscript.Console.{Text, Diagnostic}
use dbgscript.Exec.{failed}
use dbgscript.Engine.{ModuleAndTypeId, Symbols}
use dbgscript.Host.{Host, report}
use dbgscript.Platform.{CopyText, CopyLaws, copy-eq-take}
use dbgscript.SymCache.{get_cached_type_name, get_cached_module_name}
use dbgscript.SymCache.Coherence.{answer, IsCoherent, type_name-Looked, module_name-Looked}
use dbgscript.TypedObject.{
  TypedObject, unnamed, invalid, fill_type_and_module_name, set_names, max_symbol_name_len,
  max_module_name_len,
}

module _ {W : Type 0} (syms : Symbols W) where
  -- The names of a type are the engine's: the type's own name, cut to 511 characters, and the whole
  -- name of the module.
  pub record IsNamed (key : ModuleAndTypeId) (w : W) (o : TypedObject) : Type 0 where
    pub type_text : Text
    pub type_known : answer (syms.type_name key w) ≡ some type_text
    pub type_kept : o.type_name ≡ take 511 type_text
    pub module_text : Text
    pub module_known : answer (syms.module_name key.module_base w) ≡ some module_text
    pub module_kept : o.module_name ≡ module_text

  -- What `fillTypeAndModuleName` leaves behind.
  pub record Filled (key : ModuleAndTypeId) (o : TypedObject) (h : Host W)
      (r : ℕ × TypedObject × Host W) : Type 0 where
    pub coherent : IsCoherent syms r.2
    pub same_world : r.2.world ≡ h.world
    pub others_kept :
        (r.1.name ≡ o.name)
        × (r.1.typed_data ≡ o.typed_data)
        × (r.1.typed_data_valid ≡ o.typed_data_valid)
    pub named : failed r.0 ≡ false → IsNamed key h.world r.1

module _ {W : Type 0} (copy : CopyText) (copies : CopyLaws copy) (syms : Symbols W) where
  report-IsCoherent :
      (d : Diagnostic) (h : Host W) → IsCoherent syms h → IsCoherent syms (report d h)
  report-IsCoherent d h c = record { symbols = c.symbols; modules = c.modules; types = c.types }

  copied_whole :
      (m : Text)
      → failed (copy max_module_name_len m).0 ≡ false
      → (copy max_module_name_len m).1 ≡ m
  copied_whole m e =
      ground (arith, copies.fits max_module_name_len m, copies.cut_fails max_module_name_len m)

  pub fill-Filled :
      (type_id module_base : ℕ) (o : TypedObject) (h : Host W)
      → IsCoherent syms h
      → Filled syms
          (record { type_id = type_id; module_base = module_base })
          o
          h
          (fill_type_and_module_name copy syms type_id module_base o h)
  unfolding fill_type_and_module_name
  fill-Filled type_id module_base o h c =
      let key : ModuleAndTypeId = record { type_id = type_id; module_base = module_base } in
      let h' : Host W = (get_cached_type_name syms key h).1 in
      let looked = type_name-Looked syms key h c in
      let looked' = module_name-Looked syms module_base h' looked.coherent in
      elim (Option-cases (get_cached_type_name syms key h).0) [
        | inl no_type ↦
            rw (no_type, fill_type_and_module_name)
              (record {
                coherent = report-IsCoherent Diagnostic.failed_get_type_name h' looked.coherent;
                same_world = looked.untouched.0;
                others_kept = (refl, refl, refl);
                named = λ e. cc;
              })
        | inr (t, type) ↦ elim (Option-cases (get_cached_module_name syms module_base h').0) [
          | inl no_module ↦
              rw (type, no_module, fill_type_and_module_name)
                (record {
                  coherent =
                      report-IsCoherent Diagnostic.failed_get_module_name
                        (get_cached_module_name syms module_base h').1 looked'.coherent;
                  same_world = looked'.untouched.0 ∙ looked.untouched.0;
                  others_kept = (refl, refl, refl);
                  named = λ e. cc;
                })
          | inr (m, module_name) ↦
              rw (type, module_name, fill_type_and_module_name)
                (record {
                  coherent = looked'.coherent;
                  same_world = looked'.untouched.0 ∙ looked.untouched.0;
                  others_kept = (refl, refl, refl);
                  named = λ e. record {
                    type_text = t;
                    type_known = sym looked.right ∙ type;
                    type_kept = copy-eq-take copies max_symbol_name_len t (omega arith);
                    module_text = m;
                    module_known =
                        ap (λ w. answer (syms.module_name module_base w)) (sym looked.untouched.0)
                        ∙ sym looked'.right
                        ∙ module_name;
                    module_kept = copied_whole m e;
                  };
                })
        ]
      ]

-- The name that an object gets.
abbrev pub given : Option Text → Text
given name = elim name [ some n ↦ n | none ↦ unnamed ]

module _ {W : Type 0} (copy : CopyText) (copies : CopyLaws copy) (syms : Symbols W) where
  -- What the first half of `DsInitializeTypedObject` leaves behind.
  pub record Titled (name : Option Text) (key : ModuleAndTypeId) (o : TypedObject) (h : Host W)
      (r : ℕ × TypedObject × Host W) : Type 0 where
    pub coherent : IsCoherent syms r.2
    pub same_world : r.2.world ≡ h.world
    pub data_kept : (r.1.typed_data ≡ o.typed_data) × (r.1.typed_data_valid ≡ o.typed_data_valid)
    pub name_given : r.1.name ≡ take 511 (given name)
    pub named : failed r.0 ≡ false → key.module_base ≢ 0 → IsNamed syms key h.world r.1
    pub invalid_named :
        failed r.0 ≡ false
        → key.module_base ≡ 0
        → (r.1.type_name ≡ invalid) × (r.1.module_name ≡ invalid)

  pub set_names-Titled :
      (name : Option Text) (type_id module_base : ℕ) (o : TypedObject) (h : Host W)
      → IsCoherent syms h
      → Titled name
          (record { type_id = type_id; module_base = module_base })
          o
          h
          (set_names copy syms name type_id module_base o h)
  unfolding set_names
  set_names-Titled name type_id module_base o h c =
      let o' : TypedObject = record o { name = (copy max_symbol_name_len (given name)).1 } in
      let filled = fill-Filled copy copies syms type_id module_base o' h c in
      let cut : o'.name ≡ take 511 (given name) =
        copy-eq-take copies max_symbol_name_len (given name) (omega arith) in
      elim (Bool-cases (module_base == 0)) [
        | inl zero_base ↦
            rw (zero_base, set_names)
              (record {
                coherent = c;
                same_world = refl;
                data_kept = (refl, refl);
                name_given = cut;
                named = λ e ne. absurd (ne (ground arith));
                invalid_named = λ e z. (
                  ap (λ r. r.1) (copies.fits max_symbol_name_len invalid (omega arith)),
                  ap (λ r. r.1) (copies.fits max_module_name_len invalid (omega arith)),
                );
              })
        | inr other ↦
            rw (other, set_names)
              (record {
                coherent = filled.coherent;
                same_world = filled.same_world;
                data_kept = (filled.others_kept.1, filled.others_kept.2);
                name_given = filled.others_kept.0 ∙ cut;
                named = λ e ne. filled.named e;
                invalid_named = λ e z. absurd (ground arith);
              })
      ]
