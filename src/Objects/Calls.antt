-- ===== src/Objects/Calls.antt =====
-- Facts about the calls that src/luaprov, src/pythonprov and src/rubyprov make on typed objects.
use dbgscript.Base.{ℕ, ◌≡◌, refl, Bool, true, arith}
use dbgscript.Console.{Text}
use dbgscript.Host.{Host}
use dbgscript.Script.{Outcome, returned, raised, Script, ◌>>=◌}
use dbgscript.TypedObject.{
  TypedObject, ds_typed_object_get_array_element, ds_typed_object_get_field,
}
use dbgscript.Objects.{Services, element, field, checked}

module _ {W : Type 0} (svc : Services W) where
  pub element-world : (o : TypedObject) (i : ℕ) (h : Host W) → (element svc o i h).1.world ≡ h.world
  unfolding ds_typed_object_get_array_element
  element-world o i h = ground arith

  pub field-world :
      (o : TypedObject) (name : Text) (loud : Bool) (h : Host W)
      → (field svc o name loud h).1.world ≡ h.world
  unfolding ds_typed_object_get_field
  field-world o name loud h = ground arith

module _ {W : Type 0} where
  -- A bind depends on its continuation only at what the first part gives.
  pub bind_ap :
      {A B : Type 0} (f g : A → Script W B) (s : Outcome A × Host W)
      → ((a : A) → f a s.1 ≡ g a s.1)
      → (elim s.0 [ returned a ↦ f a s.1 | raised e ↦ (raised e, s.1) ])
        ≡ (elim s.0 [ returned a ↦ g a s.1 | raised e ↦ (raised e, s.1) ])
  bind_ap f g (returned a, h') same = same a
  bind_ap f g (raised e, h') same = refl

  pub checked_valid :
      {A : Type 0} (o : TypedObject) (m : Script W A) (h : Host W)
      → o.typed_data_valid ≡ true
      → checked o m h ≡ m h
  checked_valid o m h valid = rw valid refl

  pub bind_assoc :
      {A B C : Type 0} (f : A → Script W B) (g : B → Script W C) (s : Outcome A × Host W)
      → (elim s.0 [ returned a ↦ (f a >>= g) s.1 | raised e ↦ (raised e, s.1) ]) ≡ (
          let t : Outcome B × Host W = elim s.0 [
            | returned a ↦ f a s.1
            | raised e ↦ (raised e, s.1)
          ] in
          elim t.0 [ returned b ↦ g b t.1 | raised e ↦ (raised e, t.1) ])
  bind_assoc f g (returned a, h') = refl
  bind_assoc f g (raised e, h') = refl
