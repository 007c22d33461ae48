-- ===== src/SymCache/Maps.antt =====
-- What the caches use of `std::map`: `find`, and `operator[]` with an assignment. `same` says which
-- keys the order of the map takes for one.
use dbgscript.Base.{
  ◌≡◌, refl, Bool, true, inl, inr, Option, none, some, List, [], ◌∷◌, arith, if◌then◌else◌,
  Bool-cases,
}

module _ {K V : Type 0} (same : K → K → Bool) where
  unfoldable pub find : K → List (K × V) → Option V
  find k [] = none
  find k ((j, v) ∷ m) = if same j k then some v else find k m

  unfoldable pub put : K → V → List (K × V) → List (K × V)
  put k v [] = (k, v) ∷ []
  put k v ((j, w) ∷ m) = if same j k then (j, v) ∷ m else (j, w) ∷ put k v m

-- The order tells keys apart exactly when they differ.
pub record Separates {K : Type 0} (same : K → K → Bool) : Type 0 where
  pub sound : (j k : K) → same j k ≡ true → j ≡ k
  pub complete : (k : K) → same k k ≡ true

module _ {K V : Type 0} (same : K → K → Bool) (keys : Separates same) where
  -- An assignment at one key is seen at that key, and at no other.
  pub find-put :
      (k j : K) (v : V) (m : List (K × V))
      → find same j (put same k v m) ≡ (if same k j then some v else find same j m)
  unfolding find put
  find-put k j v [] = refl
  find-put k j v ((i, w) ∷ m) = elim (Bool-cases (same i k)) [
    | inl here ↦ rw here (rw (keys.sound i k here) (ground (arith, keys.sound k j)))
    | inr there ↦ rw there (elim (Bool-cases (same i j)) [
      | inl found ↦ ground (arith, keys.sound i j found, keys.sound k j, keys.complete k)
      | inr other ↦ rw other (find-put k j v m)
    ])
  ]
