-- ===== src/SymCache/Keys.antt =====
-- The keys of the maps of src/support/symcache.cpp, and `ModuleAndTypeId::operator<`.
use dbgscript.Base.{
  ◌≡◌, Bool, true, false, ◌⊎◌, arith, text_eq, text_eq→eq, text_eq_refl, ◌==◌, ==_iff,
}
use dbgscript.Engine.{ModuleAndTypeId}
use dbgscript.SymCache.{key_less, same_key}
use dbgscript.SymCache.Maps.{Separates}

-- What `std::map` asks of its order, and that no two different keys are taken for one.
pub record IsKeyOrder (less : ModuleAndTypeId → ModuleAndTypeId → Bool) : Type 0 where
  pub irreflexive : (a : ModuleAndTypeId) → less a a ≡ false
  pub transitive : (a b c : ModuleAndTypeId) → less a b ≡ true → less b c ≡ true → less a c ≡ true
  pub connected : (a b : ModuleAndTypeId) → (less a b ≡ true) ⊎ (less b a ≡ true) ⊎ (a ≡ b)

-- `operator<` of a module and type id is a strict total order.
pub key_less-IsKeyOrder : IsKeyOrder key_less
unfolding key_less
key_less-IsKeyOrder = record {
  irreflexive = λ a. ground arith;
  transitive = λ a b c p q. ground arith;
  connected = λ a b. ground arith;
}

-- Two keys of the type-name cache are one entry exactly when they agree in both fields.
pub same_key-Separates : Separates same_key
unfolding same_key
same_key-Separates = record { sound = λ a b h. ground arith; complete = λ a. ground arith }

pub text_eq-Separates : Separates text_eq
text_eq-Separates = record { sound = text_eq→eq; complete = text_eq_refl }

pub eq-Separates : Separates ◌==◌
eq-Separates = record { sound = λ a b h. (==_iff a b).0 h; complete = λ a. ground arith }
