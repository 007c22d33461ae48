-- ===== src/SymCache/Coherence.antt =====
-- The caches of src/support/symcache.cpp against direct calls of the engine.
use dbgscript.Base.{
  ℕ, ◌≡◌, refl, sym, ap, ◌∙◌, Bool, inl, inr, Option, none, some, List, ◌==◌, arith, text_eq,
  if◌then◌else◌, Bool-cases, Option-cases,
}
use dbgscript.Console.{Text}
use dbgscript.Exec.{failed, Reply}
use dbgscript.Engine.{ModuleAndTypeId, Symbols}
use dbgscript.Host.{Caches, Host}
use dbgscript.SymCache.{
  same_key, get_cached_symbol_type, get_cached_module_name, get_cached_type_name,
}
use dbgscript.SymCache.Maps.{find, put, find-put, Separates}
use dbgscript.SymCache.Keys.{same_key-Separates, text_eq-Separates, eq-Separates}

-- The answer of a direct call: nothing on a failure.
abbrev pub answer : {A : Type 0} → Reply A → Option A
answer (hr, a) = if failed hr then none else some a

-- Every entry of a map is what `ask` answers.
abbrev pub Agrees : {K V : Type 0} → (K → K → Bool) → (K → Reply V) → List (K × V) → Type 0
Agrees {K} {V} same ask m = (k : K) (v : V) → find same k m ≡ some v → answer (ask k) ≡ some v

module _ {K V : Type 0} (same : K → K → Bool) (keys : Separates same) (ask : K → Reply V) where
  put-Agrees :
      (k : K) (v : V) (m : List (K × V))
      → Agrees same ask m
      → answer (ask k) ≡ some v
      → Agrees same ask (put same k v m)
  put-Agrees k v m agrees e j w found =
      let step : (if same k j then some v else find same j m) ≡ some w =
        sym (find-put same keys k j v m) ∙ found in
      elim (Bool-cases (same k j)) [
        | inl here ↦ ground (arith, step, keys.sound k j here)
        | inr other ↦ agrees j w (ground (arith, step))
      ]

-- What a lookup of `k` does to a map, by what is found in it: at `k` the answer of the engine, and at
-- every other key what was found before.
abbrev pub Remembers :
    {K V : Type 0} → (K → K → Bool) → K → Reply V → List (K × V) → List (K × V) → Type 0
Remembers {K} same k direct m m' =
    (j : K) → find same j m' ≡ (if same k j then answer direct else find same j m)

-- The shape that the three lookups share.
through :
    {K V : Type 0} → (K → K → Bool) → (K → Reply V) → K → List (K × V) → Option V × List (K × V)
through same ask k m = elim (find same k m) [
  | some v ↦ (some v, m)
  | none ↦ let (hr, v) = ask k in if failed hr then (none, m) else (some v, put same k v m)
]

module _ {K V : Type 0} (same : K → K → Bool) (keys : Separates same) (ask : K → Reply V) where
  through-Agrees :
      (k : K) (m : List (K × V))
      → Agrees same ask m
      → ((through same ask k m).0 ≡ answer (ask k)) × Agrees same ask (through same ask k m).1
  unfolding through
  through-Agrees k m agrees = elim (Option-cases (find same k m)) [
    | inl miss ↦
        rw (miss, through)
          (elim (Bool-cases (failed (ask k).0)) [
            | inl no_answer ↦ rw no_answer (refl, agrees)
            | inr answered ↦
                rw answered (refl, put-Agrees same keys ask k (ask k).1 m agrees (rw answered))
          ])
    | inr (v, hit) ↦ rw (hit, through) (sym (agrees k v hit), agrees)
  ]

  through-Remembers :
      (k : K) (m : List (K × V))
      → Agrees same ask m
      → Remembers same k (ask k) m (through same ask k m).1
  unfolding through
  through-Remembers k m agrees j = elim (Option-cases (find same k m)) [
    | inl miss ↦
        rw (miss, through)
          (elim (Bool-cases (failed (ask k).0)) [
            | inl no_answer ↦ rw no_answer (elim (Bool-cases (same k j)) [
              | inl here ↦ rw here (ap (λ i. find same i m) (sym (keys.sound k j here)) ∙ miss)
              | inr other ↦ rw other refl
            ])
            | inr answered ↦ rw answered (find-put same keys k j (ask k).1 m)
          ])
    | inr (v, hit) ↦
        rw (hit, through)
          (elim (Bool-cases (same k j)) [
            | inl here ↦
                rw here
                  (ap (λ i. find same i m) (sym (keys.sound k j here)) ∙ hit ∙ sym (agrees k v hit))
            | inr other ↦ rw other refl
          ])
  ]

-- A lookup changes one map, at its key, and leaves the two others.
abbrev pub SymbolRemembered : Text → Reply ModuleAndTypeId → Caches → Caches → Type 0
SymbolRemembered s direct c c' =
    Remembers text_eq s direct c.sym_cache c'.sym_cache
    × (c'.mod_cache ≡ c.mod_cache)
    × (c'.type_name_cache ≡ c.type_name_cache)

abbrev pub ModuleRemembered : ℕ → Reply Text → Caches → Caches → Type 0
ModuleRemembered b direct c c' =
    Remembers ◌==◌ b direct c.mod_cache c'.mod_cache
    × (c'.sym_cache ≡ c.sym_cache)
    × (c'.type_name_cache ≡ c.type_name_cache)

abbrev pub TypeRemembered : ModuleAndTypeId → Reply Text → Caches → Caches → Type 0
TypeRemembered k direct c c' =
    Remembers same_key k direct c.type_name_cache c'.type_name_cache
    × (c'.sym_cache ≡ c.sym_cache)
    × (c'.mod_cache ≡ c.mod_cache)

module _ {W : Type 0} (syms : Symbols W) where
  -- Each map agrees with what the engine would answer now.
  pub record IsCoherent (h : Host W) : Type 0 where
    pub symbols : Agrees text_eq (λ s. syms.symbol_type_id s h.world) h.caches.sym_cache
    pub modules : Agrees ◌==◌ (λ b. syms.module_name b h.world) h.caches.mod_cache
    pub types : Agrees same_key (λ k. syms.type_name k h.world) h.caches.type_name_cache

  -- A lookup from `h` answered `o` and left `h'`: the answer is the engine's own, the caches stay
  -- right and are `remembered`, and nothing but the caches changed.
  pub record Looked {A : Type 0} (direct : Reply A) (remembered : Caches → Caches → Type 0)
      (h : Host W) (r : Option A × Host W) : Type 0 where
    pub right : r.0 ≡ answer direct
    pub coherent : IsCoherent r.1
    pub cached : remembered h.caches r.1.caches
    pub untouched :
        (r.1.world ≡ h.world)
        × (r.1.console ≡ h.console)
        × (r.1.script_path ≡ h.script_path)
        × (r.1.buffered_output_callbacks ≡ h.buffered_output_callbacks)

  symbol_type_through :
      (s : Text) (h : Host W)
      → let (o, m) = through text_eq (λ t. syms.symbol_type_id t h.world) s h.caches.sym_cache in
        get_cached_symbol_type syms s h
        ≡ (o, record h { caches = record (h.caches) { sym_cache = m } })
  unfolding get_cached_symbol_type through
  symbol_type_through s h = ground arith

  module_name_through :
      (b : ℕ) (h : Host W)
      → let (o, m) = through ◌==◌ (λ t. syms.module_name t h.world) b h.caches.mod_cache in
        get_cached_module_name syms b h
        ≡ (o, record h { caches = record (h.caches) { mod_cache = m } })
  unfolding get_cached_module_name through
  module_name_through b h = ground arith

  type_name_through :
      (k : ModuleAndTypeId) (h : Host W)
      → let (o, m) = through same_key (λ t. syms.type_name t h.world) k h.caches.type_name_cache in
        get_cached_type_name syms k h
        ≡ (o, record h { caches = record (h.caches) { type_name_cache = m } })
  unfolding get_cached_type_name through
  type_name_through k h = ground arith

  -- With coherent caches, `GetCachedSymbolType` answers as the engine does and keeps the
  -- caches coherent. Its map then gives that answer at the key that was asked for, and at every other
  -- key what it gave before; nothing else changes.
  pub symbol_type-Looked :
      (s : Text) (h : Host W)
      → IsCoherent h
      → Looked
          (syms.symbol_type_id s h.world)
          (SymbolRemembered s (syms.symbol_type_id s h.world))
          h
          (get_cached_symbol_type syms s h)
  symbol_type-Looked s h c =
      let (right, agrees) =
        through-Agrees text_eq text_eq-Separates (λ t. syms.symbol_type_id t h.world) s
          h.caches.sym_cache c.symbols in
      rw symbol_type_through (record {
        right = right;
        coherent = record { symbols = agrees; modules = c.modules; types = c.types };
        cached = (
          through-Remembers text_eq text_eq-Separates (λ t. syms.symbol_type_id t h.world) s
              h.caches.sym_cache c.symbols,
          refl,
          refl,
        );
        untouched = (refl, refl, refl, refl);
      })

  -- With coherent caches, `GetCachedModuleName` answers as the engine does and keeps the
  -- caches coherent. Its map then gives that answer at the key that was asked for, and at every other
  -- key what it gave before; nothing else changes.
  pub module_name-Looked :
      (b : ℕ) (h : Host W)
      → IsCoherent h
      → Looked
          (syms.module_name b h.world)
          (ModuleRemembered b (syms.module_name b h.world))
          h
          (get_cached_module_name syms b h)
  module_name-Looked b h c =
      let (right, agrees) =
        through-Agrees ◌==◌ eq-Separates (λ t. syms.module_name t h.world) b h.caches.mod_cache
          c.modules in
      rw module_name_through (record {
        right = right;
        coherent = record { symbols = c.symbols; modules = agrees; types = c.types };
        cached = (
          through-Remembers ◌==◌ eq-Separates (λ t. syms.module_name t h.world) b h.caches.mod_cache
              c.modules,
          refl,
          refl,
        );
        untouched = (refl, refl, refl, refl);
      })

  -- With coherent caches, `GetCachedTypeName` answers as the engine does and keeps the
  -- caches coherent. Its map then gives that answer at the key that was asked for, and at every other
  -- key what it gave before; nothing else changes.
  pub type_name-Looked :
      (k : ModuleAndTypeId) (h : Host W)
      → IsCoherent h
      → Looked
          (syms.type_name k h.world)
          (TypeRemembered k (syms.type_name k h.world))
          h
          (get_cached_type_name syms k h)
  type_name-Looked k h c =
      let (right, agrees) =
        through-Agrees same_key same_key-Separates (λ t. syms.type_name t h.world) k
          h.caches.type_name_cache c.types in
      rw type_name_through (record {
        right = right;
        coherent = record { symbols = c.symbols; modules = c.modules; types = agrees };
        cached = (
          through-Remembers same_key same_key-Separates (λ t. syms.type_name t h.world) k
              h.caches.type_name_cache c.types,
          refl,
          refl,
        );
        untouched = (refl, refl, refl, refl);
      })
