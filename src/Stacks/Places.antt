-- ===== src/Stacks/Places.antt =====
-- The loop over the places of a symbol group, in the three stackframe.cpp of src/luaprov,
-- src/pythonprov and src/rubyprov.
use dbgscript.Base.{
  ℕ, zero, suc, ◌+◌, ◌<◌, ◌≡◌, ◌≢◌, refl, sym, ap, ◌∙◌, ◌⊎◌, inl, inr, subst, true, false, List, [],
  ◌∷◌, length, not, ◌&&◌, ◌==◌, arith, Bool-cases, some,
}
use dbgscript.Console.{Diagnostic}
use dbgscript.Exec.{HResult, failed, e_nointerface}
use dbgscript.Engine.{SymbolEntry, SymbolGroups}
use dbgscript.Host.{Host, report}
use dbgscript.Script.{ScriptError, Outcome, returned, raised}
use dbgscript.TypedObject.{TypedObject}
use dbgscript.Functions.{Allocate}
use dbgscript.Stacks.{
  Round, made, failed_with, OnError, variable, add_object, after_round, variables_from,
}

module _ {W : Type 0} (groups : SymbolGroups W) (grp : ℕ) where
  -- The entry at a place of the group can be used: it is there, or optimized away.
  abbrev pub Usable : ℕ → Host W → Type 0
  Usable i h =
      let (hr, entry) = groups.entry_information grp i h.world in
      (failed hr ≡ false) ⊎ (hr ≡ e_nointerface)

  -- The entry at a place cannot be had, or its name cannot: the code, and the line that tells of it.
  abbrev pub Refused : ℕ → Host W → HResult → Host W → Type 0
  Refused i h hr h' =
      let (hr0, entry) = groups.entry_information grp i h.world in
      let (hr1, name) = groups.symbol_name grp i h.world in
      ((failed hr0 ≡ true)
        × (hr0 ≢ e_nointerface)
        × (hr ≡ hr0)
        × (h' ≡ report (Diagnostic.failed_get_sym_entry_info hr0) h))
      ⊎ (Usable i h
          × (failed hr1 ≡ true)
          × (hr ≡ hr1)
          × (h' ≡ report (Diagnostic.failed_get_sym_name hr1) h))

  module _ (alloc : Allocate W) where
    -- The language's making of an object of the entry and the name at a place.
    abbrev pub making : ℕ → Host W → Outcome TypedObject × Host W
    making i h =
        let e : SymbolEntry = (groups.entry_information grp i h.world).1 in
        alloc e.entry_size (some (groups.symbol_name grp i h.world).1) e.entry_type_id
          e.entry_module_base e.entry_offset false h

    -- The making was reached, and gave this.
    abbrev pub Made : ℕ → Host W → Outcome TypedObject → Host W → Type 0
    Made i h r h' =
        Usable i h × (failed (groups.symbol_name grp i h.world).0 ≡ false) × (making i h ≡ (r, h'))

    -- The objects are those of the places from `i` on, one for each in order, each made where the
    -- one before it left the host.
    abbrev pub MadeOf : ℕ → List TypedObject → Host W → Host W → Type 0
    MadeOf i [] h h' = h' ≡ h
    MadeOf i (o ∷ os) h h' = (g : Host W) × Made i h (returned o) g × MadeOf (i + 1) os g h'

-- How the loop ends from a place on, before the release.
module _ {W : Type 0} (groups : SymbolGroups W) (grp : ℕ) (alloc : Allocate W) (on_error : OnError)
    (lost : ScriptError → Round (List TypedObject))
    (stops : (e : ScriptError) (rest : Host W → Round (List TypedObject) × Host W) (h : Host W)
      → after_round (on_error e) rest h ≡ (lost e, h))
    (passes : (o : TypedObject) (e : ScriptError) → add_object o (lost e) ≡ lost e) where
  abbrev pub Ends : ℕ → ℕ → Host W → Round (List TypedObject) × Host W → Type 0
  Ends i left h s =
      (os : List TypedObject) × (g : Host W) × MadeOf groups grp alloc i os h g
      × (((length os ≡ left) × (s ≡ (made os, g)))
          ⊎ ((length os < left)
              × (((hr : HResult) × (g' : Host W) × Refused groups grp (i + length os) g hr g'
                    × (s ≡ (failed_with hr, g')))
                  ⊎ ((e : ScriptError) × (g' : Host W) × Made groups grp alloc (i + length os) g
                        (raised e) g'
                      × (s ≡ (lost e, g'))))))

  -- A round, by what it meets.
  abbrev Round_ : ℕ → Host W → Round TypedObject × Host W → Type 0
  Round_ i h s =
      ((hr : HResult) × (g : Host W) × Refused groups grp i h hr g × (s ≡ (failed_with hr, g)))
      ⊎ (((o : TypedObject) × (g : Host W) × Made groups grp alloc i h (returned o) g
            × (s ≡ (made o, g)))
          ⊎ ((e : ScriptError) × (g : Host W) × Made groups grp alloc i h (raised e) g
              × (s ≡ (on_error e, g))))

  making-cases :
      (i : ℕ) (h : Host W) (r : Outcome TypedObject × Host W)
      → making groups grp alloc i h ≡ r
      → Usable groups grp i h
      → failed (groups.symbol_name grp i h.world).0 ≡ false
      → Round_ i h (elim r.0 [ returned o ↦ made o | raised e ↦ on_error e ], r.1)
  making-cases i h (returned o, g) e use_ named = inr (inl (o, g, (use_, named, e), refl))
  making-cases i h (raised x, g) e use_ named = inr (inr (x, g, (use_, named, e), refl))

  round-cases : (i : ℕ) (h : Host W) → Round_ i h (variable groups alloc on_error grp i h)
  unfolding variable
  round-cases i h =
      let (hr, entry) = groups.entry_information grp i h.world in
      let (hr1, name) = groups.symbol_name grp i h.world in
      elim (Bool-cases (failed hr && not (hr == e_nointerface))) [
        | inl bad ↦ inl (
          hr,
          report (Diagnostic.failed_get_sym_entry_info hr) h,
          inl (ground (arith, bad), ground (arith, bad), refl, refl),
          rw bad refl,
        )
        | inr fine ↦
            let usable : Usable groups grp i h = elim (Bool-cases (failed hr)) [
              | inl bad ↦ inr (ground (arith, fine, bad))
              | inr good ↦ inl good
            ] in
            elim (Bool-cases (failed hr1)) [
              | inl unnamed ↦ inl (
                hr1,
                report (Diagnostic.failed_get_sym_name hr1) h,
                inr (usable, unnamed, refl, refl),
                rw (fine, unnamed) refl,
              )
              | inr named ↦
                  let r = making groups grp alloc i h in
                  let reached : variable groups alloc on_error grp i h
                      ≡ (elim r.0 [ returned o ↦ made o | raised e ↦ on_error e ], r.1) =
                    rw (fine, named) refl in
                  subst (Round_ i h) (sym reached) (making-cases i h r refl usable named)
            ]
      ]

  -- A round that makes an object goes in front of what the rest ends as.
  Ends-cons :
      (left i : ℕ) (h g : Host W) (o : TypedObject) (t : Round (List TypedObject) × Host W)
      → Made groups grp alloc i h (returned o) g
      → Ends (i + 1) left g t
      → Ends i (suc left) h (add_object o t.0, t.1)
  Ends-cons left i h g o t m (os, g2, ms, inl (all, e)) =
      (o ∷ os, g2, (g, m, ms), inl (omega (arith, all), ap (λ u. (add_object o u.0, u.1)) e))
  Ends-cons left i h g o t m (os, g2, ms, inr (fewer, inl (hr, g3, refused, e))) =
      let next : i + 1 + length os ≡ i + length (o ∷ os) = omega arith in
      (
        o ∷ os,
        g2,
        (g, m, ms),
        inr (
          omega (arith, fewer),
          inl (
            hr,
            g3,
            subst (λ k. Refused groups grp k g2 hr g3) next refused,
            ap (λ u. (add_object o u.0, u.1)) e,
          ),
        ),
      )
  Ends-cons left i h g o t m (os, g2, ms, inr (fewer, inr (x, g3, lost_, e))) =
      let next : i + 1 + length os ≡ i + length (o ∷ os) = omega arith in
      (
        o ∷ os,
        g2,
        (g, m, ms),
        inr (
          omega (arith, fewer),
          inr (
            x,
            g3,
            subst (λ k. Made groups grp alloc k g2 (raised x) g3) next lost_,
            ap (λ u. (add_object o u.0, u.1)) e ∙ ap (λ r. (r, g3)) (passes o x),
          ),
        ),
      )

  pub loop-Ends :
      (left i : ℕ) (h : Host W) → Ends i left h (variables_from groups alloc on_error grp i left h)
  unfolding variables_from
  loop-Ends zero i h = ([], h, refl, inl (refl, refl))
  loop-Ends (suc left) i h =
      let rest = variables_from groups alloc on_error grp (i + 1) left in
      let here : i ≡ i + length {A = TypedObject} [] = omega arith in
      elim (round-cases i h) [
        | inl (hr, g, refused, e) ↦ (
          [],
          h,
          refl,
          inr (
            omega arith,
            inl (
              hr,
              g,
              subst (λ k. Refused groups grp k h hr g) here refused,
              ap (λ t. after_round t.0 rest t.1) e,
            ),
          ),
        )
        | inr (inl (o, g, m, e)) ↦
            subst (Ends i (suc left) h) (sym (ap (λ t. after_round t.0 rest t.1) e))
              (Ends-cons left i h g o (rest g) m (loop-Ends left (i + 1) g))
        | inr (inr (x, g, m, e)) ↦ (
          [],
          h,
          refl,
          inr (
            omega arith,
            inr (
              x,
              g,
              subst (λ k. Made groups grp alloc k h (raised x) g) here m,
              ap (λ t. after_round t.0 rest t.1) e ∙ stops x rest g,
            ),
          ),
        )
      ]
