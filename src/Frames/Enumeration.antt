-- ===== src/Frames/Enumeration.antt =====
-- The loop of UtilEnumStackFrameVariables in src/support/util.cpp against a relation that says which
-- calls it makes.
use dbgscript.Base.{ℕ, zero, suc, ◌+◌, ◌≤◌, ◌<◌, ◌≡◌, refl, ap, subst, inl, inr, arith}
use dbgscript.Exec.{HResult, Result, ok, err, Result-cases}
use dbgscript.Engine.{SymbolGroups}
use dbgscript.Host.{Host}
use dbgscript.Frames.{VarsCallback, visit, visit_from, util_enum_stack_frame_variables}

module _ {W : Type 0} (groups : SymbolGroups W) (sym_grp : ℕ) (callback : VarsCallback groups) where
  -- `Visited i g j h`: from `g`, the rounds `i`, `i + 1`, …, `j - 1` succeed in this order and lead
  -- to `h`.
  pub data Visited : ℕ → Host W → ℕ → Host W → Type 0 where
    none_left : {i : ℕ} {g : Host W} → Visited i g i g
    one_more :
        {i j : ℕ} {f g h : Host W}
        → visit groups sym_grp callback i f ≡ (ok tt, g)
        → Visited (i + 1) g j h
        → Visited i f j h

  -- How the loop over the rounds `i`, …, `n - 1` ends, and where: after all of them, or at the first
  -- one that fails.
  pub data Ends (i n : ℕ) (f : Host W) : Result (Unit {0}) → Host W → Type 0 where
    all_visited : {h : Host W} → Visited i f n h → Ends i n f (ok tt) h
    stopped :
        {h : Host W} (k : ℕ) (g : Host W) (hr : HResult)
        → i ≤ k
        → k < n
        → Visited i f k g
        → visit groups sym_grp callback k g ≡ (err hr, h)
        → Ends i n f (err hr) h

  -- One successful round in front.
  Ends-before :
      {i n : ℕ} {f g h : Host W} {r : Result (Unit {0})}
      → visit groups sym_grp callback i f ≡ (ok tt, g)
      → Ends (i + 1) n g r h
      → Ends i n f r h
  Ends-before first (all_visited v) = all_visited (one_more first v)
  Ends-before first (stopped k g hr low high v fails) =
      stopped k g hr (omega arith) high (one_more first v) fails

  visit_from-Ends :
      (i left n : ℕ) (f : Host W)
      → i + left ≡ n
      → let (r, h) = visit_from groups sym_grp callback i left f in Ends i n f r h
  unfolding visit_from
  visit_from-Ends i zero n f e =
      let same : i ≡ n = omega arith in
      subst (λ m. Ends i m f (ok tt) f) same (all_visited none_left)
  visit_from-Ends i (suc left) n f e =
      let g : Host W = (visit groups sym_grp callback i f).1 in
      let rest : Ends (i + 1) n g (visit_from groups sym_grp callback (i + 1) left g).0
          (visit_from groups sym_grp callback (i + 1) left g).1 =
        visit_from-Ends (i + 1) left n g (omega arith) in
      elim (Result-cases (visit groups sym_grp callback i f).0) [
        | inl (u, good) ↦ rw (good, visit_from) (Ends-before (ap (λ r. (r, g)) good) rest)
        | inr (hr, bad) ↦
            rw (bad, visit_from)
              (stopped i f hr (omega arith) (omega arith) none_left (ap (λ r. (r, g)) bad))
      ]

  -- The enumeration visits the variables `0`, …, `num_sym - 1` in order, each one once, and returns
  -- success only when each visit succeeds; it stops at the first that fails, with its code. On both
  -- paths the symbol group is released last, once.
  pub enum_visits_in_order :
      (num_sym : ℕ) (f : Host W)
      → (h : Host W) × Ends 0 num_sym f
          (util_enum_stack_frame_variables groups sym_grp num_sym callback f).0
          h
        × ((util_enum_stack_frame_variables groups sym_grp num_sym callback f).1
            ≡ record h { world = groups.release sym_grp h.world })
  unfolding util_enum_stack_frame_variables
  enum_visits_in_order num_sym f = (
    (visit_from groups sym_grp callback 0 num_sym f).1,
    visit_from-Ends 0 num_sym num_sym f (omega arith),
    refl,
  )
