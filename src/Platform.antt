-- ===== src/Platform.antt =====
-- What the program takes from the Windows SDK and the C runtime and does not implement.
use dbgscript.Base.{
  ℕ, sym, ap, ◌∙◌, inl, inr, leb, take_all, Bool-cases, ◌-◌, ◌≤◌, ◌<◌, ◌≡◌, true, length, take,
  arith,
}
use dbgscript.Console.{Text}
use dbgscript.Exec.{failed, Reply, s_ok}

-- `StringCchCopy(dest, cch, src)` of strsafe.h: its code, and the text that `dest` then holds. The
-- bounded copy `StringCchCopyN(dest, cch, src, n)` is a copy of the first `n` characters of `src`.
abbrev pub CopyText : Type 0
CopyText = ℕ → Text → Reply Text

-- Its documented behaviour: a text that fits with its NUL is copied whole, and a longer one is cut
-- and reported.
pub record CopyLaws (copy : CopyText) : Type 0 where
  pub fits : (cch : ℕ) (src : Text) → length src < cch → copy cch src ≡ (s_ok, src)
  pub cut : (cch : ℕ) (src : Text) → cch ≤ length src → (copy cch src).1 ≡ take (cch - 1) src
  pub cut_fails : (cch : ℕ) (src : Text) → cch ≤ length src → failed (copy cch src).0 ≡ true

-- In either case the first characters arrive, as many as there is room for.
pub copy-eq-take :
    {copy : CopyText}
    → CopyLaws copy
    → (cch : ℕ) (text : Text) → 0 < cch
    → (copy cch text).1 ≡ take (cch - 1) text
copy-eq-take laws cch text room = elim (Bool-cases (leb cch (length text))) [
  | inl long ↦ laws.cut cch text (ground arith)
  | inr short ↦
      ap (λ r. r.1) (laws.fits cch text (ground arith))
      ∙ sym (take_all (cch - 1) text (ground arith))
]
