-- ===== src/TypeInfo/Nearest.antt =====
-- The name that UtilGetNearestSymbol of src/support/util.cpp puts into its caller's buffer.
use dbgscript.Base.{
  ℕ, ◌+◌, ◌-◌, ◌≤◌, ◌<◌, ◌≡◌, ◌≢◌, sym, ap, ◌∙◌, true, false, inl, inr, ◌∷◌, ◌++◌, arith,
  append-nil, length, length-append, take, take_all, take-append, ltb, Bool-cases,
}
use dbgscript.Console.{Text}
use dbgscript.Exec.{s_ok, failed, Reply}
use dbgscript.Engine.{NearName, Symbols}
use dbgscript.Host.{Host}
use dbgscript.Platform.{CopyText, CopyLaws, copy-eq-take}
use dbgscript.TypeInfo.{max_symbol_name_len, util_get_nearest_symbol}

-- What `GetNameByOffset` documents of a success: the name and its NUL fill so many characters of the
-- buffer, and `S_FALSE` that the name was cut.
pub record NameLaws {W : Type 0} (syms : Symbols W) : Type 0 where
  pub whole :
      (addr : ℕ) (w : W)
      → (syms.name_by_offset addr w).0 ≡ s_ok
      → length (syms.name_by_offset addr w).1.near + 1 ≡ (syms.name_by_offset addr w).1.actual
  pub room :
      (addr : ℕ) (w : W)
      → failed (syms.name_by_offset addr w).0 ≡ false
      → length (syms.name_by_offset addr w).1.near < max_symbol_name_len

module _ {W : Type 0} (syms : Symbols W) (laws : NameLaws syms) (copy : CopyText)
    (copies : CopyLaws copy) (hex : ℕ → Text) where
  -- What the call leaves, when the name is whole and there is a distance to add.
  appended :
      (addr : ℕ) (h : Host W)
      → (syms.name_by_offset addr h.world).0 ≡ s_ok
      → (syms.name_by_offset addr h.world).1.displacement ≢ 0
      → length (syms.name_by_offset addr h.world).1.near < 511
      → let name : NearName = (syms.name_by_offset addr h.world).1 in
        let plus : Text = b'+' ∷ hex name.displacement in
        let room : ℕ = 512 - length name.near in
        (util_get_nearest_symbol syms copy hex addr h).0
        ≡ ((copy room plus).0, name.near ++ (copy room plus).1)
  unfolding util_get_nearest_symbol
  appended addr h good far short =
      let name : NearName = (syms.name_by_offset addr h.world).1 in
      let e : name.actual - 1 ≡ length name.near = omega (arith, laws.whole addr h.world good) in
      let all : take (length name.near) name.near ≡ name.near =
        take_all (length name.near) name.near (omega arith) in
      ground (arith, laws.whole addr h.world good, e, all)

  filled :
      (addr : ℕ) (h : Host W)
      → (syms.name_by_offset addr h.world).0 ≡ s_ok
      → length (syms.name_by_offset addr h.world).1.near ≡ 511
      → (util_get_nearest_symbol syms copy hex addr h).0
        ≡ (s_ok, (syms.name_by_offset addr h.world).1.near)
  unfolding util_get_nearest_symbol
  filled addr h good full = ground (arith, laws.whole addr h.world good)

  take_whole : (xs ys : Text) → length xs ≡ 511 → take 511 (xs ++ ys) ≡ xs
  take_whole xs ys full =
      let e : 511 - length xs ≡ 0 = omega arith in
      take-append 511 xs ys (omega arith) ∙ ap (λ n. xs ++ take n ys) e ∙ append-nil xs

  -- The name of an address that has one, in full: the symbol, and behind it the distance from the
  -- symbol, if there is one. A full name that does not fit is cut to the 511 characters of the
  -- buffer, and the call then fails, unless the symbol alone fills the buffer.
  pub nearest_symbol_text :
      (addr : ℕ) (h : Host W)
      → (syms.name_by_offset addr h.world).0 ≡ s_ok
      → let name : NearName = (syms.name_by_offset addr h.world).1 in
        let full : Text = name.near ++ b'+' ∷ hex name.displacement in
        let r : Reply Text = (util_get_nearest_symbol syms copy hex addr h).0 in
        (name.displacement ≡ 0 → r ≡ (s_ok, name.near))
        × (name.displacement ≢ 0 → r.1 ≡ take 511 full)
        × (name.displacement ≢ 0 → length full ≤ 511 → r.0 ≡ s_ok)
        × (name.displacement ≢ 0 → length name.near < 511 → 511 < length full → failed r.0 ≡ true)
  nearest_symbol_text addr h good =
      let name : NearName = (syms.name_by_offset addr h.world).1 in
      let plus : Text = b'+' ∷ hex name.displacement in
      let room : ℕ = 512 - length name.near in
      let both : length (name.near ++ plus) ≡ length name.near + length plus =
        length-append name.near plus in
      let e : room - 1 ≡ 511 - length name.near = omega arith in
      (
        λ none. unfold util_get_nearest_symbol in ground (arith, good),
        λ far. elim (Bool-cases (ltb (length name.near) 511)) [
          | inl some_room ↦
              let short : length name.near < 511 = ground arith in
              rw (appended addr h good far short) (
                ap (λ t. name.near ++ t)
                  (copy-eq-take copies room plus (omega arith) ∙ ap (λ n. take n plus) e)
                ∙ sym (take-append 511 name.near plus (omega arith)))
          | inr none_left ↦
              let full : length name.near ≡ 511 = ground (arith, laws.room addr h.world) in
              ap (λ r. r.1) (filled addr h good full) ∙ sym (take_whole name.near plus full)
        ],
        λ far fits.
            rw (appended addr h good far (omega (arith, both)))
              (ap (λ r. r.0) (copies.fits room plus (omega (arith, both)))),
        λ far short long.
            rw (appended addr h good far short) (copies.cut_fails room plus (omega (arith, both))),
      )
