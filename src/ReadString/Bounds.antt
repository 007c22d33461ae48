-- ===== src/ReadString/Bounds.antt =====
-- The string reads of src/support/util.cpp and the bounds of the caller's buffer.
use dbgscript.Base.{
  ℕ, zero, suc, ◌/◌, ◌*◌, ◌%◌, ◌^◌, ◌≤◌, ◌<◌, ◌≡◌, true, false, ◌↔◌, none, some, List, [], ◌∷◌,
  arith, length, set, c_string, length-set, Option,
}
use dbgscript.Exec.{failed, Reply}
use dbgscript.Engine.{DataSpaces}
use dbgscript.ReadString.{ulong_mod, util_read_wide_string, util_read_ansi_string, is_negative}

-- A NUL at a place bounds the string that starts the buffer.
length-c_string-set : (buf : List ℕ) (i : ℕ) → i < length buf → length (c_string (set buf i 0)) ≤ i
unfolding c_string
length-c_string-set [] i h = absurd (omega arith)
length-c_string-set (x ∷ xs) zero h = omega arith
length-c_string-set (zero ∷ xs) (suc i) h = omega arith
length-c_string-set (suc x ∷ xs) (suc i) h = omega (arith, length-c_string-set xs i)

-- What the reads rely on in DbgEng: the buffer keeps its size, and a whole string that is no longer
-- than the room asked for ends by its NUL within what was read.
pub record ReadLaws {W : Type 0} (spaces : DataSpaces W) : Type 0 where
  pub wide_size :
      (addr size max : ℕ) (w : W)
      → size < 2 ^ 31
      → length (spaces.read_wide_string addr ((size * 2) % ulong_mod) max w).1.0 ≡ size
  pub ansi_size :
      (addr size max : ℕ) (w : W)
      → length (spaces.read_multi_byte_string addr size max w).1.0 ≡ size
  pub wide_ends :
      (addr bytes max : ℕ) (w : W)
      → let (hr, (buf, actual)) = spaces.read_wide_string addr bytes max w in
        failed hr ≡ false → actual / 2 ≤ max → length (c_string buf) ≤ actual / 2
  pub ansi_ends :
      (addr size max : ℕ) (w : W)
      → let (hr, (buf, actual)) = spaces.read_multi_byte_string addr size max w in
        failed hr ≡ false → actual ≤ max → length (c_string buf) ≤ actual

-- A read that stays in the buffer, keeps its size, and on success holds at most `n` characters.
abbrev pub ReadsAtMost : ℕ → ℕ → Option (Reply (List ℕ)) → Type 0
ReadsAtMost size n none = ⊥
ReadsAtMost size n (some (hr, buf)) =
    (length buf ≡ size) × (failed hr ≡ false → length (c_string buf) ≤ n)

module _ {W : Type 0} (spaces : DataSpaces W) (laws : ReadLaws spaces) where
  -- In a buffer below 2 ^ 31 characters a limit from 0 up to one less than it is respected: no store leaves the buffer, and on
  -- success it holds a string of at most so many characters, however long the string in the target.
  pub reads_stay_in_bounds :
      (addr size n : ℕ) (w : W)
      → n < size
      → size < 2 ^ 31
      → ReadsAtMost size n (util_read_wide_string spaces addr size n w)
        × ReadsAtMost size n (util_read_ansi_string spaces addr size n w)
  unfolding util_read_wide_string util_read_ansi_string
  reads_stay_in_bounds addr size n w small fits =
      let wide : List ℕ = (spaces.read_wide_string addr ((size * 2) % ulong_mod) n w).1.0 in
      let ansi : List ℕ = (spaces.read_multi_byte_string addr size n w).1.0 in
      (
        ground (
          arith,
          laws.wide_size addr size n w fits,
          laws.wide_ends addr ((size * 2) % ulong_mod) n w,
          length-set wide n 0,
          length-c_string-set wide n,
        ),
        ground (
          arith,
          laws.ansi_size addr size n w,
          laws.ansi_ends addr size n w,
          length-set ansi n 0,
          length-c_string-set ansi n,
        ),
      )

  -- With a negative limit and a buffer below 2 ^ 31 characters, the reads store outside of the buffer exactly
  -- when the engine reports a string longer than the buffer; a wide read must also have succeeded.
  pub unlimited_reads_fault :
      (addr size n : ℕ) (w : W)
      → size < 2 ^ 31
      → is_negative n ≡ true
      → ((util_read_wide_string spaces addr size n w ≡ none) ↔ (
          (failed (spaces.read_wide_string addr ((size * 2) % ulong_mod) size w).0 ≡ false)
          × (size < (spaces.read_wide_string addr ((size * 2) % ulong_mod) size w).1.1 / 2)))
        × ((util_read_ansi_string spaces addr size n w ≡ none)
            ↔ (size < (spaces.read_multi_byte_string addr size size w).1.1))
  unfolding util_read_wide_string util_read_ansi_string
  unlimited_reads_fault addr size n w fits neg = (
    (
      λ e. ground (arith, laws.wide_size addr size size w fits),
      λ e. ground (arith, laws.wide_size addr size size w fits),
    ),
    (
      λ e. ground (arith, laws.ansi_size addr size size w),
      λ e. ground (arith, laws.ansi_size addr size size w),
    ),
  )
