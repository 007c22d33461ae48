-- ===== src/Base/Lists.antt =====
-- Lists over the native numbers, under the library's names, and the C strings held in a buffer.
use Prim.Native.Char.{code}
use Prim.Native.String.{String}
use mathlib.Core.Bool.{Bool, true, false, ◌&&◌}
use mathlib.Core.Option
use dbgscript.Base.Tests.{◌==◌, if◌then◌else◌}
use Prim.Native.Nat.{ℕ, zero, suc, ◌+◌, ◌-◌, ◌≤◌, ◌<◌, min}
use mathlib.Core.Path.{◌≡◌, refl, sym, ap}
use mathlib.Core.Logic.{◌≢◌}
use mathlib.Core.List.{List, [], ◌∷◌, ◌++◌, append_assoc}
use mathlib.Core.Option.{Option, none, some}
use native.Mathlib.Omega.{arith}

module _ {ℓ} {A : Type ℓ} where
  abbrev pub length : List A → ℕ
  length [] = 0
  length (x ∷ xs) = suc (length xs)

  abbrev pub take : ℕ → List A → List A
  take zero xs = []
  take (suc n) [] = []
  take (suc n) (x ∷ xs) = x ∷ take n xs

  abbrev pub drop : ℕ → List A → List A
  drop zero xs = xs
  drop (suc n) [] = []
  drop (suc n) (x ∷ xs) = drop n xs

  abbrev pub replicate : ℕ → A → List A
  replicate zero a = []
  replicate (suc n) a = a ∷ replicate n a

  -- A store out of bounds changes nothing here; the callers prove that theirs are in bounds.
  abbrev pub set : List A → ℕ → A → List A
  set [] i v = []
  set (x ∷ xs) zero v = v ∷ xs
  set (x ∷ xs) (suc i) v = x ∷ set xs i v

  abbrev pub get_elem? : List A → ℕ → Option A
  get_elem? [] i = none
  get_elem? (x ∷ xs) zero = some x
  get_elem? (x ∷ xs) (suc i) = get_elem? xs i

  pub length-append : (xs ys : List A) → length (xs ++ ys) ≡ length xs + length ys
  length-append [] ys = omega arith
  length-append (x ∷ xs) ys = omega (arith, length-append xs ys)

  pub length-take : (n : ℕ) (xs : List A) → length (take n xs) ≡ min n (length xs)
  length-take zero xs = omega arith
  length-take (suc n) [] = omega arith
  length-take (suc n) (x ∷ xs) = omega (arith, length-take n xs)

  pub length-replicate : (n : ℕ) (a : A) → length (replicate n a) ≡ n
  length-replicate zero a = refl
  length-replicate (suc n) a = ap suc (length-replicate n a)

  pub length-set : (xs : List A) (i : ℕ) (v : A) → length (set xs i v) ≡ length xs
  length-set [] i v = refl
  length-set (x ∷ xs) zero v = refl
  length-set (x ∷ xs) (suc i) v = ap suc (length-set xs i v)

  pub take_all : (n : ℕ) (xs : List A) → length xs ≤ n → take n xs ≡ xs
  take_all zero [] h = refl
  take_all zero (x ∷ xs) h = absurd (omega arith)
  take_all (suc n) [] h = refl
  take_all (suc n) (x ∷ xs) h = ap (λ t. x ∷ t) (take_all n xs (omega arith))

module _ {ℓ} {A : Type ℓ} where
  -- The beginning of two lists in a row, from some place in the second on.
  pub take-append :
      (n : ℕ) (xs ys : List A) → length xs ≤ n → take n (xs ++ ys) ≡ xs ++ take (n - length xs) ys
  take-append n [] ys h = let e : n - 0 ≡ n = omega arith in rw e
  take-append zero (x ∷ xs) ys h = absurd (omega arith)
  take-append (suc n) (x ∷ xs) ys h =
      let e : suc n - suc (length xs) ≡ n - length xs = omega arith in
      rw e (ap (λ t. x ∷ t) (take-append n xs ys (omega arith)))

-- The C string that starts a buffer: what stands before the first NUL.
unfoldable pub c_string : List ℕ → List ℕ
c_string [] = []
c_string (zero ∷ cs) = []
c_string (suc c ∷ cs) = suc c ∷ c_string cs

-- A text with no NUL in it.
abbrev pub NoNul : List ℕ → Type 0
NoNul [] = Unit
NoNul (c ∷ cs) = (c ≢ 0) × NoNul cs

-- `memcpy(buf + pos, src, length src)`.
unfoldable pub write_at : List ℕ → ℕ → List ℕ → List ℕ
write_at buf pos src = take pos buf ++ (src ++ drop (pos + length src) buf)

pub NoNul-append : (xs ys : List ℕ) → NoNul xs → NoNul ys → NoNul (xs ++ ys)
NoNul-append [] ys h k = k
NoNul-append (x ∷ xs) ys h k = (h.0, NoNul-append xs ys h.1 k)

pub NoNul-take : (n : ℕ) (xs : List ℕ) → NoNul xs → NoNul (take n xs)
NoNul-take zero xs h = tt
NoNul-take (suc n) [] h = tt
NoNul-take (suc n) (x ∷ xs) h = (h.0, NoNul-take n xs h.1)

-- Ending a NUL-free prefix by a NUL makes it the string that the buffer holds.
pub c_string-set :
    (buf : List ℕ) (pos : ℕ)
    → pos < length buf
    → NoNul (take pos buf)
    → c_string (set buf pos 0) ≡ take pos buf
unfolding c_string
c_string-set [] pos h k = absurd (omega arith)
c_string-set (x ∷ xs) zero h k = refl
c_string-set (zero ∷ xs) (suc pos) h k = absurd (k.0 refl)
c_string-set (suc x ∷ xs) (suc pos) h k =
    ap (λ t. suc x ∷ t) (c_string-set xs pos (omega arith) k.1)

take-append_left : (xs ys : List ℕ) (n : ℕ) → n ≡ length xs → take n (xs ++ ys) ≡ xs
take-append_left [] ys zero h = refl
take-append_left [] ys (suc n) h = absurd (omega arith)
take-append_left (x ∷ xs) ys zero h = absurd (omega arith)
take-append_left (x ∷ xs) ys (suc n) h = ap (λ t. x ∷ t) (take-append_left xs ys n (omega arith))

-- After a write in bounds the buffer begins with the old prefix and the text written.
pub take-write_at :
    (buf : List ℕ) (pos : ℕ) (src : List ℕ)
    → pos ≤ length buf
    → take (pos + length src) (write_at buf pos src) ≡ take pos buf ++ src
unfolding write_at
take-write_at buf pos src h =
    rw (sym (append_assoc (take pos buf) src (drop (pos + length src) buf))) (
      take-append_left (take pos buf ++ src) (drop (pos + length src) buf) (pos + length src)
        (omega (arith, length-append (take pos buf) src, length-take pos buf)))

pub length-drop : (n : ℕ) (xs : List ℕ) → length (drop n xs) ≡ length xs - n
length-drop zero xs = omega arith
length-drop (suc n) [] = omega arith
length-drop (suc n) (x ∷ xs) = omega (arith, length-drop n xs)

-- A write in bounds keeps the size of the buffer.
pub length-write_at :
    (buf : List ℕ) (pos : ℕ) (src : List ℕ)
    → pos + length src ≤ length buf
    → length (write_at buf pos src) ≡ length buf
unfolding write_at
length-write_at buf pos src h = omega (
  arith,
  length-append (take pos buf) (src ++ drop (pos + length src) buf),
  length-append src (drop (pos + length src) buf),
  length-take pos buf,
  length-drop (pos + length src) buf,
)

-- The characters of a text literal.
abbrev pub codes : String → List ℕ
codes String.[] = []
codes (String.◌∷◌ c s) = code c ∷ codes s

-- `src` begins with `pat`.
unfoldable pub begins : List ℕ → List ℕ → Bool
begins [] src = true
begins (p ∷ ps) [] = false
begins (p ∷ ps) (c ∷ cs) = (p == c) && begins ps cs

-- What stands before the first place of `pat` in `src`, which `strstr` finds.
unfoldable pub before_first : List ℕ → List ℕ → Option (List ℕ)
unfolding begins
before_first pat [] = if begins pat [] then some [] else none
before_first pat (c ∷ cs) =
    let rest = before_first pat cs in
    if begins pat (c ∷ cs) then some [] else Option.map (λ t. c ∷ t) rest
