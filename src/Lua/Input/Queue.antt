-- ===== src/Lua/Input/Queue.antt =====
-- The characters that luaGetCCb of src/luaprov/luascriptprovider.cpp serves.
use dbgscript.Base.{
  ℕ, zero, suc, ◌+◌, ◌-◌, ◌%◌, ◌^◌, ◌≤◌, ◌<◌, ◌≡◌, ◌⊎◌, refl, sym, ap, ◌∙◌, subst, inl, inr, true,
  false, Option, none, some, [], ◌∷◌, ◌++◌, arith, ltb, ◌==◌, length, take, drop, set, length-set,
  get_elem?, write_at, length-write_at, take-write_at, Bool-cases, if◌then◌else◌,
}
use dbgscript.Console.{Text}
use dbgscript.Exec.{failed}
use dbgscript.Engine.{UserInput}
use dbgscript.Lua.Input.{
  LuaInput, eof, int_of_char, end_line, serve, refilled, refill, lua_get_c_cb,
}

-- What is documented of `Input`: on success it has written the characters that it reports, the NUL
-- with them, and never more than there is room.
pub record InputLaws {W : Type 0} (input : UserInput W) : Type 0 where
  pub counted :
      (room : ℕ) (w : W)
      → let (hr, (bytes, n), w') = input room w in
        failed hr ≡ false → 1 ≤ room → (length bytes ≡ n) × (1 ≤ n) × (n ≤ room)
  pub bounded : (room : ℕ) (w : W) → length (input room w).1.0 ≤ room

-- The characters that wait.
abbrev pub queue : LuaInput → Text
queue s = take s.valid_input_chars (drop s.next_input_char s.input_buf)

pub record IsLuaInput (s : LuaInput) : Type 0 where
  pub size : length s.input_buf ≡ 2048
  pub room : s.next_input_char + s.valid_input_chars ≤ 2048

-- The first character of a text, and the others.
abbrev pub first_of : {W : Type 0} → Text → W → Option ℕ × Text × W
first_of [] w = (none, [], w)
first_of (c ∷ cs) w = (some c, cs, w)

-- The character that a console gives, with those that wait behind it, or the end of the input: a new
-- line, with its end, is asked for when nothing waits.
abbrev pub read_char : {W : Type 0} → UserInput W → Text → W → Option ℕ × Text × W
read_char input [] w =
    let (hr, (bytes, n), w') = input 2047 w in
    if failed hr then (none, [], w') else first_of (take (n - 1) bytes ++ 10 ∷ []) w'
read_char input (c ∷ cs) w = first_of (c ∷ cs) w

take-drop :
    (xs : Text) (n v : ℕ)
    → n < length xs
    → (c : ℕ) × (get_elem? xs n ≡ some c)
      × (take (suc v) (drop n xs) ≡ c ∷ take v (drop (suc n) xs))
take-drop [] n v h = absurd (omega arith)
take-drop (x ∷ xs) zero v h = (x, refl, refl)
take-drop (x ∷ xs) (suc n) v h = take-drop xs n v (omega arith)

take-set_same : (xs : Text) (n : ℕ) (c : ℕ) → take n (set xs n c) ≡ take n xs
take-set_same [] n c = refl
take-set_same (x ∷ xs) zero c = refl
take-set_same (x ∷ xs) (suc n) c = ap (λ t. x ∷ t) (take-set_same xs n c)

take-set_next :
    (xs : Text) (n : ℕ) (c : ℕ) → n < length xs → take (suc n) (set xs n c) ≡ take n xs ++ c ∷ []
take-set_next [] n c h = absurd (omega arith)
take-set_next (x ∷ xs) zero c h = refl
take-set_next (x ∷ xs) (suc n) c h = ap (λ t. x ∷ t) (take-set_next xs n c (omega arith))

take-take : (k n : ℕ) (xs : Text) → k ≤ n → take k (take n xs) ≡ take k xs
take-take zero n xs h = refl
take-take (suc k) zero xs h = absurd (omega arith)
take-take (suc k) (suc n) [] h = refl
take-take (suc k) (suc n) (x ∷ xs) h = ap (λ t. x ∷ t) (take-take k n xs (omega arith))

-- What stands at the start of a buffer after a copy there.
take-copied : (k : ℕ) (buf src : Text) → k ≤ length src → take k (write_at buf 0 src) ≡ take k src
take-copied k buf src h =
    let whole : 0 + length src ≡ length src = omega arith in
    let front : take (length src) (write_at buf 0 src) ≡ src =
      subst (λ n. take n (write_at buf 0 src) ≡ src) whole
        (take-write_at buf 0 src (omega arith)) in
    sym (take-take k (length src) (write_at buf 0 src) h) ∙ ap (λ t. take k t) front

-- The line of a buffer whose character before the last is made a line's end.
end_line-take :
    (buf bytes : Text) (k : ℕ)
    → length buf ≡ 2048
    → length bytes ≡ suc k
    → suc k ≤ 2047
    → (b : Text) × (end_line (write_at buf 0 bytes) (suc k) ≡ some b)
      × (length b ≡ 2048)
      × (take (suc k) b ≡ take k bytes ++ 10 ∷ [])
unfolding end_line
end_line-take buf bytes k size count fits =
    let buf1 : Text = write_at buf 0 bytes in
    let size1 : length buf1 ≡ 2048 =
      length-write_at buf 0 bytes (omega (arith, size, count)) ∙ size in
    let buf2 : Text = set buf1 k 10 in
    let size2 : length buf2 ≡ 2048 = length-set buf1 k 10 ∙ size1 in
    let last : (suc k + 0xFFFFFFFF) % 2 ^ 32 ≡ k = omega arith in
    let in1 : ltb k (length buf1) ≡ true = ground (arith, size1) in
    let in2 : ltb (suc k) (length buf2) ≡ true = ground (arith, size2) in
    (
      set buf2 (suc k) 0,
      rw (end_line, last, in1, in2) refl,
      length-set buf2 (suc k) 0 ∙ size2,
      take-set_same buf2 (suc k) 0
          ∙ take-set_next buf1 k 10 (omega (arith, size1))
          ∙ ap (λ t. t ++ 10 ∷ []) (take-copied k buf bytes (omega (arith, count))),
    )

-- Serving takes the first character of the queue.
serve-queue :
    (s : LuaInput)
    → IsLuaInput s
    → 0 < s.valid_input_chars
    → (c : ℕ) × (s' : LuaInput) × (serve s ≡ some (int_of_char c, s'))
      × IsLuaInput s'
      × (queue s ≡ c ∷ queue s')
unfolding serve
serve-queue s h some_ =
    let v : ℕ = s.valid_input_chars - 1 in
    let one : s.valid_input_chars ≡ suc v = omega arith in
    let (c, at, split) =
      take-drop s.input_buf s.next_input_char v (omega (arith, h.size, h.room)) in
    let s' : LuaInput = record s {
      next_input_char = s.next_input_char + 1;
      valid_input_chars = v;
    } in
    let next : s.next_input_char + 1 ≡ suc s.next_input_char = omega arith in
    (
      c,
      s',
      rw (serve, at) refl,
      record { size = h.size; room = omega (arith, h.room) },
      ap (λ n. take n (drop s.next_input_char s.input_buf)) one
          ∙ split
          ∙ ap (λ n. c ∷ take v (drop n s.input_buf)) (sym next),
    )

-- How a character is returned: as `getc` does below 0x80, and above as a negative number. So 0xFF
-- comes back as the end of the input.
abbrev pub Delivered : Option ℕ → ℕ → Type 0
Delivered none r = r ≡ eof
Delivered (some c) r = ((c < 128) × (r ≡ c)) ⊎ ((128 ≤ c) × (r ≡ c + 0xFFFFFF00))

Delivered-int_of_char : (c : ℕ) → Delivered (some c) (int_of_char c)
Delivered-int_of_char c = elim (Bool-cases (ltb c 128)) [
  | inl low ↦ inl (ground arith, ground arith)
  | inr high ↦ inr (ground arith, ground arith)
]

-- What a call gives, beside `read_char` on the characters that wait.
abbrev pub Reads : {W : Type 0} → UserInput W → LuaInput → W → Option (ℕ × LuaInput × W) → Type 0
Reads input s w none = ⊥
Reads input s w (some (c, s', w')) =
    let (given, waiting, w'') = read_char input (queue s) w in
    IsLuaInput s' × Delivered given c × (queue s' ≡ waiting) × (w' ≡ w'')

same_step :
    {W : Type 0} (r t : Option ℕ × Text × W) (c : ℕ)
    → r ≡ t
    → Delivered r.0 c
    → Delivered t.0 c × (r.1 ≡ t.1) × (r.2 ≡ t.2)
same_step r t c e given =
    subst (λ u. Delivered u.0 c × (r.1 ≡ u.1) × (r.2 ≡ u.2)) e (given, refl, refl)

module _ {W : Type 0} (input : UserInput W) (laws : InputLaws input) where
  served :
      (s : LuaInput) (w : W)
      → IsLuaInput s
      → 0 < s.valid_input_chars
      → Reads input s w (elim (serve s) [ none ↦ none | some (c, s') ↦ some (c, s', w) ])
  served s w h some_ =
      let (c, s', gives, after, split) = serve-queue s h some_ in
      let (given, left, world) =
        same_step (read_char input (c ∷ queue s') w) (read_char input (queue s) w) (int_of_char c)
          (ap (λ q. read_char input q w) (sym split)) (Delivered-int_of_char c) in
      rw gives (after, given, left, world)

  asked :
      (s : LuaInput) (w : W)
      → IsLuaInput s
      → s.valid_input_chars ≡ 0
      → Reads input s w (refill input s w)
  unfolding refill
  asked s w h empty =
      let (hr, (bytes, n), w') = input 2047 w in
      let nothing : queue s ≡ [] = ap (λ k. take k (drop s.next_input_char s.input_buf)) empty in
      elim (Bool-cases (failed (input 2047 w).0)) [
        | inl bad ↦
            let buf : Text = write_at s.input_buf 0 bytes in
            let still : queue (record s { input_buf = buf }) ≡ [] =
              ap (λ k. take k (drop s.next_input_char buf)) empty in
            rw bad (
              rw (nothing, still, bad)
                (
                  record {
                    size =
                        length-write_at s.input_buf 0 bytes
                          (omega (arith, h.size, laws.bounded 2047 w))
                        ∙ h.size;
                    room = h.room;
                  },
                  refl,
                  refl,
                  refl,
                ))
        | inr fine ↦
            let (count, some_, room) = laws.counted 2047 w fine (omega arith) in
            let k : ℕ = n - 1 in
            let one : suc k ≡ n = omega (arith, some_) in
            let (b, ended, size, line) =
              end_line-take s.input_buf bytes k h.size (count ∙ sym one)
                (omega (arith, room, one)) in
            let (c, s', gives, after, split) =
              serve-queue (refilled b (suc k))
                (record { size = size; room = omega (arith, room, one) }) (omega arith) in
            let first : (some c, queue s', w') ≡ first_of (take k bytes ++ 10 ∷ []) w' =
              ap (λ q. first_of q w') (sym split ∙ line) in
            let ended' : end_line (write_at s.input_buf 0 bytes) n ≡ some b =
              subst (λ m. end_line (write_at s.input_buf 0 bytes) m ≡ some b) one ended in
            let gives' : serve (refilled b n) ≡ some (int_of_char c, s') =
              subst (λ m. serve (refilled b m) ≡ some (int_of_char c, s')) one gives in
            let (given, left, world) =
              same_step (some c, queue s', w') (first_of (take k bytes ++ 10 ∷ []) w')
                (int_of_char c) first (Delivered-int_of_char c) in
            rw (fine, ended', gives') (rw (nothing, fine) (after, given, left, world))
      ]

  -- If DbgEng reports what it wrote: every call of luaGetCCb stays in its buffer, keeps it valid,
  -- and takes the character that getc takes on a console: the first of those that wait, a new line
  -- with its end being asked for when none waits, and the end of the input when that fails. It is
  -- returned as a signed char: below 0x80 as it is, above as a negative number, so that 0xFF is EOF.
  pub get_c_cb-Reads :
      (s : LuaInput) (w : W) → IsLuaInput s → Reads input s w (lua_get_c_cb input s w)
  unfolding lua_get_c_cb
  get_c_cb-Reads s w h = elim (Bool-cases (s.valid_input_chars == 0)) [
    | inl none_ ↦ rw none_ (asked s w h (ground (arith, none_)))
    | inr some_ ↦ rw some_ (served s w h (ground (arith, some_)))
  ]
