-- ===== src/Console/Stream.antt =====
-- The stream of text that the message buffer of src/support/util.cpp and the transcript hold.
use dbgscript.Base.{
  ℕ, ◌+◌, ◌%◌, ◌≤◌, ◌≡◌, refl, sym, ap, ◌∙◌, inl, inr, List, [], ◌∷◌, ◌++◌, append_assoc,
  append-nil, arith, ltb, length, take, length-set, length-take, NoNul, NoNul-take, NoNul-append,
  c_string-set, take-write_at, length-write_at, Bool-cases,
}
use dbgscript.Console.{
  Text, Message, printed, Console, message_cap, size_mod, util_flush_message_buffer,
  append_to_buffer,
}

-- The text that a message shows through "%s" to the normal output.
abbrev pub shown : Message → Text
shown (printed t) = t
shown _ = []

-- All that has been printed as normal text.
unfoldable pub emitted : List Message → Text
emitted [] = []
emitted (m ∷ ms) = shown m ++ emitted ms

abbrev pub pending : Console → Text
pending c = take c.buf_position c.message_buf

-- What the user sees in the end: the text that was printed, then the text that waits.
abbrev pub stream : Console → Text
stream c = emitted c.outputs ++ pending c

-- The buffer has its 8192 bytes, the position leaves room for the NUL, and no NUL waits.
pub record IsConsole (c : Console) : Type 0 where
  pub size : length c.message_buf ≡ message_cap + 1
  pub room : c.buf_position ≤ message_cap
  pub no_nul : NoNul (pending c)

pub emitted-append : (xs ys : List Message) → emitted (xs ++ ys) ≡ emitted xs ++ emitted ys
unfolding emitted
emitted-append [] ys = refl
emitted-append (m ∷ xs) ys =
    ap (λ t. shown m ++ t) (emitted-append xs ys)
    ∙ sym (append_assoc (shown m) (emitted xs) (emitted ys))

pub emitted_one : (xs : List Message) (t : Text) → emitted (xs ++ printed t ∷ []) ≡ emitted xs ++ t
emitted_one xs t =
    emitted-append xs (printed t ∷ []) ∙ ap (λ u. emitted xs ++ u) (unfold emitted in append-nil t)

take_zero : (b : Text) → take 0 b ≡ []
take_zero b = refl

-- Flushing keeps the invariant.
pub flush-IsConsole : (c : Console) → IsConsole c → IsConsole (util_flush_message_buffer c)
unfolding util_flush_message_buffer
flush-IsConsole c h = ground (arith, length-set c.message_buf c.buf_position 0)

-- After a flush nothing waits.
pub buf_position-flush : (c : Console) → (util_flush_message_buffer c).buf_position ≡ 0
unfolding util_flush_message_buffer
buf_position-flush c = ground arith

-- A flush prints what waits, and changes nothing of the stream.
pub stream-flush : (c : Console) → IsConsole c → stream (util_flush_message_buffer c) ≡ stream c
unfolding util_flush_message_buffer
stream-flush c h = elim (Bool-cases (ltb 0 c.buf_position)) [
  | inl some_wait ↦ rw some_wait (
      append-nil _
      ∙ emitted_one c.outputs _
      ∙ ap (λ t. emitted c.outputs ++ t)
          (c_string-set c.message_buf c.buf_position (omega (arith, h.size, h.room)) h.no_nul))
  | inr none_wait ↦ rw none_wait
]

module _ (text : Text) (len : ℕ) (c : Console) (h : IsConsole c) (fits : len ≤ length text)
    (below : c.buf_position + len ≤ message_cap) where
  copied : length (take len text) ≡ len
  copied = omega (arith, length-take len text)

  pub pending-append : pending (append_to_buffer text len c) ≡ pending c ++ take len text
  unfolding append_to_buffer
  pending-append =
      let e : (c.buf_position + len) % size_mod ≡ c.buf_position + length (take len text) =
        omega (arith, copied) in
      rw e
        (take-write_at c.message_buf c.buf_position (take len text) (omega (arith, h.size, h.room)))

  pub append-IsConsole : NoNul text → IsConsole (append_to_buffer text len c)
  append-IsConsole clean = record {
    size =
        unfold append_to_buffer in
        (length-write_at c.message_buf c.buf_position (take len text)
            (omega (arith, copied, h.size))
          ∙ h.size);
    room = unfold append_to_buffer in omega arith;
    no_nul =
        rw pending-append
          (NoNul-append (pending c) (take len text) h.no_nul (NoNul-take len text clean));
  }

  pub stream-append : stream (append_to_buffer text len c) ≡ stream c ++ take len text
  stream-append =
      ap (λ t. emitted (append_to_buffer text len c).outputs ++ t) pending-append
      ∙ (unfold append_to_buffer in
          sym (append_assoc (emitted c.outputs) (pending c) (take len text)))
