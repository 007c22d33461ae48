-- ===== src/Console/Buffering.antt =====
-- `UtilBufferOutput` of src/support/util.cpp, for one text.
use dbgscript.Base.{
  ℕ, ◌+◌, ◌%◌, ◌^◌, ◌≤◌, ◌<◌, ◌≡◌, refl, sym, ap, ◌∙◌, inl, inr, ◌++◌, arith, ltb, length, take,
  take_all, NoNul, Bool-cases,
}
use dbgscript.Console.{
  Text, Console, message_cap, size_mod, util_flush_message_buffer, append_to_buffer,
  util_buffer_output,
}
use dbgscript.Console.Stream.{
  stream, IsConsole, flush-IsConsole, buf_position-flush, stream-flush, append-IsConsole,
  stream-append,
}

-- What `UtilBufferOutput` keeps of a text: a text longer than the buffer is cut.
abbrev pub kept : Text → Text
kept text = take message_cap text

pub record Buffered (text : Text) (c d : Console) : Type 0 where
  pub valid : IsConsole d
  pub shows : stream d ≡ stream c ++ kept text

flushed_then_appended :
    (text : Text) (len : ℕ) (c : Console)
    → IsConsole c
    → NoNul text
    → len ≤ length text
    → len ≤ message_cap
    → take len text ≡ kept text
    → Buffered text c (append_to_buffer text len (util_flush_message_buffer c))
flushed_then_appended text len c h clean fits below cut =
    let f : Console = util_flush_message_buffer c in
    let hf : IsConsole f = flush-IsConsole c h in
    let small : f.buf_position + len ≤ message_cap = omega (arith, buf_position-flush c) in
    record {
      valid = append-IsConsole text len f hf fits small clean;
      shows =
          stream-append text len f hf fits small
          ∙ ap (λ t. t ++ take len text) (stream-flush c h)
          ∙ ap (λ t. stream c ++ t) cut;
    }

-- For every NUL-free text, shorter than 2 ^ 63, that is handed over whole: the buffer stays valid,
-- and the stream grows by the text, cut at 8191 characters, in order and with nothing lost.
pub buffer_output-Buffered :
    (text : Text) (c : Console)
    → IsConsole c
    → NoNul text
    → length text < 2 ^ 63
    → Buffered text c (util_buffer_output text (length text) c)
unfolding util_buffer_output
buffer_output-Buffered text c h clean short =
    elim (Bool-cases (ltb message_cap ((c.buf_position + length text) % size_mod))) [
      | inl full ↦ rw full (elim (Bool-cases (ltb message_cap (length text))) [
        | inl long ↦
            rw long
              (flushed_then_appended text message_cap c h clean (ground arith) (omega arith) refl)
        | inr fits ↦
            let below : length text ≤ message_cap = ground arith in
            rw fits (
              flushed_then_appended text (length text) c h clean (omega arith) below
                (take_all (length text) text (omega arith) ∙ sym (take_all message_cap text below)))
      ])
      | inr room ↦
          let below : c.buf_position + length text ≤ message_cap = ground (arith, h.room) in
          rw room (record {
            valid = append-IsConsole text (length text) c h (omega arith) below clean;
            shows =
                stream-append text (length text) c h (omega arith) below
                ∙ ap (λ t. stream c ++ t)
                    (take_all (length text) text (omega arith)
                      ∙ sym (take_all message_cap text (omega arith)));
          })
    ]
