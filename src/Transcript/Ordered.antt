-- ===== src/Transcript/Ordered.antt =====
-- Order and loss of the output of src/luaprov, src/pythonprov and src/rubyprov.
use dbgscript.Base.{
  ℕ, ◌+◌, ◌%◌, ◌^◌, ◌≤◌, ◌<◌, ◌≡◌, refl, sym, ap, ◌∙◌, inl, inr, false, List, [], ◌∷◌, ◌++◌,
  append_assoc, append-nil, arith, ltb, ◌==◌, if◌then◌else◌, length, take, NoNul, Bool-cases, map,
}
use dbgscript.Console.{
  Text, Console, printed, buffering_on, message_cap, size_mod, util_flush_message_buffer,
  append_to_buffer, util_buffer_output, print,
}
use dbgscript.Console.Stream.{
  stream, emitted, emitted_one, IsConsole, flush-IsConsole, buf_position-flush, stream-flush,
}
use dbgscript.Console.Buffering.{kept, Buffered, buffer_output-Buffered}
use dbgscript.Engine.{Control}
use dbgscript.Host.{Host}
use dbgscript.ReadString.{is_negative, util_check_abort}
use dbgscript.Script.{buffer_or_output, increment_buffering, decrement_buffering}
use dbgscript.Lua.Output.{lua_output_cb, lua_start_buffering, lua_stop_buffering}
use dbgscript.Python.Output.{dbg_script_io_write, python_start_buffering, python_stop_buffering}
use dbgscript.Ruby.Output.{dbg_script_std_io_write, ruby_start_buffering, ruby_stop_buffering}
use dbgscript.Transcript.{
  Language, lua, python, ruby, Event, writes, starts, stops, moves, run_event, run_events,
}

-- The buffer is valid, the count of sessions is not negative, and nothing waits outside of one.
pub record IsSettled (c : Console) : Type 0 where
  pub valid : IsConsole c
  pub count : c.is_buffering < 2 ^ 31
  pub settled : c.is_buffering ≡ 0 → c.buf_position ≡ 0

-- Texts that a C string holds, shorter than 2 ^ 63.
abbrev pub CleanEvent : {W : Type 0} → Event W → Type 0
CleanEvent (writes l t) = NoNul t × (length t < 2 ^ 63)
CleanEvent _ = Unit

abbrev pub CleanEvents : {W : Type 0} → List (Event W) → Type 0
CleanEvents [] = Unit
CleanEvents (e ∷ es) = CleanEvent e × CleanEvents es

-- What one event does to the console: the text `t` is added, and the count grows by one at most.
record Adds (t : Text) (c d : Console) : Type 0 where
  after : IsSettled d
  shows : stream d ≡ stream c ++ t
  grows : d.is_buffering ≤ c.is_buffering + 1

is_buffering-flush : (c : Console) → (util_flush_message_buffer c).is_buffering ≡ c.is_buffering
unfolding util_flush_message_buffer
is_buffering-flush c = ground arith

is_buffering-append :
    (text : Text) (len : ℕ) (c : Console)
    → (append_to_buffer text len c).is_buffering ≡ c.is_buffering
unfolding append_to_buffer
is_buffering-append text len c = refl

is_buffering-buffer_output :
    (text : Text) (len : ℕ) (c : Console)
    → (util_buffer_output text len c).is_buffering ≡ c.is_buffering
unfolding util_buffer_output
is_buffering-buffer_output text len c =
    elim (Bool-cases (ltb message_cap ((c.buf_position + len) % size_mod))) [
      | inl full ↦
          rw full (is_buffering-append text _ (util_flush_message_buffer c) ∙ is_buffering-flush c)
      | inr room ↦ rw room (is_buffering-append text len c)
    ]

pending_none : (c : Console) → c.buf_position ≡ 0 → stream c ≡ emitted c.outputs
pending_none c e =
    ap (λ n. emitted c.outputs ++ take n c.message_buf) e ∙ append-nil (emitted c.outputs)

same_console : (c : Console) → IsSettled c → Adds [] c c
same_console c h = record { after = h; shows = sym (append-nil (stream c)); grows = omega arith }

write-Adds :
    (text : Text) (c : Console)
    → IsSettled c
    → NoNul text
    → length text < 2 ^ 63
    → Adds (if buffering_on c then kept text else text) c (buffer_or_output (λ t. printed t) text c)
unfolding buffer_or_output
write-Adds text c h clean short = elim (Bool-cases (buffering_on c)) [
  | inl on ↦
      let b : Buffered text c (util_buffer_output text (length text) c) =
        buffer_output-Buffered text c h.valid clean short in
      let same : (util_buffer_output text (length text) c).is_buffering ≡ c.is_buffering =
        is_buffering-buffer_output text (length text) c in
      rw on (record {
        after = record {
          valid = b.valid;
          count = omega (arith, same, h.count);
          settled = λ e. absurd (ground (arith, same, on));
        };
        shows = b.shows;
        grows = omega (arith, same);
      })
  | inr off ↦
      let none_ : c.is_buffering ≡ 0 = ground (arith, off, h.count) in
      let empty : c.buf_position ≡ 0 = h.settled none_ in
      rw off (record {
        after = record {
          valid = record { size = h.valid.size; room = h.valid.room; no_nul = h.valid.no_nul };
          count = h.count;
          settled = h.settled;
        };
        shows =
            pending_none (print (printed text) c) empty
            ∙ emitted_one c.outputs text
            ∙ ap (λ t. t ++ text) (sym (pending_none c empty));
        grows = omega arith;
      })
]

-- Only the count changes.
recount-Adds :
    (n : ℕ) (c : Console)
    → IsSettled c
    → n < 2 ^ 31
    → n ≤ c.is_buffering + 1
    → (n ≡ 0 → c.buf_position ≡ 0)
    → Adds [] c (record c { is_buffering = n })
recount-Adds n c h small up settled = record {
  after = record {
    valid = record { size = h.valid.size; room = h.valid.room; no_nul = h.valid.no_nul };
    count = small;
    settled = settled;
  };
  shows = sym (append-nil (stream c));
  grows = up;
}

flush-Adds :
    (n : ℕ) (c : Console)
    → IsSettled c
    → n < 2 ^ 31
    → n ≤ c.is_buffering + 1
    → Adds [] c (util_flush_message_buffer (record c { is_buffering = n }))
flush-Adds n c h small up =
    let c' : Console = record c { is_buffering = n } in
    let v : IsConsole c' = record {
      size = h.valid.size;
      room = h.valid.room;
      no_nul = h.valid.no_nul;
    } in
    record {
      after = record {
        valid = flush-IsConsole c' v;
        count = omega (arith, is_buffering-flush c', small);
        settled = λ e. buf_position-flush c';
      };
      shows = stream-flush c' v ∙ sym (append-nil (stream c));
      grows = omega (arith, is_buffering-flush c', up);
    }

start-Adds :
    (c : Console) → IsSettled c → c.is_buffering + 1 < 2 ^ 31 → Adds [] c (increment_buffering c)
unfolding increment_buffering
start-Adds c h room =
    recount-Adds ((c.is_buffering + 1) % 2 ^ 32) c h (omega arith) (omega arith)
      (λ e. absurd (omega arith))

stop-Adds : (c : Console) → IsSettled c → Adds [] c (decrement_buffering c).1
unfolding decrement_buffering
stop-Adds c h =
    let n : ℕ = (c.is_buffering + 4294967295) % 2 ^ 32 in
    elim (Bool-cases (is_negative n)) [
      | inl below ↦ rw below (
          recount-Adds 0 c h (omega arith) (omega arith)
            (λ e. h.settled (ground (arith, below, h.count))))
      | inr above ↦
          let fell : n + 1 ≡ c.is_buffering = ground (arith, above, h.count) in
          rw above (elim (Bool-cases (n == 0)) [
            | inl last ↦ rw last (flush-Adds n c h (omega (arith, fell)) (omega (arith, fell)))
            | inr more ↦ rw more (
                recount-Adds n c h (omega (arith, fell)) (omega (arith, fell))
                  (λ e. absurd (ground (arith, more, e))))
          ])
    ]

abbrev count_of : {W : Type 0} → Host W → ℕ
count_of h = h.console.is_buffering

module _ {W : Type 0} (control : Control W) where
  stops-Adds :
      (l : Language) (h : Host W)
      → IsSettled h.console
      → Adds (run_event control (stops l) h).0 h.console (run_event control (stops l) h).1.console
  unfolding run_event lua_stop_buffering python_stop_buffering ruby_stop_buffering
  stops-Adds lua h s = stop-Adds h.console s
  stops-Adds python h s = stop-Adds h.console s
  stops-Adds ruby h s = elim (Bool-cases (util_check_abort control h.world)) [
    | inl stop ↦ rw stop (same_console h.console s)
    | inr go ↦ rw go (stop-Adds h.console s)
  ]

  event-Adds :
      (e : Event W) (h : Host W)
      → IsSettled h.console
      → CleanEvent e
      → count_of h + 1 < 2 ^ 31
      → Adds (run_event control e h).0 h.console (run_event control e h).1.console
  unfolding run_event lua_output_cb lua_start_buffering lua_stop_buffering dbg_script_io_write
      python_start_buffering python_stop_buffering dbg_script_std_io_write ruby_start_buffering
      ruby_stop_buffering
  event-Adds (writes lua t) h s (clean, short) room = write-Adds t h.console s clean short
  event-Adds (writes python t) h s (clean, short) room =
      elim (Bool-cases (util_check_abort control h.world)) [
        | inl stop ↦ rw stop (same_console h.console s)
        | inr go ↦ rw go (write-Adds t h.console s clean short)
      ]
  event-Adds (writes ruby t) h s (clean, short) room =
      elim (Bool-cases (util_check_abort control h.world)) [
        | inl stop ↦ rw stop (same_console h.console s)
        | inr go ↦ rw go (write-Adds t h.console s clean short)
      ]
  event-Adds (starts lua) h s clean room = start-Adds h.console s room
  event-Adds (starts python) h s clean room = start-Adds h.console s room
  event-Adds (starts ruby) h s clean room = start-Adds h.console s room
  event-Adds (stops l) h s clean room = stops-Adds l h s
  event-Adds (moves w) h s clean room = same_console h.console s

  -- For every sequence of events of clean texts that the buffering count has room for, in which
  -- scripts of all three languages print, start and stop buffering and are interrupted: the buffer
  -- stays valid, the count is not negative, nothing waits outside of a session, and what the user
  -- sees in the end has grown by the texts of the calls that returned, in order, those that were
  -- buffered as far as their first 8191 characters; and the count has grown by at most one for each
  -- event.
  pub run_events-IsSettled :
      (es : List (Event W)) (h : Host W)
      → IsSettled h.console
      → CleanEvents es
      → count_of h + length es < 2 ^ 31
      → let (t, h') = run_events control es h in
        IsSettled h'.console
        × (stream h'.console ≡ stream h.console ++ t)
        × (count_of h' ≤ count_of h + length es)
  unfolding run_events
  run_events-IsSettled [] h s clean room = (s, sym (append-nil (stream h.console)), omega arith)
  run_events-IsSettled (e ∷ es) h s (clean, cleans) room =
      let a : Adds (run_event control e h).0 h.console (run_event control e h).1.console =
        event-Adds e h s clean (omega arith) in
      let h' : Host W = (run_event control e h).1 in
      let (s', shows, counts) =
        run_events-IsSettled es h' a.after cleans (omega (arith, a.grows)) in
      (
        s',
        shows
            ∙ ap (λ t. t ++ (run_events control es h').0) a.shows
            ∙ append_assoc (stream h.console) (run_event control e h).0
                (run_events control es h').0,
        omega (arith, a.grows, counts),
      )

is_buffering-stop :
    (c : Console)
    → IsSettled c
    → 0 < c.is_buffering
    → (decrement_buffering c).1.is_buffering + 1 ≡ c.is_buffering
unfolding decrement_buffering
is_buffering-stop c h some_ =
    let n : ℕ = (c.is_buffering + 4294967295) % 2 ^ 32 in
    let c' : Console = record c { is_buffering = n } in
    ground (arith, h.count, is_buffering-flush c')

module _ {W : Type 0} (control : Control W) where
  stop_goes_down :
      (l : Language) (h : Host W)
      → IsSettled h.console
      → util_check_abort control h.world ≡ false
      → 0 < count_of h
      → let (t, h') = run_event control (stops l) h in
        (t ≡ []) × (count_of h' + 1 ≡ count_of h) × (h'.world ≡ h.world)
  unfolding run_event lua_stop_buffering python_stop_buffering ruby_stop_buffering
  stop_goes_down lua h s calm some_ = (refl, is_buffering-stop h.console s some_, refl)
  stop_goes_down python h s calm some_ = (refl, is_buffering-stop h.console s some_, refl)
  stop_goes_down ruby h s calm some_ = rw calm (refl, is_buffering-stop h.console s some_, refl)

  -- From every such state, if the user does not interrupt: after as many stops, of any languages, as
  -- there are sessions, the count is zero and all that was shown or was waiting has been printed, in
  -- order.
  pub stops_print_all :
      (ls : List Language) (h : Host W)
      → IsSettled h.console
      → util_check_abort control h.world ≡ false
      → length ls ≡ count_of h
      → let (t, h') = run_events control (map (λ l. stops l) ls) h in
        (t ≡ []) × (count_of h' ≡ 0) × (emitted h'.console.outputs ≡ stream h.console)
  unfolding run_events
  stops_print_all [] h s calm all =
      (refl, omega (arith, all), sym (pending_none h.console (s.settled (omega (arith, all)))))
  stops_print_all (l ∷ ls) h s calm all =
      let (none_, down, same) = stop_goes_down l h s calm (omega (arith, all)) in
      let h' : Host W = (run_event control (stops l) h).1 in
      let a : Adds (run_event control (stops l) h).0 h.console h'.console =
        stops-Adds control l h s in
      let (rest, zero_, shown_) =
        stops_print_all ls h' a.after (rw same calm) (omega (arith, all, down)) in
      (
        rw (none_, rest) refl,
        zero_,
        shown_ ∙ a.shows ∙ ap (λ t. stream h.console ++ t) none_ ∙ append-nil (stream h.console),
      )
