-- ===== src/Execute/Captured.antt =====
-- The text of a captured command: UtilExecuteCommand of src/support/util.cpp with the callback object
-- of src/support/outputcallback.cpp.
use dbgscript.Base.{
  ℕ, ◌-◌, ◌<◌, ◌≡◌, refl, ap, ◌∙◌, true, inl, inr, List, [], ◌∷◌, ◌++◌, ◌==◌, if◌then◌else◌, arith,
  Bool-cases, length, take, take_all, NoNul, NoNul-take, length-take,
}
use dbgscript.Console.{Text, Console, buffering_on, util_buffer_output}
use dbgscript.Console.Stream.{stream, IsConsole}
use dbgscript.Console.Buffering.{Buffered, buffer_output-Buffered}
use dbgscript.Exec.{ok, Result-cases}
use dbgscript.Engine.{Control, Client}
use dbgscript.Host.{Host}
use dbgscript.Platform.{CopyText, CopyLaws, copy-eq-take}
use dbgscript.Execute.{
  output_normal, callback_cch, callback_output, deliver, captured, util_execute_command,
}

-- The last normal text among the calls, and the text of an earlier command if there is none.
abbrev pub last_normal : List (ℕ × Text) → Text → Text
last_normal [] before = before
last_normal ((mask, text) ∷ calls) before =
    last_normal calls (if mask == output_normal then take (callback_cch - 1) text else before)

-- The texts that a command prints have no NUL in them.
abbrev pub AllNoNul : List (ℕ × Text) → Type 0
AllNoNul [] = Unit
AllNoNul ((mask, text) ∷ calls) = NoNul text × AllNoNul calls

module _ (copy : CopyText) (laws : CopyLaws copy) where
  callback_output-eq :
      (mask : ℕ) (text : Text) (c : Console)
      → callback_output copy mask text c ≡ record c {
        callback_buf =
            if mask == output_normal then take (callback_cch - 1) text else c.callback_buf;
      }
  unfolding callback_output
  callback_output-eq mask text c = ground (arith, copy-eq-take laws callback_cch text (omega arith))

  pub deliver-eq :
      (calls : List (ℕ × Text)) (c : Console)
      → deliver copy calls c ≡ record c { callback_buf = last_normal calls c.callback_buf }
  unfolding deliver
  deliver-eq [] c = refl
  deliver-eq ((mask, text) ∷ calls) c =
      deliver-eq calls (callback_output copy mask text c)
      ∙ ap (λ (d : Console). record d { callback_buf = last_normal calls d.callback_buf })
          (callback_output-eq mask text c)

last_normal-NoNul :
    (calls : List (ℕ × Text)) (before : Text)
    → AllNoNul calls
    → NoNul before
    → NoNul (last_normal calls before)
last_normal-NoNul [] before h k = k
last_normal-NoNul ((mask, text) ∷ calls) before h k = elim (Bool-cases (mask == output_normal)) [
  | inl normal ↦ rw normal (last_normal-NoNul calls _ h.1 (NoNul-take (callback_cch - 1) text h.0))
  | inr other ↦ rw other (last_normal-NoNul calls before h.1 k)
]

length-last_normal :
    (calls : List (ℕ × Text)) (before : Text)
    → length before < callback_cch
    → length (last_normal calls before) < callback_cch
length-last_normal [] before k = k
length-last_normal ((mask, text) ∷ calls) before k = elim (Bool-cases (mask == output_normal)) [
  | inl normal ↦
      rw normal (length-last_normal calls _ (omega (arith, length-take (callback_cch - 1) text)))
  | inr other ↦ rw other (length-last_normal calls before k)
]

-- The callback object holds a NUL-terminated text.
pub record IsHeld (text : Text) : Type 0 where
  pub clean : NoNul text
  pub short : length text < callback_cch

module _ {W : Type 0} (copy : CopyText) (laws : CopyLaws copy) (client : Client W)
    (control : Control W) where
  -- The calls that the command makes, once the callbacks are installed.
  abbrev calls_of : Text → Host W → List (ℕ × Text)
  calls_of command h =
      (control.execute command
        (client.set_output_callbacks h.buffered_output_callbacks h.world).1).1

  captured-callback_buf :
      (command : Text) (h : Host W)
      → (captured copy client control command h).0 ≡ ok tt
      → (captured copy client control command h).1.console ≡ record (h.console) {
        callback_buf = last_normal (calls_of command h) h.console.callback_buf;
      }
  unfolding captured
  captured-callback_buf command h e =
      ground (arith, deliver-eq copy laws (calls_of command h) h.console)

  execute-console :
      (command : Text) (h : Host W)
      → buffering_on h.console ≡ true
      → (util_execute_command copy client control command h).0 ≡ ok tt
      → let text : Text = last_normal (calls_of command h) h.console.callback_buf in
        (util_execute_command copy client control command h).1.console
        ≡ util_buffer_output text (length text) (record (h.console) { callback_buf = text })
  unfolding util_execute_command
  execute-console command h on e = elim (Result-cases (captured copy client control command h).0) [
    | inl (u, good) ↦
        rw (on, good)
          (ap (λ (c : Console). util_buffer_output c.callback_buf (length c.callback_buf) c)
            (captured-callback_buf command h good))
    | inr (hr, bad) ↦ ground arith
  ]

  -- A buffered command that succeeds adds to the stream the last normal text that it prints, cut at
  -- 4095 characters: the texts before it are lost, and a command that prints no normal text adds the
  -- text of an earlier one.
  pub execute_adds_last_text :
      (command : Text) (h : Host W)
      → IsConsole h.console
      → IsHeld h.console.callback_buf
      → AllNoNul (calls_of command h)
      → buffering_on h.console ≡ true
      → (util_execute_command copy client control command h).0 ≡ ok tt
      → IsConsole (util_execute_command copy client control command h).1.console
        × (stream (util_execute_command copy client control command h).1.console
            ≡ stream h.console ++ last_normal (calls_of command h) h.console.callback_buf)
  execute_adds_last_text command h valid held clean on e =
      let text : Text = last_normal (calls_of command h) h.console.callback_buf in
      let short : length text < callback_cch =
        length-last_normal (calls_of command h) h.console.callback_buf held.short in
      let added : Buffered text (record (h.console) { callback_buf = text })
          (util_buffer_output text (length text) (record (h.console) { callback_buf = text })) =
        buffer_output-Buffered text (record (h.console) { callback_buf = text })
          (record { size = valid.size; room = valid.room; no_nul = valid.no_nul })
          (last_normal-NoNul (calls_of command h) h.console.callback_buf clean held.clean)
          (omega arith) in
      rw (execute-console command h on e) (
        added.valid,
        added.shows ∙ ap (λ t. stream h.console ++ t) (take_all 8191 text (omega arith)),
      )
