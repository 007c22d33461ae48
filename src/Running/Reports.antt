-- ===== src/Running/Reports.antt =====
-- The reports of errors that end a script, in src/luaprov/luascriptprovider.cpp and
-- src/rubyprov/rubyscriptprovider.cpp.
use dbgscript.Base.{
  ◌≡◌, refl, sym, subst, ap, ◌∙◌, Bool, true, false, List, [], ◌∷◌, ◌++◌, append-nil, append_assoc,
  map, ◌==◌, take,
}
use dbgscript.Console.{Text, Message, diagnosed, Console, Diagnostic, util_flush_message_buffer}
use dbgscript.Console.Stream.{emitted, stream, IsConsole, buf_position-flush, stream-flush}
use dbgscript.Exec.{e_fail, ok, err}
use dbgscript.Host.{Host, report}
use dbgscript.Lua.Running.{LuaApi, call_chunk}
use dbgscript.Ruby.Running.{
  RubyApi, print_frames, top_level_exception_handler, rescued, ruby_run_string,
}

-- What was shown or waited in the one console has been printed in the other in front of the report,
-- behind which there are only reports, and nothing waits.
abbrev pub Follows : Console → Diagnostic → Console → Type 0
Follows c d c' =
    (before : List Message) × (ds : List Diagnostic) × (c'.outputs
      ≡ before ++ diagnosed d ∷ map (λ e. diagnosed e) ds)
    × (emitted before ≡ stream c)
    × (c'.buf_position ≡ 0)

map-snoc :
    (ds : List Diagnostic) (e : Diagnostic)
    → map (λ x. diagnosed x) ds ++ diagnosed e ∷ [] ≡ map (λ x. diagnosed x) (ds ++ e ∷ [])
map-snoc [] e = refl
map-snoc (d ∷ ds) e = ap (λ ms. diagnosed d ∷ ms) (map-snoc ds e)

emitted-flush :
    (c : Console) → IsConsole c → emitted (util_flush_message_buffer c).outputs ≡ stream c
emitted-flush c h =
    let c' = util_flush_message_buffer c in
    sym (append-nil (emitted c'.outputs))
    ∙ ap (λ k. emitted c'.outputs ++ take k c'.message_buf) (sym (buf_position-flush c))
    ∙ stream-flush c h

-- The report right behind a flush.
Follows-flush :
    {W : Type 0} (d : Diagnostic) (h : Host W)
    → IsConsole h.console
    → Follows h.console d
        (report d (record h { console = util_flush_message_buffer h.console })).console
Follows-flush d h valid = (
  (util_flush_message_buffer h.console).outputs,
  [],
  refl,
  emitted-flush h.console valid,
  buf_position-flush h.console,
)

Follows-report :
    {W : Type 0} (c : Console) (d e : Diagnostic) (h : Host W)
    → Follows c d h.console
    → Follows c d (report e h).console
Follows-report c d e h (before, ds, at, shown_, empty) = (
  before,
  ds ++ e ∷ [],
  ap (λ ms. ms ++ diagnosed e ∷ []) at
      ∙ append_assoc before (diagnosed d ∷ map (λ x. diagnosed x) ds) (diagnosed e ∷ [])
      ∙ ap (λ ms. before ++ diagnosed d ∷ ms) (map-snoc ds e),
  shown_,
  empty,
)

Follows-print_frames :
    {W : Type 0} (c : Console) (d : Diagnostic) (fs : List Text) (h : Host W)
    → Follows c d h.console
    → Follows c d (print_frames fs h).console
unfolding print_frames
Follows-print_frames c d [] h e = e
Follows-print_frames c d (f ∷ fs) h e =
    Follows-print_frames c d fs (report (Diagnostic.stack_trace_line f) h)
      (Follows-report c d (Diagnostic.stack_trace_line f) h e)

module _ {W : Type 0} (rb : RubyApi W) where
  Follows-handler :
      (h : Host W)
      → (rb.exception_message h).0 ≡ 0
      → ((g : Host W) → (rb.backtrace g).1.console ≡ g.console)
      → IsConsole (rb.exception_message h).2.console
      → Follows
          (rb.exception_message h).2.console
          (Diagnostic.unhandled_exception
            (rb.exception_class (rb.exception_message h).2.world)
            (rb.exception_message h).1)
          (top_level_exception_handler rb h).console
  unfolding top_level_exception_handler
  Follows-handler h got quiet valid =
      let (status, message, h1) = rb.exception_message h in
      let h2 : Host W = record h1 { console = util_flush_message_buffer h1.console } in
      let d = Diagnostic.unhandled_exception (rb.exception_class h2.world) message in
      rw got (
        Follows-print_frames h1.console d (rb.backtrace (report d h2)).0 _ (
          Follows-report h1.console d Diagnostic.stack_trace_begins (rb.backtrace (report d h2)).1
            (subst (Follows h1.console d) (sym (quiet (report d h2))) (Follows-flush d h1 valid))))

module _ {W : Type 0} (lua : LuaApi W) (rb : RubyApi W) (handled : Bool) (script_string : Text)
    (h : Host W) where
  -- A Lua chunk that raises an error, and a Ruby string that raises an exception whose message can be
  -- had, with consoles that are valid when they raise, and with a backtrace that prints nothing: all
  -- that the scripts printed, buffered or not, comes out before the report of the error, behind which
  -- only reports come, and nothing is left waiting. The Lua run fails with E_FAIL, while the Ruby run is a success.
  pub errors_follow_output :
      ((lua.p_call handled h).0 == 0) ≡ false
      → IsConsole (lua.p_call handled h).1.console
      → (rb.eval_string script_string h).0 ≡ true
      → let asked = rb.exception_message (rb.eval_string script_string h).1 in
        asked.0 ≡ 0
        → ((g : Host W) → (rb.backtrace g).1.console ≡ g.console)
        → IsConsole asked.2.console
        → let called = lua.p_call handled h in
          Follows called.1.console
            (Diagnostic.lua_runtime_error called.0 (lua.message called.1.world))
            (call_chunk lua handled h).1.console
          × ((call_chunk lua handled h).0 ≡ err e_fail)
          × Follows asked.2.console
              (Diagnostic.unhandled_exception (rb.exception_class asked.2.world) asked.1)
              (ruby_run_string rb script_string h).1.console
          × ((ruby_run_string rb script_string h).0 ≡ ok tt)
  unfolding call_chunk ruby_run_string rescued
  errors_follow_output failed_ valid raised_ got quiet valid' = (
    rw failed_ (Follows-flush _ (lua.p_call handled h).1 valid),
    rw failed_ refl,
    rw raised_ (Follows-handler rb (rb.eval_string script_string h).1 got quiet valid'),
    refl,
  )
