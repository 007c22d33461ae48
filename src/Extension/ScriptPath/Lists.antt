-- ===== src/Extension/ScriptPath/Lists.antt =====
-- What scriptpath of src/dllmain.cpp makes of its argument.
use dbgscript.Base.{
  ℕ, zero, suc, ◌+◌, ◌≤◌, ◌<◌, ◌≡◌, refl, sym, ap, ◌∙◌, false, none, some, List, [], ◌∷◌, ◌++◌,
  arith, length, length-append, ◌==◌, Bool-cases, Option-cases, ==_iff, subst, map, append-nil,
  append_assoc, ◌≢◌, inl, inr,
}
use dbgscript.Console.{Text, script_path_line, print}
use dbgscript.Exec.{HResult, failed, ok}
use dbgscript.Host.{Host}
use dbgscript.Platform.{CopyText, CopyLaws}
use dbgscript.Extension.{Extension, Com}
use dbgscript.Extension.Ifaces.{re_acquire_ifaces_if_needed}
use dbgscript.Extension.ScriptPath.{max_path, at_comma, path_list, print_paths, scriptpath}

-- The paths with a comma between each two.
abbrev pub with_commas : List Text → Text
with_commas [] = []
with_commas (p ∷ []) = p
with_commas (p ∷ q ∷ ps) = p ++ b',' ∷ with_commas (q ∷ ps)

-- No comma stands in any path.
abbrev pub NoComma : Text → Type 0
NoComma [] = Unit
NoComma (c ∷ cs) = ((c == b',') ≡ false) × NoComma cs

abbrev pub NoCommas : List Text → Type 0
NoCommas [] = Unit
NoCommas (p ∷ ps) = NoComma p × NoCommas ps

at_comma-none : (str : Text) → at_comma str ≡ none → NoComma str
unfolding at_comma
at_comma-none [] e = tt
at_comma-none (c ∷ cs) e = elim (Option-cases (at_comma cs)) [
  | inl end ↦ (ground (arith, end), at_comma-none cs end)
  | inr ((head, tail), more) ↦ ground (arith, more)
]

at_comma-some :
    (str head tail : Text)
    → at_comma str ≡ some (head, tail)
    → (str ≡ head ++ b',' ∷ tail) × NoComma head
unfolding at_comma
at_comma-some [] head tail e = cc
at_comma-some (c ∷ cs) head tail e = elim (Bool-cases (c == b',')) [
  | inl here ↦
      let same : ([], cs) ≡ (head, tail) = grind (arith, e, here) in
      subst (λ (q : Text × Text). (c ∷ cs ≡ q.0 ++ b',' ∷ q.1) × NoComma q.0) same
        (ap (λ d. d ∷ cs) ((==_iff c b',').0 here), tt)
  | inr there ↦ elim (Option-cases (at_comma cs)) [
    | inl end ↦ ground (arith, e, there, end)
    | inr ((path, rest), more) ↦
        let same : (c ∷ path, rest) ≡ (head, tail) = grind (arith, e, there, more) in
        let (split, clean) = at_comma-some cs path rest more in
        subst (λ (q : Text × Text). (c ∷ cs ≡ q.0 ++ b',' ∷ q.1) × NoComma q.0) same
          (ap (λ t. c ∷ t) split, (there, clean))
  ]
]

with_commas-cons :
    (q : Text) (xs : List Text) (p : Text) (ps : List Text)
    → xs ≡ p ∷ ps
    → with_commas (q ∷ xs) ≡ q ++ b',' ∷ with_commas xs
with_commas-cons q xs p ps e = rw e refl

module _ (copy : CopyText) (laws : CopyLaws copy) where
  path_list-head :
      (fuel : ℕ) (str : Text) → (p : Text) × (ps : List Text) × (path_list copy fuel str ≡ p ∷ ps)
  unfolding path_list
  path_list-head zero str = ((copy max_path str).1, [], refl)
  path_list-head (suc fuel) str = elim (Option-cases (at_comma str)) [
    | inl end ↦ rw (end, path_list) ((copy max_path str).1, [], refl)
    | inr ((path, rest), more) ↦
        rw (more, path_list) ((copy max_path path).1, path_list copy fuel rest, refl)
  ]

  with_commas-path_list :
      (fuel : ℕ) (str : Text)
      → length str ≤ fuel
      → length str < max_path
      → (with_commas (path_list copy fuel str) ≡ str) × NoCommas (path_list copy fuel str)
  unfolding path_list
  with_commas-path_list zero [] enough short =
      let same : (copy max_path []).1 ≡ [] = ap (λ r. r.1) (laws.fits max_path [] short) in
      (same, (subst (λ t. NoComma t) (sym same) tt, tt))
  with_commas-path_list zero (c ∷ cs) enough short = absurd (omega arith)
  with_commas-path_list (suc fuel) str enough short = elim (Option-cases (at_comma str)) [
    | inl end ↦
        let same : (copy max_path str).1 ≡ str = ap (λ r. r.1) (laws.fits max_path str short) in
        rw (end, path_list) (same, (subst (λ t. NoComma t) (sym same) (at_comma-none str end), tt))
    | inr ((path, rest), more) ↦
        let (split, clean) = at_comma-some str path rest more in
        let size : length str ≡ length path + suc (length rest) =
          ap length split ∙ length-append path (b',' ∷ rest) in
        let same : (copy max_path path).1 ≡ path =
          ap (λ r. r.1) (laws.fits max_path path (omega arith)) in
        let (joined, cleans) = with_commas-path_list fuel rest (omega arith) (omega arith) in
        let (p, ps, at) = path_list-head fuel rest in
        rw (more, path_list)
          (
            with_commas-cons (copy max_path path).1 (path_list copy fuel rest) p ps at
                ∙ (λ i. same i ++ b',' ∷ joined i)
                ∙ sym split,
            (subst (λ t. NoComma t) (sym same) clean, cleans),
          )
  ]

-- Printing leaves the list as it is, and prints a line for each path, in order, if none fails.
print_paths-lines :
    {W : Type 0} (output : Text → HResult) (paths : List Text) (h : Host W)
    → ((print_paths output paths h).1.script_path ≡ h.script_path)
      × (((p : Text) → failed (output p) ≡ false)
          → (print_paths output paths h).1.console.outputs
            ≡ h.console.outputs ++ map (λ p. script_path_line p) paths)
unfolding print_paths
print_paths-lines output [] h = (refl, λ fine. sym (append-nil _))
print_paths-lines {W} output (path ∷ paths) h =
    let h' : Host W = record h { console = print (script_path_line path) h.console } in
    let (same, lines) = print_paths-lines output paths h' in
    elim (Bool-cases (failed (output path))) [
      | inl bad ↦ rw bad (refl, λ fine. ground (arith, fine path))
      | inr good ↦
          rw good (
            same,
            λ fine. lines fine ∙ append_assoc h.console.outputs (script_path_line path ∷ []) _,
          )
    ]

module _ {W : Type 0} (ole : Com W) (copy : CopyText) (laws : CopyLaws copy)
    (output : Text → HResult) where
  abbrev Listed : Text → Extension W → Host W → Type 0
  Listed args e g =
      (args ≢ [] → (with_commas g.script_path ≡ args) × NoCommas g.script_path)
      × (args ≡ [] → g.script_path ≡ e.host.script_path)
      × (((p : Text) → failed (output p) ≡ false)
          → g.console.outputs
            ≡ e.host.console.outputs ++ map (λ p. script_path_line p) g.script_path)

  -- The list that an argument stands for.
  abbrev asked_for : Text → Extension W → List Text
  asked_for [] e = e.host.script_path
  asked_for (c ∷ cs) e = path_list copy (length (c ∷ cs)) (c ∷ cs)

  abbrev printing : ℕ → Text → Extension W → Host W
  printing client args e = record (e.host) {
    world = (re_acquire_ifaces_if_needed ole client (e.pointers, e.host.world)).1.1;
    script_path = asked_for args e;
  }

  scriptpath-host :
      (client : ℕ) (args : Text) (e : Extension W)
      → (re_acquire_ifaces_if_needed ole client (e.pointers, e.host.world)).0 ≡ ok tt
      → (print_paths output (asked_for args e) (printing client args e)).1
        ≡ (scriptpath ole copy output client args e).1.host
  unfolding scriptpath
  scriptpath-host client [] e there = rw (there, scriptpath) refl
  scriptpath-host client (c ∷ cs) e there = rw (there, scriptpath) refl

  -- `!scriptpath` with an argument below 260 characters, when the interfaces are there: the new list
  -- has the paths that stand between the commas of the argument, in order. Without an argument the
  -- list stays. In both cases each path of the list is printed, in order, if no output fails.
  pub scriptpath_lists :
      (client : ℕ) (args : Text) (e : Extension W)
      → (re_acquire_ifaces_if_needed ole client (e.pointers, e.host.world)).0 ≡ ok tt
      → length args < max_path
      → let e' : Extension W = (scriptpath ole copy output client args e).1 in
        (args ≢ [] → (with_commas e'.host.script_path ≡ args) × NoCommas e'.host.script_path)
        × (args ≡ [] → e'.host.script_path ≡ e.host.script_path)
        × (((p : Text) → failed (output p) ≡ false)
            → e'.host.console.outputs
              ≡ e.host.console.outputs ++ map (λ p. script_path_line p) e'.host.script_path)
  scriptpath_lists client [] e there short =
      let h : Host W = printing client [] e in
      let (same, lines) = print_paths-lines output h.script_path h in
      subst (λ g. Listed [] e g) (scriptpath-host client [] e there)
        (
          λ given. absurd (given refl),
          λ none_given. same,
          λ fine.
              lines fine
              ∙ ap (λ q. e.host.console.outputs ++ map (λ p. script_path_line p) q) (sym same),
        )
  scriptpath_lists client (c ∷ cs) e there short =
      let h : Host W = printing client (c ∷ cs) e in
      let (same, lines) = print_paths-lines output h.script_path h in
      let listed = with_commas-path_list copy laws (length (c ∷ cs)) (c ∷ cs) (omega arith) short in
      subst (λ g. Listed (c ∷ cs) e g) (scriptpath-host client (c ∷ cs) e there)
        (
          λ given. subst (λ q. (with_commas q ≡ c ∷ cs) × NoCommas q) (sym same) listed,
          λ none_given. cc,
          λ fine.
              lines fine
              ∙ ap (λ q. e.host.console.outputs ++ map (λ p. script_path_line p) q) (sym same),
        )
