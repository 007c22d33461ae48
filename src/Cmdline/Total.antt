-- ===== src/Cmdline/Total.antt =====
-- The loop of ParseArgs in src/cmdline.cpp: its rounds and its ends.
use dbgscript.Base.{
  ℕ, zero, suc, ◌≤◌, ◌<◌, ◌≡◌, refl, Bool, true, false, Option, none, some, [], ◌∷◌, arith, length,
  ◌==◌, if◌then◌else◌, text_eq, codes,
}
use dbgscript.Console.{Text, Console, Diagnostic, diagnosed, print}
use dbgscript.Exec.{e_invalidarg, ok, err}
use dbgscript.Cmdline.{
  skip_delimiters, split_token, strtok, peek_next_token_char, ParsedArgs, Parsed, set_language,
  advance, switch, finish, starts_with_dash, parse_from, parse_args,
}

skip_delimiters-le : (text : Text) → length (skip_delimiters text) ≤ length text
unfolding skip_delimiters
skip_delimiters-le [] = omega arith
skip_delimiters-le (c ∷ cs) = ground (arith, skip_delimiters-le cs)

split_token-le : (text : Text) → length (split_token text).1 ≤ length text
unfolding split_token
split_token-le [] = omega arith
split_token-le (c ∷ cs) = ground (arith, split_token-le cs)

-- A token takes at least one character.
split_token-lt : (c : ℕ) (cs : Text) → length (split_token (c ∷ cs)).1 < length (c ∷ cs)
unfolding split_token
split_token-lt c cs = ground (arith, split_token-le cs)

pub strtok-lt : (text tok rest : Text) → strtok text ≡ some (tok, rest) → length rest < length text
unfolding strtok
strtok-lt text tok rest e = go (skip_delimiters text) (skip_delimiters-le text) e
  where
    go :
        (s : Text)
        → length s ≤ length text
        → (elim s [ [] ↦ none | c ∷ cs ↦ some (split_token (c ∷ cs)) ]) ≡ some (tok, rest)
        → length rest < length text
    go [] short no_token = cc
    go (c ∷ cs) short a_token = grind (arith, split_token-lt c cs)

-- A result that is allowed: a success, or E_INVALIDARG.
pub Ends : Option Parsed → Type 0
Ends none = ⊥
Ends (some (ok p, c)) = Unit
Ends (some (err hr, c)) = hr ≡ e_invalidarg

module _ (widen : Text → Text) where
  advance-Ends :
      (again : Text → Text → ParsedArgs → Console → Option Parsed) (next_tok : Text)
      (p : ParsedArgs) (c : Console)
      → ((t n : Text) (q : ParsedArgs) (d : Console)
          → length n < length next_tok
          → Ends (again t n q d))
      → Ends (advance widen again next_tok p c)
  unfolding advance Ends
  advance-Ends again next_tok p c ends =
      go (peek_next_token_char next_tok == b'-') (strtok next_tok)
        (λ t n e. strtok-lt next_tok t n e)
    where
      go :
          (b : Bool) (next : Option (Text × Text))
          → ((t n : Text) → next ≡ some (t, n) → length n < length next_tok)
          → Ends (elim b [
            | false ↦ some (finish widen next_tok p c)
            | true ↦ elim next [
              | none ↦ some (finish widen [] p c)
              | some (tok, next_tok') ↦ again tok next_tok' p c
            ]
          ])
      go false next shorter = tt
      go true none shorter = tt
      go true (some (tok, n)) shorter = ends tok n p c (shorter tok n refl)

  switch-Ends :
      (again : Text → Text → ParsedArgs → Console → Option Parsed) (tok next_tok : Text)
      (p : ParsedArgs) (c : Console)
      → ((t n : Text) (q : ParsedArgs) (d : Console)
          → length n < length next_tok
          → Ends (again t n q d))
      → Ends (switch widen again tok next_tok p c)
  unfolding switch Ends
  switch-Ends again tok next_tok p c ends =
      go (text_eq tok (codes "-t")) (text_eq tok (codes "-l")) (strtok next_tok)
        (λ t n e. strtok-lt next_tok t n e)
    where
      go :
          (timed named : Bool) (next : Option (Text × Text))
          → ((t n : Text) → next ≡ some (t, n) → length n < length next_tok)
          → Ends (
              if timed
              then advance widen again next_tok (record p { time_run = true }) c
              else if named
              then elim next [
                | none ↦
                    some (err e_invalidarg, print (diagnosed Diagnostic.switch_needs_language) c)
                | some (lang, next_tok') ↦
                    advance widen again next_tok' (set_language widen lang p) c
              ]
              else some (err e_invalidarg, print (diagnosed (Diagnostic.unknown_switch tok)) c))
      go true named next shorter = advance-Ends again next_tok (record p { time_run = true }) c ends
      go false true none shorter = refl
      go false true (some (lang, n)) shorter =
          advance-Ends again n (set_language widen lang p) c
            λ t m q d less. ends t m q d (omega (arith, shorter lang n refl))
      go false false next shorter = refl

  parse_from-Ends :
      (fuel : ℕ) (tok next_tok : Text) (p : ParsedArgs) (c : Console)
      → length next_tok < fuel
      → Ends (parse_from widen fuel tok next_tok p c)
  unfolding parse_from Ends
  parse_from-Ends zero tok next_tok p c enough = omega arith
  parse_from-Ends (suc fuel) tok next_tok p c enough =
      go (text_eq tok (codes "--")) (starts_with_dash tok) (
        switch-Ends (λ t n q d. parse_from widen fuel t n q d) tok next_tok p c
          λ t n q d less. parse_from-Ends fuel t n q d (omega arith))
    where
      go :
          (over dash : Bool)
          → Ends (switch widen (λ t n q d. parse_from widen fuel t n q d) tok next_tok p c)
          → Ends (
              if over
              then some (finish widen next_tok p c)
              else if dash
              then switch widen (λ t n q d. parse_from widen fuel t n q d) tok next_tok p c
              else some (finish widen next_tok p c))
      go true dash switched = tt
      go false false switched = tt
      go false true switched = switched

  -- For every command line the loop of `ParseArgs` ends, on the fuel that the line's length gives:
  -- with the parsed arguments, or with E_INVALIDARG and no other error.
  pub parse_args_total :
      (args : Text) (p : ParsedArgs) (c : Console) → Ends (parse_args widen args p c)
  unfolding parse_args Ends
  parse_args_total args p c = go (strtok args) λ t n e. strtok-lt args t n e
    where
      go :
          (first : Option (Text × Text))
          → ((t n : Text) → first ≡ some (t, n) → length n < length args)
          → Ends (elim first [
            | none ↦ some (finish widen [] p c)
            | some (tok, next_tok) ↦ parse_from widen (length args) tok next_tok p c
          ])
      go none shorter = tt
      go (some (tok, n)) shorter = parse_from-Ends (length args) tok n p c (shorter tok n refl)
