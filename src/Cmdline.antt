-- ===== src/Cmdline.antt =====
-- src/cmdline.cpp: the switches of the host layer, up to the first argument that is not one. A `char`
-- is a byte; the text of a C string is the list of its bytes up to the NUL.
pub mod Total
pub mod Grammar
use dbgscript.Base.{
  ℕ, zero, suc, ◌-◌, Bool, true, false, Option, none, some, List, [], ◌∷◌, ◌&&◌, ◌||◌, not, leb,
  ◌==◌, if◌then◌else◌, text_eq, length, take, codes,
}
use dbgscript.Console.{Text, Console, Diagnostic, diagnosed, print}
use dbgscript.Exec.{e_invalidarg, Result, ok, err}

-- `isspace`, in the C locale.
abbrev pub is_space : ℕ → Bool
is_space c = (c == b' ') || (leb 9 c && leb c 13)

-- The delimiters `" \t"` of `strtok_s`.
abbrev pub is_delimiter : ℕ → Bool
is_delimiter c = (c == b' ') || (c == 9)

-- `peekNextTokenChar`; the NUL at the end is 0.
unfoldable pub peek_next_token_char : Text → ℕ
peek_next_token_char [] = 0
peek_next_token_char (c ∷ cs) = if is_space c then peek_next_token_char cs else c

unfoldable pub skip_delimiters : Text → Text
skip_delimiters [] = []
skip_delimiters (c ∷ cs) = if is_delimiter c then skip_delimiters cs else c ∷ cs

-- A token up to its delimiter, and what stands behind the delimiter.
unfoldable pub split_token : Text → Text × Text
split_token [] = ([], [])
split_token (c ∷ cs) =
    let (tok, rest) = split_token cs in if is_delimiter c then ([], cs) else (c ∷ tok, rest)

-- `strtok_s(args, " \t", &nextTok)`: the next token and the new `nextTok`.
unfoldable pub strtok : Text → Option (Text × Text)
unfolding skip_delimiters split_token
strtok text = elim (skip_delimiters text) [ [] ↦ none | c ∷ cs ↦ some (split_token (c ∷ cs)) ]

-- `struct ParsedArgs` of src/cmdline.h
pub record ParsedArgs : Type 0 where
  pub time_run : Bool
  pub lang_id : Text
  pub remaining_args : Text

-- `ParsedArgs parsedArgs = {}` in the callers.
abbrev pub no_args : ParsedArgs
no_args = record { time_run = false; lang_id = []; remaining_args = [] }

-- `MAX_LANG_ID` of src/common.h
abbrev pub max_lang_id : ℕ
max_lang_id = 64

abbrev pub starts_with_dash : Text → Bool
starts_with_dash [] = false
starts_with_dash (c ∷ cs) = c == b'-'

-- How a call ends: its result, and the console that it may have printed to.
abbrev pub Parsed : Type 0
Parsed = Result ParsedArgs × Console

-- `widen` is the conversion of `mbstowcs_s`, which cuts to what `LangId` holds.
module _ (widen : Text → Text) where
  abbrev pub set_language : Text → ParsedArgs → ParsedArgs
  set_language tok p = record p { lang_id = take (max_lang_id - 1) (widen tok) }

  -- After the loop.
  abbrev pub finish : Text → ParsedArgs → Console → Parsed
  finish next_tok p c = (ok (record p { remaining_args = next_tok }), c)

  -- One round of the loop, on the token `tok`; `again` is the next round. It is reached only if a
  -- token follows that looks like a switch.
  unfoldable pub advance :
      (Text → Text → ParsedArgs → Console → Option Parsed)
      → Text
      → ParsedArgs
      → Console
      → Option Parsed
  unfolding strtok peek_next_token_char
  advance again next_tok p c = elim (peek_next_token_char next_tok == b'-') [
    | false ↦ some (finish next_tok p c)
    | true ↦ elim (strtok next_tok) [
      | none ↦ some (finish [] p c)
      | some (tok, next_tok') ↦ again tok next_tok' p c
    ]
  ]

  unfoldable pub switch :
      (Text → Text → ParsedArgs → Console → Option Parsed)
      → Text
      → Text
      → ParsedArgs
      → Console
      → Option Parsed
  unfolding advance strtok text_eq
  switch again tok next_tok p c =
      if text_eq tok (codes "-t")
      then advance again next_tok (record p { time_run = true }) c
      else if text_eq tok (codes "-l")
      then elim (strtok next_tok) [
        | none ↦ some (err e_invalidarg, print (diagnosed Diagnostic.switch_needs_language) c)
        | some (lang, next_tok') ↦ advance again next_tok' (set_language lang p) c
      ]
      else some (err e_invalidarg, print (diagnosed (Diagnostic.unknown_switch tok)) c)

  -- The loop, with fuel; `none` means that the fuel ran out.
  unfoldable pub parse_from : ℕ → Text → Text → ParsedArgs → Console → Option Parsed
  unfolding switch text_eq
  parse_from zero tok next_tok p c = none
  parse_from (suc fuel) tok next_tok p c =
      if text_eq tok (codes "--")
      then some (finish next_tok p c)
      else if starts_with_dash tok
      then switch (λ t n q d. parse_from fuel t n q d) tok next_tok p c
      else some (finish next_tok p c)

  unfoldable pub parse_args : Text → ParsedArgs → Console → Option Parsed
  unfolding parse_from strtok
  parse_args args p c = elim (strtok args) [
    | none ↦ some (finish [] p c)
    | some (tok, next_tok) ↦ parse_from (length args) tok next_tok p c
  ]
