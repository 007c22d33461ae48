-- ===== src/Cmdline/Grammar.antt =====
-- ParseArgs of src/cmdline.cpp on the lines that a list of switches is written as.
use dbgscript.Base.{
  ℕ, zero, suc, ◌<◌, ◌≡◌, refl, ap, ◌∙◌, true, false, Option, some, List, [], ◌∷◌, ◌++◌, arith,
  length, length-append, text_eq, codes,
}
use dbgscript.Console.{Text, Console}
use dbgscript.Exec.{ok}
use dbgscript.Cmdline.{
  is_delimiter, skip_delimiters, split_token, strtok, peek_next_token_char, ParsedArgs, Parsed,
  set_language, advance, switch, finish, parse_from, parse_args, starts_with_dash,
}

-- The switches of the host.
pub data Switch : Type 0 where
  timed : Switch
  language : Text → Switch

abbrev pub line_of : List Switch → Text → Text
line_of [] rest = codes "-- " ++ rest
line_of (timed ∷ s) rest = codes "-t " ++ line_of s rest
line_of (language l ∷ s) rest = codes "-l " ++ l ++ b' ' ∷ line_of s rest

abbrev pub NoDelimiter : Text → Type 0
NoDelimiter [] = Unit
NoDelimiter (c ∷ cs) = (is_delimiter c ≡ false) × NoDelimiter cs

-- A language is a word: at least one character, and no delimiter.
abbrev pub IsWord : Text → Type 0
IsWord [] = ⊥
IsWord (c ∷ cs) = NoDelimiter (c ∷ cs)

abbrev pub AreWords : List Switch → Type 0
AreWords [] = Unit
AreWords (timed ∷ s) = AreWords s
AreWords (language l ∷ s) = IsWord l × AreWords s

split_word : (w rest : Text) → NoDelimiter w → split_token (w ++ b' ' ∷ rest) ≡ (w, rest)
unfolding split_token
split_word [] rest clean = refl
split_word (c ∷ cs) rest clean = rw (clean.0, split_word cs rest clean.1) refl

skip-word : (c : ℕ) (cs : Text) → is_delimiter c ≡ false → skip_delimiters (c ∷ cs) ≡ c ∷ cs
unfolding skip_delimiters
skip-word c cs e = ground arith

strtok-word : (w rest : Text) → IsWord w → strtok (w ++ b' ' ∷ rest) ≡ some (w, rest)
unfolding strtok
strtok-word [] rest clean = absurd clean
strtok-word (c ∷ cs) rest clean =
    rw (skip-word c (cs ++ b' ' ∷ rest) clean.0, strtok) (ap some (split_word (c ∷ cs) rest clean))

-- The first token of a line, and what is left behind it.
abbrev token_of : List Switch → Text
token_of [] = codes "--"
token_of (timed ∷ s) = codes "-t"
token_of (language l ∷ s) = codes "-l"

abbrev left_of : List Switch → Text → Text
left_of [] rest = rest
left_of (timed ∷ s) rest = line_of s rest
left_of (language l ∷ s) rest = l ++ b' ' ∷ line_of s rest

strtok-line :
    (s : List Switch) (rest : Text) → strtok (line_of s rest) ≡ some (token_of s, left_of s rest)
strtok-line [] rest = strtok-word (codes "--") rest (refl, (refl, tt))
strtok-line (timed ∷ s) rest = strtok-word (codes "-t") (line_of s rest) (refl, (refl, tt))
strtok-line (language l ∷ s) rest =
    strtok-word (codes "-l") (l ++ b' ' ∷ line_of s rest) (refl, (refl, tt))

-- The line that is left begins by a switch.
peek-line : (s : List Switch) (rest : Text) → peek_next_token_char (line_of s rest) ≡ b'-'
unfolding peek_next_token_char
peek-line [] rest = refl
peek-line (timed ∷ s) rest = refl
peek-line (language l ∷ s) rest = refl

-- Each switch takes a round.
length-line : (s : List Switch) (rest : Text) → length s < length (line_of s rest)
length-line [] rest = omega arith
length-line (timed ∷ s) rest = omega (arith, length-line s rest)
length-line (language l ∷ s) rest =
    omega (arith, length-line s rest, length-append l (b' ' ∷ line_of s rest))

module _ (widen : Text → Text) where
  -- What the switches ask for: the last language counts.
  abbrev pub switched : List Switch → ParsedArgs → ParsedArgs
  switched [] p = p
  switched (timed ∷ s) p = switched s (record p { time_run = true })
  switched (language l ∷ s) p = switched s (set_language widen l p)

  advance-line :
      (again : Text → Text → ParsedArgs → Console → Option Parsed) (s : List Switch) (rest : Text)
      (p : ParsedArgs) (c : Console)
      → advance widen again (line_of s rest) p c ≡ again (token_of s) (left_of s rest) p c
  unfolding advance
  advance-line again s rest p c =
      rw (peek-line s rest, advance) (rw (strtok-line s rest, advance) refl)

  parse_from-line :
      (fuel : ℕ) (s : List Switch) (rest : Text) (p : ParsedArgs) (c : Console)
      → length s < fuel
      → AreWords s
      → parse_from widen fuel (token_of s) (left_of s rest) p c
        ≡ some (finish widen rest (switched s p) c)
  unfolding parse_from switch text_eq
  parse_from-line zero s rest p c enough words = absurd (omega arith)
  parse_from-line (suc fuel) [] rest p c enough words = refl
  parse_from-line (suc fuel) (timed ∷ s) rest p c enough words =
      advance-line (λ t n q d. parse_from widen fuel t n q d) s rest (record p { time_run = true })
        c
      ∙ parse_from-line fuel s rest (record p { time_run = true }) c (omega arith) words
  parse_from-line (suc fuel) (language l ∷ s) rest p c enough words =
      rw (strtok-word l (line_of s rest) words.0, switch)
        (advance-line (λ t n q d. parse_from widen fuel t n q d) s rest (set_language widen l p) c
          ∙ parse_from-line fuel s rest (set_language widen l p) c (omega arith) words.1)

  -- A line of `-t` and `-l` switches, each language a word, that `--` ends, is read back: the
  -- switches are obeyed in order, the arguments behind `--` and one blank are handed on as they are,
  -- and nothing is printed.
  pub parse_args-line_of :
      (s : List Switch) (rest : Text) (p : ParsedArgs) (c : Console)
      → AreWords s
      → parse_args widen (line_of s rest) p c
        ≡ some (ok (record (switched s p) { remaining_args = rest }), c)
  unfolding parse_args
  parse_args-line_of s rest p c words =
      rw (strtok-line s rest, parse_args)
        (parse_from-line (length (line_of s rest)) s rest p c (length-line s rest) words)

  -- A line that begins by a word that is not a switch: the word is lost, and only what stands behind
  -- it and one blank is handed on.
  pub parse_args_loses_word :
      (w rest : Text) (p : ParsedArgs) (c : Console)
      → IsWord w
      → starts_with_dash w ≡ false
      → parse_args widen (w ++ b' ' ∷ rest) p c ≡ some (ok (record p { remaining_args = rest }), c)
  unfolding parse_args parse_from text_eq
  parse_args_loses_word [] rest p c word plain = absurd word
  parse_args_loses_word (d ∷ ds) rest p c word plain =
      rw (strtok-word (d ∷ ds) rest word, parse_args) (ground arith)
