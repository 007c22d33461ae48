-- ===== src/Running.antt =====
-- What the three script providers share when they run a script.
pub mod Reports
use mathlib.Core.Option
use dbgscript.Base.{Option, none, some, if◌then◌else◌, ℕ, Bool, false, List, [], ◌∷◌, ◌==◌}
use dbgscript.Console.{Text}
use dbgscript.Host.{Host}
use dbgscript.FindScript.{backslash}

-- MAX_PATH
abbrev pub max_path : ℕ
max_path = 260

-- `wcstombs_s`, with the room in bytes: its error, and the text.
abbrev pub ToAnsi : Type 0
ToAnsi = ℕ → Text → ℕ × Text

-- `argv[i][0] == L'-'`
abbrev pub is_switch : Text → Bool
is_switch [] = false
is_switch (c ∷ cs) = c == b'-'

abbrev pub on_world : {W : Type 0} → (W → W) → Host W → Host W
on_world f h = record h { world = f h.world }

-- What stands in front of the last backslash.
unfoldable pub directory_of : Text → Option Text
directory_of [] = none
directory_of (c ∷ cs) = elim (directory_of cs) [
  | some dir ↦ some (c ∷ dir)
  | none ↦ if c == backslash then some [] else none
]
