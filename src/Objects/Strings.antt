-- ===== src/Objects/Strings.antt =====
-- The string methods of typed objects: readString of src/luaprov/typedobject.cpp, read_string of
-- src/pythonprov/typedobject.cpp and of src/rubyprov/typedobject.cpp.
use dbgscript.Base.{ℕ, ◌^◌, ◌≤◌, ◌<◌, ◌≡◌, ◌≢◌, ◌⊎◌, ◌↔◌, Option, none, some, length}
use mathlib.Core.Option
use dbgscript.Console.{Text}
use dbgscript.Host.{Host}
use dbgscript.Script.{Outcome, returned, raised, wrong_argument}
use dbgscript.TypedObject.{TypedObject}

-- No store out of bounds, and a text of at most `n` characters if any.
abbrev pub IsShort : ℕ → Option (Outcome Text) → Type 0
IsShort n none = ⊥
IsShort n (some (returned t)) = length t ≤ n
IsShort n (some (raised e)) = Unit

-- A method that reads up to `count` characters of a string with `actual` characters: counts from 1 to
-- 2047 are safe, 0 and greater ones are refused, and without an argument (-1) it stores out of bounds
-- exactly when the string is longer than the buffer.
abbrev pub Guarded : ℕ → (ℕ → Option (Outcome Text)) → Type 0
Guarded actual method =
    ((count : ℕ) → count ≢ 0 → count < 2048 → IsShort count (method count))
    × ((count : ℕ)
        → (count ≡ 0) ⊎ ((2048 ≤ count) × (count < 2 ^ 31))
        → method count ≡ some (raised wrong_argument))
    × ((method 4294967295 ≡ none) ↔ (2048 < actual))
