-- ===== src/Lua/Input.antt =====
-- The input of Lua scripts: luaInputCb and luaGetCCb of src/luaprov/luascriptprovider.cpp. A store or
-- a load outside of the buffer is a fault, `none`.
pub mod Queue
use mathlib.Core.Option
use dbgscript.Base.{
  ℕ, zero, suc, ◌+◌, ◌-◌, ◌%◌, ◌^◌, Option, none, some, not, ltb, ◌==◌, if◌then◌else◌, get_elem?,
  write_at,
}
use dbgscript.Console.{Text}
use dbgscript.Exec.{HResult, failed}
use dbgscript.Engine.{UserInput}
use dbgscript.Host.{Host}
use dbgscript.ReadString.{store}

-- The members of `LuaProvGlobals` that buffer a line of input.
pub record LuaInput : Type 0 where
  pub input_buf : Text
  pub next_input_char : ℕ
  pub valid_input_chars : ℕ

-- `EOF`, and a `char` as an `int`: both as bit patterns of 32 bits, and `char` is signed.
abbrev pub eof : ℕ
eof = 0xFFFFFFFF

abbrev pub int_of_char : ℕ → ℕ
int_of_char c = if ltb c 128 then c else c + 0xFFFFFF00

-- `buf[cchRead - 1] = '\n'; buf[cchRead] = 0`
unfoldable pub end_line : Text → ℕ → Option Text
end_line buf n = elim (store buf ((n + 0xFFFFFFFF) % 2 ^ 32) 10) [
  | none ↦ none
  | some b ↦ store b n 0
]

-- Serve the buffer one character at a time.
unfoldable pub serve : LuaInput → Option (ℕ × LuaInput)
serve s = elim (get_elem? s.input_buf s.next_input_char) [
  | none ↦ none
  | some c ↦ some (
    int_of_char c,
    record s {
      next_input_char = s.next_input_char + 1;
      valid_input_chars = s.valid_input_chars - 1;
    },
  )
]

-- The buffer with a line in it.
abbrev pub refilled : Text → ℕ → LuaInput
refilled buf n = record { input_buf = buf; next_input_char = 0; valid_input_chars = n }

module _ {W : Type 0} (input : UserInput W) where
  -- The answer of `Input` is not looked at; `len` is the room of the caller's buffer.
  unfoldable pub lua_input_cb : Text → ℕ → W → Option Text × W
  lua_input_cb buf len w =
      let (hr, (bytes, cch_read), w') = input ((len + 0xFFFFFFFF) % 2 ^ 32) w in
      (end_line (write_at buf 0 bytes) cch_read, w')

  unfoldable pub refill : LuaInput → W → Option (ℕ × LuaInput × W)
  refill s w =
      let (hr, (bytes, chars_read), w') = input 2047 w in
      let buf : Text = write_at s.input_buf 0 bytes in
      if failed hr
      then some (eof, record s { input_buf = buf }, w')
      else elim (end_line buf chars_read) [
        | none ↦ none
        | some b ↦ elim (serve (refilled b chars_read)) [
          | none ↦ none
          | some (c, s') ↦ some (c, s', w')
        ]
      ]

  unfoldable pub lua_get_c_cb : LuaInput → W → Option (ℕ × LuaInput × W)
  lua_get_c_cb s w =
      if s.valid_input_chars == 0
      then refill s w
      else elim (serve s) [ none ↦ none | some (c, s') ↦ some (c, s', w) ]
