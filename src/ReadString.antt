-- ===== src/ReadString.antt =====
-- UtilReadWideString, UtilReadAnsiString and the small reads of src/support/util.cpp. A store
-- outside of the caller's buffer is a fault, `none`.
pub mod Bounds
use mathlib.Core.Option
use dbgscript.Base.{
  ℕ, ◌+◌, ◌*◌, ◌/◌, ◌%◌, ◌^◌, Option, none, some, List, ltb, leb, if◌then◌else◌, length, set, Bool,
  ◌==◌,
}
use dbgscript.Console.{Text}
use dbgscript.Exec.{HResult, failed, Reply, s_ok}
use dbgscript.Engine.{DataSpaces, Control}

-- `ULONG`, and `int` as its bit pattern.
abbrev pub ulong_mod : ℕ
ulong_mod = 2 ^ 32

-- `n < 0`
abbrev pub is_negative : ℕ → Bool
is_negative n = leb (2 ^ 31) n

-- `buf[i] = c`
abbrev pub store : List ℕ → ℕ → ℕ → Option (List ℕ)
store buf i c = if ltb i (length buf) then some (set buf i c) else none

-- A negative limit stands for the whole buffer.
abbrev pub limit_of : ℕ → ℕ → ℕ
limit_of size max_to_read = if is_negative max_to_read then size else max_to_read

module _ {W : Type 0} (spaces : DataSpaces W) where
  unfoldable pub util_read_wide_string : ℕ → ℕ → ℕ → W → Option (Reply (List ℕ))
  util_read_wide_string addr cch_buf cch_max_to_read w =
      let max = limit_of cch_buf cch_max_to_read in
      let (hr, (buf, cb_actual)) = spaces.read_wide_string addr ((cch_buf * 2) % ulong_mod) max w in
      if failed hr
      then some (hr, buf)
      else if ltb max (cb_actual / 2)
      then Option.map (λ b. (hr, b)) (store buf max 0)
      else some (hr, buf)

  -- The text is cut before the code of the read is looked at.
  unfoldable pub util_read_ansi_string : ℕ → ℕ → ℕ → W → Option (Reply (List ℕ))
  util_read_ansi_string addr cb_buf cb_max_to_read w =
      let max = limit_of cb_buf cb_max_to_read in
      let (hr, (buf, cb_actual_len)) = spaces.read_multi_byte_string addr cb_buf max w in
      let cut = if ltb max cb_actual_len then store buf max 0 else some buf in
      Option.map (λ b. (hr, b)) cut

  unfoldable pub util_read_pointer : ℕ → W → Reply ℕ
  util_read_pointer = spaces.read_pointer

  unfoldable pub util_read_bytes : ℕ → ℕ → W → Reply Text
  util_read_bytes addr count = spaces.read_virtual addr count

-- `UtilCheckAbort`: the user has pressed Ctrl-C.
unfoldable pub util_check_abort : {W : Type 0} → Control W → W → Bool
util_check_abort control w = control.interrupt w == s_ok
