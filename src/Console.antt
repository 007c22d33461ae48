-- ===== src/Console.antt =====
-- The output side of the host context: the message buffer of src/support/util.cpp, its nesting
-- count, and the transcript of what reached the debugger.
mod Errors
pub mod Stream
pub mod Buffering
pub use Errors.{Diagnostic}
use dbgscript.Base.{
  ℕ, ◌+◌, ◌-◌, ◌%◌, ◌^◌, Bool, List, [], ◌∷◌, ◌++◌, ◌&&◌, ltb, leb, ◌==◌, if◌then◌else◌, take, set,
  c_string, write_at,
}

-- A text is the list of its characters, without the NUL that ends it in memory.
abbrev pub Text : Type 0
Text = List ℕ

-- A call of `DebugControl->Output`: a text through "%s", a diagnostic of include/dserrors.h, or a
-- line about one of the paths or about the time that a run took.
pub data Message : Type 0 where
  printed : Text → Message
  printed_as_error : Text → Message
  diagnosed : Diagnostic → Message
  script_path_line : Text → Message
  execution_time : ℕ → Message
  evaluating : Text → Message

-- `_countof(hostCtxt->MessageBuf) - 1`: the last byte is kept for the NUL.
abbrev pub message_cap : ℕ
message_cap = 8191

-- `size_t` on the 64-bit target.
abbrev pub size_mod : ℕ
size_mod = 2 ^ 64

-- `LONG`, as the bit pattern of its two's complement.
abbrev pub long_mod : ℕ
long_mod = 2 ^ 32

pub record Console : Type 0 where
  pub message_buf : Text
  pub buf_position : ℕ
  pub is_buffering : ℕ
  pub callback_buf : Text
  pub outputs : List Message

abbrev pub print : Message → Console → Console
print m c = record c { outputs = c.outputs ++ m ∷ [] }

-- `IsBuffering > 0`, as a signed comparison.
abbrev pub buffering_on : Console → Bool
buffering_on c = ltb 0 c.is_buffering && ltb c.is_buffering (2 ^ 31)

unfoldable pub util_flush_message_buffer : Console → Console
util_flush_message_buffer c =
    if ltb 0 c.buf_position
    then (let buf = set c.message_buf c.buf_position 0 in
        record c {
          message_buf = buf;
          outputs = c.outputs ++ printed (c_string buf) ∷ [];
          buf_position = 0;
        })
    else c

-- The two last statements of `UtilBufferOutput`.
unfoldable pub append_to_buffer : Text → ℕ → Console → Console
append_to_buffer text len c = record c {
  message_buf = write_at c.message_buf c.buf_position (take len text);
  buf_position = (c.buf_position + len) % size_mod;
}

unfoldable pub util_buffer_output : Text → ℕ → Console → Console
util_buffer_output text len c =
    if ltb message_cap ((c.buf_position + len) % size_mod)
    then append_to_buffer text (if ltb message_cap len then message_cap else len)
        (util_flush_message_buffer c)
    else append_to_buffer text len c
