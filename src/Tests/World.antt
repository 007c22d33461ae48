-- ===== src/Tests/World.antt =====
-- A small debugger engine to run the program on: three numbers for a state.
use dbgscript.Base.{
  ℕ, ◌+◌, ◌-◌, ◌*◌, ◌/◌, ◌%◌, ◌^◌, ◌≤◌, refl, [], ◌∷◌, ◌++◌, ltb, ◌==◌, arith, if◌then◌else◌,
  text_eq, codes, replicate, take, length, length-replicate, zero, suc, min, c_string, inl, inr,
  Bool-cases,
}
use dbgscript.Console.{Text, Console}
use dbgscript.Exec.{s_ok, e_fail}
use dbgscript.Engine.{
  ModuleAndTypeId, SystemObjects, NearName, Symbols, DataSpaces, Control, SymbolGroups, Client,
  Files, TypedData, Advanced,
}
use dbgscript.Host.{Host}
use dbgscript.Platform.{CopyText, CopyLaws}
use dbgscript.AutoSwitch.Thread.{ThreadLaws}
use dbgscript.AutoSwitch.Frame.{FrameLaws, FrameKeepsThread}
use dbgscript.Execute.Callbacks.{ClientLaws}
use dbgscript.ReadString.Bounds.{ReadLaws}
use dbgscript.TypeInfo.Nearest.{NameLaws}

pub record Machine : Type 0 where
  pub thread : ℕ
  pub frame : ℕ
  pub callbacks : ℕ

-- Threads and frames below 10 exist.
abbrev pub system : SystemObjects Machine
system = record {
  current_thread_id = λ w. (s_ok, w.thread);
  current_thread_teb = λ w. (s_ok, 4096 + w.thread);
  current_process_peb = λ w. (s_ok, 8192);
  number_threads = λ w. (s_ok, 2);
  thread_ids_by_index = λ n w. (s_ok, (take n (0 ∷ 1 ∷ []), take n (40 ∷ 41 ∷ [])));
  set_current_thread_id = λ n w. if ltb n 10 then (s_ok, record w { thread = n }) else (e_fail, w);
}

abbrev vtable_name : NearName
vtable_name = record { near = codes "C::`vftable'"; actual = 13; displacement = 0 }

abbrev main_name : ℕ → NearName
main_name addr = record { near = codes "main"; actual = 5; displacement = addr }

-- There is a table of virtual functions at 8, and `main` at 0.
abbrev near_name : ℕ → NearName
near_name addr = if addr == 8 then vtable_name else main_name addr

-- One type is known, `C`, of the module at 1024.
abbrev pub class_key : ModuleAndTypeId
class_key = record { type_id = 7; module_base = 1024 }

abbrev pub symbols : Symbols Machine
symbols = record {
  symbol_type_id = λ s w. (if text_eq s (codes "C") then s_ok else e_fail, class_key);
  module_name = λ b w. (if b == 1024 then s_ok else e_fail, codes "app");
  type_name = λ k w. (if k.type_id == 7 then s_ok else e_fail, codes "C");
  type_size = λ k w. (s_ok, 24);
  field_offset = λ k f w. (s_ok, 8);
  name_by_offset = λ addr w. (s_ok, near_name addr);
  current_scope_frame_index = λ w. (s_ok, w.frame);
  scope_instruction_offset = λ w. (s_ok, 4194304 + w.frame);
  scope_symbol_group = λ flags w. (s_ok, 77);
  set_scope_frame_by_index =
      λ n w. if ltb n 10 then (s_ok, record w { frame = n }) else (e_fail, w);
}

-- A string of 'A' that never ends.
abbrev pub spaces : DataSpaces Machine
spaces = record {
  read_pointer = λ addr w. (s_ok, addr);
  read_virtual = λ addr n w. (s_ok, replicate n 0);
  read_wide_string = λ addr bytes max w. (s_ok, (replicate (bytes / 2) b'A', bytes + 100));
  read_multi_byte_string = λ addr size max w. (s_ok, (replicate size b'A', size + 100));
}

abbrev pub control : Control Machine
control = record {
  interrupt = λ w. 1;
  stack_trace = λ n w. (s_ok, (take n ((0, 4194304) ∷ (1, 4194400) ∷ []), min n 2));
  execute = λ command w. (s_ok, (1, codes "one") ∷ (2, codes "error") ∷ (1, codes "two") ∷ [], w);
}

abbrev pub groups : SymbolGroups Machine
groups = record {
  number_symbols = λ g w. (s_ok, 2);
  entry_information = λ g i w. (
    s_ok,
    record { entry_type_id = 7; entry_module_base = 1024; entry_offset = 64 + i; entry_size = 4 },
  );
  symbol_name = λ g i w. (s_ok, codes "x");
  release = λ g w. record w { callbacks = 0 };
}

abbrev pub client : Client Machine
client = record {
  output_callbacks = λ w. (s_ok, w.callbacks);
  set_output_callbacks = λ cb w. (s_ok, record w { callbacks = cb });
}

-- One file exists, in the directory `d`.
abbrev pub files : Files Machine
files = record {
  attributes = λ p w. if text_eq p (codes "d" ++ 92 ∷ codes "s") then 32 else 4294967295;
  widen = λ t. t;
}

abbrev pub object_data : TypedData
object_data = record {
  mod_base = 1024;
  offset = 64;
  data_type_id = 7;
  base_type_id = 7;
  tag = 11;
  size = 24;
}

abbrev pub advanced : Advanced Machine
advanced = record { request = λ op w. (s_ok, object_data) }

-- A copy that cuts, with STRSAFE_E_INSUFFICIENT_BUFFER.
abbrev pub copy_text : CopyText
copy_text cch src = if ltb (length src) cch then (s_ok, src) else (0x8007007A, take (cch - 1) src)

pub copy_laws : CopyLaws copy_text
copy_laws = record {
  fits = λ cch src room. ground arith;
  cut = λ cch src long. ground arith;
  cut_fails = λ cch src long. ground arith;
}

pub thread_laws : ThreadLaws system
thread_laws = record { switched = λ n w e. ground arith; refused = λ n w e. ground arith }

pub frame_laws : FrameLaws symbols
frame_laws = record { switched = λ n w e. ground arith; refused = λ n w e. ground arith }

pub frame_keeps : FrameKeepsThread system symbols
frame_keeps n w = ground arith

pub client_laws : ClientLaws client
client_laws = record { accepted = λ cb w e. refl }

pub name_laws : NameLaws symbols
name_laws = record {
  whole = λ addr w e. elim (Bool-cases (addr == 8)) [ inl y ↦ rw y refl | inr n ↦ rw n refl ];
  room = λ addr w e. elim (Bool-cases (addr == 8)) [
    | inl y ↦ rw y (omega arith)
    | inr n ↦ rw n (omega arith)
  ];
}

length-c_string : (text : Text) → length (c_string text) ≤ length text
unfolding c_string
length-c_string [] = omega arith
length-c_string (zero ∷ cs) = omega arith
length-c_string (suc c ∷ cs) = omega (arith, length-c_string cs)

endless-short : (n : ℕ) → length (c_string (replicate n b'A')) ≤ n
endless-short n = omega (arith, length-c_string (replicate n b'A'), length-replicate {A = ℕ} n b'A')

pub read_laws : ReadLaws spaces
read_laws = record {
  wide_size = λ addr size max w small.
      omega (arith, length-replicate {A = ℕ} (((size * 2) % 2 ^ 32) / 2) b'A');
  ansi_size = λ addr size max w. length-replicate {A = ℕ} size b'A';
  wide_ends = λ addr bytes max w good short. omega (arith, endless-short (bytes / 2));
  ansi_ends = λ addr size max w good short. omega (arith, endless-short size);
}

abbrev pub console : Console
console = record {
  message_buf = replicate 8192 0;
  buf_position = 0;
  is_buffering = 1;
  callback_buf = [];
  outputs = [];
}

abbrev pub host : Host Machine
host = record {
  world = record { thread = 1; frame = 0; callbacks = 5 };
  console = console;
  caches = record { sym_cache = []; mod_cache = []; type_name_cache = [] };
  script_path = codes "c" ∷ codes "d" ∷ [];
  buffered_output_callbacks = 9;
}
