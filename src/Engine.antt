-- ===== src/Engine.antt =====
-- The services that the program calls and does not implement: the interfaces of DbgEng that
-- include/hostcontext.h lists, over a state `W` of the engine and of the target. A query reads
-- that state; a call that changes it returns the new one.
use dbgscript.Base.{ℕ, List}
use dbgscript.Console.{Text}
use dbgscript.Exec.{HResult, Reply}

-- src/support/symcache.h, `struct ModuleAndTypeId`
pub record ModuleAndTypeId : Type 0 where
  pub type_id : ℕ
  pub module_base : ℕ

-- IDebugSystemObjects
pub record SystemObjects (W : Type 0) : Type 0 where
  pub current_thread_id : W → Reply ℕ
  pub current_thread_teb : W → Reply ℕ
  pub current_process_peb : W → Reply ℕ
  pub number_threads : W → Reply ℕ
  -- the engine ids and the system ids of the first so many threads
  pub thread_ids_by_index : ℕ → W → Reply (List ℕ × List ℕ)
  pub set_current_thread_id : ℕ → W → HResult × W

-- What `GetNameByOffset` fills in: the name, its length with the NUL, and the displacement.
pub record NearName : Type 0 where
  pub near : Text
  pub actual : ℕ
  pub displacement : ℕ

-- IDebugSymbols3
pub record Symbols (W : Type 0) : Type 0 where
  pub symbol_type_id : Text → W → Reply ModuleAndTypeId
  pub module_name : ℕ → W → Reply Text
  pub type_name : ModuleAndTypeId → W → Reply Text
  pub type_size : ModuleAndTypeId → W → Reply ℕ
  pub field_offset : ModuleAndTypeId → Text → W → Reply ℕ
  pub name_by_offset : ℕ → W → Reply NearName
  pub current_scope_frame_index : W → Reply ℕ
  pub scope_instruction_offset : W → Reply ℕ
  -- `GetScopeSymbolGroup2`: the symbol group, by a handle
  pub scope_symbol_group : ℕ → W → Reply ℕ
  pub set_scope_frame_by_index : ℕ → W → HResult × W

-- IDebugDataSpaces4
pub record DataSpaces (W : Type 0) : Type 0 where
  pub read_pointer : ℕ → W → Reply ℕ
  -- the bytes read, at most as many as were asked for
  pub read_virtual : ℕ → ℕ → W → Reply Text
  -- address, bytes to search, characters of room: what the buffer then holds, and the bytes of the
  -- whole string
  pub read_wide_string : ℕ → ℕ → ℕ → W → Reply (Text × ℕ)
  pub read_multi_byte_string : ℕ → ℕ → ℕ → W → Reply (Text × ℕ)

-- IDebugControl. What a command prints comes back as the calls of `Output` that it makes on the
-- callbacks of the client: a mask and a text for each.
pub record Control (W : Type 0) : Type 0 where
  pub interrupt : W → HResult
  -- the frames stored, each by its number and its instruction offset, and how many they are
  pub stack_trace : ℕ → W → Reply (List (ℕ × ℕ) × ℕ)
  pub execute : Text → W → HResult × List (ℕ × Text) × W

-- `DEBUG_SYMBOL_ENTRY`, as far as the program reads it.
pub record SymbolEntry : Type 0 where
  pub entry_type_id : ℕ
  pub entry_module_base : ℕ
  pub entry_offset : ℕ
  pub entry_size : ℕ

-- IDebugSymbolGroup2, by the handle of the group.
pub record SymbolGroups (W : Type 0) : Type 0 where
  pub number_symbols : ℕ → W → Reply ℕ
  pub entry_information : ℕ → ℕ → W → Reply SymbolEntry
  pub symbol_name : ℕ → ℕ → W → Reply Text
  pub release : ℕ → W → W

-- IDebugClient: the output callbacks, by their address, with 0 for none.
pub record Client (W : Type 0) : Type 0 where
  pub output_callbacks : W → Reply ℕ
  pub set_output_callbacks : ℕ → W → HResult × W

-- The file system, as far as the program asks it: `GetFileAttributes`; and the wide form that `%hs`
-- of the C runtime gives a narrow path.
pub record Files (W : Type 0) : Type 0 where
  pub attributes : Text → W → ℕ
  pub widen : Text → Text

-- `DEBUG_TYPED_DATA`, as far as the program reads it.
pub record TypedData : Type 0 where
  pub mod_base : ℕ
  pub offset : ℕ
  pub data_type_id : ℕ
  pub base_type_id : ℕ
  pub tag : ℕ
  pub size : ℕ

-- The requests `EXT_TYPED_DATA` that the program makes of IDebugAdvanced2, with what they carry.
pub data TypedDataOp : Type 0 where
  -- module base, offset and type id, as an object or as a pointer to it
  set_from_type_id_and_u64 set_ptr_from_type_id_and_u64 : ℕ → ℕ → ℕ → TypedDataOp
  get_field : TypedData → Text → TypedDataOp
  get_array_element : TypedData → ℕ → TypedDataOp

-- IDebugAdvanced2
pub record Advanced (W : Type 0) : Type 0 where
  pub request : TypedDataOp → W → Reply TypedData

-- `Input` of IDebugControl, with the room in bytes: what it writes to the start of the buffer, and the
-- number of characters that it reports.
abbrev pub UserInput : Type 0 → Type 0
UserInput W = ℕ → W → HResult × (Text × ℕ) × W
