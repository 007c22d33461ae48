-- ===== src/TypedObject.antt =====
-- src/support/dstypedobject.cpp: objects of the target with their type, and the walks from one to the
-- next. A typed object is an out-parameter that the caller allocates: each call takes what it holds
-- and returns what it then holds.
pub mod Names
pub mod Walks
pub mod Elements
pub mod Runtime
use dbgscript.Base.{
  ℕ, Bool, true, false, Option, none, some, List, [], ◌∷◌, not, ◌&&◌, ◌||◌, ◌==◌, if◌then◌else◌,
  codes, length, ◌+◌, ◌%◌, ◌^◌, before_first,
}
use dbgscript.Console.{Text, Diagnostic}
use dbgscript.Exec.{
  HResult, failed, s_ok, e_fail, e_outofmemory, e_invalidarg, e_nointerface, Reply, Result, ok, err,
  Exec, pure, ◌>>=◌,
}
use dbgscript.Engine.{
  ModuleAndTypeId, NearName, TypedData, TypedDataOp, Symbols, DataSpaces, Advanced,
}
use dbgscript.Host.{Host, report, query_or}
use dbgscript.Platform.{CopyText}
use dbgscript.SymCache.{get_cached_symbol_type, get_cached_module_name, get_cached_type_name}

-- `struct DbgScriptTypedObject` of include/dstypedobject.h. `value` is the memory of the union
-- `TypedObjectValue`, its 8 bytes in order.
pub record TypedObject : Type 0 where
  pub name : Text
  pub type_name : Text
  pub module_name : Text
  pub typed_data : TypedData
  pub typed_data_valid : Bool
  pub value : Text
  pub value_valid : Bool

-- The tags of `enum SymTagEnum` that the program tells apart.
abbrev pub sym_tag_enum : ℕ
sym_tag_enum = 12

abbrev pub sym_tag_pointer_type : ℕ
sym_tag_pointer_type = 14

abbrev pub sym_tag_array_type : ℕ
sym_tag_array_type = 15

abbrev pub sym_tag_base_type : ℕ
sym_tag_base_type = 16

-- `MAX_SYMBOL_NAME_LEN` and `MAX_MODULE_NAME_LEN`
abbrev pub max_symbol_name_len : ℕ
max_symbol_name_len = 512

abbrev pub max_module_name_len : ℕ
max_module_name_len = 256

abbrev pub unnamed : Text
unnamed = codes "<unnamed>"

abbrev pub invalid : Text
invalid = codes "<invalid>"

abbrev pub data_of : TypedObject → TypedData
data_of o = o.typed_data

-- What an action of a caller does to its own object, with the code that it ends by.
abbrev pub OnObject : Type 0 → Type 0
OnObject W = TypedObject → Host W → HResult × TypedObject × Host W

unfoldable pub ds_typed_object_is_primitive : TypedObject → Bool
ds_typed_object_is_primitive o =
    let t = (data_of o).tag in
    (t == sym_tag_base_type) || ((t == sym_tag_pointer_type) || (t == sym_tag_enum))

module _ {W : Type 0} (copy : CopyText) (syms : Symbols W) where
  unfoldable pub fill_type_and_module_name : ℕ → ℕ → OnObject W
  fill_type_and_module_name type_id module_base o h =
      let key : ModuleAndTypeId = record { type_id = type_id; module_base = module_base } in
      let (cached_type, h') = get_cached_type_name syms key h in
      elim cached_type [
        | none ↦ (e_fail, o, report Diagnostic.failed_get_type_name h')
        | some type_name ↦
            let o' : TypedObject = record o {
              type_name = (copy max_symbol_name_len type_name).1;
            } in
            let (cached_mod, h'') = get_cached_module_name syms module_base h' in
            elim cached_mod [
              | none ↦ (e_fail, o', report Diagnostic.failed_get_module_name h'')
              | some mod_name ↦
                  let (hr, text) = copy max_module_name_len mod_name in
                  (hr, record o' { module_name = text }, h'')
            ]
      ]

  -- The first half of `DsInitializeTypedObject`: the three names.
  unfoldable pub set_names : Option Text → ℕ → ℕ → OnObject W
  set_names name type_id module_base o h =
      let given : Text = elim name [ some n ↦ n | none ↦ unnamed ] in
      let o' : TypedObject = record o { name = (copy max_symbol_name_len given).1 } in
      if not (module_base == 0) then fill_type_and_module_name type_id module_base o' h else (
        (copy max_module_name_len invalid).0,
        record o' {
          type_name = (copy max_symbol_name_len invalid).1;
          module_name = (copy max_module_name_len invalid).1;
        },
        h,
      )

  unfoldable pub ds_wrap_typed_data : Text → TypedData → OnObject W
  ds_wrap_typed_data name typed_data o h =
      let o' : TypedObject = record o {
        name = (copy max_symbol_name_len name).1;
        typed_data = typed_data;
        typed_data_valid = true;
      } in
      fill_type_and_module_name typed_data.data_type_id typed_data.mod_base o' h

module _ {W : Type 0} (copy : CopyText) (syms : Symbols W) (adv : Advanced W) where
  -- The second half of `DsInitializeTypedObject`: the typed data of an address that is not null.
  unfoldable pub set_typed_data : ℕ → ℕ → ℕ → ℕ → Bool → OnObject W
  set_typed_data size type_id module_base virtual_address want_pointer o h =
      if not (virtual_address == 0)
      then (let op =
            if want_pointer
            then TypedDataOp.set_ptr_from_type_id_and_u64 module_base virtual_address type_id
            else TypedDataOp.set_from_type_id_and_u64 module_base virtual_address type_id in
          let (hr, out_data) = adv.request op h.world in
          if failed hr
          then (
            hr,
            o,
            report
                (if want_pointer
                  then Diagnostic.set_ptr_from_type_id_failed hr
                  else Diagnostic.set_from_type_id_failed hr)
                h,
          )
          else (hr, record o { typed_data = out_data; typed_data_valid = true }, h))
      else (
        s_ok,
        record o { typed_data = record (o.typed_data) { size = size; offset = virtual_address } },
        h,
      )

  unfoldable pub ds_initialize_typed_object : ℕ → Option Text → ℕ → ℕ → ℕ → Bool → OnObject W
  ds_initialize_typed_object size name type_id module_base virtual_address want_pointer o h =
      let (hr, o', h') = set_names copy syms name type_id module_base o h in
      if failed hr
      then (hr, o', h')
      else set_typed_data size type_id module_base virtual_address want_pointer o' h'

module _ {W : Type 0} (adv : Advanced W) where
  -- `malloc i n` says whether the `i`-th allocation, of `n` bytes, succeeds; `header` is the size of
  -- `EXT_TYPED_DATA`.
  unfoldable pub ds_typed_object_get_field :
      (ℕ → ℕ → Bool) → ℕ → TypedObject → Text → Bool → Exec (Host W) TypedData
  ds_typed_object_get_field malloc header o field_name print_missing h =
      let req_size = (header + length field_name + 1) % 2 ^ 32 in
      if not (malloc 0 req_size && malloc 1 req_size)
      then (err e_outofmemory, h)
      else (let (hr, out_data) =
            adv.request (TypedDataOp.get_field o.typed_data field_name) h.world in
          if hr == e_nointerface
          then (err hr, if print_missing then report (Diagnostic.no_such_field field_name) h else h)
          else if failed hr
          then (err hr, report (Diagnostic.get_field_failed hr) h)
          else (ok out_data, h))

  unfoldable pub ds_typed_object_get_array_element : TypedObject → ℕ → Exec (Host W) TypedData
  ds_typed_object_get_array_element o index h =
      let t = (data_of o).tag in
      if not (t == sym_tag_pointer_type) && not (t == sym_tag_array_type)
      then (err e_invalidarg, report Diagnostic.not_pointer_or_array h)
      else query_or Diagnostic.get_array_element_failed
          (adv.request (TypedDataOp.get_array_element o.typed_data index)) h

-- What a symbol of a vtable ends by.
abbrev pub vftable_suffix : Text
vftable_suffix = codes "::`vftable'"

module _ {W : Type 0} (copy : CopyText) (syms : Symbols W) (spaces : DataSpaces W)
    (adv : Advanced W) where
  -- The pointer to the vtable, and the address of the object that it belongs to.
  unfoldable pub read_vptr : TypedObject → Exec (Host W) (ℕ × ℕ)
  read_vptr o = do
    ptr_val ←
        query_or (Diagnostic.failed_read_ptr (data_of o).offset)
          (spaces.read_pointer (data_of o).offset)
    if (data_of o).tag == sym_tag_pointer_type
        then (do
          new_ptr_val ← query_or (Diagnostic.failed_read_ptr ptr_val) (spaces.read_pointer ptr_val)
          pure (new_ptr_val, ptr_val))
        else pure (ptr_val, (data_of o).offset)

  -- From the symbol of the vtable on; `hr` is the code with which the engine gave the symbol.
  unfoldable pub init_from_vtable : TypedObject → HResult → ℕ → ℕ → Text → OnObject W
  unfolding before_first
  init_from_vtable o hr ptr_val obj_addr symbol new h = elim (before_first vftable_suffix symbol) [
    | none ↦ (hr, new, report (Diagnostic.no_vtable ptr_val) h)
    | some class_name ↦
        let (type_info, h') = get_cached_symbol_type syms class_name h in
        elim type_info [
          | none ↦ (hr, new, report (Diagnostic.failed_get_type_id class_name hr) h')
          | some info ↦
              let (hr', new', h'') =
                ds_initialize_typed_object copy syms adv (data_of o).size (some o.name) info.type_id
                  info.module_base obj_addr false new h' in
              (
                hr',
                new',
                if failed hr' then report (Diagnostic.init_typed_object_failed hr') h'' else h'',
              )
        ]
  ]

  -- The object `o` is read, the object `new` is the out-parameter.
  unfoldable pub ds_typed_object_get_runtime_type : TypedObject → OnObject W
  ds_typed_object_get_runtime_type o new h =
      let (vptr, h') = read_vptr o h in
      elim vptr [
        | err hr ↦ (hr, new, h')
        | ok (ptr_val, obj_addr) ↦
            let (hr, found) = syms.name_by_offset ptr_val h'.world in
            if failed hr
            then (hr, new, report (Diagnostic.failed_get_name_by_offset ptr_val hr) h')
            else init_from_vtable o hr ptr_val obj_addr found.near new h'
      ]
