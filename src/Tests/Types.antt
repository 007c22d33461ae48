-- ===== src/Tests/Types.antt =====
-- The caches, the questions about types and the typed objects, run on one machine.
use dbgscript.Base.{
  replicate, ℕ, ◌≡◌, ◌≢◌, ◌≤◌, ◌<◌, refl, true, false, none, inl, [], Option, before_first, text_eq,
  codes, ◌⊎◌,
}
use dbgscript.Console.{Text, Diagnostic, diagnosed, print}
use dbgscript.Exec.{HResult, Reply, Result, failed, s_ok, e_invalidarg, e_nointerface, ok, err}
use dbgscript.Engine.{ModuleAndTypeId, TypedData}
use dbgscript.Host.{Host, report}
use dbgscript.SymCache.{get_cached_symbol_type, get_cached_module_name, get_cached_type_name}
use dbgscript.SymCache.Maps.{find}
use dbgscript.SymCache.Coherence.{
  IsCoherent, SymbolRemembered, ModuleRemembered, Looked, symbol_type-Looked, module_name-Looked,
}
use dbgscript.TypeInfo.{util_get_type_size, util_get_field_offset, util_get_nearest_symbol}
use dbgscript.TypeInfo.Unknown.{type_questions_answer}
use dbgscript.TypeInfo.Nearest.{nearest_symbol_text}
use dbgscript.TypedObject.{
  TypedObject, invalid, vftable_suffix, ds_wrap_typed_data, ds_initialize_typed_object,
  ds_typed_object_get_field, ds_typed_object_get_array_element, read_vptr,
  ds_typed_object_get_runtime_type, init_from_vtable, set_names, set_typed_data,
  fill_type_and_module_name,
}
use dbgscript.TypedObject.Names.{IsNamed}
use dbgscript.TypedObject.Walks.{wrap_typed_data_object, initialize_object}
use dbgscript.TypedObject.Elements.{array_element_answer, field_answer}
use dbgscript.TypedObject.Runtime.{Walked, runtime_type_success, NoRuntimeType-succeeds}
use dbgscript.Tests.World.{
  Machine, symbols, spaces, copy_text, copy_laws, name_laws, host, class_key, advanced, object_data,
}

pub host-IsCoherent : IsCoherent symbols host
unfolding find
host-IsCoherent = record { symbols = λ k v e. cc; modules = λ k v e. cc; types = λ k v e. cc }

-- The lookups, on empty caches.
symbol_type-Looked_example :
    Looked symbols
      (symbols.symbol_type_id (codes "C") host.world)
      (SymbolRemembered (codes "C") (symbols.symbol_type_id (codes "C") host.world))
      host
      (get_cached_symbol_type symbols (codes "C") host)
symbol_type-Looked_example = symbol_type-Looked symbols (codes "C") host host-IsCoherent

module_name-Looked_example :
    Looked symbols
      (symbols.module_name 1024 host.world)
      (ModuleRemembered 1024 (symbols.module_name 1024 host.world))
      host
      (get_cached_module_name symbols 1024 host)
module_name-Looked_example = module_name-Looked symbols 1024 host host-IsCoherent

-- A name that the engine does not know.
type_questions_answer_example :
    let known : Option ModuleAndTypeId = none in
    ((util_get_type_size symbols (codes "D") host).0 ≡ ok none)
    × ((util_get_field_offset symbols (codes "D") (codes "f") host).0 ≡ ok none)
    × (known ≡ none
        → ((util_get_type_size symbols (codes "D") host).1.console
            ≡ print (diagnosed (Diagnostic.failed_get_type_id (codes "D") s_ok)) host.console)
          × ((util_get_field_offset symbols (codes "D") (codes "f") host).1.console
              ≡ print (diagnosed (Diagnostic.failed_get_type_id (codes "D") s_ok)) host.console))
unfolding text_eq
type_questions_answer_example =
    type_questions_answer symbols (codes "D") (codes "f") host host-IsCoherent

-- `hex` at one number.
abbrev hex : ℕ → Text
hex n = codes "0x40"

nearest_symbol_text_example :
    let far : ℕ = 64 in
    let r : Reply Text = (util_get_nearest_symbol symbols copy_text hex far host).0 in
    (far ≡ 0 → r ≡ (s_ok, codes "main"))
    × (far ≢ 0 → r.1 ≡ codes "main+0x40")
    × (far ≢ 0 → 9 ≤ 511 → r.0 ≡ s_ok)
    × (far ≢ 0 → 4 < 511 → 511 < 9 → failed r.0 ≡ true)
nearest_symbol_text_example =
    nearest_symbol_text symbols name_laws copy_text copy_laws hex 64 host refl

-- An object that a caller has just allocated.
abbrev fresh : TypedObject
fresh = record {
  name = [];
  type_name = [];
  module_name = [];
  typed_data = object_data;
  typed_data_valid = false;
  value = replicate 8 0;
  value_valid = false;
}

wrap_typed_data_object_example :
    let r : ℕ × TypedObject × Host Machine =
      ds_wrap_typed_data copy_text symbols (codes "c") object_data fresh host in
    IsCoherent symbols r.2
    × (failed r.0 ≡ false
        → (r.1.name ≡ codes "c")
          × (r.1.typed_data ≡ object_data)
          × (r.1.typed_data_valid ≡ true)
          × IsNamed symbols class_key host.world r.1)
wrap_typed_data_object_example =
    wrap_typed_data_object copy_text copy_laws symbols (codes "c") object_data fresh host
      host-IsCoherent

initialize_object_example :
    let base : ℕ = 1024 in
    let addr : ℕ = 64 in
    let r : ℕ × TypedObject × Host Machine =
      ds_initialize_typed_object copy_text symbols advanced 24 none 7 1024 64 false fresh host in
    IsCoherent symbols r.2
    × (failed r.0 ≡ false
        → (r.1.name ≡ codes "<unnamed>")
          × (base ≢ 0 → IsNamed symbols class_key host.world r.1)
          × (base ≡ 0 → (r.1.type_name ≡ invalid) × (r.1.module_name ≡ invalid))
          × (addr ≢ 0 → (r.1.typed_data_valid ≡ true) × (ok object_data ≡ ok r.1.typed_data))
          × (addr ≡ 0
              → (r.1.typed_data_valid ≡ false)
                × (r.1.typed_data.size ≡ 24)
                × (r.1.typed_data.offset ≡ 0)))
initialize_object_example =
    initialize_object copy_text copy_laws symbols advanced 24 none 7 1024 64 false fresh host
      host-IsCoherent

-- An object that is neither a pointer nor an array.
array_element_answer_example :
    let tag : ℕ = 11 in
    let walkable : Type 0 = (tag ≡ 14) ⊎ (tag ≡ 15) in
    let r : Result TypedData × Host Machine =
      ds_typed_object_get_array_element advanced fresh 3 host in
    ((d : TypedData) → r.0 ≡ ok d → walkable × (ok object_data ≡ ok d) × (r.1 ≡ host))
    × ((hr : ℕ)
        → r.0 ≡ err hr
        → ((¬ walkable) × (hr ≡ e_invalidarg) × (r.1 ≡ report Diagnostic.not_pointer_or_array host))
          ⊎ (walkable
              × (ok object_data ≡ err hr)
              × (r.1 ≡ report (Diagnostic.get_array_element_failed hr) host)))
    × (walkable → r.0 ≡ ok object_data)
array_element_answer_example = array_element_answer advanced fresh 3 host

field_answer_example :
    let r : Result TypedData × Host Machine =
      ds_typed_object_get_field advanced (λ i n. true) 128 fresh (codes "next") true host in
    (r.0 ≡ ok object_data)
    × (s_ok ≡ e_nointerface → r.1 ≡ report (Diagnostic.no_such_field (codes "next")) host)
    × (s_ok ≢ e_nointerface
        → failed s_ok ≡ true
        → r.1 ≡ report (Diagnostic.get_field_failed 0) host)
    × (failed s_ok ≡ false → r.1 ≡ host)
field_answer_example =
    field_answer advanced (λ i n. true) 128 fresh (codes "next") true host (λ i n. refl)

-- An object with a table of virtual functions.
abbrev polymorphic : TypedObject
polymorphic = record fresh { typed_data = record object_data { offset = 8 } }

abbrev walked : HResult × TypedObject × Host Machine
walked = ds_typed_object_get_runtime_type copy_text symbols spaces advanced polymorphic fresh host

walked-good : failed walked.0 ≡ false
unfolding ds_typed_object_get_runtime_type read_vptr init_from_vtable get_cached_symbol_type find
    ds_initialize_typed_object set_names set_typed_data fill_type_and_module_name
    get_cached_type_name get_cached_module_name before_first text_eq
walked-good = refl

runtime_type_success_example :
    (ptr addr : ℕ) × ((read_vptr copy_text symbols spaces advanced polymorphic host).0
      ≡ ok (ptr, addr))
    × Walked copy_text copy_laws symbols spaces advanced polymorphic fresh walked.1 host.world ptr
        addr
runtime_type_success_example =
    runtime_type_success copy_text copy_laws symbols spaces advanced polymorphic fresh host
      host-IsCoherent walked-good

address_read : (read_vptr copy_text symbols spaces advanced fresh host).0 ≡ ok (64, 64)
unfolding read_vptr
address_read = refl

no_vtable : before_first vftable_suffix (codes "main") ≡ none
unfolding before_first
no_vtable = refl

NoRuntimeType-succeeds_example :
    let r : HResult × TypedObject × Host Machine =
      ds_typed_object_get_runtime_type copy_text symbols spaces advanced fresh polymorphic host in
    (failed r.0 ≡ false) × (r.1 ≡ polymorphic)
NoRuntimeType-succeeds_example =
    NoRuntimeType-succeeds copy_text copy_laws symbols spaces advanced fresh polymorphic host 64 64
      host-IsCoherent address_read refl (inl no_vtable)
