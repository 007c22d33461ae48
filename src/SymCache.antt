-- ===== src/SymCache.antt =====
-- src/support/symcache.cpp and the key order of src/support/symcache.h: three look-aside maps in
-- front of the symbol engine. Nothing is ever taken out of them.
pub mod Maps
pub mod Keys
pub mod Coherence
pub mod Sticky
use Maps.{find, put}
use dbgscript.Base.{ℕ, Bool, not, Option, none, some, ◌&&◌, ltb, ◌==◌, text_eq, if◌then◌else◌}
use dbgscript.Console.{Text}
use dbgscript.Exec.{failed, Reply}
use dbgscript.Engine.{ModuleAndTypeId, Symbols}
use dbgscript.Host.{Caches, Host}

-- `ModuleAndTypeId::operator<`
unfoldable pub key_less : ModuleAndTypeId → ModuleAndTypeId → Bool
key_less a b =
    if not (a.module_base == b.module_base)
    then ltb a.module_base b.module_base
    else ltb a.type_id b.type_id

-- `std::map` takes two keys for one when neither is below the other.
unfoldable pub same_key : ModuleAndTypeId → ModuleAndTypeId → Bool
unfolding key_less
same_key a b = not (key_less a b) && not (key_less b a)

module _ {W : Type 0} (syms : Symbols W) where
  -- A null pointer is `none`.
  unfoldable pub get_cached_symbol_type : Text → Host W → Option ModuleAndTypeId × Host W
  get_cached_symbol_type sym h = elim (find text_eq sym h.caches.sym_cache) [
    | some info ↦ (some info, h)
    | none ↦
        let (hr, tmp) = syms.symbol_type_id sym h.world in
        if failed hr then (none, h) else (
          some tmp,
          record h {
            caches = record (h.caches) { sym_cache = put text_eq sym tmp h.caches.sym_cache };
          },
        )
  ]

  unfoldable pub get_cached_module_name : ℕ → Host W → Option Text × Host W
  get_cached_module_name mod_base h = elim (find ◌==◌ mod_base h.caches.mod_cache) [
    | some name ↦ (some name, h)
    | none ↦
        let (hr, mod_name) = syms.module_name mod_base h.world in
        if failed hr then (none, h) else (
          some mod_name,
          record h {
            caches = record (h.caches) {
              mod_cache = put ◌==◌ mod_base mod_name h.caches.mod_cache;
            };
          },
        )
  ]

  unfoldable pub get_cached_type_name : ModuleAndTypeId → Host W → Option Text × Host W
  unfolding same_key
  get_cached_type_name key h = elim (find same_key key h.caches.type_name_cache) [
    | some name ↦ (some name, h)
    | none ↦
        let (hr, type_name) = syms.type_name key h.world in
        if failed hr then (none, h) else (
          some type_name,
          record h {
            caches = record (h.caches) {
              type_name_cache = put same_key key type_name h.caches.type_name_cache;
            };
          },
        )
  ]
