-- ===== src/SymCache/Sticky.antt =====
-- The cache of symbol types of src/support/symcache.cpp, while the engine changes.
use dbgscript.Base.{◌≡◌, none, some, arith, text_eq}
use dbgscript.Console.{Text}
use dbgscript.Engine.{ModuleAndTypeId, Symbols}
use dbgscript.Host.{Host}
use dbgscript.SymCache.{get_cached_symbol_type}
use dbgscript.SymCache.Maps.{find, find-put}
use dbgscript.SymCache.Keys.{text_eq-Separates}

module _ {W : Type 0} (syms : Symbols W) where
  -- What a lookup answered stands in the map afterwards.
  remembered :
      (s : Text) (h : Host W) {v : ModuleAndTypeId}
      → (get_cached_symbol_type syms s h).0 ≡ some v
      → find text_eq s (get_cached_symbol_type syms s h).1.caches.sym_cache ≡ some v
  unfolding get_cached_symbol_type
  remembered s h e = ground (
    arith,
    find-put text_eq text_eq-Separates s s (syms.symbol_type_id s h.world).1 h.caches.sym_cache,
    text_eq-Separates.complete s,
  )

  -- Once `GetCachedSymbolType` has answered, it gives the same answer for good, whatever the engine
  -- has come to answer since; and where it had no answer, nothing is remembered.
  pub symbol_type_sticks :
      (s : Text) (h : Host W)
      → ((syms' : Symbols W) (w : W) (v : ModuleAndTypeId)
          → (get_cached_symbol_type syms s h).0 ≡ some v
          → (get_cached_symbol_type syms' s
              (record ((get_cached_symbol_type syms s h).1) { world = w })).0
            ≡ some v)
        × ((get_cached_symbol_type syms s h).0 ≡ none → (get_cached_symbol_type syms s h).1 ≡ h)
  unfolding get_cached_symbol_type
  symbol_type_sticks s h = (λ syms' w v e. ground (arith, remembered s h e), λ e. ground arith)
