-- ===== src/TypeInfo/Unknown.antt =====
-- The two questions about a type by its name, in every case: src/support/util.cpp.
use dbgscript.Base.{ℕ, ◌≡◌, Option, none, some, arith}
use dbgscript.Console.{Text, diagnosed, Diagnostic, print}
use dbgscript.Exec.{s_ok, ok, Reply, Result}
use dbgscript.Engine.{ModuleAndTypeId, Symbols}
use dbgscript.Host.{Host}
use dbgscript.SymCache.Coherence.{answer, IsCoherent, symbol_type-Looked}
use dbgscript.TypeInfo.{written, util_get_field_offset, util_get_type_size}

module _ {W : Type 0} (syms : Symbols W) where
  -- What a question about a type answers, given the type that its name stands for.
  abbrev pub asked : (ModuleAndTypeId → Reply ℕ) → Option ModuleAndTypeId → Result (Option ℕ)
  asked ask none = ok none
  asked ask (some info) = written syms (ask info)

  -- With coherent caches, the size of a type and the offset of a field are what the engine answers
  -- for the type that it knows by this name. For a name that the engine does not know both report
  -- the failure on the console, and still return success, with the caller's value as it was.
  pub type_questions_answer :
      (type field : Text) (h : Host W)
      → IsCoherent syms h
      → let known : Option ModuleAndTypeId = answer (syms.symbol_type_id type h.world) in
        ((util_get_type_size syms type h).0 ≡ asked (λ i. syms.type_size i h.world) known)
        × ((util_get_field_offset syms type field h).0
            ≡ asked (λ i. syms.field_offset i field h.world) known)
        × (known ≡ none
            → ((util_get_type_size syms type h).1.console
                ≡ print (diagnosed (Diagnostic.failed_get_type_id type s_ok)) h.console)
              × ((util_get_field_offset syms type field h).1.console
                  ≡ print (diagnosed (Diagnostic.failed_get_type_id type s_ok)) h.console))
  unfolding util_get_type_size util_get_field_offset
  type_questions_answer type field h c =
      let looked = symbol_type-Looked syms type h c in
      (
        ground (arith, looked.right, looked.untouched),
        ground (arith, looked.right, looked.untouched),
        λ unknown. ground (arith, looked.right, looked.untouched, unknown),
      )
