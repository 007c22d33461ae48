-- ===== src/TypeInfo.antt =====
-- The questions about types and addresses of src/support/util.cpp: UtilGetFieldOffset,
-- UtilGetTypeSize and UtilGetNearestSymbol. `ok none` is a success that leaves the out-parameter as
-- the caller had it.
pub mod Unknown
pub mod Nearest
use dbgscript.Base.{
  ℕ, zero, suc, ◌+◌, ◌-◌, ◌%◌, ◌^◌, Option, none, some, List, [], ◌∷◌, ◌++◌, not, ◌&&◌, ◌==◌, ltb,
  if◌then◌else◌, take,
}
use dbgscript.Console.{Text, Diagnostic}
use dbgscript.Exec.{HResult, failed, s_ok, s_false, Reply, Result, ok, err, of_reply, Exec}
use dbgscript.Engine.{ModuleAndTypeId, NearName, Symbols}
use dbgscript.Host.{Host, report}
use dbgscript.Platform.{CopyText}
use dbgscript.SymCache.{get_cached_symbol_type}

-- `MAX_SYMBOL_NAME_LEN` of include/dstypedobject.h
abbrev pub max_symbol_name_len : ℕ
max_symbol_name_len = 512

module _ {W : Type 0} (syms : Symbols W) where
  -- The end that the two questions share: a reply with its code.
  abbrev pub written : {A : Type 0} → Reply A → Result (Option A)
  written (hr, a) = if failed hr then err hr else ok (some a)

  -- After a missing type the code `hr` is still `S_OK`.
  unfoldable pub util_get_field_offset : Text → Text → Exec (Host W) (Option ℕ)
  util_get_field_offset type field h =
      let (type_info, h') = get_cached_symbol_type syms type h in
      elim type_info [
        | none ↦ (ok none, report (Diagnostic.failed_get_type_id type s_ok) h')
        | some info ↦ (written (syms.field_offset info field h'.world), h')
      ]

  unfoldable pub util_get_type_size : Text → Exec (Host W) (Option ℕ)
  util_get_type_size type h =
      let (type_info, h') = get_cached_symbol_type syms type h in
      elim type_info [
        | none ↦ (ok none, report (Diagnostic.failed_get_type_id type s_ok) h')
        | some info ↦ (written (syms.type_size info h'.world), h')
      ]

  -- `hex` is the text of a number by "%#I64x". `buf` is the caller's buffer of 512 characters: what
  -- stands in it before `cchActual - 1` stays.
  unfoldable pub util_get_nearest_symbol : CopyText → (ℕ → Text) → ℕ → Host W → Reply Text × Host W
  util_get_nearest_symbol copy hex addr h =
      let (hr, name) = syms.name_by_offset addr h.world in
      if failed hr
      then ((hr, name.near), report (Diagnostic.failed_get_name_by_offset addr hr) h)
      else if not (name.displacement == 0)
          && (not (hr == s_false) && ltb 0 ((2 ^ 32 + max_symbol_name_len - name.actual) % 2 ^ 32))
      then (let (hr', tail) =
            copy (max_symbol_name_len - (name.actual - 1)) (b'+' ∷ hex name.displacement) in
          ((hr', take (name.actual - 1) name.near ++ tail), h))
      else ((hr, name.near), h)
