-- ===== src/Extension/ScriptPath.antt =====
-- The command scriptpath of src/dllmain.cpp: a list of paths, between commas.
pub mod Lists
use dbgscript.Base.{
  ℕ, zero, suc, ◌+◌, ◌≤◌, ◌<◌, ◌≡◌, refl, sym, ap, ◌∙◌, true, false, Option, none, some, List, [],
  ◌∷◌, ◌++◌, arith, length, length-append, ◌==◌, if◌then◌else◌, Bool-cases, Option-cases, ==_iff,
  subst, map, append-nil, append_assoc, ◌≢◌, inl, inr,
}
use dbgscript.Console.{Text, script_path_line, print}
use dbgscript.Exec.{HResult, failed, s_ok, ok, err}
use dbgscript.Host.{Host}
use dbgscript.Platform.{CopyText, CopyLaws}
use dbgscript.Extension.{Extension, Com}
use dbgscript.Extension.Ifaces.{re_acquire_ifaces_if_needed}

-- `MAX_PATH`
abbrev pub max_path : ℕ
max_path = 260

-- `strchr(str, ',')`: what stands before the comma, and what stands behind it.
unfoldable pub at_comma : Text → Option (Text × Text)
at_comma [] = none
at_comma (c ∷ cs) =
    let rest = at_comma cs in
    if c == b','
    then some ([], cs)
    else elim rest [ some (head, tail) ↦ some (c ∷ head, tail) | none ↦ none ]

module _ (copy : CopyText) where
  -- The loop over the commas and the trailer behind them, with fuel.
  unfoldable pub path_list : ℕ → Text → List Text
  path_list zero str = (copy max_path str).1 ∷ []
  path_list (suc fuel) str = elim (at_comma str) [
    | none ↦ (copy max_path str).1 ∷ []
    | some (path, rest) ↦ (copy max_path path).1 ∷ path_list fuel rest
  ]

-- The loop that prints the list; `output` is the code of `Output` for a path.
unfoldable pub print_paths : {W : Type 0} → (Text → HResult) → List Text → Host W → HResult × Host W
print_paths output [] h = (s_ok, h)
print_paths output (path ∷ paths) h =
    let h' = record h { console = print (script_path_line path) h.console } in
    let rest = print_paths output paths h' in
    if failed (output path) then (output path, h') else rest

module _ {W : Type 0} (ole : Com W) (copy : CopyText) (output : Text → HResult) where
  unfoldable pub scriptpath : ℕ → Text → Extension W → HResult × Extension W
  scriptpath client args e =
      let (r, (p, w)) = re_acquire_ifaces_if_needed ole client (e.pointers, e.host.world) in
      let e1 : Extension W = record e { pointers = p; host = record (e.host) { world = w } } in
      elim r [
        | err hr ↦ (hr, e1)
        | ok _ ↦
            let h : Host W = record (e1.host) {
              script_path = elim args [
                | [] ↦ e1.host.script_path
                | c ∷ cs ↦ path_list copy (length (c ∷ cs)) (c ∷ cs)
              ];
            } in
            let (hr, h') = print_paths output h.script_path h in (hr, record e1 { host = h' })
      ]
