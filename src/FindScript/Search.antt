-- ===== src/FindScript/Search.antt =====
-- UtilFindScriptFile of src/support/util.cpp against a description of the places that it tries.
use dbgscript.Base.{
  ℕ, ◌<◌, ◌≡◌, refl, true, false, inl, inr, List, [], ◌∷◌, map, arith, length, Bool-cases,
}
use dbgscript.Console.{Text}
use dbgscript.Exec.{ok, err, s_ok, e_file_not_found}
use dbgscript.Engine.{Files}
use dbgscript.Host.{Host}
use dbgscript.Platform.{CopyText, CopyLaws}
use dbgscript.FindScript.{util_file_exists, joined, search_path, util_find_script_file}

module _ {W : Type 0} (copy : CopyText) (files : Files W) (cch : ℕ) (script_name : Text) where
  -- The places that are tried, in order: the name itself, then the name below each path.
  abbrev pub candidates : List Text → List Text
  candidates paths = script_name ∷ map (λ p. joined copy files cch p script_name) paths

  -- No place of a list is a file.
  abbrev pub NoneExists : List Text → W → Type 0
  NoneExists [] w = Unit
  NoneExists (p ∷ ps) w = (util_file_exists files p w ≡ false) × NoneExists ps w

  -- `p` is the first place of a list that is a file.
  pub data IsFirst (w : W) (p : Text) : List Text → Type 0 where
    here : {ps : List Text} → util_file_exists files p w ≡ true → IsFirst w p (p ∷ ps)
    later :
        {q : Text} {ps : List Text}
        → util_file_exists files q w ≡ false
        → IsFirst w p ps
        → IsFirst w p (q ∷ ps)

  search_path-IsFirst :
      (paths : List Text) (w : W) (full : Text)
      → util_file_exists files full w ≡ false
      → let found = search_path copy files cch script_name paths full w in
        let tried = map (λ p. joined copy files cch p script_name) paths in
        (util_file_exists files found w ≡ true → IsFirst w found tried)
        × (util_file_exists files found w ≡ false → NoneExists tried w)
  unfolding search_path
  search_path-IsFirst [] w full no_file = (λ e. cc, λ e. tt)
  search_path-IsFirst (p ∷ ps) w full no_file =
      let q : Text = joined copy files cch p script_name in
      elim (Bool-cases (util_file_exists files q w)) [
        | inl file ↦ rw (file, search_path) (λ e. here file, λ e. cc)
        | inr no_file' ↦
            let ih = search_path-IsFirst ps w q no_file' in
            rw (no_file', search_path) (λ e. later no_file' (ih.0 e), λ e. (refl, ih.1 e))
      ]

  -- A name that fits the buffer: the file that is found is the first that exists among the name
  -- itself and the name below each path of the list, in order; and the search fails, with the code of
  -- a missing file, only when none of them exists.
  pub find_script-IsFirst :
      (h : Host W)
      → CopyLaws copy
      → length script_name < cch
      → ((p : Text)
          → (util_find_script_file copy files script_name cch h).0 ≡ ok p
          → IsFirst h.world p (candidates h.script_path))
        × ((hr : ℕ)
            → (util_find_script_file copy files script_name cch h).0 ≡ err hr
            → (hr ≡ e_file_not_found) × NoneExists (candidates h.script_path) h.world)
  unfolding util_find_script_file
  find_script-IsFirst h laws fits =
      let same : copy cch script_name ≡ (s_ok, script_name) = laws.fits cch script_name fits in
      let found : Text = search_path copy files cch script_name h.script_path script_name h.world in
      elim (Bool-cases (util_file_exists files script_name h.world)) [
        | inl file ↦ (
          λ p e. let name : script_name ≡ p = ground (arith, same, file) in rw (← name) (here file),
          λ hr e. ground (arith, same, file),
        )
        | inr no_file ↦
            let (first, nowhere) = search_path-IsFirst h.script_path h.world script_name no_file in
            elim (Bool-cases (util_file_exists files found h.world)) [
              | inl file ↦ (
                λ p e.
                    let place : found ≡ p = ground (arith, same, no_file, file) in
                    rw (← place) (later no_file (first file)),
                λ hr e. ground (arith, same, no_file, file),
              )
              | inr nothing ↦ (
                λ p e. ground (arith, same, no_file, nothing),
                λ hr e. (ground (arith, same, no_file, nothing), (no_file, nowhere nothing)),
              )
            ]
      ]
