-- ===== src/FindScript.antt =====
-- UtilFindScriptFile and UtilFileExists of src/support/util.cpp.
pub mod Search
use Prim.Native.Nat.{bit_and}
use dbgscript.Base.{ℕ, ◌-◌, ◌^◌, Bool, List, [], ◌∷◌, ◌++◌, not, ◌&&◌, ◌==◌, if◌then◌else◌}
use dbgscript.Console.{Text, Diagnostic}
use dbgscript.Exec.{failed, e_file_not_found, ok, err, Exec}
use dbgscript.Engine.{Files}
use dbgscript.Host.{Host, report}
use dbgscript.Platform.{CopyText}

-- `INVALID_FILE_ATTRIBUTES`
abbrev pub invalid_file_attributes : ℕ
invalid_file_attributes = 2 ^ 32 - 1

-- `FILE_ATTRIBUTE_DIRECTORY`
abbrev pub file_attribute_directory : ℕ
file_attribute_directory = 0x10

-- `\\` in a path.
abbrev pub backslash : ℕ
backslash = 92

module _ {W : Type 0} (files : Files W) where
  unfoldable pub util_file_exists : Text → W → Bool
  util_file_exists path w =
      let attrib = files.attributes path w in
      not (attrib == invalid_file_attributes) && (bit_and attrib file_attribute_directory == 0)

module _ {W : Type 0} (copy : CopyText) (files : Files W) where
  -- `StringCchPrintf(fullPath, cchFullPath, L"%hs\\%ls", elem->Path, scriptName)`
  abbrev pub joined : ℕ → Text → Text → Text
  joined cch path script_name = (copy cch (files.widen path ++ backslash ∷ script_name)).1

  -- The loop over the script path; `full_path` is what the buffer holds.
  unfoldable pub search_path : ℕ → Text → List Text → Text → W → Text
  search_path cch script_name [] full_path w = full_path
  search_path cch script_name (path ∷ paths) full_path w =
      let here = joined cch path script_name in
      let rest = search_path cch script_name paths here w in
      if util_file_exists files here w then here else rest

  unfoldable pub util_find_script_file : Text → ℕ → Exec (Host W) Text
  unfolding search_path
  util_find_script_file script_name cch h =
      let (hr, full_path) = copy cch script_name in
      if failed hr
      then (err hr, h)
      else (let found =
            if not (util_file_exists files full_path h.world)
            then search_path cch script_name h.script_path full_path h.world
            else full_path in
          if not (util_file_exists files found h.world)
          then (err e_file_not_found, report Diagnostic.script_not_found h)
          else (ok found, h))
