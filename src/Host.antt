-- ===== src/Host.antt =====
-- The state that the support library works on: `DbgScriptHostContext` of include/hostcontext.h, the
-- caches of src/support/symcache.cpp, and the engine behind the interfaces.
use dbgscript.Base.{ℕ, List, if◌then◌else◌}
use dbgscript.Console.{Text, diagnosed, Console, Diagnostic, print}
use dbgscript.Exec.{HResult, failed, Reply, ok, err, of_reply, Exec}
use dbgscript.Engine.{ModuleAndTypeId}

-- The three static maps of src/support/symcache.cpp.
pub record Caches : Type 0 where
  pub sym_cache : List (Text × ModuleAndTypeId)
  pub mod_cache : List (ℕ × Text)
  pub type_name_cache : List (ModuleAndTypeId × Text)

pub record Host (W : Type 0) : Type 0 where
  pub world : W
  pub console : Console
  pub caches : Caches
  -- the paths of the list `ScriptPath`, first to last
  pub script_path : List Text
  -- the address of the static callback object of src/support/outputcallback.cpp
  pub buffered_output_callbacks : ℕ

module _ {W : Type 0} where
  -- `DebugControl->Output(DEBUG_OUTPUT_ERROR, …)`
  abbrev pub report : Diagnostic → Host W → Host W
  report d h = record h { console = print (diagnosed d) h.console }

  abbrev pub query : {A : Type 0} → (W → Reply A) → Exec (Host W) A
  query call h = (of_reply (call h.world), h)

  -- A query whose failure is reported before the exit.
  abbrev pub query_or : {A : Type 0} → (HResult → Diagnostic) → (W → Reply A) → Exec (Host W) A
  query_or d call h =
      let (hr, a) = call h.world in if failed hr then (err hr, report (d hr) h) else (ok a, h)
