-- ===== src/Tests/Output.antt =====
-- The output side, the string reads, the script search and the command line, run on one machine.
use dbgscript.Base.{
  ℕ, ◌≡◌, refl, true, false, some, [], ◌∷◌, none, ◌++◌, codes, length-replicate, arith, ◌↔◌, ◌<◌,
}
use dbgscript.Console.{Text, util_buffer_output}
use dbgscript.Console.Stream.{stream, IsConsole}
use dbgscript.Console.Buffering.{Buffered, buffer_output-Buffered}
use dbgscript.Exec.{ok, err, e_file_not_found, failed}
use dbgscript.Execute.{captured, util_execute_command}
use dbgscript.Execute.Callbacks.{installed, execute_restores_callbacks}
use dbgscript.Execute.Captured.{execute_adds_last_text}
use dbgscript.ReadString.{util_read_wide_string, util_read_ansi_string}
use dbgscript.ReadString.Bounds.{ReadsAtMost, reads_stay_in_bounds, unlimited_reads_fault}
use dbgscript.FindScript.{util_find_script_file}
use dbgscript.FindScript.Search.{IsFirst, candidates, NoneExists, find_script-IsFirst}
use dbgscript.Cmdline.{no_args, parse_args}
use dbgscript.Cmdline.Grammar.{timed, language, parse_args-line_of}
use dbgscript.Cmdline.Total.{Ends, parse_args_total}
use dbgscript.Tests.World.{
  spaces, control, client, files, copy_text, copy_laws, client_laws, read_laws, console, host,
}

pub console-IsConsole : IsConsole console
console-IsConsole = record {
  size = length-replicate {A = ℕ} 8192 0;
  room = omega arith;
  no_nul = tt;
}

buffer_output-Buffered_example :
    Buffered (codes "hi") console (util_buffer_output (codes "hi") 2 console)
buffer_output-Buffered_example =
    buffer_output-Buffered (codes "hi") console console-IsConsole (ground arith) (omega arith)

execute_restores_callbacks_example :
    installed copy_text client control client_laws
      (util_execute_command copy_text client control (codes "k") host).1
    ≡ 5
execute_restores_callbacks_example =
    execute_restores_callbacks copy_text client control client_laws (codes "k") host refl refl
      (λ w. refl)

run_again : (util_execute_command copy_text client control (codes "k") host).0 ≡ ok tt
unfolding util_execute_command captured
run_again = refl

execute_adds_last_text_example :
    IsConsole (util_execute_command copy_text client control (codes "k") host).1.console
    × (stream (util_execute_command copy_text client control (codes "k") host).1.console
        ≡ stream console ++ codes "two")
execute_adds_last_text_example =
    execute_adds_last_text copy_text copy_laws client control (codes "k") host console-IsConsole
      (record { clean = tt; short = omega arith }) (ground arith) refl run_again

reads_stay_in_bounds_example :
    ReadsAtMost 8 5 (util_read_wide_string spaces 4096 8 5 host.world)
    × ReadsAtMost 8 5 (util_read_ansi_string spaces 4096 8 5 host.world)
reads_stay_in_bounds_example =
    reads_stay_in_bounds spaces read_laws 4096 8 5 host.world (omega arith) (omega arith)

unlimited_reads_fault_example :
    ((util_read_wide_string spaces 4096 8 4294967295 host.world ≡ none)
      ↔ ((failed 0 ≡ false) × (8 < 58)))
    × ((util_read_ansi_string spaces 4096 8 4294967295 host.world ≡ none) ↔ (8 < 108))
unlimited_reads_fault_example =
    unlimited_reads_fault spaces read_laws 4096 8 4294967295 host.world (omega arith) refl

find_script-IsFirst_example :
    ((p : Text)
      → (util_find_script_file copy_text files (codes "s") 260 host).0 ≡ ok p
      → IsFirst copy_text files 260
          (codes "s")
          host.world
          p
          (candidates copy_text files 260 (codes "s") host.script_path))
    × ((hr : ℕ)
        → (util_find_script_file copy_text files (codes "s") 260 host).0 ≡ err hr
        → (hr ≡ e_file_not_found)
          × NoneExists copy_text files 260
              (codes "s")
              (candidates copy_text files 260 (codes "s") host.script_path)
              host.world)
find_script-IsFirst_example =
    find_script-IsFirst copy_text files 260 (codes "s") host copy_laws (omega arith)

parse_args_total_example :
    Ends (parse_args (λ t. t) (codes "-t -l lua -- script.lua") no_args console)
parse_args_total_example =
    parse_args_total (λ t. t) (codes "-t -l lua -- script.lua") no_args console

parse_args-line_of_example :
    parse_args (λ t. t) (codes "-t -l lua -- script.lua 1") no_args console
    ≡ some (
      ok (record { time_run = true; lang_id = codes "lua"; remaining_args = codes "script.lua 1" }),
      console,
    )
parse_args-line_of_example =
    parse_args-line_of (λ t. t) (timed ∷ language (codes "lua") ∷ []) (codes "script.lua 1") no_args
      console ((refl, (refl, (refl, tt))), tt)
