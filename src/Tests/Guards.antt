-- ===== src/Tests/Guards.antt =====
-- The guards, the questions under them and the enumeration of variables, run on one machine.
use dbgscript.Base.{ℕ, List, ◌≡◌, refl, arith, ◌==◌, if◌then◌else◌}
use dbgscript.Exec.{ok, e_fail, s_ok, of_reply, Exec}
use dbgscript.Host.{Host}
use dbgscript.AutoSwitch.{with_thread, with_frame}
use dbgscript.AutoSwitch.Thread.{current, with_thread_restores}
use dbgscript.AutoSwitch.Frame.{current_frame, with_frame_restores}
use dbgscript.Frames.{
  DbgScriptThread, DbgScriptStackFrame, ds_thread_get_teb, ds_get_stack_trace,
  ds_get_current_stack_frame, snapshot, util_count_stack_frame_variables,
  util_enum_stack_frame_variables, VarsCallback,
}
use dbgscript.Frames.Guarded.{questions_restore_thread, answers_on_target}
use dbgscript.Frames.Enumeration.{Ends, enum_visits_in_order}
use dbgscript.Tests.World.{
  Machine, system, symbols, control, groups, thread_laws, frame_laws, frame_keeps, host,
}

abbrev get_teb : Exec (Host Machine) ℕ
get_teb h = (of_reply (system.current_thread_teb h.world), h)

abbrev thread : DbgScriptThread
thread = record { engine_id = 3; thread_id = 43 }

abbrev frame : DbgScriptStackFrame
frame = record { frame_number = 2; instruction_offset = 4194304 }

with_thread_restores_example : current system thread_laws (with_thread system 3 get_teb host).1 ≡ 1
with_thread_restores_example =
    with_thread_restores system thread_laws 3 get_teb host (λ h. refl) (λ w. refl)

with_frame_restores_example :
    current_frame symbols frame_laws (with_frame symbols 2 get_teb host).1 ≡ 0
with_frame_restores_example =
    with_frame_restores symbols frame_laws 2 get_teb host (λ h. refl) (λ w. refl) (omega arith)

questions_restore_thread_example :
    (current system thread_laws (ds_thread_get_teb system thread host).1 ≡ 1)
    × (current system thread_laws (ds_get_stack_trace system control thread 16 host).1 ≡ 1)
    × (current system thread_laws (ds_get_current_stack_frame system symbols thread host).1 ≡ 1)
    × (current system thread_laws
          (util_count_stack_frame_variables system symbols groups thread frame 1 host).1
        ≡ 1)
questions_restore_thread_example =
    questions_restore_thread system thread_laws symbols control groups thread frame 16 1 host
      frame_keeps (λ w. refl)

answers_on_target_example :
    ((teb : ℕ)
      → (ds_thread_get_teb system thread host).0 ≡ ok teb
      → (g : Host Machine) × (current system thread_laws g ≡ 3)
        × (of_reply (system.current_thread_teb g.world) ≡ ok teb))
    × ((trace : List (ℕ × ℕ) × ℕ)
        → (ds_get_stack_trace system control thread 16 host).0 ≡ ok trace
        → (g : Host Machine) × (current system thread_laws g ≡ 3)
          × (of_reply (control.stack_trace 16 g.world) ≡ ok trace))
    × ((group : ℕ)
        → (snapshot system symbols thread frame 1 host).0 ≡ ok group
        → (g : Host Machine) × (current system thread_laws g ≡ 3)
          × (current_frame symbols frame_laws g ≡ 2)
          × (of_reply (symbols.scope_symbol_group 1 g.world) ≡ ok group))
answers_on_target_example =
    answers_on_target system thread_laws symbols frame_laws control thread frame 16 1 host
      frame_keeps

-- A callback that refuses the second variable.
abbrev refuse_second : VarsCallback groups
refuse_second entry name i h = (if i == 1 then e_fail else s_ok, h)

enum_visits_in_order_example :
    (h : Host Machine) × Ends groups 77 refuse_second 0 2 host
      (util_enum_stack_frame_variables groups 77 2 refuse_second host).0
      h
    × ((util_enum_stack_frame_variables groups 77 2 refuse_second host).1
        ≡ record h { world = groups.release 77 h.world })
enum_visits_in_order_example = enum_visits_in_order groups 77 refuse_second 2 host
