-- ===== src/ExecutionRun/Foreground/Outcomes.antt =====
-- The status and the exit code that a run reports agree.
use agent_workstation_gatewa.Base.{
  ◌≡◌, refl, inl, inr, Bool, true, false, ◌||◌, ok, ℤ, pos, negsuc, eq_ℤ, if◌then◌else◌, Bool-cases,
  Option, none, some, arith,
}
use agent_workstation_gatewa.Protocol.Types.{CommandStatus}
use agent_workstation_gatewa.Protocol.Request.{is_outside}
use agent_workstation_gatewa.Protocol.Report.{
  validate_command_outcome, is_not_zero, is_no_failure_code,
}
use agent_workstation_gatewa.ExecutionRun.Types.{
  ProcessExit, Process, Started, TimerKind, missing, no_channel, ticking, Wait, exited, cancelled,
  timed_out, World,
}
use agent_workstation_gatewa.ExecutionRun.Foreground.{
  Outcome, is_bad_exit, on_exit, on_termination, on_event, await_process, settled, outcome_of,
}

-- A status with the exit code that goes with it.
abbrev pub IsConsistent : Outcome → Type 0
IsConsistent outcome = validate_command_outcome (outcome.0) (outcome.1) ≡ ok tt

failure_lem :
    (code : ℤ)
    → is_outside 0 4294967295 code ≡ false
    → eq_ℤ code (pos 0) ≡ false
    → is_no_failure_code (some code) ≡ false
failure_lem (pos n) h k = ground arith
failure_lem (negsuc n) h k = cc

zero_lem : (code : ℤ) → eq_ℤ code (pos 0) ≡ true → is_not_zero (some code) ≡ false
zero_lem (pos n) h = ground arith
zero_lem (negsuc n) h = cc

range_lem : (a b : Bool) → (a || b) ≡ false → b ≡ false
range_lem a b h = ground arith

pub on_exit-IsConsistent : (exit : Option ProcessExit) → IsConsistent (on_exit exit)
unfolding on_exit is_bad_exit validate_command_outcome
on_exit-IsConsistent none = refl
on_exit-IsConsistent (some exit) =
    elim (Bool-cases (exit.runtime_error || is_outside 0 4294967295 exit.code)) [
      | inl bad ↦ rw bad
      | inr good ↦ elim (Bool-cases (eq_ℤ exit.code (pos 0))) [
        | inl e ↦ rw (good, e, zero_lem exit.code e)
        | inr e ↦ rw (good, e, failure_lem exit.code (range_lem exit.runtime_error _ good) e)
      ]
    ]

on_termination-IsConsistent :
    (gone context_done : Bool)
    → IsConsistent (
        on_termination gone
          (if context_done then CommandStatus.cancelled else CommandStatus.timed_out))
unfolding on_termination validate_command_outcome
on_termination-IsConsistent true true = refl
on_termination-IsConsistent true false = refl
on_termination-IsConsistent false context_done = refl

on_event-IsConsistent : (process : Process) (event : Wait) → IsConsistent (on_event process event)
unfolding on_event
on_event-IsConsistent process (exited exit) = on_exit-IsConsistent exit
on_event-IsConsistent process cancelled = on_termination-IsConsistent process.terminates true
on_event-IsConsistent process (timed_out context_done) =
    on_termination-IsConsistent process.terminates context_done

-- Whatever the process, the timer and the context do, the status and the exit code agree.
pub await_process-IsConsistent :
    (timer : TimerKind) (event : Wait) (process : Process)
    → IsConsistent (await_process timer event process)
unfolding await_process validate_command_outcome
await_process-IsConsistent missing event process = refl
await_process-IsConsistent no_channel event process = refl
await_process-IsConsistent ticking event process = elim (Bool-cases process.has_exit) [
  | inl e ↦ rw e (on_event-IsConsistent process event)
  | inr e ↦ rw e
]

settled-IsConsistent :
    (world : World) (failed : Bool) (process : Option Process)
    → IsConsistent (settled world failed process)
unfolding settled validate_command_outcome
settled-IsConsistent world false (some process) =
    await_process-IsConsistent world.timer world.event process
settled-IsConsistent world false none = refl
settled-IsConsistent world true process = refl

pub outcome_of-IsConsistent :
    (world : World) (started : Started) → IsConsistent (outcome_of world started)
unfolding outcome_of
outcome_of-IsConsistent world started = settled-IsConsistent world started.failed started.process
