-- ===== src/ExecutionRun/Foreground/Happened.antt =====
-- What a run has to report of the process, the timer and the context.
use agent_workstation_gatewa.Base.{
  ◌≡◌, refl, ap, ◌⊎◌, inl, inr, Bool, true, false, ◌||◌, ℤ, pos, negsuc, eq_ℤ, Bool-cases, Option,
  none, some, arith, IsBetween,
}
use agent_workstation_gatewa.Protocol.Types.{CommandStatus}
use agent_workstation_gatewa.Protocol.Request.{is_outside}
use agent_workstation_gatewa.ExecutionRun.Types.{
  ProcessExit, Process, Started, TimerKind, missing, no_channel, ticking, Wait, exited, cancelled,
  timed_out, World,
}
use agent_workstation_gatewa.ExecutionRun.Foreground.{
  is_bad_exit, on_exit, on_termination, on_event, await_process, settled, outcome_of,
}

-- Why there is no status of the command itself.
pub data Breaks (world : World) (started : Started) : Type 0 where
  not_started : started.failed ≡ true → Breaks world started
  no_process : started.process ≡ none → Breaks world started
  no_timer : (world.timer ≡ missing) ⊎ (world.timer ≡ no_channel) → Breaks world started
  no_exit :
      (process : Process)
      → started.process ≡ some process
      → process.has_exit ≡ false
      → Breaks world started
  exit_closed : world.event ≡ exited none → Breaks world started
  exit_invalid :
      (exit : ProcessExit)
      → world.event ≡ exited (some exit)
      → (exit.runtime_error ≡ true) ⊎ (is_outside 0 4294967295 exit.code ≡ true)
      → Breaks world started
  not_terminated :
      (process : Process)
      → started.process ≡ some process
      → process.terminates ≡ false
      → (world.event ≡ cancelled) ⊎ ((late : Bool) × (world.event ≡ timed_out late))
      → Breaks world started

-- A process with a channel for its exit is awaited with a timer.
pub record Awaited (world : World) (started : Started) (process : Process) : Type 0 where
  pub launched : started.failed ≡ false
  pub there : started.process ≡ some process
  pub awaitable : process.has_exit ≡ true
  pub timed : world.timer ≡ ticking

-- The status and the exit code that go with what the process, its timer and the context have done.
pub data Happened (world : World) (started : Started) : CommandStatus → Option ℤ → Type 0 where
  completes :
      (process : Process) (exit : ProcessExit)
      → Awaited world started process
      → world.event ≡ exited (some exit)
      → exit.runtime_error ≡ false
      → exit.code ≡ pos 0
      → Happened world started CommandStatus.completed (some exit.code)
  fails :
      (process : Process) (exit : ProcessExit)
      → Awaited world started process
      → world.event ≡ exited (some exit)
      → exit.runtime_error ≡ false
      → IsBetween 1 4294967295 exit.code
      → Happened world started CommandStatus.failed (some exit.code)
  is_cancelled :
      (process : Process)
      → Awaited world started process
      → (world.event ≡ cancelled) ⊎ (world.event ≡ timed_out true)
      → process.terminates ≡ true
      → Happened world started CommandStatus.cancelled none
  times_out :
      (process : Process)
      → Awaited world started process
      → world.event ≡ timed_out false
      → process.terminates ≡ true
      → Happened world started CommandStatus.timed_out none
  breaks : Breaks world started → Happened world started CommandStatus.runtime_failed none

either_lem : (a b : Bool) → (a || b) ≡ true → (a ≡ true) ⊎ (b ≡ true)
either_lem true b h = inl refl
either_lem false b h = inr h

neither_lem : (a b : Bool) → (a || b) ≡ false → (a ≡ false) × (b ≡ false)
neither_lem a b h = ground arith

code_zero : (code : ℤ) → eq_ℤ code (pos 0) ≡ true → code ≡ pos 0
code_zero (pos n) h = ap pos (ground arith)
code_zero (negsuc n) h = absurd (cc h)

code-IsBetween :
    (code : ℤ)
    → is_outside 0 4294967295 code ≡ false
    → eq_ℤ code (pos 0) ≡ false
    → IsBetween 1 4294967295 code
code-IsBetween (pos n) h k = ground arith
code-IsBetween (negsuc n) h k = cc

module _ (world : World) (started : Started) (process : Process)
    (held : Awaited world started process) where
  on_exit-Happened :
      (exit : Option ProcessExit)
      → world.event ≡ exited exit
      → Happened world started (on_exit exit).0 (on_exit exit).1
  unfolding on_exit is_bad_exit
  on_exit-Happened none e = breaks (exit_closed e)
  on_exit-Happened (some exit) e =
      elim (Bool-cases (exit.runtime_error || is_outside 0 4294967295 exit.code)) [
        | inl bad ↦ rw bad (breaks (exit_invalid exit e (either_lem exit.runtime_error _ bad)))
        | inr good ↦
            let (fine, inside) = neither_lem exit.runtime_error _ good in
            elim (Bool-cases (eq_ℤ exit.code (pos 0))) [
              | inl z ↦ rw (good, z) (completes process exit held e fine (code_zero exit.code z))
              | inr z ↦
                  rw (good, z) (fails process exit held e fine (code-IsBetween exit.code inside z))
            ]
      ]

  on_event-Happened :
      (event : Wait)
      → world.event ≡ event
      → Happened world started (on_event process event).0 (on_event process event).1
  unfolding on_event on_termination
  on_event-Happened (exited exit) e = on_exit-Happened exit e
  on_event-Happened cancelled e = elim (Bool-cases process.terminates) [
    | inl t ↦ rw t (is_cancelled process held (inl e) t)
    | inr t ↦ rw t (breaks (not_terminated process held.there t (inl e)))
  ]
  on_event-Happened (timed_out true) e = elim (Bool-cases process.terminates) [
    | inl t ↦ rw t (is_cancelled process held (inr e) t)
    | inr t ↦ rw t (breaks (not_terminated process held.there t (inr (true, e))))
  ]
  on_event-Happened (timed_out false) e = elim (Bool-cases process.terminates) [
    | inl t ↦ rw t (times_out process held e t)
    | inr t ↦ rw t (breaks (not_terminated process held.there t (inr (false, e))))
  ]

module _ (world : World) (started : Started) where
  await_process-Happened :
      (timer : TimerKind) (process : Process)
      → started.failed ≡ false
      → started.process ≡ some process
      → world.timer ≡ timer
      → Happened world started
          (await_process timer world.event process).0
          (await_process timer world.event process).1
  unfolding await_process
  await_process-Happened missing process f p t = breaks (no_timer (inl t))
  await_process-Happened no_channel process f p t = breaks (no_timer (inr t))
  await_process-Happened ticking process f p t = elim (Bool-cases process.has_exit) [
    | inl e ↦ rw e (
        on_event-Happened world started process
          (record { launched = f; there = p; awaitable = e; timed = t }) world.event refl)
    | inr e ↦ rw e (breaks (no_exit process p e))
  ]

  settled-Happened :
      (failed : Bool) (process : Option Process)
      → started.failed ≡ failed
      → started.process ≡ process
      → Happened world started (settled world failed process).0 (settled world failed process).1
  unfolding settled
  settled-Happened true process f p = breaks (not_started f)
  settled-Happened false none f p = breaks (no_process p)
  settled-Happened false (some process) f p = await_process-Happened world.timer process f p refl

  pub outcome_of-Happened :
      Happened world started (outcome_of world started).0 (outcome_of world started).1
  unfolding outcome_of
  outcome_of-Happened = settled-Happened started.failed started.process refl refl
