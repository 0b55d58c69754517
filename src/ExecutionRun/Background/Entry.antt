-- ===== src/ExecutionRun/Background/Entry.antt =====
-- internal/executionrun/background.go: a background process and the goroutine that watches it. Every
-- method of an entry holds the entry's mutex, so each is one step.
use agent_workstation_gatewa.Base.{ℕ, ℤ, Bool, true, false, if◌then◌else◌, Option, none, some}
use agent_workstation_gatewa.Text.{Bytes, codes}
use agent_workstation_gatewa.OutputCapture.{Capture}
use agent_workstation_gatewa.ExecutionRun.Types.{ProcessExit, Process, TimerKind, ticking}
use agent_workstation_gatewa.ExecutionRun.Foreground.{is_bad_exit}

-- `backgroundRunning` and so on
pub data BackgroundState : Type 0 where
  running exited stopped timed_out runtime_failed : BackgroundState

unfoldable pub state_text : BackgroundState → Bytes
state_text running = codes "running"
state_text exited = codes "exited"
state_text stopped = codes "stopped"
state_text timed_out = codes "timed_out"
state_text runtime_failed = codes "runtime_failed"

-- `backgroundProcess`: `none` for the empty reason and for the zero time; `done` says whether the
-- channel is closed
pub record BackgroundProcess : Type 0 where
  pub process : Process
  pub working_directory : Bytes
  pub started_at : ℕ
  pub stdout : Capture
  pub stderr : Capture
  pub done : Bool
  pub state : BackgroundState
  pub reason : Option BackgroundState
  pub finished_at : Option ℕ
  pub exit_code : Option ℤ

abbrev pub is_running : BackgroundState → Bool
is_running running = true
is_running _ = false

abbrev pub is_timed_out : BackgroundState → Bool
is_timed_out timed_out = true
is_timed_out _ = false

abbrev pub reason_given : Option BackgroundState → BackgroundState → BackgroundState
reason_given none fallback = fallback
reason_given (some reason) fallback = reason

-- `reasonOr`
abbrev pub reason_or : BackgroundProcess → BackgroundState → BackgroundState
reason_or entry fallback = reason_given entry.reason fallback

-- `setReason`: the first reason stays
abbrev pub set_reason : BackgroundState → BackgroundProcess → BackgroundProcess
set_reason reason entry = record entry { reason = some (reason_given entry.reason reason) }

abbrev pub or_code : Option ℤ → Option ℤ → Option ℤ
or_code (some code) earlier = some code
or_code none earlier = earlier

-- `finish`, at most once
unfoldable pub finish : BackgroundState → Option ℤ → ℕ → BackgroundProcess → BackgroundProcess
finish state exit_code finished_at entry = if entry.done then entry else record entry {
  done = true;
  state = state;
  finished_at = some finished_at;
  exit_code = or_code exit_code entry.exit_code;
}

-- Where `monitorBackground` is: before its checks, at its `select`, about to call `finish`, at
-- `terminateTree` because of the timer, waiting for the exit because of an earlier reason, returned
pub data Monitor : Type 0 where
  starting watching killing ended : Monitor
  finishing : BackgroundState → Option ℤ → Monitor
  draining : BackgroundState → Monitor

-- What it meets next: its timer as created, an exit (`none` for a closed channel), the end of the
-- lifetime, the return of `terminateTree` with whether it is nil, and the time at `finish`
pub data Event : Type 0 where
  begins : TimerKind → Event
  exits : Option ProcessExit → Event
  expires : Event
  killed : Bool → Event
  finishes : ℕ → Event

abbrev pub finishing_exit : BackgroundState → ProcessExit → Monitor
finishing_exit state exit =
    if is_bad_exit exit then finishing runtime_failed none else finishing state (some exit.code)

abbrev pub after_exit : BackgroundState → Option ProcessExit → Monitor
after_exit state none = finishing runtime_failed none
after_exit state (some exit) = finishing_exit state exit

abbrev pub after_timer : BackgroundState → Monitor
after_timer reason = if is_timed_out reason then killing else draining reason

abbrev pub after_start : Bool → TimerKind → Monitor
after_start true ticking = watching
after_start _ _ = finishing runtime_failed none

-- `monitorBackground`, one step; an event that it does not wait for changes nothing
unfoldable pub monitor_step : Monitor → Event → BackgroundProcess → Monitor × BackgroundProcess
monitor_step starting (begins timer) entry = (after_start entry.process.has_exit timer, entry)
monitor_step watching (exits exit) entry = (after_exit (reason_or entry exited) exit, entry)
monitor_step watching expires entry =
    (after_timer (reason_or entry timed_out), set_reason timed_out entry)
monitor_step killing (killed true) entry = (finishing timed_out none, entry)
monitor_step killing (killed false) entry = (finishing runtime_failed none, entry)
monitor_step (draining reason) (exits exit) entry = (after_exit reason exit, entry)
monitor_step (finishing state exit_code) (finishes now) entry =
    (ended, finish state exit_code now entry)
monitor_step monitor event entry = (monitor, entry)
