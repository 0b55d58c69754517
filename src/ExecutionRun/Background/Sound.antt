-- ===== src/ExecutionRun/Background/Sound.antt =====
-- What an entry says agrees with where its goroutine is, whatever happens to it.
use agent_workstation_gatewa.Base.{
  ℕ, ◌≡◌, refl, ◌∙◌, inl, inr, ◌⊎◌, Bool, true, false, ◌||◌, ℤ, Bool-cases, Option, none, some,
  arith,
}
use agent_workstation_gatewa.Protocol.Request.{is_outside}
use agent_workstation_gatewa.ExecutionRun.Types.{
  ProcessExit, TimerKind, missing, no_channel, ticking,
}
use agent_workstation_gatewa.ExecutionRun.Foreground.{is_bad_exit}
use agent_workstation_gatewa.ExecutionRun.Background.Entry.{
  BackgroundState, running, exited, stopped, timed_out, runtime_failed, BackgroundProcess,
  reason_given, reason_or, set_reason, finish, Monitor, starting, watching, killing, ended,
  finishing, draining, Event, begins, exits, expires, killed, finishes, finishing_exit, after_exit,
  after_timer, after_start, monitor_step,
}
use agent_workstation_gatewa.ExecutionRun.Background.Table.{
  Slot, Act, marks, writes_stdout, writes_stderr, goes_on, act,
}

-- A final state with its exit code: a code of 32 bits after an exit, none after a kill or a failure.
abbrev pub Agrees : BackgroundState → Option ℤ → Type 0
Agrees running code = ⊥
Agrees exited none = ⊥
Agrees exited (some code) = is_outside 0 4294967295 code ≡ false
Agrees stopped none = ⊥
Agrees stopped (some code) = is_outside 0 4294967295 code ≡ false
Agrees timed_out code = code ≡ none
Agrees runtime_failed code = code ≡ none

-- An entry that runs.
pub record IsIdle (e : BackgroundProcess) : Type 0 where
  pub unfinished : e.done ≡ false
  pub up : e.state ≡ running
  pub untimed : e.finished_at ≡ none
  pub uncoded : e.exit_code ≡ none

-- An entry that has ended.
pub record IsOver (e : BackgroundProcess) : Type 0 where
  pub closed : e.done ≡ true
  pub agrees : Agrees e.state e.exit_code
  pub end : ℕ
  pub timed : e.finished_at ≡ some end

-- Nothing but a stop gives a reason before the timer does.
abbrev pub Unmarked : Option BackgroundState → Type 0
Unmarked reason = (reason ≡ none) ⊎ (reason ≡ some stopped)

abbrev pub SoundAt : Monitor → BackgroundProcess → Type 0
SoundAt starting e = IsIdle e × Unmarked e.reason
SoundAt watching e = IsIdle e × Unmarked e.reason
SoundAt killing e = IsIdle e
SoundAt (finishing state code) e = IsIdle e × Agrees state code
SoundAt (draining reason) e = IsIdle e × (reason ≡ stopped)
SoundAt ended e = IsOver e

abbrev pub IsSound : Slot → Type 0
IsSound s = SoundAt s.monitor s.entry

bad_lem : (a b : Bool) → (a || b) ≡ false → b ≡ false
bad_lem a b h = ground arith

finishing_exit-SoundAt :
    (state : BackgroundState) (exit : ProcessExit) (e : BackgroundProcess)
    → IsIdle e
    → (state ≡ exited) ⊎ (state ≡ stopped)
    → SoundAt (finishing_exit state exit) e
unfolding is_bad_exit
finishing_exit-SoundAt state exit e idle which =
    elim (Bool-cases (exit.runtime_error || is_outside 0 4294967295 exit.code)) [
      | inl bad ↦ rw bad (idle, refl)
      | inr good ↦ rw good (
        idle,
        elim which [
          | inl x ↦ rw x (bad_lem exit.runtime_error _ good)
          | inr x ↦ rw x (bad_lem exit.runtime_error _ good)
        ],
      )
    ]

after_exit-SoundAt :
    (state : BackgroundState) (exit : Option ProcessExit) (e : BackgroundProcess)
    → IsIdle e
    → (state ≡ exited) ⊎ (state ≡ stopped)
    → SoundAt (after_exit state exit) e
after_exit-SoundAt state none e idle which = (idle, refl)
after_exit-SoundAt state (some exit) e idle which = finishing_exit-SoundAt state exit e idle which

after_start-SoundAt :
    (has_exit : Bool) (timer : TimerKind) (e : BackgroundProcess)
    → IsIdle e
    → Unmarked e.reason
    → SoundAt (after_start has_exit timer) e
after_start-SoundAt true ticking e idle reason = (idle, reason)
after_start-SoundAt true missing e idle reason = (idle, refl)
after_start-SoundAt true no_channel e idle reason = (idle, refl)
after_start-SoundAt false timer e idle reason = (idle, refl)

set_reason-IsIdle :
    (reason : BackgroundState) (e : BackgroundProcess) → IsIdle e → IsIdle (set_reason reason e)
set_reason-IsIdle reason e idle = record {
  unfinished = idle.unfinished;
  up = idle.up;
  untimed = idle.untimed;
  uncoded = idle.uncoded;
}

exit_reason :
    (reason : Option BackgroundState)
    → Unmarked reason
    → (reason_given reason exited ≡ exited) ⊎ (reason_given reason exited ≡ stopped)
exit_reason reason (inl x) = inl (rw x)
exit_reason reason (inr x) = inr (rw x)

after_timer-SoundAt :
    (reason : Option BackgroundState) (e : BackgroundProcess)
    → IsIdle e
    → Unmarked reason
    → SoundAt (after_timer (reason_given reason timed_out)) e
after_timer-SoundAt reason e idle (inl x) = rw x idle
after_timer-SoundAt reason e idle (inr x) = rw x (idle, refl)

finish-IsOver :
    (state : BackgroundState) (code : Option ℤ) (now : ℕ) (e : BackgroundProcess)
    → IsIdle e
    → Agrees state code
    → IsOver (finish state code now e)
unfolding finish
finish-IsOver state none now e idle agrees =
    rw idle.unfinished
      (record { closed = refl; agrees = rw idle.uncoded agrees; end = now; timed = refl })
finish-IsOver state (some code) now e idle agrees =
    rw idle.unfinished (record { closed = refl; agrees = agrees; end = now; timed = refl })

-- A step of the goroutine.
pub monitor_step-SoundAt :
    (m : Monitor) (event : Event) (e : BackgroundProcess)
    → SoundAt m e
    → SoundAt (monitor_step m event e).0 (monitor_step m event e).1
unfolding monitor_step
monitor_step-SoundAt starting (begins timer) e (idle, reason) =
    after_start-SoundAt e.process.has_exit timer e idle reason
monitor_step-SoundAt starting (exits exit) e h = h
monitor_step-SoundAt starting expires e h = h
monitor_step-SoundAt starting (killed gone) e h = h
monitor_step-SoundAt starting (finishes now) e h = h
monitor_step-SoundAt watching (begins timer) e h = h
monitor_step-SoundAt watching (exits exit) e (idle, reason) =
    after_exit-SoundAt (reason_or e exited) exit e idle (exit_reason e.reason reason)
monitor_step-SoundAt watching expires e (idle, reason) =
    after_timer-SoundAt e.reason (set_reason timed_out e) (set_reason-IsIdle timed_out e idle)
      reason
monitor_step-SoundAt watching (killed gone) e h = h
monitor_step-SoundAt watching (finishes now) e h = h
monitor_step-SoundAt killing (begins timer) e h = h
monitor_step-SoundAt killing (exits exit) e h = h
monitor_step-SoundAt killing expires e h = h
monitor_step-SoundAt killing (killed true) e idle = (idle, refl)
monitor_step-SoundAt killing (killed false) e idle = (idle, refl)
monitor_step-SoundAt killing (finishes now) e h = h
monitor_step-SoundAt (draining reason) (begins timer) e h = h
monitor_step-SoundAt (draining reason) (exits exit) e (idle, same) =
    after_exit-SoundAt reason exit e idle (inr same)
monitor_step-SoundAt (draining reason) expires e h = h
monitor_step-SoundAt (draining reason) (killed gone) e h = h
monitor_step-SoundAt (draining reason) (finishes now) e h = h
monitor_step-SoundAt (finishing state code) (begins timer) e h = h
monitor_step-SoundAt (finishing state code) (exits exit) e h = h
monitor_step-SoundAt (finishing state code) expires e h = h
monitor_step-SoundAt (finishing state code) (killed gone) e h = h
monitor_step-SoundAt (finishing state code) (finishes now) e (idle, agrees) =
    finish-IsOver state code now e idle agrees
monitor_step-SoundAt ended event e h = h

-- Nothing but the streams and the reason differ.
record Alike (e f : BackgroundProcess) : Type 0 where
  done : f.done ≡ e.done
  state : f.state ≡ e.state
  finished : f.finished_at ≡ e.finished_at
  code : f.exit_code ≡ e.exit_code
  reason : Unmarked e.reason → Unmarked f.reason

IsIdle-Alike : (e f : BackgroundProcess) → Alike e f → IsIdle e → IsIdle f
IsIdle-Alike e f same idle = record {
  unfinished = same.done ∙ idle.unfinished;
  up = same.state ∙ idle.up;
  untimed = same.finished ∙ idle.untimed;
  uncoded = same.code ∙ idle.uncoded;
}

SoundAt-Alike : (m : Monitor) (e f : BackgroundProcess) → Alike e f → SoundAt m e → SoundAt m f
SoundAt-Alike starting e f same h = (IsIdle-Alike e f same (h.0), same.reason (h.1))
SoundAt-Alike watching e f same h = (IsIdle-Alike e f same (h.0), same.reason (h.1))
SoundAt-Alike killing e f same h = IsIdle-Alike e f same h
SoundAt-Alike ended e f same h = record {
  closed = same.done ∙ h.closed;
  agrees = rw (same.state, same.code) h.agrees;
  end = h.end;
  timed = same.finished ∙ h.timed;
}
SoundAt-Alike (finishing state code) e f same h = (IsIdle-Alike e f same (h.0), h.1)
SoundAt-Alike (draining reason) e f same h = (IsIdle-Alike e f same (h.0), h.1)

streams_lem :
    (e f : BackgroundProcess)
    → f.done ≡ e.done
    → f.state ≡ e.state
    → f.finished_at ≡ e.finished_at
    → f.exit_code ≡ e.exit_code
    → f.reason ≡ e.reason
    → Alike e f
streams_lem e f done state finished code reason = record {
  done = done;
  state = state;
  finished = finished;
  code = code;
  reason = λ r. rw reason r;
}

marked_lem :
    (reason : Option BackgroundState)
    → Unmarked reason
    → Unmarked (some (reason_given reason stopped))
marked_lem reason (inl x) = inr (rw x refl)
marked_lem reason (inr x) = inr (rw x refl)

-- Whatever happens to a sound entry, it stays sound.
pub act-IsSound : (a : Act) (s : Slot) → IsSound s → IsSound (act a s)
unfolding act
act-IsSound marks s h =
    SoundAt-Alike s.monitor s.entry _
      (record {
        done = refl;
        state = refl;
        finished = refl;
        code = refl;
        reason = marked_lem s.entry.reason;
      })
      h
act-IsSound (writes_stdout x) s h =
    SoundAt-Alike s.monitor s.entry _ (streams_lem s.entry _ refl refl refl refl refl) h
act-IsSound (writes_stderr x) s h =
    SoundAt-Alike s.monitor s.entry _ (streams_lem s.entry _ refl refl refl refl refl) h
act-IsSound (goes_on event) s h = monitor_step-SoundAt s.monitor event s.entry h
