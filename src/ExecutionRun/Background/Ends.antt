-- ===== src/ExecutionRun/Background/Ends.antt =====
-- An entry that has ended stays as it is, and one whose process is gone ends.
use agent_workstation_gatewa.Base.{
  ℕ, zero, suc, ◌≡◌, refl, ap, sym, ◌∙◌, subst, inl, inr, ◌⊎◌, Bool, true, false, List, [], ◌∷◌,
  ◌++◌, Result, ok, err, Bool-cases, Option, none, some,
}
use agent_workstation_gatewa.ExecutionPolicy.{LaunchPlan}
use agent_workstation_gatewa.ExecutionRun.Types.{
  ProcessExit, TimerKind, missing, no_channel, ticking,
}
use agent_workstation_gatewa.ExecutionRun.Foreground.{is_bad_exit}
use agent_workstation_gatewa.ExecutionRun.Background.Entry.{
  BackgroundState, exited, BackgroundProcess, reason_or, finish, Monitor, starting, watching,
  killing, ended, finishing, draining, Event, begins, exits, killed, finishes, after_exit,
  after_start, monitor_step,
}
use agent_workstation_gatewa.ExecutionRun.Background.Table.{
  Slot, Runner, get_elem?, modify, find_key, is_entry, remove_background, insert_entry,
  prepare_background, start_background, BackgroundError, goes_on, act,
}
use agent_workstation_gatewa.ExecutionRun.Background.Steps.{
  Step, starts, acts, removes, Reaches, here, next,
}
use agent_workstation_gatewa.ExecutionRun.Background.Sound.{IsSound, SoundAt}
use agent_workstation_gatewa.ExecutionRun.Background.Kept.{
  IsKept, EndsAlike, act-EndsAlike, get_elem?-All, Step-IsKept,
}

pub get_elem?-modify_here :
    (f : Slot → Slot) (slots : List Slot) (n id : ℕ) {s : Slot}
    → get_elem? slots id ≡ some s
    → (t : Slot) × (get_elem? (modify n f slots) id ≡ some t) × ((t ≡ s) ⊎ (t ≡ f s))
unfolding get_elem? modify
get_elem?-modify_here f [] n id h = absurd (cc h)
get_elem?-modify_here f (x ∷ slots) zero zero h = (f x, refl, inr (ap f (cc h)))
get_elem?-modify_here f (x ∷ slots) zero (suc id) {s} h = (s, h, inl refl)
get_elem?-modify_here f (x ∷ slots) (suc n) zero h = (x, refl, inl (cc h))
get_elem?-modify_here f (x ∷ slots) (suc n) (suc id) h = get_elem?-modify_here f slots n id h

get_elem?-append_here :
    (slots more : List Slot) (id : ℕ) {s : Slot}
    → get_elem? slots id ≡ some s
    → get_elem? (slots ++ more) id ≡ some s
unfolding get_elem?
get_elem?-append_here [] more id h = absurd (cc h)
get_elem?-append_here (x ∷ slots) more zero h = h
get_elem?-append_here (x ∷ slots) more (suc id) h = get_elem?-append_here slots more id h

pub get_elem?-insert_entry :
    (r : Runner) (plan : LaunchPlan) (x : Result BackgroundError BackgroundProcess) (id : ℕ)
    {s : Slot}
    → get_elem? r.slots id ≡ some s
    → get_elem? (insert_entry r plan x).0.slots id ≡ some s
get_elem?-insert_entry r plan (err e) id h = h
get_elem?-insert_entry r plan (ok e) id h = get_elem?-append_here r.slots _ id h

EndsAlike-refl : (s : Slot) → s.entry.done ≡ true → EndsAlike s s
EndsAlike-refl s h = record { done = h; state = refl; finished_at = refl; exit_code = refl }

-- The slot of an entry that is done, later on.
abbrev pub StillEnds : Runner → ℕ → Slot → Type 0
StillEnds r id s = (t : Slot) × (get_elem? r.slots id ≡ some t) × EndsAlike s t

Step-StillEnds :
    {r t : Runner} (id : ℕ) (s : Slot)
    → Step r t
    → IsKept r
    → get_elem? r.slots id ≡ some s
    → s.entry.done ≡ true
    → StillEnds t id s
unfolding start_background remove_background
Step-StillEnds {r} id s (starts plan now start) k h d = (
  s,
  get_elem?-insert_entry r plan (prepare_background r plan now start) id h,
  EndsAlike-refl s d,
)
Step-StillEnds {r} id s (acts n a) k h d =
    let (t, there, which) = get_elem?-modify_here (act a) r.slots n id h in
    (
      t,
      there,
      elim which [
        | inl e ↦ subst (EndsAlike s) (sym e) (EndsAlike-refl s d)
        | inr e ↦
            subst (EndsAlike s) (sym e) (act-EndsAlike a s (get_elem?-All r.slots id s k.sound h) d)
      ],
    )
Step-StillEnds {r} id s (removes key n over) k h d =
    elim (Bool-cases (is_entry (find_key r.table key) n)) [
      | inl e ↦ rw e (s, h, EndsAlike-refl s d)
      | inr e ↦ rw e (s, h, EndsAlike-refl s d)
    ]

EndsAlike-trans : (s t u : Slot) → EndsAlike s t → EndsAlike t u → EndsAlike s u
EndsAlike-trans s t u a b = record {
  done = b.done;
  state = b.state ∙ a.state;
  finished_at = b.finished_at ∙ a.finished_at;
  exit_code = b.exit_code ∙ a.exit_code;
}

-- From a runner that keeps the invariant, an entry that is done keeps its final state, its time and
-- its exit code along every interleaving.
pub Reaches-StillEnds :
    {r t : Runner} (id : ℕ) (s : Slot)
    → Reaches r t
    → IsKept r
    → get_elem? r.slots id ≡ some s
    → s.entry.done ≡ true
    → StillEnds t id s
Reaches-StillEnds id s here k h d = (s, h, EndsAlike-refl s d)
Reaches-StillEnds id s (next step rest) k h d =
    let (t, there, alike) = Step-StillEnds id s step k h d in
    let (u, at_end, alike') = Reaches-StillEnds id t rest (Step-IsKept step k) there alike.done in
    (u, at_end, EndsAlike-trans s t u alike alike')

-- The goroutine's way to its end.
abbrev pub run_events : List Event → Slot → Slot
run_events [] s = s
run_events (event ∷ events) s = run_events events (act (goes_on event) s)

finish-done :
    (state : BackgroundState) (code : _) (now : ℕ) (e : BackgroundProcess)
    → (finish state code now e).done ≡ true
unfolding finish
finish-done state code now e = elim (Bool-cases e.done) [ inl h ↦ simp (h) | inr h ↦ rw h ]

abbrev IsFinishing : Monitor → Type 0
IsFinishing m = (state : BackgroundState) × (code : _) × (m ≡ finishing state code)

after_exit-IsFinishing :
    (state : BackgroundState) (exit : Option ProcessExit) → IsFinishing (after_exit state exit)
after_exit-IsFinishing state none = (_, _, refl)
after_exit-IsFinishing state (some exit) = elim (Bool-cases (is_bad_exit exit)) [
  | inl h ↦ rw h (_, _, refl)
  | inr h ↦ rw h (_, _, refl)
]

finishing-done :
    (m : Monitor) (now : ℕ) (e : BackgroundProcess)
    → IsFinishing m
    → (monitor_step m (finishes now) e).1.done ≡ true
unfolding monitor_step
finishing-done m now e (state, code, h) = rw h (finish-done state code now e)

-- Behind an exit, whatever the goroutine was waiting for then.
finishing_rest :
    (m : Monitor) (e : BackgroundProcess) (exit : Option ProcessExit) (gone : Bool) (now : ℕ)
    → IsFinishing m
    → (run_events
        (exits exit ∷ killed gone ∷ finishes now ∷ [])
        (record { entry = e; monitor = m })).entry.done
      ≡ true
unfolding monitor_step act
finishing_rest m e exit gone now (state, code, h) = rw h (finish-done state code now e)

killed_rest :
    (m : Monitor) (e : BackgroundProcess) (gone : Bool) (now : ℕ)
    → IsFinishing m
    → (run_events (killed gone ∷ finishes now ∷ []) (record { entry = e; monitor = m })).entry.done
      ≡ true
unfolding monitor_step act
killed_rest m e gone now (state, code, h) = rw h (finish-done state code now e)

watching_rest :
    (e : BackgroundProcess) (exit : Option ProcessExit) (gone : Bool) (now : ℕ)
    → (run_events
        (exits exit ∷ killed gone ∷ finishes now ∷ [])
        (record { entry = e; monitor = watching })).entry.done
      ≡ true
unfolding monitor_step act
watching_rest e exit gone now =
    killed_rest (after_exit (reason_or e exited) exit) e gone now
      (after_exit-IsFinishing (reason_or e exited) exit)

after_start-cases :
    (has_exit : Bool) (timer : TimerKind)
    → (after_start has_exit timer ≡ watching) ⊎ IsFinishing (after_start has_exit timer)
after_start-cases true ticking = inl refl
after_start-cases true missing = inr (_, _, refl)
after_start-cases true no_channel = inr (_, _, refl)
after_start-cases false timer = inr (_, _, refl)

settles_at :
    (m : Monitor) (e : BackgroundProcess) (timer : TimerKind) (exit : Option ProcessExit)
    (gone : Bool) (now : ℕ)
    → SoundAt m e
    → (run_events
        (begins timer ∷ exits exit ∷ killed gone ∷ finishes now ∷ [])
        (record { entry = e; monitor = m })).entry.done
      ≡ true
unfolding monitor_step act
settles_at starting e timer exit gone now h = elim (after_start-cases e.process.has_exit timer) [
  | inl w ↦ rw w (watching_rest e exit gone now)
  | inr f ↦ finishing_rest (after_start e.process.has_exit timer) e exit gone now f
]
settles_at watching e timer exit gone now h = watching_rest e exit gone now
settles_at killing e timer exit true now h = finish-done _ none now e
settles_at killing e timer exit false now h = finish-done _ none now e
settles_at ended e timer exit gone now h = h.closed
settles_at (finishing state code) e timer exit gone now h = finish-done state code now e
settles_at (draining reason) e timer exit gone now h =
    killed_rest (after_exit reason exit) e gone now (after_exit-IsFinishing reason exit)

-- Wherever the goroutine of a sound entry is: once its timer is made, its process has exited and a
-- termination it asked for has returned, the entry is done.
pub run_events-done :
    (s : Slot) (timer : TimerKind) (exit : Option ProcessExit) (gone : Bool) (now : ℕ)
    → IsSound s
    → (run_events (begins timer ∷ exits exit ∷ killed gone ∷ finishes now ∷ []) s).entry.done ≡ true
run_events-done s timer exit gone now h = settles_at s.monitor s.entry timer exit gone now h
