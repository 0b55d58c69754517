-- ===== src/ExecutionRun/Background/Operations.antt =====
-- The requests as sequences of steps, and what a stop has done when it succeeds.
use agent_workstation_gatewa.Base.{
  ℕ, ◌≡◌, ◌≢◌, refl, ap, sym, ◌∙◌, subst, inl, inr, Bool, true, false, List, [], ◌∷◌, Result, ok,
  err, Bool-cases, Option, none, some, Option-cases, arith,
}
use agent_workstation_gatewa.Text.{Bytes, bytes_eq, bytes_eq_iff}
use agent_workstation_gatewa.ExecutionPolicy.{LaunchPlan}
use agent_workstation_gatewa.ExecutionRun.Background.Entry.{
  BackgroundState, running, BackgroundProcess, is_running, Monitor, starting, watching, killing,
  ended, finishing, draining,
}
use agent_workstation_gatewa.ExecutionRun.Background.Table.{
  TreeEnd, survives, terminated_by, close_awaited, Slot, Runner, get_elem?, find_key, delete_key,
  is_entry, remove_background, BackgroundError, key_of, found, find_background, Act, marks, act_on,
  act_all, is_running_at, is_done_at, awaited, terminated, stop_found, stop_background, close_one,
  close_all,
}
use agent_workstation_gatewa.ExecutionRun.Background.Steps.{
  acts, removes, Reaches, here, next, Reaches-trans, act_all-Reaches,
}
use agent_workstation_gatewa.ExecutionRun.Background.Sound.{SoundAt}
use agent_workstation_gatewa.ExecutionRun.Background.Kept.{IsKept, get_elem?-All}

-- A sound entry whose state is not running is done.
idle_lem : (state : BackgroundState) → state ≡ running → is_running state ≡ false → ⊥
idle_lem state h k = let no : true ≡ false = rw h at k in cc no

SoundAt-done :
    (m : Monitor) (e : BackgroundProcess) → SoundAt m e → is_running e.state ≡ false → e.done ≡ true
SoundAt-done starting e h k = absurd (idle_lem e.state (h.0).up k)
SoundAt-done watching e h k = absurd (idle_lem e.state (h.0).up k)
SoundAt-done killing e h k = absurd (idle_lem e.state h.up k)
SoundAt-done ended e h k = h.closed
SoundAt-done (finishing state code) e h k = absurd (idle_lem e.state (h.0).up k)
SoundAt-done (draining reason) e h k = absurd (idle_lem e.state (h.0).up k)

pub not_running-done :
    (r : Runner) (id : ℕ) (s : Slot)
    → IsKept r
    → get_elem? r.slots id ≡ some s
    → is_running_at (get_elem? r.slots id) ≡ false
    → is_done_at (get_elem? r.slots id) ≡ true
not_running-done r id s k h e =
    let there : is_running s.entry.state ≡ false = rw h at e in
    rw h (SoundAt-done s.monitor s.entry (get_elem?-All r.slots id s k.sound h) there)

found_slot :
    (r : Runner) (plan : LaunchPlan) (at_key : Option ℕ) {id : ℕ}
    → found r plan at_key ≡ ok id
    → (s : Slot) × (get_elem? r.slots id ≡ some s)
      × (s.entry.working_directory ≡ plan.working_directory)
found_slot r plan none h = absurd (cc h)
found_slot r plan (some n) {id} h = elim (Option-cases (get_elem? r.slots n)) [
  | inl e ↦ let no : err _ ≡ ok id = rw e at h in absurd (cc no)
  | inr (s, e) ↦ elim (Bool-cases (bytes_eq s.entry.working_directory plan.working_directory)) [
    | inl same ↦
        let ids : ok n ≡ ok id = rw (e, same) at h in
        let own : n ≡ id = cc in
        (s, ap (get_elem? r.slots) (sym own) ∙ e, (bytes_eq_iff _ _).0 same)
    | inr differs ↦ let no : err _ ≡ ok id = rw (e, differs) at h in absurd (cc no)
  ]
]

find_key-delete_key :
    (table : List (Bytes × ℕ)) (key : Bytes) → find_key (delete_key table key) key ≡ none
unfolding find_key delete_key
find_key-delete_key [] key = refl
find_key-delete_key (cell ∷ table) key = elim (Bool-cases (bytes_eq (cell.0) key)) [
  | inl e ↦ rw e (find_key-delete_key table key)
  | inr e ↦ rw (e, e) (find_key-delete_key table key)
]

is_entry-own : (x : Option ℕ) (id : ℕ) → is_entry x id ≡ false → x ≢ some id
is_entry-own none id h e = cc
is_entry-own (some n) id h e = let same : n ≡ id = cc in absurd (ground arith)

-- The entry is done and its key no longer leads to it.
abbrev pub IsGone : Runner → Bytes → ℕ → Type 0
IsGone r key id = (is_done_at (get_elem? r.slots id) ≡ true) × (find_key r.table key ≢ some id)

remove_background-IsGone :
    (r : Runner) (key : Bytes) (id : ℕ)
    → is_done_at (get_elem? r.slots id) ≡ true
    → IsGone (remove_background key id r) key id
unfolding remove_background
remove_background-IsGone r key id h = elim (Bool-cases (is_entry (find_key r.table key) id)) [
  | inl e ↦ rw e (h, λ there. absurd (cc (sym (find_key-delete_key r.table key) ∙ there)))
  | inr e ↦ rw e (h, is_entry-own (find_key r.table key) id e)
]

-- A runner later on, and what the operation says of it.
abbrev After : Runner → Bytes → Runner × Result BackgroundError ℕ → Type 0
After r key x = Reaches r (x.0) × ((id : ℕ) → x.1 ≡ ok id → IsGone (x.0) key id)

awaited-After :
    (takes_done : Bool) (r : Runner) (plan : LaunchPlan) (id : ℕ)
    → After r (key_of plan) (awaited takes_done r plan id)
awaited-After false r plan id = (here, λ n h. absurd (cc h))
awaited-After true r plan id = elim (Bool-cases (is_done_at (get_elem? r.slots id))) [
  | inl e ↦ rw e (
    next (removes (key_of plan) id e) here,
    λ n h.
        let same : id ≡ n = cc in
        subst (IsGone (remove_background (key_of plan) id r) (key_of plan)) same
          (remove_background-IsGone r (key_of plan) id e),
  )
  | inr e ↦ rw e (here, λ n h. absurd (cc h))
]

terminated-After :
    (terminates : TreeEnd) (meanwhile : List (ℕ × Act)) (plan : LaunchPlan) (id : ℕ) (r : Runner)
    → After r (key_of plan) (terminated terminates meanwhile plan id r)
terminated-After survives meanwhile plan id r = (here, λ n h. absurd (cc h))
terminated-After (terminated_by takes_done) meanwhile plan id r =
    let (later, gone) = awaited-After takes_done (act_all meanwhile r) plan id in
    (Reaches-trans (act_all-Reaches meanwhile r) later, gone)

stop_found-After :
    (r : Runner) (plan : LaunchPlan) (terminates : TreeEnd) (meanwhile : List (ℕ × Act))
    (x : Result BackgroundError ℕ)
    → IsKept r
    → ((id : ℕ) → x ≡ ok id → (s : Slot) × (get_elem? r.slots id ≡ some s))
    → After r (key_of plan) (stop_found r plan terminates meanwhile x)
stop_found-After r plan terminates meanwhile (err e) k slot_of = (here, λ n h. absurd (cc h))
stop_found-After r plan terminates meanwhile (ok id) k slot_of =
    let (s, there) = slot_of id refl in
    elim (Bool-cases (is_running_at (get_elem? r.slots id))) [
      | inl e ↦
          let (later, gone) = terminated-After terminates meanwhile plan id (act_on id marks r) in
          rw e (next (acts id marks) later, gone)
      | inr e ↦
          let over = not_running-done r id s k there e in
          rw e (
            next (removes (key_of plan) id over) here,
            λ n h.
                let same : id ≡ n = cc in
                subst (IsGone (remove_background (key_of plan) id r) (key_of plan)) same
                  (remove_background-IsGone r (key_of plan) id over),
          )
    ]

-- On a runner that keeps the invariant, a stop, whatever the entries do while it waits, is a sequence of
-- steps, and when it succeeds its entry is done and its key no longer leads to it.
pub stop_background-After :
    (r : Runner) (plan : LaunchPlan) (terminates : TreeEnd) (meanwhile : List (ℕ × Act))
    → IsKept r
    → Reaches r (stop_background r plan terminates meanwhile).0
      × ((id : ℕ)
          → (stop_background r plan terminates meanwhile).1 ≡ ok id
          → IsGone (stop_background r plan terminates meanwhile).0 (key_of plan) id)
unfolding stop_background find_background
stop_background-After r plan terminates meanwhile k =
    stop_found-After r plan terminates meanwhile (find_background r plan) k (λ id h.
      let (s, there, _) = found_slot r plan (find_key r.table (key_of plan)) h in (s, there))

pub close_one-Reaches :
    (id : ℕ) (terminates : TreeEnd) (meanwhile : List (ℕ × Act)) (r : Runner)
    → Reaches r (close_one id terminates meanwhile r).0
close_one-Reaches id terminates meanwhile r =
    elim (Bool-cases (is_running_at (get_elem? r.slots id))) [
      | inl e ↦ rw e (next (acts id marks) (awaited_lem terminates))
      | inr e ↦ rw e here
    ]
  where
    awaited_lem :
        (tree : TreeEnd)
        → Reaches (act_on id marks r) (close_awaited tree meanwhile id (act_on id marks r)).0
    awaited_lem survives = here
    awaited_lem (terminated_by takes_done) = act_all-Reaches meanwhile (act_on id marks r)

pub close_all-Reaches :
    (terminates : ℕ → TreeEnd) (meanwhile : ℕ → List (ℕ × Act)) (cells : List (Bytes × ℕ))
    (r : Runner)
    → Reaches r (close_all terminates meanwhile cells r).0
unfolding close_all
close_all-Reaches terminates meanwhile [] r = here
close_all-Reaches terminates meanwhile (cell ∷ cells) r =
    Reaches-trans (close_one-Reaches (cell.1) (terminates (cell.1)) (meanwhile (cell.1)) r) (
      close_all-Reaches terminates meanwhile cells
        (close_one (cell.1) (terminates (cell.1)) (meanwhile (cell.1)) r).0)
