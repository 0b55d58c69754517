-- ===== src/ExecutionRun/Background/Kept.antt =====
-- The table of a runner: it stays bounded, and no process that runs is lost from it.
use agent_workstation_gatewa.Base.{
  ℕ, zero, suc, ◌≤◌, ◌≡◌, refl, ap, sym, ◌∙◌, subst, inl, inr, ◌⊎◌, true, false, List, [], ◌∷◌,
  Result, ok, err, >>=-eq-ok, reject->>, map_err, leb, length, All, All-append, Bool-cases, Option,
  none, some, arith,
}
use agent_workstation_gatewa.Text.{Bytes, bytes_eq, bytes_eq_iff}
use agent_workstation_gatewa.OutputCapture.{new, write_all}
use agent_workstation_gatewa.ExecutionPolicy.{LaunchPlan}
use agent_workstation_gatewa.ShellInvoke.{build}
use agent_workstation_gatewa.ExecutionRun.Types.{NativeLaunch, Started}
use agent_workstation_gatewa.ExecutionRun.Foreground.{native_launch_of}
use agent_workstation_gatewa.ExecutionRun.Background.Entry.{
  BackgroundProcess, Monitor, starting, watching, killing, ended, finishing, draining, Event,
  monitor_step,
}
use agent_workstation_gatewa.ExecutionRun.Background.Table.{
  max_background_processes, Slot, Runner, new_table, get_elem?, find_key, has_key, is_entry,
  remove_background, key_of, BackgroundError, already_exists, capacity_reached, launch_failed,
  or_fail, started_process, new_entry, prepare_background, insert_entry, start_background, Act,
  marks, writes_stdout, writes_stderr, goes_on, act, act_on, is_done_at,
}
use agent_workstation_gatewa.ExecutionRun.Background.Steps.{
  Step, starts, acts, removes, Reaches, here, next,
}
use agent_workstation_gatewa.ExecutionRun.Background.Sound.{IsIdle, IsSound, SoundAt, act-IsSound}
use agent_workstation_gatewa.ExecutionRun.Background.Lookup.{
  IsDistinct, IsHeld, find_key-delete_other, delete_key-IsDistinct, length-delete_key, modify-All,
  get_elem?-modify, get_elem?-append,
}

-- At most 32 entries with distinct keys; every entry is sound, and is done or in the table.
pub record IsKept (r : Runner) : Type 0 where
  pub distinct : IsDistinct r.table
  pub bounded : length r.table ≤ max_background_processes
  pub sound : All IsSound r.slots
  pub held :
      (id : ℕ) (s : Slot)
      → get_elem? r.slots id ≡ some s
      → (s.entry.done ≡ true) ⊎ IsHeld r.table id

pub new_table-IsKept : IsKept new_table
unfolding get_elem?
new_table-IsKept = record {
  distinct = tt;
  bounded = omega arith;
  sound = tt;
  held = λ id s h. absurd (cc h);
}

-- Entries that are done.

SoundAt-ended : (m : Monitor) (e : BackgroundProcess) → SoundAt m e → e.done ≡ true → m ≡ ended
SoundAt-ended starting e h k = absurd (cc ((h.0).unfinished, k))
SoundAt-ended watching e h k = absurd (cc ((h.0).unfinished, k))
SoundAt-ended killing e h k = absurd (cc (h.unfinished, k))
SoundAt-ended ended e h k = refl
SoundAt-ended (finishing state code) e h k = absurd (cc ((h.0).unfinished, k))
SoundAt-ended (draining reason) e h k = absurd (cc ((h.0).unfinished, k))

-- The same end: the state, the time and the exit code.
pub record EndsAlike (s t : Slot) : Type 0 where
  pub done : t.entry.done ≡ true
  pub state : t.entry.state ≡ s.entry.state
  pub finished_at : t.entry.finished_at ≡ s.entry.finished_at
  pub exit_code : t.entry.exit_code ≡ s.entry.exit_code

monitor_step-ended :
    (m : Monitor) (event : Event) (e : BackgroundProcess)
    → m ≡ ended
    → monitor_step m event e ≡ (m, e)
unfolding monitor_step
monitor_step-ended m event e h = rw h refl

-- An entry that is done keeps its end.
pub act-EndsAlike : (a : Act) (s : Slot) → IsSound s → s.entry.done ≡ true → EndsAlike s (act a s)
unfolding act
act-EndsAlike marks s h k = record { done = k; state = refl; finished_at = refl; exit_code = refl }
act-EndsAlike (writes_stdout x) s h k = record {
  done = k;
  state = refl;
  finished_at = refl;
  exit_code = refl;
}
act-EndsAlike (writes_stderr x) s h k = record {
  done = k;
  state = refl;
  finished_at = refl;
  exit_code = refl;
}
act-EndsAlike (goes_on event) s h k =
    let same = monitor_step-ended s.monitor event s.entry (SoundAt-ended s.monitor s.entry h k) in
    record {
      done = ap (λ p. (p.1).done) same ∙ k;
      state = ap (λ p. (p.1).state) same;
      finished_at = ap (λ p. (p.1).finished_at) same;
      exit_code = ap (λ p. (p.1).exit_code) same;
    }

pub get_elem?-All :
    (slots : List Slot) (id : ℕ) (s : Slot)
    → All IsSound slots
    → get_elem? slots id ≡ some s
    → IsSound s
unfolding get_elem?
get_elem?-All [] id s h k = absurd (cc k)
get_elem?-All (x ∷ slots) zero s h k = let e : x ≡ s = cc in subst IsSound e (h.0)
get_elem?-All (x ∷ slots) (suc id) s h k = get_elem?-All slots id s (h.1) k

act_on-IsKept : (id : ℕ) (a : Act) (r : Runner) → IsKept r → IsKept (act_on id a r)
act_on-IsKept id a r k = record {
  distinct = k.distinct;
  bounded = k.bounded;
  sound = modify-All (act a) id r.slots (act-IsSound a) k.sound;
  held = λ j s h.
      let (old, there, which) = get_elem?-modify (act a) id j r.slots s h in
      elim (k.held j old there) [
        | inl over ↦ inl (elim which [
          | inl e ↦ ap (λ x. x.entry.done) e ∙ over
          | inr e ↦
              ap (λ x. x.entry.done) e
              ∙ (act-EndsAlike a old (get_elem?-All r.slots j old k.sound there) over).done
        ])
        | inr table ↦ inr table
      ];
}

remove_background-IsKept :
    (key : Bytes) (id : ℕ) (r : Runner)
    → is_done_at (get_elem? r.slots id) ≡ true
    → IsKept r
    → IsKept (remove_background key id r)
unfolding remove_background
remove_background-IsKept key id r over k = elim (Bool-cases (is_entry (find_key r.table key) id)) [
  | inr e ↦ rw e k
  | inl e ↦ rw e (record {
    distinct = delete_key-IsDistinct r.table key k.distinct;
    bounded = let shorter = length-delete_key r.table key in let b = k.bounded in omega arith;
    sound = k.sound;
    held = λ j s h. elim (k.held j s h) [
      | inl d ↦ inl d
      | inr (other, there) ↦ elim (Bool-cases (bytes_eq key other)) [
        | inl same ↦ inl (
            let own : find_key r.table key ≡ some j = rw ((bytes_eq_iff key other).0 same) there in
            let own_id : j ≡ id = is_entry_lem j id (rw own at e) in
            let there' : get_elem? r.slots id ≡ some s = rw (sym own_id) h in rw there' at over)
        | inr differs ↦ inr (other, find_key-delete_other r.table key other differs ∙ there)
      ]
    ];
  })
]
  where
    is_entry_lem : (j id : ℕ) → is_entry (some j) id ≡ true → j ≡ id
    is_entry_lem j id h = ground arith

has_key_lem : (x : Option ℕ) → has_key x ≡ false → x ≡ none
has_key_lem none h = refl
has_key_lem (some id) h = absurd (cc h)

or_fail_lem :
    {A : Type 0} (e : BackgroundError) (x : Option A) {a : A} → or_fail e x ≡ ok a → x ≡ some a
or_fail_lem e none h = absurd (cc h)
or_fail_lem e (some y) h = cc

-- An entry that is about to go into the table: there is room, its key is free, and it runs.
record IsFresh (r : Runner) (plan : LaunchPlan) (e : BackgroundProcess) : Type 0 where
  free : find_key r.table (key_of plan) ≡ none
  room : leb max_background_processes (length r.table) ≡ false
  idle : IsIdle e
  unmarked : e.reason ≡ none

prepare_background-IsFresh :
    (r : Runner) (plan : LaunchPlan) (now : ℕ) (start : NativeLaunch → Started)
    {e : BackgroundProcess}
    → prepare_background r plan now start ≡ ok e
    → IsFresh r plan e
unfolding prepare_background
prepare_background-IsFresh r plan now start {e} h =
    let (a, h1) = (reject->> (has_key (find_key r.table (key_of plan))) already_exists _).0 h in
    let (b, h2) =
      (reject->> (leb max_background_processes (length r.table)) capacity_reached _).0 h1 in
    let (stdout, _, h3) =
      >>=-eq-ok (map_err BackgroundError.invalid_launch_plan (new plan.max_output_bytes)) _ h2 in
    let (stderr, _, h4) =
      >>=-eq-ok (map_err BackgroundError.invalid_launch_plan (new plan.max_output_bytes)) _ h3 in
    let (invocation, _, h5) =
      >>=-eq-ok (map_err BackgroundError.invalid_launch_plan (build plan)) _ h4 in
    let started = start (native_launch_of plan invocation) in
    let (process, _, h6) =
      >>=-eq-ok (or_fail launch_failed (started_process started.failed started.process)) _ h5 in
    let whole : BackgroundProcess =
      new_entry plan now process (write_all stdout started.stdout)
        (write_all stderr started.stderr) in
    let same : whole ≡ e = cc in
    record {
      free = has_key_lem _ a;
      room = b;
      idle =
          subst IsIdle same
            (record { unfinished = refl; up = refl; untimed = refl; uncoded = refl });
      unmarked = subst (λ x. x.reason ≡ none) same refl;
    }

found_first :
    (table : List (Bytes × ℕ)) (key : Bytes) (n id : ℕ)
    → id ≡ n
    → find_key ((key, n) ∷ table) key ≡ some id
unfolding find_key
found_first table key n id e = rw ((bytes_eq_iff key key).1 refl) (ap some (sym e))

found_behind :
    (table : List (Bytes × ℕ)) (key other : Bytes) (n : ℕ) {id : ℕ}
    → find_key table key ≡ none
    → find_key table other ≡ some id
    → find_key ((key, n) ∷ table) other ≡ some id
unfolding find_key
found_behind table key other n {id} free there = elim (Bool-cases (bytes_eq key other)) [
  | inl e ↦
      let no : find_key table other ≡ none =
        subst (λ k. find_key table k ≡ none) ((bytes_eq_iff key other).0 e) free in
      absurd (cc (no, there))
  | inr e ↦ rw e there
]

insert_entry-IsKept :
    (r : Runner) (plan : LaunchPlan) (x : Result BackgroundError BackgroundProcess)
    → ((e : BackgroundProcess) → x ≡ ok e → IsFresh r plan e)
    → IsKept r
    → IsKept (insert_entry r plan x).0
insert_entry-IsKept r plan (err e) fresh k = k
insert_entry-IsKept r plan (ok e) fresh k =
    let f = fresh e refl in
    record {
      distinct = (f.free, k.distinct);
      bounded = let room = f.room in ground arith;
      sound = All-append IsSound r.slots _ k.sound ((f.idle, inl f.unmarked), tt);
      held = λ id s h. elim (get_elem?-append r.slots _ id s h) [
        | inr last ↦ inr (key_of plan, found_first r.table (key_of plan) (length r.slots) id last)
        | inl there ↦ elim (k.held id s there) [
          | inl d ↦ inl d
          | inr (key, at_key) ↦
              inr (key, found_behind r.table (key_of plan) key (length r.slots) f.free at_key)
        ]
      ];
    }

pub Step-IsKept : {r s : Runner} → Step r s → IsKept r → IsKept s
unfolding start_background
Step-IsKept {r} (starts plan now start) k =
    insert_entry-IsKept r plan (prepare_background r plan now start)
      (λ e h. prepare_background-IsFresh r plan now start h) k
Step-IsKept {r} (acts id a) k = act_on-IsKept id a r k
Step-IsKept {r} (removes key id over) k = remove_background-IsKept key id r over k

-- Along every interleaving of starts, acts of processes, goroutines and stops, and removals, from a
-- runner that keeps the invariant: at most 32 entries are in the table, under distinct keys, what
-- each entry says agrees with its goroutine, and an entry that is not in the table is done.
pub Reaches-IsKept : {r s : Runner} → Reaches r s → IsKept r → IsKept s
Reaches-IsKept here k = k
Reaches-IsKept (next step rest) k = Reaches-IsKept rest (Step-IsKept step k)
