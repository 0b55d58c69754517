-- ===== src/ExecutionRun/Background/Table.antt =====
-- internal/executionrun/background.go: the table of a runner. A pointer to an entry is its index among
-- all entries that were ever made; the table holds some of them by key.
use agent_workstation_gatewa.Base.{
  ℕ, zero, suc, Bool, true, false, ◌&&◌, List, [], ◌∷◌, ◌++◌, Result, ok, err, ◌>>=◌, ◌>>◌, map_err,
  reject, leb, ◌==◌, if◌then◌else◌, length, Option, none, some,
}
use agent_workstation_gatewa.Text.{Bytes, bytes_eq}
use agent_workstation_gatewa.OutputCapture.{Capture, new, write, write_all}
use agent_workstation_gatewa.ExecutionPolicy.{LaunchPlan}
use agent_workstation_gatewa.ShellInvoke.{build}
use agent_workstation_gatewa.ExecutionRun.Types.{NativeLaunch, Process, Started}
use agent_workstation_gatewa.ExecutionRun.Foreground.{native_launch_of}
use agent_workstation_gatewa.ExecutionRun.Background.Entry.{
  running, stopped, BackgroundProcess, is_running, set_reason, Monitor, starting, Event,
  monitor_step,
}

abbrev pub max_background_processes : ℕ
max_background_processes = 32

-- An entry with the goroutine that watches it
pub record Slot : Type 0 where
  pub entry : BackgroundProcess
  pub monitor : Monitor

pub record Runner : Type 0 where
  pub slots : List Slot
  pub table : List (Bytes × ℕ)

abbrev pub new_table : Runner
new_table = record { slots = []; table = [] }

unfoldable pub get_elem? : List Slot → ℕ → Option Slot
get_elem? [] n = none
get_elem? (s ∷ slots) zero = some s
get_elem? (s ∷ slots) (suc n) = get_elem? slots n

unfoldable pub modify : ℕ → (Slot → Slot) → List Slot → List Slot
modify n f [] = []
modify zero f (s ∷ slots) = f s ∷ slots
modify (suc n) f (s ∷ slots) = s ∷ modify n f slots

-- `backgroundKey`
abbrev pub background_key : Bytes → Bytes → Bytes
background_key session_id process_id = session_id ++ (0 ∷ process_id)

unfoldable pub find_key : List (Bytes × ℕ) → Bytes → Option ℕ
find_key [] key = none
find_key (cell ∷ table) key = if bytes_eq (cell.0) key then some (cell.1) else find_key table key

unfoldable pub delete_key : List (Bytes × ℕ) → Bytes → List (Bytes × ℕ)
delete_key [] key = []
delete_key (cell ∷ table) key =
    let rest = delete_key table key in if bytes_eq (cell.0) key then rest else cell ∷ rest

abbrev pub has_key : Option ℕ → Bool
has_key none = false
has_key (some id) = true

abbrev pub is_entry : Option ℕ → ℕ → Bool
is_entry none id = false
is_entry (some other) id = other == id

-- `removeBackground`
unfoldable pub remove_background : Bytes → ℕ → Runner → Runner
remove_background key expected runner =
    if is_entry (find_key runner.table key) expected
    then record runner { table = delete_key runner.table key }
    else runner

pub data BackgroundError : Type 0 where
  already_exists capacity_reached invalid_launch_plan launch_failed not_found termination_failed
        context_done :
      BackgroundError

abbrev pub key_of : LaunchPlan → Bytes
key_of plan = background_key plan.session_id plan.process_id

-- The entry that `startBackground` makes once the process is there, with what it writes at first
abbrev pub new_entry : LaunchPlan → ℕ → Process → Capture → Capture → BackgroundProcess
new_entry plan now process stdout stderr = record {
  process = process;
  working_directory = plan.working_directory;
  started_at = now;
  stdout = stdout;
  stderr = stderr;
  done = false;
  state = running;
  reason = none;
  finished_at = none;
  exit_code = none;
}

abbrev pub started_process : Bool → Option Process → Option Process
started_process true process = none
started_process false process = process

abbrev pub or_fail : {A : Type 0} → BackgroundError → Option A → Result BackgroundError A
or_fail e none = err e
or_fail e (some x) = ok x

-- `startBackground` up to the entry, which is then put into the table
unfoldable pub prepare_background :
    Runner → LaunchPlan → ℕ → (NativeLaunch → Started) → Result BackgroundError BackgroundProcess
prepare_background runner plan now start = do
  reject (has_key (find_key runner.table (key_of plan))) already_exists
  reject (leb max_background_processes (length runner.table)) capacity_reached
  stdout ← map_err invalid_launch_plan (new plan.max_output_bytes)
  stderr ← map_err invalid_launch_plan (new plan.max_output_bytes)
  invocation ← map_err invalid_launch_plan (build plan)
  let started = start (native_launch_of plan invocation)
  process ← or_fail launch_failed (started_process started.failed started.process)
  ok (
      new_entry plan now process (write_all stdout started.stdout)
        (write_all stderr started.stderr))

abbrev pub insert_entry :
    Runner
    → LaunchPlan
    → Result BackgroundError BackgroundProcess
    → Runner × Result BackgroundError ℕ
insert_entry runner plan (err e) = (runner, err e)
insert_entry runner plan (ok entry) = (
  record {
    slots = runner.slots ++ (record { entry = entry; monitor = starting } ∷ []);
    table = (key_of plan, length runner.slots) ∷ runner.table;
  },
  ok (length runner.slots),
)

-- `startBackground`
unfoldable pub start_background :
    Runner → LaunchPlan → ℕ → (NativeLaunch → Started) → Runner × Result BackgroundError ℕ
start_background runner plan now start =
    insert_entry runner plan (prepare_background runner plan now start)

abbrev pub is_at : Option Slot → Bytes → Bool
is_at none working_directory = false
is_at (some s) working_directory = bytes_eq s.entry.working_directory working_directory

abbrev pub found : Runner → LaunchPlan → Option ℕ → Result BackgroundError ℕ
found runner plan none = err not_found
found runner plan (some id) =
    if is_at (get_elem? runner.slots id) plan.working_directory then ok id else err not_found

-- `findBackground`
unfoldable pub find_background : Runner → LaunchPlan → Result BackgroundError ℕ
find_background runner plan = found runner plan (find_key runner.table (key_of plan))

-- What can happen to one entry: a reason is set, its process writes, its goroutine goes on
pub data Act : Type 0 where
  marks : Act
  writes_stdout writes_stderr : Bytes → Act
  goes_on : Event → Act

unfoldable pub act : Act → Slot → Slot
act marks s = record s { entry = set_reason stopped s.entry }
act (writes_stdout x) s = record s {
  entry = record s.entry { stdout = (write s.entry.stdout x).0 };
}
act (writes_stderr x) s = record s {
  entry = record s.entry { stderr = (write s.entry.stderr x).0 };
}
act (goes_on event) s =
    let (monitor, entry) = monitor_step s.monitor event s.entry in
    record { entry = entry; monitor = monitor }

abbrev pub act_on : ℕ → Act → Runner → Runner
act_on id a runner = record runner { slots = modify id (act a) runner.slots }

-- What happens while an operation waits
unfoldable pub act_all : List (ℕ × Act) → Runner → Runner
act_all [] runner = runner
act_all (step ∷ steps) runner = act_all steps (act_on (step.0) (step.1) runner)

abbrev pub is_running_at : Option Slot → Bool
is_running_at none = false
is_running_at (some s) = is_running s.entry.state

abbrev pub is_done_at : Option Slot → Bool
is_done_at none = false
is_done_at (some s) = s.entry.done

-- What `TerminateTree` returns: an error, or nil with whether the `select` behind it takes the channel
-- `done` if that is closed; it may take the end of the context then
pub data TreeEnd : Type 0 where
  survives : TreeEnd
  terminated_by : Bool → TreeEnd

-- The wait for `done` or for the end of the context, and the removal
abbrev pub awaited : Bool → Runner → LaunchPlan → ℕ → Runner × Result BackgroundError ℕ
awaited takes_done runner plan id =
    if takes_done && is_done_at (get_elem? runner.slots id)
    then (remove_background (key_of plan) id runner, ok id)
    else (runner, err context_done)

-- `terminateTree`, and what follows it
abbrev pub terminated :
    TreeEnd → List (ℕ × Act) → LaunchPlan → ℕ → Runner → Runner × Result BackgroundError ℕ
terminated survives meanwhile plan id runner = (runner, err termination_failed)
terminated (terminated_by takes_done) meanwhile plan id runner =
    awaited takes_done (act_all meanwhile runner) plan id

abbrev pub stop_found :
    Runner
    → LaunchPlan
    → TreeEnd
    → List (ℕ × Act)
    → Result BackgroundError ℕ
    → Runner × Result BackgroundError ℕ
stop_found runner plan terminates meanwhile (err e) = (runner, err e)
stop_found runner plan terminates meanwhile (ok id) =
    if is_running_at (get_elem? runner.slots id)
    then terminated terminates meanwhile plan id (act_on id marks runner)
    else (remove_background (key_of plan) id runner, ok id)

-- `stopBackground`
unfoldable pub stop_background :
    Runner → LaunchPlan → TreeEnd → List (ℕ × Act) → Runner × Result BackgroundError ℕ
stop_background runner plan terminates meanwhile =
    stop_found runner plan terminates meanwhile (find_background runner plan)

-- `Close` behind `TerminateTree`
abbrev pub close_awaited : TreeEnd → List (ℕ × Act) → ℕ → Runner → Runner × Bool
close_awaited survives meanwhile id runner = (runner, false)
close_awaited (terminated_by takes_done) meanwhile id runner = (
  act_all meanwhile runner,
  takes_done && is_done_at (get_elem? (act_all meanwhile runner).slots id),
)

-- What `Close` does to one entry: the answer of `TerminateTree`, and what happens while it waits
abbrev pub close_one : ℕ → TreeEnd → List (ℕ × Act) → Runner → Runner × Bool
close_one id terminates meanwhile runner =
    if is_running_at (get_elem? runner.slots id)
    then close_awaited terminates meanwhile id (act_on id marks runner)
    else (runner, true)

-- The loop of `Close` over the entries that were in the table, with whether the error is nil
unfoldable pub close_all :
    (ℕ → TreeEnd) → (ℕ → List (ℕ × Act)) → List (Bytes × ℕ) → Runner → Runner × Bool
close_all terminates meanwhile [] runner = (runner, true)
close_all terminates meanwhile (cell ∷ cells) runner =
    let (next, fine) = close_one (cell.1) (terminates (cell.1)) (meanwhile (cell.1)) runner in
    let (last, rest_fine) = close_all terminates meanwhile cells next in (last, fine && rest_fine)

-- `Close`
abbrev pub close : (ℕ → TreeEnd) → (ℕ → List (ℕ × Act)) → Runner → Runner × Bool
close terminates meanwhile runner = close_all terminates meanwhile runner.table runner
