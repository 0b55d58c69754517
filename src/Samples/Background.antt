-- ===== src/Samples/Background.antt =====
-- A background process that is started, exits and is removed.
use agent_workstation_gatewa.Base.{
  ℕ, ◌^◌, ◌<◌, ◌≡◌, refl, true, false, pos, List, [], ◌∷◌, ok, Option, none, some, length, arith,
}
use agent_workstation_gatewa.Text.{Bytes, codes, bytes_eq, utf8_valid}
use agent_workstation_gatewa.OutputCapture.{Capture, new, write, write_all, snapshot}
use agent_workstation_gatewa.Library.{digest_hex, hex}
use agent_workstation_gatewa.PlatformPath.{has_control_character}
use agent_workstation_gatewa.Protocol.Types.{RequestOperation}
use agent_workstation_gatewa.Protocol.Fields.{
  all_bytes, matches_identifier, is_bad_name, validate_identifier, validate_lower_hex,
}
use agent_workstation_gatewa.Protocol.Report.{
  validate_command_outcome, validate_output_metadata, is_supported_status, validate_status_shape,
  validate_files, validate_omissions, validate_artifact_manifest, validate_timestamp,
  validate_execution_report,
}
use agent_workstation_gatewa.ExecutionRun.Artifacts.{failed_artifact_manifest}
use agent_workstation_gatewa.ExecutionPolicy.{LaunchPlan}
use agent_workstation_gatewa.ShellInvoke.{build, invocation_of, shell_arguments}
use agent_workstation_gatewa.ExecutionRun.Types.{Output, ticking}
use agent_workstation_gatewa.ExecutionRun.Foreground.{is_bad_exit, assemble_report}
use agent_workstation_gatewa.ExecutionRun.Background.Entry.{
  BackgroundProcess, running, exited, ended, starting, begins, exits, killed, finishes, finish,
  monitor_step,
}
use agent_workstation_gatewa.ExecutionRun.Background.Table.{
  terminated_by, Slot, Runner, new_table, get_elem?, modify, find_key, key_of, prepare_background,
  start_background, remove_background, Act, goes_on, act, act_all, is_done_at, stop_background,
}
use agent_workstation_gatewa.ExecutionRun.Background.Steps.{
  Reaches, starts, removes, here, next, Reaches-trans, act_all-Reaches,
}
use agent_workstation_gatewa.ExecutionRun.Background.Sound.{IsSound}
use agent_workstation_gatewa.ExecutionRun.Background.Kept.{
  IsKept, new_table-IsKept, get_elem?-All, Reaches-IsKept,
}
use agent_workstation_gatewa.ExecutionRun.Background.Ends.{
  StillEnds, Reaches-StillEnds, run_events, run_events-done,
}
use agent_workstation_gatewa.ExecutionRun.Background.Operations.{IsGone, stop_background-After}
use agent_workstation_gatewa.ExecutionRun.Background.Respond.{
  BackgroundHeader, BackgroundWorld, validate_background_plan, background_response, operate,
  run_background, run,
}
use agent_workstation_gatewa.ExecutionRun.Background.Reported.{
  IsAnswer, run_background-IsAnswer, run-Reaches,
}
use agent_workstation_gatewa.Samples.Records.{tally, zeros, tally-DigestsTo32}
use agent_workstation_gatewa.Samples.Policy.{plan}
use agent_workstation_gatewa.Samples.Runs.{process, writes, world, tally-ReadsBack}

abbrev start_plan : LaunchPlan
start_plan = record plan {
  operation = RequestOperation.start;
  process_id = codes "p";
  artifacts = [];
}

abbrev started_runner : Runner
started_runner = (start_background new_table start_plan 3 writes).0

-- It exits with 0.
abbrev ending : List (ℕ × Act)
ending =
    (0, goes_on (begins ticking))
    ∷ (0, goes_on (exits (some (record { code = pos 0; runtime_error = false }))))
    ∷ (0, goes_on (finishes 5))
    ∷ []

abbrev ended_runner : Runner
ended_runner = act_all ending started_runner

ended_done : is_done_at (get_elem? ended_runner.slots 0) ≡ true
unfolding start_background prepare_background find_key new build invocation_of shell_arguments
    bytes_eq act_all act modify get_elem? monitor_step is_bad_exit finish
ended_done = refl

path : Reaches new_table ended_runner
path = next (starts start_plan 3 writes) (act_all-Reaches ending started_runner)

Reaches-IsKept_example : IsKept (remove_background (key_of start_plan) 0 ended_runner)
Reaches-IsKept_example =
    Reaches-IsKept (Reaches-trans path (next (removes (key_of start_plan) 0 ended_done) here))
      new_table-IsKept

started_IsKept : IsKept started_runner
started_IsKept = Reaches-IsKept (next (starts start_plan 3 writes) here) new_table-IsKept

stop_background-After_example :
    Reaches started_runner (stop_background started_runner start_plan (terminated_by true) ending).0
    × ((id : ℕ)
        → (stop_background started_runner start_plan (terminated_by true) ending).1 ≡ ok id
        → IsGone
            (stop_background started_runner start_plan (terminated_by true) ending).0
            (key_of start_plan)
            id)
stop_background-After_example =
    stop_background-After started_runner start_plan (terminated_by true) ending started_IsKept

abbrev wrote : Capture
wrote = record { limit = 4096; digest = codes "ab"; total = 2; retained = codes "ab" }

abbrev silent : Capture
silent = record { limit = 4096; digest = []; total = 0; retained = [] }

abbrev started_entry : BackgroundProcess
started_entry = record {
  process = process;
  working_directory = codes "/srv/work";
  started_at = 3;
  stdout = wrote;
  stderr = silent;
  done = false;
  state = running;
  reason = none;
  finished_at = none;
  exit_code = none;
}

abbrev first_slot : Slot
first_slot = record { entry = started_entry; monitor = starting }

first : get_elem? started_runner.slots 0 ≡ some first_slot
unfolding start_background prepare_background find_key new build invocation_of shell_arguments
    bytes_eq get_elem? write_all write
first = refl

abbrev last_slot : Slot
last_slot = record {
  entry = record started_entry {
    done = true;
    state = exited;
    finished_at = some 5;
    exit_code = some (pos 0);
  };
  monitor = ended;
}

last : get_elem? ended_runner.slots 0 ≡ some last_slot
unfolding start_background prepare_background find_key new build invocation_of shell_arguments
    bytes_eq act_all act modify get_elem? monitor_step is_bad_exit finish write_all write
last = refl

Reaches-StillEnds_example :
    StillEnds (remove_background (key_of start_plan) 0 ended_runner) 0 last_slot
Reaches-StillEnds_example =
    Reaches-StillEnds {r = ended_runner} 0 last_slot
      (next (removes (key_of start_plan) 0 ended_done) here) (Reaches-IsKept path new_table-IsKept)
      last refl

first_IsSound : IsSound first_slot
first_IsSound = get_elem?-All started_runner.slots 0 first_slot started_IsKept.sound first

run_events-done_example :
    (run_events
      (begins ticking
        ∷ exits (some (record { code = pos 7; runtime_error = false }))
        ∷ killed true
        ∷ finishes 9
        ∷ [])
      first_slot).entry.done
    ≡ true
run_events-done_example =
    run_events-done first_slot ticking (some (record { code = pos 7; runtime_error = false })) true
      9 first_IsSound

abbrev pub encode_header : BackgroundHeader → Option Bytes
encode_header header = some (codes "{}")

abbrev pub background_world : BackgroundWorld
background_world = record {
  started_at = 3;
  entry_started_at = 3;
  finished_at = 4;
  start = writes;
  terminates = terminated_by true;
  while_stopping = [];
  before_response = [];
}

run-Reaches_example :
    Reaches new_table
      (run tally encode_header 1 start_plan (zeros 40) world background_world new_table).0
    × IsKept (run tally encode_header 1 start_plan (zeros 40) world background_world new_table).0
run-Reaches_example =
    run-Reaches tally encode_header 1 start_plan (zeros 40) world background_world new_table
      new_table-IsKept

start_validated : validate_background_plan tally encode_header 1 start_plan (zeros 40) ≡ ok tt
unfolding validate_background_plan build invocation_of shell_arguments new snapshot assemble_report
    failed_artifact_manifest validate_execution_report validate_identifier is_bad_name
    matches_identifier all_bytes validate_lower_hex digest_hex hex validate_command_outcome
    validate_timestamp validate_output_metadata validate_artifact_manifest is_supported_status
    validate_status_shape validate_files validate_omissions bytes_eq has_control_character
    utf8_valid
start_validated = refl

stdout_small :
    length
      (operate tally encode_header 1 start_plan background_world new_table
        RequestOperation.start).1.stdout
    < 2 ^ 63
unfolding operate background_response start_background prepare_background find_key new build
    invocation_of shell_arguments bytes_eq get_elem? act_all write_all write snapshot
stdout_small = omega arith

stderr_small :
    length
      (operate tally encode_header 1 start_plan background_world new_table
        RequestOperation.start).1.stderr
    < 2 ^ 63
unfolding operate background_response start_background prepare_background find_key new build
    invocation_of shell_arguments bytes_eq get_elem? act_all write_all write snapshot
stderr_small = omega arith

run_background-IsAnswer_example :
    (out : Output) × ((run_background tally encode_header 1 start_plan
        (zeros 40)
        background_world
        new_table).1
      ≡ ok out)
    × IsAnswer tally encode_header 1 start_plan
        (zeros 40)
        4096
        (operate tally encode_header 1 start_plan background_world new_table
          RequestOperation.start).1
        out
run_background-IsAnswer_example =
    run_background-IsAnswer tally encode_header 1 start_plan (zeros 40) background_world new_table
      4096 start_validated refl tally-DigestsTo32 (tally-ReadsBack background_world.started_at)
      (tally-ReadsBack background_world.finished_at) (omega arith) stdout_small stderr_small
