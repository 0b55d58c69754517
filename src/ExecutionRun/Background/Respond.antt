-- ===== src/ExecutionRun/Background/Respond.antt =====
-- internal/executionrun: background.go and the dispatch of run.go. A request on a background process is
-- itself reported as a short command.
use agent_workstation_gatewa.Base.{
  ℕ, ℤ, pos, Bool, true, false, not, ◌||◌, List, [], ◌∷◌, ◌++◌, Result, ok, err, ◌>>=◌, ◌>>◌,
  map_err, reject, ltb, ◌==◌, length, Option, none, some,
}
use agent_workstation_gatewa.Text.{Bytes, codes, bytes_eq}
use agent_workstation_gatewa.Library.{Library}
use agent_workstation_gatewa.Protocol.Types.{
  RequestOperation, CommandStatus, completed, OutputMetadata, min_timeout_seconds,
  max_timeout_seconds, min_output_bytes, max_output_bytes,
}
use agent_workstation_gatewa.Protocol.Request.{is_outside}
use agent_workstation_gatewa.Protocol.Report.{validate_execution_report}
use agent_workstation_gatewa.OutputCapture.{CaptureError, Capture, Snapshot, new, write, snapshot}
use agent_workstation_gatewa.ExecutionPolicy.{LaunchPlan}
use agent_workstation_gatewa.ShellInvoke.{build}
use agent_workstation_gatewa.ExecutionRun.Types.{
  NativeLaunch, Started, World, Output, RunError, invalid_launch_plan, clock_regression,
  invalid_execution_report,
}
use agent_workstation_gatewa.ExecutionRun.Artifacts.{failed_artifact_manifest}
use agent_workstation_gatewa.ExecutionRun.Foreground.{assemble_report, run_foreground}
use agent_workstation_gatewa.ExecutionRun.Background.Entry.{state_text, BackgroundProcess}
use agent_workstation_gatewa.ExecutionRun.Background.Table.{
  TreeEnd, Slot, Runner, get_elem?, BackgroundError, start_background, find_background,
  stop_background, Act, act_all,
}

-- `backgroundHeader`
pub record BackgroundHeader : Type 0 where
  pub process_id : Bytes
  pub state : Bytes
  pub started_at : Bytes
  pub finished_at : Bytes
  pub exit_code : Option ℤ
  pub stdout : OutputMetadata
  pub stderr : OutputMetadata

-- What the outside does during one request: the clock, the launcher and `terminateTree`, and what the
-- entries do while a stop waits and before the response reads its entry
pub record BackgroundWorld : Type 0 where
  pub started_at : ℕ
  pub entry_started_at : ℕ
  pub finished_at : ℕ
  pub start : NativeLaunch → Started
  pub terminates : TreeEnd
  pub while_stopping : List (ℕ × Act)
  pub before_response : List (ℕ × Act)

-- The status, the exit code and the two streams of the answer
pub record Answer : Type 0 where
  pub status : CommandStatus
  pub exit_code : ℤ
  pub stdout : Bytes
  pub stderr : Bytes

-- `backgroundOperationFailure`
abbrev pub background_operation_failure : Answer
background_operation_failure = record {
  status = CommandStatus.failed;
  exit_code = pos 1;
  stdout = [];
  stderr = codes "background process operation denied\n";
}

abbrev pub stop_failure : Answer
stop_failure = record {
  status = CommandStatus.runtime_failed;
  exit_code = pos 0;
  stdout = [];
  stderr = codes "background process stop failed\n";
}

abbrev pub is_background_operation : RequestOperation → Bool
is_background_operation RequestOperation.start = true
is_background_operation RequestOperation.status = true
is_background_operation RequestOperation.stop = true
is_background_operation RequestOperation.logs = true
is_background_operation _ = false

-- `reportExit`
abbrev pub report_exit : CommandStatus → ℤ → Option ℤ
report_exit CommandStatus.runtime_failed exit_code = none
report_exit _ exit_code = some exit_code

-- What a `Write` returns, with the capture after it
abbrev pub copied : Capture × Result CaptureError ℕ → Result CaptureError Capture
copied (capture, ok count) = ok capture
copied (capture, err e) = err e

-- `io.Copy` from a reader of these bytes: one write, and none of nothing
unfoldable pub copy_into : Capture → Bytes → Result CaptureError Capture
copy_into capture [] = ok capture
copy_into capture (c ∷ content) = copied (write capture (c ∷ content))

module _ (lib : Library) (encode_header : BackgroundHeader → Option Bytes) (epoch : ℕ) where
  -- `validateBackgroundPlan`; `epoch` is the instant time.Unix(0, 0)
  unfoldable pub validate_background_plan : LaunchPlan → Bytes → Result RunError (Unit {0})
  validate_background_plan plan sha = do
    reject (not (is_background_operation plan.operation)) invalid_launch_plan
    reject
        (bytes_eq plan.process_id []
          || is_outside min_timeout_seconds max_timeout_seconds plan.timeout_seconds
          || is_outside min_output_bytes max_output_bytes plan.max_output_bytes
          || not (length plan.artifacts == 0))
        invalid_launch_plan
    _ ← map_err invalid_launch_plan (build plan)
    empty ← map_err invalid_launch_plan (new plan.max_output_bytes)
    before ← map_err invalid_launch_plan (snapshot lib empty)
    map_err invalid_launch_plan (
        validate_execution_report lib (
          assemble_report lib plan sha CommandStatus.runtime_failed none epoch epoch before before
            (failed_artifact_manifest [])))

  abbrev pub finished_text : Option ℕ → Bytes
  finished_text none = []
  finished_text (some instant) = lib.format_time instant

  -- The header, with the state that `snapshotState` reads
  abbrev pub header_of : LaunchPlan → BackgroundProcess → Snapshot → Snapshot → BackgroundHeader
  header_of plan entry stdout stderr = record {
    process_id = plan.process_id;
    state = state_text entry.state;
    started_at = lib.format_time entry.started_at;
    finished_at = finished_text entry.finished_at;
    exit_code = entry.exit_code;
    stdout = stdout.metadata;
    stderr = stderr.metadata;
  }

  abbrev pub headed : Bool → Option Bytes → Snapshot → Snapshot → Option (Bytes × Bytes)
  headed include_logs none stdout stderr = none
  headed false (some encoded) stdout stderr = some (encoded ++ codes "\n", [])
  headed true (some encoded) stdout stderr =
      some ((encoded ++ codes "\n") ++ stdout.retained, stderr.retained)

  abbrev pub with_snapshots :
      LaunchPlan
      → BackgroundProcess
      → Bool
      → Result CaptureError Snapshot
      → Result CaptureError Snapshot
      → Option (Bytes × Bytes)
  with_snapshots plan entry include_logs (ok stdout) (ok stderr) =
      headed include_logs (encode_header (header_of plan entry stdout stderr)) stdout stderr
  with_snapshots plan entry include_logs _ _ = none

  -- `backgroundResponse`
  unfoldable pub background_response :
      LaunchPlan → BackgroundProcess → Bool → Option (Bytes × Bytes)
  background_response plan entry include_logs =
      with_snapshots plan entry include_logs (snapshot lib entry.stdout) (snapshot lib entry.stderr)

  abbrev pub answer_with : Option (Bytes × Bytes) → Answer
  answer_with none = background_operation_failure
  answer_with (some (stdout, stderr)) = record {
    status = completed;
    exit_code = pos 0;
    stdout = stdout;
    stderr = stderr;
  }

  abbrev pub answer_slot : LaunchPlan → Bool → Option Slot → Answer
  answer_slot plan include_logs none = background_operation_failure
  answer_slot plan include_logs (some s) =
      answer_with (background_response plan s.entry include_logs)

  -- The answer for the entry that an operation returned, or for its error
  abbrev pub answer_of : LaunchPlan → Bool → Answer → Runner → Result BackgroundError ℕ → Answer
  answer_of plan include_logs failure runner (err e) = failure
  answer_of plan include_logs failure runner (ok id) =
      answer_slot plan include_logs (get_elem? runner.slots id)

  -- What happens up to the response
  abbrev pub respond :
      LaunchPlan
      → BackgroundWorld
      → Bool
      → Answer
      → Runner × Result BackgroundError ℕ
      → Runner × Answer
  respond plan world include_logs failure (runner, result) =
      let later = act_all world.before_response runner in
      (later, answer_of plan include_logs failure later result)

  -- The `switch` of `runBackground`
  unfoldable pub operate :
      LaunchPlan → BackgroundWorld → Runner → RequestOperation → Runner × Answer
  operate plan world runner RequestOperation.start =
      respond plan world false background_operation_failure
        (start_background runner plan world.entry_started_at world.start)
  operate plan world runner RequestOperation.status =
      respond plan world false background_operation_failure (runner, find_background runner plan)
  operate plan world runner RequestOperation.logs =
      respond plan world true background_operation_failure (runner, find_background runner plan)
  operate plan world runner RequestOperation.stop =
      respond plan world false stop_failure
        (stop_background runner plan world.terminates world.while_stopping)
  operate plan world runner _ =
      (runner, record { status = completed; exit_code = pos 0; stdout = []; stderr = [] })

  -- `buildBackgroundOutput`
  unfoldable pub build_background_output :
      LaunchPlan → Bytes → CommandStatus → Option ℤ → ℕ → ℕ → Bytes → Bytes → Result RunError Output
  build_background_output plan sha status exit_code started_at finished_at stdout_bytes
        stderr_bytes =
      do
        stdout_capture ← map_err invalid_launch_plan (new plan.max_output_bytes)
        stderr_capture ← map_err invalid_launch_plan (new plan.max_output_bytes)
        stdout_after ← map_err invalid_execution_report (copy_into stdout_capture stdout_bytes)
        stderr_after ← map_err invalid_execution_report (copy_into stderr_capture stderr_bytes)
        stdout ← map_err invalid_execution_report (snapshot lib stdout_after)
        stderr ← map_err invalid_execution_report (snapshot lib stderr_after)
        map_err invalid_execution_report (
            validate_execution_report lib (
              assemble_report lib plan sha status exit_code started_at finished_at stdout stderr
                (failed_artifact_manifest [])))
        ok (record {
          report =
              assemble_report lib plan sha status exit_code started_at finished_at stdout stderr
                (failed_artifact_manifest []);
          stdout = stdout.retained;
          stderr = stderr.retained;
          artifact_bundle = none;
        })

  abbrev pub report_answer : LaunchPlan → Bytes → BackgroundWorld → Answer → Result RunError Output
  report_answer plan sha world answer = do
    reject (ltb world.finished_at world.started_at) clock_regression
    build_background_output plan sha answer.status (report_exit answer.status answer.exit_code)
        world.started_at world.finished_at answer.stdout answer.stderr

  abbrev pub run_validated :
      LaunchPlan
      → Bytes
      → BackgroundWorld
      → Runner
      → Result RunError (Unit {0})
      → Runner × Result RunError Output
  run_validated plan sha world runner (err e) = (runner, err e)
  run_validated plan sha world runner (ok _) =
      let (later, answer) = operate plan world runner plan.operation in
      (later, report_answer plan sha world answer)

  -- `runBackground`
  unfoldable pub run_background :
      LaunchPlan → Bytes → BackgroundWorld → Runner → Runner × Result RunError Output
  run_background plan sha world runner =
      run_validated plan sha world runner (validate_background_plan plan sha)

  abbrev pub run_operation :
      LaunchPlan
      → Bytes
      → World
      → BackgroundWorld
      → Runner
      → RequestOperation
      → Runner × Result RunError Output
  run_operation plan sha world background_world runner RequestOperation.execute =
      (runner, run_foreground lib plan sha world)
  run_operation plan sha world background_world runner (RequestOperation.other name) =
      (runner, err invalid_launch_plan)
  run_operation plan sha world background_world runner _ =
      run_background plan sha background_world runner

  -- `Run`
  unfoldable pub run :
      LaunchPlan → Bytes → World → BackgroundWorld → Runner → Runner × Result RunError Output
  run plan sha world background_world runner =
      run_operation plan sha world background_world runner plan.operation
