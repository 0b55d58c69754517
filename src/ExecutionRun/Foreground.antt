-- ===== src/ExecutionRun/Foreground.antt =====
-- internal/executionrun/run.go: the runner's options and the run of a command in the foreground.
pub mod Outcomes
pub mod Happened
pub mod Preflight
pub mod Valid
use agent_workstation_gatewa.Base.{
  ℕ, ◌*◌, ℤ, pos, lt_ℤ, eq_ℤ, Bool, true, false, not, ◌||◌, List, [], ◌∷◌, Result, ok, err, ◌>>=◌,
  ◌>>◌, map_err, reject, ltb, if◌then◌else◌, Option, none, some,
}
use agent_workstation_gatewa.Text.{Bytes}
use agent_workstation_gatewa.Library.{Library}
use agent_workstation_gatewa.Protocol.Types.{
  Validated, ErrorKind, CommandStatus, completed, ArtifactManifest, ExecutionReport,
  min_timeout_seconds, max_timeout_seconds,
}
use agent_workstation_gatewa.Protocol.Request.{version, is_outside}
use agent_workstation_gatewa.Protocol.Report.{milliseconds, validate_execution_report}
use agent_workstation_gatewa.OutputCapture.{Capture, Snapshot, new, write_all, snapshot}
use agent_workstation_gatewa.ExecutionPolicy.{LaunchPlan}
use agent_workstation_gatewa.ShellInvoke.{Invocation, build}
use agent_workstation_gatewa.ExecutionRun.Types.{
  NativeLaunch, ArtifactBundle, ProcessExit, Process, Started, TimerKind, missing, no_channel,
  ticking, Wait, exited, cancelled, timed_out, World, Output, RunError, launcher_required,
  invalid_options, invalid_launch_plan, clock_regression, invalid_execution_report,
}
use agent_workstation_gatewa.ExecutionRun.Artifacts.{failed_artifact_manifest, collect_artifacts}

-- A `time.Duration` in nanoseconds
abbrev pub default_tree_termination_grace : ℕ
default_tree_termination_grace = 10 * 1000000000

abbrev pub default_artifact_collection_timeout : ℕ
default_artifact_collection_timeout = 30 * 1000000000

pub record Options : Type 0 where
  pub tree_termination_grace : ℤ
  pub artifact_collection_timeout : ℤ

abbrev pub or_default : ℤ → ℕ → ℤ
or_default value fallback = if eq_ℤ value (pos 0) then pos fallback else value

-- `New`: the limits of the runner, if a launcher is there
unfoldable pub new_runner : Bool → Options → Result RunError Options
new_runner has_launcher options = do
  reject (not has_launcher) launcher_required
  reject
      (lt_ℤ options.tree_termination_grace (pos 0)
        || lt_ℤ options.artifact_collection_timeout (pos 0))
      invalid_options
  ok (record {
    tree_termination_grace =
        or_default options.tree_termination_grace default_tree_termination_grace;
    artifact_collection_timeout =
        or_default options.artifact_collection_timeout default_artifact_collection_timeout;
  })

-- The status of a process, its exit code, and whether its tree is gone
abbrev pub Outcome : Type 0
Outcome = CommandStatus × Option ℤ × Bool

-- `!open || processExit.RuntimeError != nil || processExit.Code < 0 || processExit.Code > 4294967295`
unfoldable pub is_bad_exit : ProcessExit → Bool
is_bad_exit exit = exit.runtime_error || is_outside 0 4294967295 exit.code

unfoldable pub on_exit : Option ProcessExit → Outcome
unfolding is_bad_exit
on_exit none = (CommandStatus.runtime_failed, none, true)
on_exit (some exit) =
    if is_bad_exit exit
    then (CommandStatus.runtime_failed, none, true)
    else if eq_ℤ exit.code (pos 0)
    then (completed, some exit.code, true)
    else (CommandStatus.failed, some exit.code, true)

-- The tree is terminated, and then the command has this status
unfoldable pub on_termination : Bool → CommandStatus → Outcome
on_termination true status = (status, none, true)
on_termination false status = (CommandStatus.runtime_failed, none, false)

unfoldable pub on_event : Process → Wait → Outcome
unfolding on_exit on_termination
on_event process (exited exit) = on_exit exit
on_event process cancelled = on_termination process.terminates CommandStatus.cancelled
on_event process (timed_out context_done) =
    on_termination process.terminates
      (if context_done then CommandStatus.cancelled else CommandStatus.timed_out)

-- `awaitProcess`
unfoldable pub await_process : TimerKind → Wait → Process → Outcome
unfolding on_event on_exit on_termination
await_process missing event process = (CommandStatus.runtime_failed, none, process.terminates)
await_process no_channel event process = (CommandStatus.runtime_failed, none, process.terminates)
await_process ticking event process =
    if process.has_exit
    then on_event process event
    else (CommandStatus.runtime_failed, none, process.terminates)

unfoldable pub settled : World → Bool → Option Process → Outcome
settled world false (some process) = await_process world.timer world.event process
settled world false none = (CommandStatus.runtime_failed, none, false)
settled world true process = (CommandStatus.runtime_failed, none, false)

-- What comes of a start
unfoldable pub outcome_of : World → Started → Outcome
unfolding settled
outcome_of world started = settled world started.failed started.process

abbrev pub native_launch_of : LaunchPlan → Invocation → NativeLaunch
native_launch_of plan invocation = record {
  execution_identity = plan.execution_identity;
  working_directory = plan.working_directory;
  approved_root = plan.approved_root;
  environment = plan.environment;
  capabilities = plan.capabilities;
  invocation = invocation;
}

-- The captures and the invocation that a launch starts from
pub record Prepared : Type 0 where
  pub stdout_capture : Capture
  pub stderr_capture : Capture
  pub invocation : Invocation

module _ (lib : Library) where
  -- `assembleReport`
  unfoldable pub assemble_report :
      LaunchPlan
      → Bytes
      → CommandStatus
      → Option ℤ
      → ℕ
      → ℕ
      → Snapshot
      → Snapshot
      → ArtifactManifest
      → ExecutionReport
  assemble_report plan sha status exit_code started finished stdout stderr artifacts = record {
    protocol_version = version;
    request_id = plan.request_id;
    request_digest = plan.request_digest;
    attempt_id = plan.attempt_id;
    gateway_source_sha = sha;
    command_status = status;
    exit_code = exit_code;
    started_at = lib.format_time started;
    finished_at = lib.format_time finished;
    duration_milliseconds = pos (milliseconds lib started finished);
    stdout = stdout.metadata;
    stderr = stderr.metadata;
    artifacts = artifacts;
  }

  abbrev pub collected : LaunchPlan → World → Bool → ArtifactManifest × Option ArtifactBundle
  collected plan world true = collect_artifacts lib plan world.collector
  collected plan world false = (failed_artifact_manifest plan.artifacts, none)

  -- The report with the collected artifacts, or, where it is not valid, with none
  unfoldable pub deliver :
      Validated
      → ExecutionReport
      → Option ArtifactBundle
      → ArtifactManifest
      → Bytes
      → Bytes
      → Result RunError Output
  deliver (ok _) report bundle fallback stdout stderr =
      ok (record { report = report; stdout = stdout; stderr = stderr; artifact_bundle = bundle })
  deliver (err _) report bundle fallback stdout stderr = do
    map_err invalid_execution_report
        (validate_execution_report lib (record report { artifacts = fallback }))
    ok (record {
      report = record report { artifacts = fallback };
      stdout = stdout;
      stderr = stderr;
      artifact_bundle = none;
    })

  abbrev pub concluded :
      LaunchPlan → Bytes → World → Outcome → Snapshot → Snapshot → ExecutionReport
  concluded plan sha world outcome stdout stderr =
      assemble_report plan sha (outcome.0) (outcome.1) world.started_at world.finished_at stdout
        stderr (collected plan world (outcome.2)).0

  -- The part of `runForeground` behind the launch
  unfoldable pub conclude :
      LaunchPlan → Bytes → World → Outcome → Snapshot → Snapshot → Result RunError Output
  conclude plan sha world outcome stdout stderr =
      deliver (validate_execution_report lib (concluded plan sha world outcome stdout stderr))
        (concluded plan sha world outcome stdout stderr) (collected plan world (outcome.2)).1
        (failed_artifact_manifest plan.artifacts) stdout.retained stderr.retained

  -- `runForeground` up to the launch
  unfoldable pub prepare : LaunchPlan → Bytes → World → Result RunError Prepared
  prepare plan sha world = do
    reject (is_outside min_timeout_seconds max_timeout_seconds plan.timeout_seconds)
        invalid_launch_plan
    stdout_capture ← map_err invalid_launch_plan (new plan.max_output_bytes)
    stderr_capture ← map_err invalid_launch_plan (new plan.max_output_bytes)
    invocation ← map_err invalid_launch_plan (build plan)
    stdout_before ← map_err invalid_execution_report (snapshot lib stdout_capture)
    stderr_before ← map_err invalid_execution_report (snapshot lib stderr_capture)
    map_err invalid_launch_plan (
        validate_execution_report lib (
          assemble_report plan sha CommandStatus.runtime_failed none world.started_at
            world.started_at stdout_before stderr_before (failed_artifact_manifest plan.artifacts)))
    ok (record {
      stdout_capture = stdout_capture;
      stderr_capture = stderr_capture;
      invocation = invocation;
    })

  -- The launch and what follows it
  unfoldable pub launch : LaunchPlan → Bytes → World → Prepared → Result RunError Output
  launch plan sha world prepared = do
    let started = world.start (native_launch_of plan prepared.invocation)
    reject (ltb world.finished_at world.started_at) clock_regression
    stdout ←
        map_err invalid_execution_report
          (snapshot lib (write_all prepared.stdout_capture started.stdout))
    stderr ←
        map_err invalid_execution_report
          (snapshot lib (write_all prepared.stderr_capture started.stderr))
    conclude plan sha world (outcome_of world started) stdout stderr

  -- `runForeground`
  unfoldable pub run_foreground : LaunchPlan → Bytes → World → Result RunError Output
  run_foreground plan sha world = do
    prepared ← prepare plan sha world
    launch plan sha world prepared
