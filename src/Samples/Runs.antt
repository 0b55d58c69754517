-- ===== src/Samples/Runs.antt =====
-- Runs in the foreground and in the background.
use agent_workstation_gatewa.Base.{
  ℕ, zero, suc, ap, ◌≡◌, refl, true, false, pos, [], ◌∷◌, ok, none, some, length, ltb, arith,
}
use agent_workstation_gatewa.Text.{codes, bytes_eq, utf8_valid, has_prefix, contains_any, split}
use agent_workstation_gatewa.Library.{ascii_lower, digest_hex, hex}
use agent_workstation_gatewa.Protocol.Types.{items}
use agent_workstation_gatewa.Protocol.Fields.{
  all_bytes, is_sensitive, validate_artifact_segment, validate_glob_use,
  validate_relative_artifact_path, matches_identifier, is_bad_name, validate_identifier, each,
  validate_lower_hex, validate_artifact_group, validate_artifact_omission_pattern,
}
use agent_workstation_gatewa.Protocol.Report.{
  validate_command_outcome, validate_output_metadata, is_supported_status, is_supported_reason,
  reason_text, validate_status_shape, validate_files, validate_omissions,
  validate_artifact_manifest, validate_timestamp, validate_execution_report,
}
use agent_workstation_gatewa.Protocol.Report.Parts.{ReadsBack}
use agent_workstation_gatewa.Protocol.Records.{validate_execution_report_binding}
use agent_workstation_gatewa.PlatformPath.{is_one_of, is_non_canonical, has_control_character}
use agent_workstation_gatewa.OutputCapture.{Capture, new, snapshot}
use agent_workstation_gatewa.ExecutionPolicy.{LaunchPlan, clone_artifact_selections}
use agent_workstation_gatewa.ShellInvoke.{Invocation, build, invocation_of, shell_arguments}
use agent_workstation_gatewa.ShellInvoke.Fixed.{build-arguments}
use agent_workstation_gatewa.ExecutionRun.Types.{
  NativeLaunch, ArtifactPlan, ArtifactCollection, Process, Started, ticking, exited, World, Output,
}
use agent_workstation_gatewa.ExecutionRun.Artifacts.{
  has_bundle, all_omitted, failed_artifact_manifest, collect_artifacts,
}
use agent_workstation_gatewa.ExecutionRun.Artifacts.Groups.{
  Represents, collect_artifacts-Represents,
}
use agent_workstation_gatewa.ExecutionRun.Foreground.{
  Prepared, assemble_report, native_launch_of, prepare, run_foreground, await_process,
}
use agent_workstation_gatewa.ExecutionRun.Foreground.Outcomes.{
  IsConsistent, await_process-IsConsistent,
}
use agent_workstation_gatewa.ExecutionRun.Foreground.Valid.{IsOutput, run_foreground-IsOutput}
use agent_workstation_gatewa.ExecutionRun.Bound.{authorize-run_foreground}
use agent_workstation_gatewa.Samples.Records.{
  tally, braces, ticks, zeros, accepted, report, tally-DigestsTo32,
}
use agent_workstation_gatewa.Samples.Policy.{config, envelope, resolver, plan, authorized}

-- A process that writes two bytes and exits with zero.
abbrev pub process : Process
process = record { has_exit = true; terminates = true }

abbrev pub writes : NativeLaunch → Started
writes launch = record {
  failed = false;
  process = some process;
  stdout = codes "ab" ∷ [];
  stderr = [];
}

-- A collector that finds the one file.
abbrev collects : ArtifactPlan → ArtifactCollection
collects asked = record {
  failed = false;
  manifest = report.artifacts;
  bundle = some (record { open_file = λ group path. none; closes = true });
}

abbrev pub world : World
world = record {
  started_at = 3;
  finished_at = 4;
  start = writes;
  timer = ticking;
  event = exited (some (record { code = pos 0; runtime_error = false }));
  collector = some collects;
}

abbrev empty : Capture
empty = record { limit = 4096; digest = []; total = 0; retained = [] }

abbrev bash : Invocation
bash = record {
  executable = codes "/bin/bash";
  arguments = codes "--noprofile" ∷ codes "--norc" ∷ codes "-s" ∷ [];
  script = codes "make";
}

abbrev prepared : Prepared
prepared = record { stdout_capture = empty; stderr_capture = empty; invocation = bash }

bash_built : build plan ≡ ok bash
unfolding build invocation_of shell_arguments bytes_eq
bash_built = refl

made : new (pos 4096) ≡ ok empty
unfolding new
made = refl

run_prepared : prepare tally plan (zeros 40) world ≡ ok prepared
unfolding prepare build invocation_of shell_arguments new snapshot assemble_report
    failed_artifact_manifest all_omitted clone_artifact_selections validate_execution_report
    validate_identifier is_bad_name matches_identifier all_bytes validate_lower_hex digest_hex hex
    validate_command_outcome validate_timestamp validate_output_metadata validate_artifact_manifest
    is_supported_status validate_status_shape validate_files validate_omissions is_supported_reason
    reason_text validate_artifact_group validate_artifact_omission_pattern
    validate_relative_artifact_path validate_glob_use validate_artifact_segment is_sensitive
    is_one_of each is_non_canonical has_control_character bytes_eq utf8_valid has_prefix
    contains_any split ascii_lower
run_prepared = refl

length-ticks : (n : ℕ) → length (ticks n) ≡ n
length-ticks zero = refl
length-ticks (suc n) = ap suc (length-ticks n)

pub tally-ReadsBack : (n : ℕ) → ReadsBack tally n
tally-ReadsBack n = ap some (length-ticks n)

run_foreground-IsOutput_example :
    (out : Output) × (run_foreground tally plan (zeros 40) world ≡ ok out)
    × IsOutput tally plan (zeros 40) world 4096 (writes (native_launch_of plan bash)) out
run_foreground-IsOutput_example =
    run_foreground-IsOutput tally plan (zeros 40) world 4096 {prepared = prepared} run_prepared refl
      tally-DigestsTo32 (tally-ReadsBack world.started_at) (tally-ReadsBack world.finished_at)
      (omega arith) (omega arith) (omega arith)

authorize-run_foreground_example :
    (out : Output) × (run_foreground tally plan (zeros 40) world ≡ ok out)
    × (validate_execution_report_binding tally braces accepted out.report ≡ ok tt)
    × (out.report.attempt_id ≡ codes "a-1")
authorize-run_foreground_example =
    authorize-run_foreground tally braces config envelope (codes "LANG=C" ∷ codes "SECRET=x" ∷ [])
      (some resolver) plan (zeros 40) world 4096 {prepared = prepared} authorized run_prepared refl
      tally-DigestsTo32 (tally-ReadsBack world.started_at) (tally-ReadsBack world.finished_at)
      (omega arith) (omega arith) (omega arith)

collect_artifacts-Represents_example :
    Represents plan.artifacts (collect_artifacts tally plan (some collects)).0
    × (has_bundle (collect_artifacts tally plan (some collects)).1
        ≡ ltb 0 (length (items (collect_artifacts tally plan (some collects)).0.files)))
collect_artifacts-Represents_example = collect_artifacts-Represents tally plan (some collects)

await_process-IsConsistent_example : IsConsistent (await_process ticking world.event process)
await_process-IsConsistent_example = await_process-IsConsistent ticking world.event process

-- The same shell with another script.
abbrev other_plan : LaunchPlan
other_plan = record plan { script = codes "rm -rf /" }

abbrev other_bash : Invocation
other_bash = record bash { script = codes "rm -rf /" }

other_built : build other_plan ≡ ok other_bash
unfolding build invocation_of shell_arguments bytes_eq
other_built = refl

build-arguments_example :
    (bash.executable ≡ plan.executable)
    × (bash.script ≡ plan.script)
    × (bash.arguments ≡ other_bash.arguments)
build-arguments_example =
    build-arguments plan other_plan {i = bash} {j = other_bash} refl bash_built other_built
