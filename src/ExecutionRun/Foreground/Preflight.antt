-- ===== src/ExecutionRun/Foreground/Preflight.antt =====
-- What the preflight of a run leaves, and the reports that are valid because it was.
use agent_workstation_gatewa.Base.{
  ℕ, ◌≤◌, ◌≡◌, ◌∙◌, not, false, ok, >>=-eq-ok, >>-eq-ok, map_err, map_err-eq-ok, reject->>,
  le→ltb_false, ℤ, pos, eq_ℤ, Option, none, arith,
}
use agent_workstation_gatewa.Text.{Bytes}
use agent_workstation_gatewa.Library.{Library, DigestsTo32}
use agent_workstation_gatewa.Protocol.Types.{
  CommandStatus, max_output_bytes, min_timeout_seconds, max_timeout_seconds, ArtifactManifest,
}
use agent_workstation_gatewa.Protocol.Request.{is_outside}
use agent_workstation_gatewa.Protocol.Report.{
  milliseconds, validate_command_outcome, validate_execution_report,
}
use agent_workstation_gatewa.Protocol.Report.Parts.{
  validate_execution_report-HasParts, HasParts-validate_execution_report, ReadsBack,
  validate_timestamp-format,
}
use agent_workstation_gatewa.OutputCapture.{Snapshot, new, snapshot}
use agent_workstation_gatewa.OutputCapture.Report.{report_of}
use agent_workstation_gatewa.OutputCapture.Reported.{validate_output_metadata-report_of}
use agent_workstation_gatewa.ExecutionPolicy.{LaunchPlan}
use agent_workstation_gatewa.ShellInvoke.{build}
use agent_workstation_gatewa.ExecutionRun.Types.{
  World, invalid_launch_plan, invalid_execution_report,
}
use agent_workstation_gatewa.ExecutionRun.Artifacts.{failed_artifact_manifest}
use agent_workstation_gatewa.ExecutionRun.Foreground.{Prepared, assemble_report, prepare}

module _ (lib : Library) (plan : LaunchPlan) (sha : Bytes) (world : World) where
  -- What a successful preparation leaves: both captures new, and a valid preflight report.
  pub record IsPrepared (prepared : Prepared) : Type 0 where
    pub stdout_new : new plan.max_output_bytes ≡ ok prepared.stdout_capture
    pub stderr_new : new plan.max_output_bytes ≡ ok prepared.stderr_capture
    pub stdout_before : Snapshot
    pub stderr_before : Snapshot
    pub preflight :
        validate_execution_report lib (
          assemble_report lib plan sha CommandStatus.runtime_failed none world.started_at
            world.started_at stdout_before stderr_before
            (failed_artifact_manifest plan.artifacts))
        ≡ ok tt

  pub prepare-IsPrepared :
      {prepared : Prepared} → prepare lib plan sha world ≡ ok prepared → IsPrepared prepared
  unfolding prepare
  prepare-IsPrepared {prepared} h =
      let (_, h1) =
        (reject->> (is_outside min_timeout_seconds max_timeout_seconds plan.timeout_seconds)
            invalid_launch_plan _).0
          h in
      let (c, e, h2) = >>=-eq-ok (map_err invalid_launch_plan (new plan.max_output_bytes)) _ h1 in
      let (d, f, h3) = >>=-eq-ok (map_err invalid_launch_plan (new plan.max_output_bytes)) _ h2 in
      let (i, g, h4) = >>=-eq-ok (map_err invalid_launch_plan (build plan)) _ h3 in
      let (s, k, h5) = >>=-eq-ok (map_err invalid_execution_report (snapshot lib c)) _ h4 in
      let (t, l, h6) = >>=-eq-ok (map_err invalid_execution_report (snapshot lib d)) _ h5 in
      let (m, h7) =
        (>>-eq-ok (map_err invalid_launch_plan (validate_execution_report lib _)) _).0 h6 in
      record {
        stdout_new = map_err-eq-ok _ _ e ∙ cc;
        stderr_new = map_err-eq-ok _ _ f ∙ cc;
        stdout_before = s;
        stderr_before = t;
        preflight = map_err-eq-ok _ _ m;
      }

module _ (lib : Library) (plan : LaunchPlan) (sha : Bytes) where
  pub same_lem : (n : ℕ) → not (eq_ℤ (pos n) (pos n)) ≡ false
  same_lem n = ground arith

  -- A report of the same plan and manifest is valid with any outcome, later times and other outputs.
  pub reported_valid :
      (artifacts : ArtifactManifest) (instant : ℕ) (stdout_before stderr_before : Snapshot)
      (limit : ℕ) (status : CommandStatus) (exit_code : Option ℤ) (started finished : ℕ)
      (stdout stderr : Bytes)
      → validate_execution_report lib (
          assemble_report lib plan sha CommandStatus.runtime_failed none instant instant
            stdout_before stderr_before artifacts)
        ≡ ok tt
      → validate_command_outcome status exit_code ≡ ok tt
      → DigestsTo32 lib
      → ReadsBack lib started
      → ReadsBack lib finished
      → limit ≤ max_output_bytes
      → started ≤ finished
      → validate_execution_report lib (
          assemble_report lib plan sha status exit_code started finished
            (report_of lib limit stdout)
            (report_of lib limit stderr)
            artifacts)
        ≡ ok tt
  unfolding assemble_report
  reported_valid artifacts instant stdout_before stderr_before limit status exit_code started
        finished stdout stderr p consistent digests begun ended small later =
      let q = validate_execution_report-HasParts lib _ p in
      HasParts-validate_execution_report lib _ (record {
        current = q.current;
        named = q.named;
        digested = q.digested;
        attempted = q.attempted;
        sourced = q.sourced;
        ended = consistent;
        started = started;
        finished = finished;
        started_ok = validate_timestamp-format lib _ started begun;
        finished_ok = validate_timestamp-format lib _ finished ended;
        ordered = le→ltb_false finished started later;
        lasted = same_lem (milliseconds lib started finished);
        stdout_ok = validate_output_metadata-report_of lib _ limit stdout digests small;
        stderr_ok = validate_output_metadata-report_of lib _ limit stderr digests small;
        artifacts_ok = q.artifacts_ok;
      })
