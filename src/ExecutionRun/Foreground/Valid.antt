-- ===== src/ExecutionRun/Foreground/Valid.antt =====
-- A run that is prepared always ends with an output whose report is valid and tells what happened.
use agent_workstation_gatewa.Base.{
  ℕ, ◌^◌, ◌<◌, ◌≤◌, ◌≡◌, refl, sym, subst, ap, ◌∙◌, inl, inr, ◌⊎◌, Bool, true, false, ok, err, ltb,
  le→ltb_false, pos, length, Option, none, take,
}
use agent_workstation_gatewa.Text.{Bytes}
use agent_workstation_gatewa.Library.{Library, DigestsTo32}
use agent_workstation_gatewa.Protocol.Types.{items, Validated, ArtifactManifest, ExecutionReport}
use agent_workstation_gatewa.Protocol.Report.{validate_execution_report}
use agent_workstation_gatewa.Protocol.Report.Parts.{ReadsBack}
use agent_workstation_gatewa.OutputCapture.{new}
use agent_workstation_gatewa.OutputCapture.Content.{concat}
use agent_workstation_gatewa.OutputCapture.Report.{report_of, snapshot-write_all}
use agent_workstation_gatewa.OutputCapture.Reported.{limit_lem}
use agent_workstation_gatewa.ExecutionPolicy.{LaunchPlan}
use agent_workstation_gatewa.ExecutionRun.Types.{Started, World, Output, ArtifactBundle}
use agent_workstation_gatewa.ExecutionRun.Artifacts.{has_bundle, failed_artifact_manifest}
use agent_workstation_gatewa.ExecutionRun.Artifacts.Groups.{
  Represents, failed_artifact_manifest-Represents, failed-no_files, collect_artifacts-Represents,
}
use agent_workstation_gatewa.ExecutionRun.Foreground.{
  Prepared, outcome_of, native_launch_of, assemble_report, collected, deliver, conclude, prepare,
  launch, run_foreground,
}
use agent_workstation_gatewa.ExecutionRun.Foreground.Outcomes.{outcome_of-IsConsistent}
use agent_workstation_gatewa.ExecutionRun.Foreground.Happened.{Happened, outcome_of-Happened}
use agent_workstation_gatewa.ExecutionRun.Foreground.Preflight.{prepare-IsPrepared, reported_valid}

module _ (lib : Library) (plan : LaunchPlan) (sha : Bytes) (world : World) (limit : ℕ) where
  -- The output of a run: a valid report of the plan's request, with what was written, how the
  -- process ended, and artifacts of the selected groups only, in a bundle where there are files.
  pub record IsOutput (started : Started) (out : Output) : Type 0 where
    pub valid : validate_execution_report lib out.report ≡ ok tt
    pub same_id : out.report.request_id ≡ plan.request_id
    pub same_digest : out.report.request_digest ≡ plan.request_digest
    pub same_attempt : out.report.attempt_id ≡ plan.attempt_id
    pub same_source : out.report.gateway_source_sha ≡ sha
    pub happened : Happened world started out.report.command_status out.report.exit_code
    pub stdout_reported : out.report.stdout ≡ (report_of lib limit (concat started.stdout)).metadata
    pub stderr_reported : out.report.stderr ≡ (report_of lib limit (concat started.stderr)).metadata
    pub stdout_kept : out.stdout ≡ take limit (concat started.stdout)
    pub stderr_kept : out.stderr ≡ take limit (concat started.stderr)
    pub artifacts : Represents plan.artifacts out.report.artifacts
    pub bundled : has_bundle out.artifact_bundle ≡ ltb 0 (length (items out.report.artifacts.files))

-- Either the report is valid and goes out with its bundle, or it goes out without artifacts.
deliver-cases :
    (lib : Library) (v : Validated) (report : ExecutionReport) (bundle : Option ArtifactBundle)
    (fallback : ArtifactManifest) (stdout stderr : Bytes)
    → validate_execution_report lib report ≡ v
    → validate_execution_report lib (record report { artifacts = fallback }) ≡ ok tt
    → (out : Output) × (deliver lib v report bundle fallback stdout stderr ≡ ok out)
      × (validate_execution_report lib out.report ≡ ok tt)
      × ((out ≡ record {
        report = report;
        stdout = stdout;
        stderr = stderr;
        artifact_bundle = bundle;
      })
          ⊎ (out ≡ record {
            report = record report { artifacts = fallback };
            stdout = stdout;
            stderr = stderr;
            artifact_bundle = none;
          }))
unfolding deliver
deliver-cases lib (ok x) report bundle fallback stdout stderr h k = (
  record { report = report; stdout = stdout; stderr = stderr; artifact_bundle = bundle },
  refl,
  h,
  inl refl,
)
deliver-cases lib (err e) report bundle fallback stdout stderr h k = (
  record {
    report = record report { artifacts = fallback };
    stdout = stdout;
    stderr = stderr;
    artifact_bundle = none;
  },
  rw k refl,
  k,
  inr refl,
)

module _ (lib : Library) (plan : LaunchPlan) (sha : Bytes) (world : World) (limit : ℕ) where
  output_with : Started → ArtifactManifest → Option ArtifactBundle → Output
  output_with started manifest bundle =
      let outcome = outcome_of world started in
      let stdout = report_of lib limit (concat started.stdout) in
      let stderr = report_of lib limit (concat started.stderr) in
      record {
        report =
            assemble_report lib plan sha (outcome.0) (outcome.1) world.started_at world.finished_at
              stdout stderr manifest;
        stdout = stdout.retained;
        stderr = stderr.retained;
        artifact_bundle = bundle;
      }

  output_with-IsOutput :
      (started : Started) (manifest : ArtifactManifest) (bundle : Option ArtifactBundle)
      → validate_execution_report lib (output_with started manifest bundle).report ≡ ok tt
      → Represents plan.artifacts manifest
      → has_bundle bundle ≡ ltb 0 (length (items manifest.files))
      → IsOutput lib plan sha world limit started (output_with started manifest bundle)
  unfolding output_with assemble_report
  output_with-IsOutput started manifest bundle valid represents bundled = record {
    valid = valid;
    same_id = refl;
    same_digest = refl;
    same_attempt = refl;
    same_source = refl;
    happened = outcome_of-Happened world started;
    stdout_reported = refl;
    stderr_reported = refl;
    stdout_kept = refl;
    stderr_kept = refl;
    artifacts = represents;
    bundled = bundled;
  }

  collected-Represents :
      (gone : Bool)
      → Represents plan.artifacts (collected lib plan world gone).0
        × (has_bundle (collected lib plan world gone).1
            ≡ ltb 0 (length (items (collected lib plan world gone).0.files)))
  collected-Represents true = collect_artifacts-Represents lib plan world.collector
  collected-Represents false =
      (failed_artifact_manifest-Represents plan.artifacts, failed-no_files plan.artifacts)

  conclude-IsOutput :
      (started : Started)
      → validate_execution_report lib
          (output_with started (failed_artifact_manifest plan.artifacts) none).report
        ≡ ok tt
      → (out : Output) × (conclude lib plan sha world
            (outcome_of world started)
            (report_of lib limit (concat started.stdout))
            (report_of lib limit (concat started.stderr))
          ≡ ok out)
        × IsOutput lib plan sha world limit started out
  unfolding conclude output_with assemble_report
  conclude-IsOutput started h =
      let outcome = outcome_of world started in
      let (manifest, bundle) = collected lib plan world (outcome.2) in
      let (represents, bundled) = collected-Represents (outcome.2) in
      let whole = output_with started manifest bundle in
      let bare = output_with started (failed_artifact_manifest plan.artifacts) none in
      let (out, done, valid, which) =
        deliver-cases lib (validate_execution_report lib whole.report) whole.report bundle
          (failed_artifact_manifest plan.artifacts) whole.stdout whole.stderr refl h in
      (
        out,
        done,
        elim which [
          | inl e ↦ subst (IsOutput lib plan sha world limit started) (sym e) (
              output_with-IsOutput started manifest bundle
                (ap (λ o. validate_execution_report lib o.report) (sym e) ∙ valid) represents
                bundled)
          | inr e ↦ subst (IsOutput lib plan sha world limit started) (sym e) (
              output_with-IsOutput started (failed_artifact_manifest plan.artifacts) none h
                (failed_artifact_manifest-Represents plan.artifacts)
                (failed-no_files plan.artifacts))
        ],
      )

  -- If the preparation succeeds, the clock does not go back, digests have 32 bytes, the texts of the
  -- two times of the run read back, and each stream gets less than 2^63 bytes, then the run succeeds, whatever the
  -- process, the timer, the context and the collector do. Its report is valid, answers the plan,
  -- has the status and the exit code that go with what the process, the timer and the context did, keeps the first bytes of each stream up to the limit, and names
  -- artifacts of the selected groups only, with a bundle exactly where it lists files.
  pub run_foreground-IsOutput :
      {prepared : Prepared}
      → prepare lib plan sha world ≡ ok prepared
      → plan.max_output_bytes ≡ pos limit
      → DigestsTo32 lib
      → ReadsBack lib world.started_at
      → ReadsBack lib world.finished_at
      → world.started_at ≤ world.finished_at
      → length (concat (world.start (native_launch_of plan prepared.invocation)).stdout) < 2 ^ 63
      → length (concat (world.start (native_launch_of plan prepared.invocation)).stderr) < 2 ^ 63
      → (out : Output) × (run_foreground lib plan sha world ≡ ok out)
        × IsOutput lib plan sha world limit
            (world.start (native_launch_of plan prepared.invocation))
            out
  unfolding run_foreground launch output_with assemble_report
  run_foreground-IsOutput {prepared} h l digests begun ended later small small' =
      let p = prepare-IsPrepared lib plan sha world h in
      let started = world.start (native_launch_of plan prepared.invocation) in
      let stdout_new : new (pos limit) ≡ ok prepared.stdout_capture =
        ap new (sym l) ∙ p.stdout_new in
      let stderr_new : new (pos limit) ≡ ok prepared.stderr_capture =
        ap new (sym l) ∙ p.stderr_new in
      let (out, done, result) = conclude-IsOutput started (
        reported_valid lib plan sha (failed_artifact_manifest plan.artifacts) world.started_at
          p.stdout_before p.stderr_before limit (outcome_of world started).0
          (outcome_of world started).1 world.started_at world.finished_at (concat started.stdout)
          (concat started.stderr) p.preflight (outcome_of-IsConsistent world started) digests begun
          ended (limit_lem limit stdout_new) later) in
      (
        out,
        rw
            (
              h,
              le→ltb_false world.finished_at world.started_at later,
              snapshot-write_all lib limit started.stdout stdout_new small,
              snapshot-write_all lib limit started.stderr stderr_new small',
            )
            done,
        result,
      )
