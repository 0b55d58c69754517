-- ===== src/ExecutionRun/Bound.antt =====
-- A run of an authorized plan ends with a report that is bound to the accepted request.
use agent_workstation_gatewa.Base.{
  ℕ, ◌^◌, ◌<◌, ◌≤◌, min, ◌≡◌, refl, sym, subst, ap, ◌∙◌, not, ◌&&◌, false, List, [], ◌∷◌, ok, lt_ℤ,
  pos, length, All, Option, arith,
}
use agent_workstation_gatewa.Text.{Bytes, bytes_eq, bytes_eq_iff}
use agent_workstation_gatewa.Library.{Library, DigestsTo32}
use agent_workstation_gatewa.Protocol.Types.{items, Request, ArtifactSelection, ArtifactManifest}
use agent_workstation_gatewa.Protocol.Accepts.{each_iff}
use agent_workstation_gatewa.Protocol.Records.{
  group_names, is_not_requested, no_names, deny_file, deny_omission,
  validate_accepted_request_record, validate_execution_report_binding,
}
use agent_workstation_gatewa.Protocol.Records.Binding.{validate_accepted_request_record-IsAccepted}
use agent_workstation_gatewa.OutputCapture.Content.{concat}
use agent_workstation_gatewa.OutputCapture.Report.{report_of}
use agent_workstation_gatewa.InstallConfig.{Config}
use agent_workstation_gatewa.BrokerProto.{ExecuteEnvelope}
use agent_workstation_gatewa.ExecutionPolicy.{
  Resolver, LaunchPlan, clone_artifact_selections, authorize,
}
use agent_workstation_gatewa.ExecutionPolicy.Stages.{
  authorize-Stages, validate_execute_envelope-accepted,
}
use agent_workstation_gatewa.ExecutionRun.Types.{Started, World, Output}
use agent_workstation_gatewa.ExecutionRun.Artifacts.Groups.{Represents}
use agent_workstation_gatewa.ExecutionRun.Foreground.Valid.{IsOutput, run_foreground-IsOutput}
use agent_workstation_gatewa.ExecutionRun.Foreground.{
  Prepared, native_launch_of, prepare, run_foreground,
}
use agent_workstation_gatewa.Protocol.Report.Parts.{ReadsBack}

group_names-clone :
    (selections : List ArtifactSelection)
    → group_names (clone_artifact_selections selections) ≡ group_names selections
unfolding clone_artifact_selections
group_names-clone [] = refl
group_names-clone (a ∷ selections) = ap (◌∷◌ a.name) (group_names-clone selections)

-- Nothing but the names of the selections counts.
Represents-names :
    (xs ys : List ArtifactSelection) (m : ArtifactManifest)
    → group_names xs ≡ group_names ys
    → Represents xs m
    → Represents ys m
Represents-names xs ys m e r = record {
  requested =
      subst (λ names. (no_names names && not (is_not_requested m.status)) ≡ false) e r.requested;
  not_forgotten =
      subst (λ names. (not (no_names names) && is_not_requested m.status) ≡ false) e
        r.not_forgotten;
  files = subst (λ names. All (λ f. deny_file names f ≡ ok tt) (items m.files)) e r.files;
  omissions =
      subst (λ names. All (λ o. deny_omission names o ≡ ok tt) (items m.omissions)) e r.omissions;
}

within_lem : (limit n : ℕ) → lt_ℤ (pos limit) (pos (min limit n)) ≡ false
within_lem limit n = ground arith

module _ (lib : Library) (encode : Request → Option Bytes) where
  -- What a plan takes from the envelope.
  record IsPlanOf (envelope : ExecuteEnvelope) (plan : LaunchPlan) : Type 0 where
    accepted : validate_accepted_request_record lib encode envelope.accepted_request ≡ ok tt
    same_id : plan.request_id ≡ envelope.accepted_request.request.request_id
    same_digest : plan.request_digest ≡ envelope.accepted_request.request_digest
    same_attempt : plan.attempt_id ≡ envelope.attempt_id
    same_limit : plan.max_output_bytes ≡ envelope.accepted_request.request.max_output_bytes
    same_groups :
        group_names plan.artifacts ≡ group_names (items envelope.accepted_request.request.artifacts)

  authorize-IsPlanOf :
      (c : Config) (envelope : ExecuteEnvelope) (base : List Bytes) (resolver : Option Resolver)
      {plan : LaunchPlan}
      → authorize lib encode c envelope base resolver ≡ ok plan
      → IsPlanOf envelope plan
  authorize-IsPlanOf c envelope base resolver h =
      let stages = authorize-Stages lib encode c envelope base resolver h in
      subst (IsPlanOf envelope) stages.planned (record {
        accepted = validate_execute_envelope-accepted lib encode envelope stages.enveloped;
        same_id = refl;
        same_digest = refl;
        same_attempt = refl;
        same_limit = refl;
        same_groups = group_names-clone (items envelope.accepted_request.request.artifacts);
      })

  differ_lem : (a b : Bytes) → a ≡ b → not (bytes_eq a b) ≡ false
  differ_lem a b e = rw ((bytes_eq_iff a b).1 e)

  output_bound :
      (envelope : ExecuteEnvelope) (plan : LaunchPlan) (sha : Bytes) (world : World) (limit : ℕ)
      (started : Started) (out : Output)
      → IsPlanOf envelope plan
      → plan.max_output_bytes ≡ pos limit
      → IsOutput lib plan sha world limit started out
      → validate_execution_report_binding lib encode envelope.accepted_request out.report ≡ ok tt
  unfolding validate_execution_report_binding
  output_bound envelope plan sha world limit started out p l o =
      let accepted = envelope.accepted_request in
      let named = validate_accepted_request_record-IsAccepted lib encode accepted p.accepted in
      let represents =
        Represents-names plan.artifacts (items accepted.request.artifacts) out.report.artifacts
          p.same_groups o.artifacts in
      let fits : (content : Bytes)
          → lt_ℤ accepted.request.max_output_bytes
              (report_of lib limit content).metadata.retained_bytes
            ≡ false =
        λ content.
          ap (λ m. lt_ℤ m (report_of lib limit content).metadata.retained_bytes)
            (sym p.same_limit ∙ l)
          ∙ within_lem limit (length content) in
      rw (
        p.accepted,
        o.valid,
        differ_lem out.report.request_id accepted.request_id
            (o.same_id ∙ p.same_id ∙ sym named.same_id),
        differ_lem out.report.request_digest accepted.request_digest
            (o.same_digest ∙ p.same_digest),
        ap (λ m. lt_ℤ accepted.request.max_output_bytes m.retained_bytes) o.stdout_reported
            ∙ fits (concat started.stdout),
        ap (λ m. lt_ℤ accepted.request.max_output_bytes m.retained_bytes) o.stderr_reported
            ∙ fits (concat started.stderr),
        represents.requested,
        represents.not_forgotten,
        (each_iff (deny_file (group_names (items accepted.request.artifacts)))
              (items out.report.artifacts.files)).1
            represents.files,
        (each_iff (deny_omission (group_names (items accepted.request.artifacts)))
              (items out.report.artifacts.omissions)).1
            represents.omissions,
      )

  -- A plan that `Authorize` returns, once prepared, is run to a report that
  -- `ValidateExecutionReportBinding` lets through for the accepted request of the envelope, with its
  -- attempt, whatever the process, the timer, the context and the collector do. This asks for
  -- digests of 32 bytes, texts of the two times of the run that read back, a clock that does not go back, and less
  -- than 2^63 bytes in each stream.
  pub authorize-run_foreground :
      (c : Config) (envelope : ExecuteEnvelope) (base : List Bytes) (resolver : Option Resolver)
      (plan : LaunchPlan) (sha : Bytes) (world : World) (limit : ℕ) {prepared : Prepared}
      → authorize lib encode c envelope base resolver ≡ ok plan
      → prepare lib plan sha world ≡ ok prepared
      → plan.max_output_bytes ≡ pos limit
      → DigestsTo32 lib
      → ReadsBack lib world.started_at
      → ReadsBack lib world.finished_at
      → world.started_at ≤ world.finished_at
      → length (concat (world.start (native_launch_of plan prepared.invocation)).stdout) < 2 ^ 63
      → length (concat (world.start (native_launch_of plan prepared.invocation)).stderr) < 2 ^ 63
      → (out : Output) × (run_foreground lib plan sha world ≡ ok out)
        × (validate_execution_report_binding lib encode envelope.accepted_request out.report
            ≡ ok tt)
        × (out.report.attempt_id ≡ envelope.attempt_id)
  authorize-run_foreground c envelope base resolver plan sha world limit {prepared} h k l digests
        begun ended later small small' =
      let p = authorize-IsPlanOf c envelope base resolver h in
      let (out, done, o) =
        run_foreground-IsOutput lib plan sha world limit k l digests begun ended later small
          small' in
      (
        out,
        done,
        output_bound envelope plan sha world limit
            (world.start (native_launch_of plan prepared.invocation)) out p l o,
        o.same_attempt ∙ p.same_attempt,
      )
