-- ===== src/Protocol/Records/Binding.antt =====
-- What binds a report or a result to the accepted request.
use agent_workstation_gatewa.Base.{
  not-false, ◌≡◌, ◌↔◌, refl, sym, ap, ◌∙◌, subst, ◌⊎◌, inl, inr, true, false, not, ◌&&◌, List, [],
  ◌∷◌, ok, >>=-eq-ok, >>-eq-ok, ◌==◌, lt_ℤ, eq_ℤ, Bool-cases, All, All-map, Option, arith,
}
use agent_workstation_gatewa.Text.{Bytes, bytes_eq, bytes_eq_iff}
use agent_workstation_gatewa.Library.{Library}
use agent_workstation_gatewa.PlatformPath.{is_one_of}
use agent_workstation_gatewa.Protocol.Types.{
  items, Request, ArtifactSelection, WorkflowProvenance, AcceptedRequestRecord, ArtifactStatus,
  not_requested, ExecutionReport, ResultRecord,
}
use agent_workstation_gatewa.Protocol.Fields.{each, validate_identifier, validate_lower_hex}
use agent_workstation_gatewa.Protocol.Accepts.{deny->>, deny-eq-ok, each_iff}
use agent_workstation_gatewa.Protocol.Request.{version, validate_request}
use agent_workstation_gatewa.Protocol.Request.Shape.{IsRequest, validate_request-IsRequest}
use agent_workstation_gatewa.Protocol.Report.{validate_execution_report}
use agent_workstation_gatewa.Protocol.Records.{
  execution_report_from_result, result_of, group_names, is_not_requested, no_names, deny_file,
  deny_omission, digest_request, validate_accepted_request_record,
  validate_execution_report_binding, validate_result_record, is_other_run, validate_result_binding,
  finalize_result_record,
}

-- The group is one of the request's selections.
abbrev pub IsSelected : Bytes → List ArtifactSelection → Type 0
IsSelected group [] = ⊥
IsSelected group (a ∷ as') = (group ≡ a.name) ⊎ IsSelected group as'

is_one_of-IsSelected :
    (as' : List ArtifactSelection) (group : Bytes)
    → is_one_of (group_names as') group ≡ true
    → IsSelected group as'
unfolding is_one_of
is_one_of-IsSelected [] group h = cc
is_one_of-IsSelected (a ∷ as') group h = elim (Bool-cases (bytes_eq group a.name)) [
  | inl e ↦ inl ((bytes_eq_iff group a.name).0 e)
  | inr e ↦ inr (is_one_of-IsSelected as' group (ground arith))
]

-- What a report says belongs to the accepted request: the identifier, the digest of the request as
-- it was accepted, no more output than was asked for, and artifacts of its selections only.
pub record Answers (accepted : AcceptedRequestRecord) (report : ExecutionReport) : Type 0 where
  pub same_request : report.request_id ≡ accepted.request.request_id
  pub same_digest : report.request_digest ≡ accepted.request_digest
  pub stdout_within : lt_ℤ accepted.request.max_output_bytes report.stdout.retained_bytes ≡ false
  pub stderr_within : lt_ℤ accepted.request.max_output_bytes report.stderr.retained_bytes ≡ false
  pub represented :
      (report.artifacts.status ≡ not_requested) ↔ (items accepted.request.artifacts ≡ [])
  pub files_selected :
      All
        (λ f. IsSelected f.group (items accepted.request.artifacts))
        (items report.artifacts.files)
  pub omissions_selected :
      All
        (λ o. IsSelected o.group (items accepted.request.artifacts))
        (items report.artifacts.omissions)

represented_lem :
    (as' : List ArtifactSelection) (status : ArtifactStatus)
    → (no_names (group_names as') && not (is_not_requested status)) ≡ false
    → (not (no_names (group_names as')) && is_not_requested status) ≡ false
    → (status ≡ not_requested) ↔ (as' ≡ [])
represented_lem [] not_requested h k = (λ _. refl, λ _. refl)
represented_lem [] ArtifactStatus.complete h k = cc
represented_lem [] ArtifactStatus.complete_with_omissions h k = cc
represented_lem [] ArtifactStatus.failed h k = cc
represented_lem [] (ArtifactStatus.other name) h k = cc
represented_lem (a ∷ as') not_requested h k = cc
represented_lem (a ∷ as') ArtifactStatus.complete h k = (λ e. cc, λ e. cc)
represented_lem (a ∷ as') ArtifactStatus.complete_with_omissions h k = (λ e. cc, λ e. cc)
represented_lem (a ∷ as') ArtifactStatus.failed h k = (λ e. cc, λ e. cc)
represented_lem (a ∷ as') (ArtifactStatus.other name) h k = (λ e. cc, λ e. cc)

module _ (lib : Library) (encode : Request → Option Bytes) where
  -- An accepted record that is let through.
  pub record IsAccepted (accepted : AcceptedRequestRecord) : Type 0 where
    pub well_formed : IsRequest lib accepted.request
    pub same_id : accepted.request_id ≡ accepted.request.request_id
    pub digested : digest_request lib encode accepted.request ≡ ok accepted.request_digest

  -- A record that `ValidateAcceptedRequestRecord` lets through holds a well-formed request under
  -- that request's own identifier and the digest of its canonical encoding.
  pub validate_accepted_request_record-IsAccepted :
      (accepted : AcceptedRequestRecord)
      → validate_accepted_request_record lib encode accepted ≡ ok tt
      → IsAccepted accepted
  unfolding validate_accepted_request_record
  validate_accepted_request_record-IsAccepted accepted h =
      let (_, h1) = (deny->> (not (accepted.protocol_version == version)) _ _ _).0 h in
      let (_, h2) = (>>-eq-ok (validate_identifier "request_id" accepted.request_id) _).0 h1 in
      let (a, h3) = (>>-eq-ok (validate_request lib accepted.request) _).0 h2 in
      let (b, h4) =
        (deny->> (not (bytes_eq accepted.request_id accepted.request.request_id)) _ _ _).0 h3 in
      let (_, h5) =
        (>>-eq-ok (validate_lower_hex "request_digest" accepted.request_digest 64) _).0 h4 in
      let (digest, c, h6) = >>=-eq-ok (digest_request lib encode accepted.request) _ h5 in
      let (d, h7) = (deny->> (not (bytes_eq accepted.request_digest digest)) _ _ _).0 h6 in
      record {
        well_formed = validate_request-IsRequest lib accepted.request a;
        same_id = (bytes_eq_iff _ _).0 (not-false _ b);
        digested = c ∙ ap ok (sym ((bytes_eq_iff _ _).0 (not-false _ d)));
      }

  -- A report that `ValidateExecutionReportBinding` lets through answers the accepted request, which
  -- is itself well formed and has the digest that the record names.
  pub validate_execution_report_binding-Answers :
      (accepted : AcceptedRequestRecord) (report : ExecutionReport)
      → validate_execution_report_binding lib encode accepted report ≡ ok tt
      → IsAccepted accepted
        × (validate_execution_report lib report ≡ ok tt)
        × Answers accepted report
  unfolding validate_execution_report_binding
  validate_execution_report_binding-Answers accepted report h =
      let r = accepted.request in
      let groups = group_names (items r.artifacts) in
      let (a, h1) = (>>-eq-ok (validate_accepted_request_record lib encode accepted) _).0 h in
      let (b, h2) = (>>-eq-ok (validate_execution_report lib report) _).0 h1 in
      let (c, h3) = (deny->> (not (bytes_eq report.request_id accepted.request_id)) _ _ _).0 h2 in
      let (d, h4) =
        (deny->> (not (bytes_eq report.request_digest accepted.request_digest)) _ _ _).0 h3 in
      let (e, h5) = (deny->> (lt_ℤ r.max_output_bytes report.stdout.retained_bytes) _ _ _).0 h4 in
      let (f, h6) = (deny->> (lt_ℤ r.max_output_bytes report.stderr.retained_bytes) _ _ _).0 h5 in
      let (g, h7) =
        (deny->> (no_names groups && not (is_not_requested report.artifacts.status)) _ _ _).0 h6 in
      let (i, h8) =
        (deny->> (not (no_names groups) && is_not_requested report.artifacts.status) _ _ _).0 h7 in
      let (j, k) = (>>-eq-ok (each (deny_file groups) (items report.artifacts.files)) _).0 h8 in
      let accepted_ok = validate_accepted_request_record-IsAccepted accepted a in
      (
        accepted_ok,
        b,
        record {
          same_request = (bytes_eq_iff _ _).0 (not-false _ c) ∙ accepted_ok.same_id;
          same_digest = (bytes_eq_iff _ _).0 (not-false _ d);
          stdout_within = e;
          stderr_within = f;
          represented = represented_lem (items r.artifacts) report.artifacts.status g i;
          files_selected =
              All-map (λ x. deny_file groups x ≡ ok tt)
                (λ x. IsSelected x.group (items r.artifacts)) _
                (λ x e.
                  is_one_of-IsSelected (items r.artifacts) x.group
                    (not-false _ ((deny-eq-ok (not (is_one_of groups x.group)) _ _).0 e)))
                ((each_iff (deny_file groups) _).0 j);
          omissions_selected =
              All-map (λ x. deny_omission groups x ≡ ok tt)
                (λ x. IsSelected x.group (items r.artifacts)) _
                (λ x e.
                  is_one_of-IsSelected (items r.artifacts) x.group
                    (not-false _ ((deny-eq-ok (not (is_one_of groups x.group)) _ _).0 e)))
                ((each_iff (deny_omission groups) _).0 k);
        },
      )

  -- A result belongs to the run that accepted the request, or to a later attempt of it.
  pub record SameRun (accepted result : WorkflowProvenance) : Type 0 where
    pub same_repository : result.repository ≡ accepted.repository
    pub same_run : eq_ℤ result.run_id accepted.run_id ≡ true
    pub not_earlier : lt_ℤ result.run_attempt accepted.run_attempt ≡ false
    pub same_event : result.event_name ≡ accepted.event_name
    pub same_action : result.event_action ≡ accepted.event_action
    pub same_commit : result.head_sha ≡ accepted.head_sha

  is_other_run-SameRun :
      (accepted result : WorkflowProvenance)
      → is_other_run lib encode result accepted ≡ false
      → SameRun accepted result
  is_other_run-SameRun accepted result h = record {
    same_repository = (bytes_eq_iff _ _).0 (ground arith);
    same_run = ground arith;
    not_earlier = ground arith;
    same_event = (bytes_eq_iff _ _).0 (ground arith);
    same_action = (bytes_eq_iff _ _).0 (ground arith);
    same_commit = (bytes_eq_iff _ _).0 (ground arith);
  }

  validate_result_binding-SameRun :
      (accepted : AcceptedRequestRecord) (r : ResultRecord)
      → validate_result_binding lib encode accepted r ≡ ok tt
      → SameRun accepted.workflow r.workflow
  unfolding validate_result_binding
  validate_result_binding-SameRun accepted r b =
      let (_, b1) = (>>-eq-ok (validate_result_record lib encode r) _).0 b in
      let (_, b2) =
        (>>-eq-ok
            (validate_execution_report_binding lib encode accepted (execution_report_from_result r))
            _).0
          b1 in
      is_other_run-SameRun accepted.workflow r.workflow
        ((deny-eq-ok (is_other_run lib encode r.workflow accepted.workflow) _ _).0 b2)

  -- What `FinalizeResultRecord` returns is the report itself with the given time and the given workflow
  -- added. It answers the accepted request, was made in the same run or a later attempt of it, and passes
  -- the checks that a reader of results makes.
  pub finalize_result_record-Answers :
      (accepted : AcceptedRequestRecord) (report : ExecutionReport) (finalized_at : Bytes)
      (workflow : WorkflowProvenance) {result : ResultRecord}
      → finalize_result_record lib encode accepted report finalized_at workflow ≡ ok result
      → (execution_report_from_result result ≡ report)
        × (result.finalized_at ≡ finalized_at)
        × (result.workflow ≡ workflow)
        × Answers accepted report
        × SameRun accepted.workflow workflow
        × (validate_result_binding lib encode accepted result ≡ ok tt)
  unfolding finalize_result_record
  finalize_result_record-Answers accepted report finalized_at workflow {result} h =
      let record' = result_of report finalized_at workflow in
      let (a, h1) =
        (>>-eq-ok (validate_execution_report_binding lib encode accepted report) _).0 h in
      let (b, h2) = (>>-eq-ok (validate_result_binding lib encode accepted record') _).0 h1 in
      let e : record' ≡ result = cc in
      subst
        (λ r.
          (execution_report_from_result r ≡ report)
          × (r.finalized_at ≡ finalized_at)
          × (r.workflow ≡ workflow)
          × Answers accepted report
          × SameRun accepted.workflow workflow
          × (validate_result_binding lib encode accepted r ≡ ok tt))
        e
        (
          unfold execution_report_from_result result_of in refl,
          unfold result_of in refl,
          unfold result_of in refl,
          (validate_execution_report_binding-Answers accepted report a).2,
          unfold result_of in validate_result_binding-SameRun accepted record' b,
          b,
        )
