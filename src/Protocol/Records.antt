-- ===== src/Protocol/Records.antt =====
-- protocol/v1: the accepted request, the result record and what binds them, from records_validate.go,
-- canonical.go, accepted_validate.go, result_validate.go, binding_validate.go and finalize.go.
-- `encode` is json.Marshal on a request, `none` for an error.
pub mod Binding
use agent_workstation_gatewa.Base.{
  ℕ, String, Bool, true, false, not, ◌&&◌, ◌||◌, List, [], ◌∷◌, ok, err, ◌>>=◌, ◌>>◌, ltb, leb,
  ◌==◌, ℤ, pos, lt_ℤ, le_ℤ, eq_ℤ, if◌then◌else◌, length, Option, none, some, Result,
}
use agent_workstation_gatewa.Text.{Bytes, codes, bytes_eq, split, within}
use agent_workstation_gatewa.Library.{Library, digest_hex}
use agent_workstation_gatewa.PlatformPath.{is_one_of, has_control_character}
use agent_workstation_gatewa.Protocol.Types.{
  items, ErrorKind, ProtocolError, Validated, validation_error, Request, ArtifactSelection,
  IssueProvenance, WorkflowProvenance, AcceptedRequestRecord, ArtifactStatus, not_requested,
  ArtifactFile, ArtifactOmission, ExecutionReport, ResultRecord, max_request_bytes,
}
use agent_workstation_gatewa.Protocol.Fields.{
  deny, each, all_bytes, validate_identifier, validate_lower_hex,
}
use agent_workstation_gatewa.Protocol.Request.{version, validate_request}
use agent_workstation_gatewa.Protocol.Report.{validate_timestamp, validate_execution_report}

is_letter_or_digit : ℕ → Bool
is_letter_or_digit c = within b'A' b'Z' c || within b'a' b'z' c || within b'0' b'9' c

starts_with_space : Bytes → Bool
starts_with_space [] = false
starts_with_space (a ∷ []) = a == b' ' || within 9 13 a
starts_with_space (a ∷ b ∷ []) =
    a == b' ' || within 9 13 a || (a == 0xc2 && (b == 0x85 || b == 0xa0))
starts_with_space (a ∷ b ∷ c ∷ _) =
    a == b' '
    || within 9 13 a
    || (a == 0xc2 && (b == 0x85 || b == 0xa0))
    || (a == 0xe1 && b == 0x9a && c == 0x80)
    || (a == 0xe2 && b == 0x80 && (within 0x80 0x8a c || c == 0xa8 || c == 0xa9 || c == 0xaf))
    || (a == 0xe2 && b == 0x81 && c == 0x9f)
    || (a == 0xe3 && b == 0x80 && c == 0x80)

-- `strings.IndexFunc(s, unicode.IsSpace) >= 0`. The bytes of a white-space rune are found in a text
-- only where the rune stands, since none of their first bytes continues a rune.
unfoldable pub has_space : Bytes → Bool
unfolding starts_with_space
has_space [] = false
has_space (a ∷ s) = starts_with_space (a ∷ s) || has_space s

-- `senderLoginPattern.MatchString`
unfoldable pub matches_login : Bytes → Bool
unfolding is_letter_or_digit
matches_login [] = false
matches_login (c ∷ s) =
    is_letter_or_digit c
    && all_bytes (λ d. is_letter_or_digit d || d == b'-') s
    && leb (length s) 38

-- `validateIssueProvenance`
unfoldable pub validate_issue_provenance : IssueProvenance → Validated
validate_issue_provenance issue = do
  deny (le_ℤ issue.number (pos 0)) "issue.number" "must-be-positive"
  deny (le_ℤ issue.sender_id (pos 0)) "issue.sender_id" "must-be-positive"
  deny
      (length issue.node_id == 0
        || ltb 128 (length issue.node_id)
        || has_space issue.node_id
        || has_control_character issue.node_id)
      "issue.node_id" "invalid-node-id"
  deny (not (matches_login issue.sender_login)) "issue.sender_login" "invalid-login"

-- `[A-Za-z0-9_.-]{1,100}`
is_repository_part : Bytes → Bool
is_repository_part s =
    leb 1 (length s)
    && leb (length s) 100
    && all_bytes (λ c. is_letter_or_digit c || c == b'_' || c == b'.' || c == b'-') s

are_repository_parts : List Bytes → Bool
are_repository_parts (owner ∷ name ∷ []) = is_repository_part owner && is_repository_part name
are_repository_parts _ = false

-- `repositoryPattern.MatchString`
unfoldable pub matches_repository : Bytes → Bool
unfolding are_repository_parts is_repository_part is_letter_or_digit
matches_repository s = are_repository_parts (split b'/' s)

-- `validateWorkflowProvenance`
unfoldable pub validate_workflow_provenance : WorkflowProvenance → Validated
validate_workflow_provenance workflow = do
  deny (not (matches_repository workflow.repository)) "workflow.repository" "invalid-repository"
  deny (le_ℤ workflow.run_id (pos 0)) "workflow.run_id" "must-be-positive"
  deny (le_ℤ workflow.run_attempt (pos 0)) "workflow.run_attempt" "must-be-positive"
  deny
      (not (bytes_eq workflow.event_name (codes "issues"))
        || not (bytes_eq workflow.event_action (codes "opened")))
      "workflow.event" "unexpected-event"
  validate_lower_hex "workflow.head_sha" workflow.head_sha 40

-- `executionReportFromResult`
unfoldable pub execution_report_from_result : ResultRecord → ExecutionReport
execution_report_from_result result = record {
  protocol_version = result.protocol_version;
  request_id = result.request_id;
  request_digest = result.request_digest;
  attempt_id = result.attempt_id;
  gateway_source_sha = result.gateway_source_sha;
  command_status = result.command_status;
  exit_code = result.exit_code;
  started_at = result.started_at;
  finished_at = result.finished_at;
  duration_milliseconds = result.duration_milliseconds;
  stdout = result.stdout;
  stderr = result.stderr;
  artifacts = result.artifacts;
}

-- The record that `FinalizeResultRecord` builds
unfoldable pub result_of : ExecutionReport → Bytes → WorkflowProvenance → ResultRecord
result_of report finalized_at workflow = record {
  protocol_version = report.protocol_version;
  request_id = report.request_id;
  request_digest = report.request_digest;
  attempt_id = report.attempt_id;
  gateway_source_sha = report.gateway_source_sha;
  command_status = report.command_status;
  exit_code = report.exit_code;
  started_at = report.started_at;
  finished_at = report.finished_at;
  duration_milliseconds = report.duration_milliseconds;
  stdout = report.stdout;
  stderr = report.stderr;
  artifacts = report.artifacts;
  finalized_at = finalized_at;
  workflow = workflow;
}

abbrev pub group_names : List ArtifactSelection → List Bytes
group_names [] = []
group_names (a ∷ as') = a.name ∷ group_names as'

abbrev pub is_not_requested : ArtifactStatus → Bool
is_not_requested not_requested = true
is_not_requested _ = false

abbrev pub no_names : List Bytes → Bool
no_names [] = true
no_names (x ∷ xs) = false

abbrev pub deny_file : List Bytes → ArtifactFile → Validated
deny_file groups file =
    deny (not (is_one_of groups file.group)) "artifacts.files.group" "not-in-accepted-request"

abbrev pub deny_omission : List Bytes → ArtifactOmission → Validated
deny_omission groups omission =
    deny (not (is_one_of groups omission.group)) "artifacts.omissions.group"
      "not-in-accepted-request"

module _ (lib : Library) (encode : Request → Option Bytes) where
  -- `marshalCanonicalRecord` for a request
  bounded_encoding : Option Bytes → Result ProtocolError Bytes
  bounded_encoding none =
      err (record { kind = ErrorKind.decode; field = "request"; rule = "canonical-encode" })
  bounded_encoding (some encoded) = do
    deny (ltb max_request_bytes (length encoded)) "request" "canonical-size-limit"
    ok encoded

  -- `MarshalCanonicalRequest`
  unfoldable pub marshal_canonical_request : Request → Result ProtocolError Bytes
  unfolding bounded_encoding
  marshal_canonical_request request = do
    validate_request lib request
    bounded_encoding (encode request)

  -- `DigestRequest`
  unfoldable pub digest_request : Request → Result ProtocolError Bytes
  digest_request request = do
    encoded ← marshal_canonical_request request
    ok (digest_hex lib encoded)

  -- `ValidateAcceptedRequestRecord`
  unfoldable pub validate_accepted_request_record : AcceptedRequestRecord → Validated
  validate_accepted_request_record accepted = do
    deny (not (accepted.protocol_version == version)) "protocol_version" "unsupported-version"
    validate_identifier "request_id" accepted.request_id
    validate_request lib accepted.request
    deny (not (bytes_eq accepted.request_id accepted.request.request_id)) "request_id"
        "does-not-match-request"
    validate_lower_hex "request_digest" accepted.request_digest 64
    digest ← digest_request accepted.request
    deny (not (bytes_eq accepted.request_digest digest)) "request_digest" "does-not-match-request"
    validate_issue_provenance accepted.issue
    validate_workflow_provenance accepted.workflow
    validate_lower_hex "control_source_sha" accepted.control_source_sha 40
    _ ← validate_timestamp lib "accepted_at" accepted.accepted_at
    ok tt

  -- `ValidateExecutionReportBinding`
  unfoldable pub validate_execution_report_binding :
      AcceptedRequestRecord → ExecutionReport → Validated
  validate_execution_report_binding accepted report = do
    validate_accepted_request_record accepted
    validate_execution_report lib report
    deny (not (bytes_eq report.request_id accepted.request_id)) "request_id"
        "does-not-match-accepted-request"
    deny (not (bytes_eq report.request_digest accepted.request_digest)) "request_digest"
        "does-not-match-accepted-request"
    deny (lt_ℤ accepted.request.max_output_bytes report.stdout.retained_bytes)
        "stdout.retained_bytes" "exceeds-accepted-output-limit"
    deny (lt_ℤ accepted.request.max_output_bytes report.stderr.retained_bytes)
        "stderr.retained_bytes" "exceeds-accepted-output-limit"
    let groups = group_names (items accepted.request.artifacts)
    deny (no_names groups && not (is_not_requested report.artifacts.status)) "artifacts.status"
        "artifacts-not-requested"
    deny (not (no_names groups) && is_not_requested report.artifacts.status) "artifacts.status"
        "requested-artifacts-not-represented"
    each (deny_file groups) (items report.artifacts.files)
    each (deny_omission groups) (items report.artifacts.omissions)

  -- `ValidateResultRecord`
  unfoldable pub validate_result_record : ResultRecord → Validated
  validate_result_record result = do
    validate_execution_report lib (execution_report_from_result result)
    finished ← validate_timestamp lib "finished_at" result.finished_at
    finalized ← validate_timestamp lib "finalized_at" result.finalized_at
    deny (ltb finalized finished) "finalized_at" "before-finished-at"
    validate_workflow_provenance result.workflow

  -- The workflow of the result is not that of the acceptance
  abbrev pub is_other_run : WorkflowProvenance → WorkflowProvenance → Bool
  is_other_run result accepted =
      not (bytes_eq result.repository accepted.repository)
      || not (eq_ℤ result.run_id accepted.run_id)
      || lt_ℤ result.run_attempt accepted.run_attempt
      || not (bytes_eq result.event_name accepted.event_name)
      || not (bytes_eq result.event_action accepted.event_action)
      || not (bytes_eq result.head_sha accepted.head_sha)

  -- `ValidateResultBinding`
  unfoldable pub validate_result_binding : AcceptedRequestRecord → ResultRecord → Validated
  validate_result_binding accepted result = do
    validate_result_record result
    validate_execution_report_binding accepted (execution_report_from_result result)
    deny (is_other_run result.workflow accepted.workflow) "workflow" "does-not-match-acceptance-run"

  -- `FinalizeResultRecord`
  unfoldable pub finalize_result_record :
      AcceptedRequestRecord
      → ExecutionReport
      → Bytes
      → WorkflowProvenance
      → Result ProtocolError ResultRecord
  finalize_result_record accepted report finalized_at workflow = do
    validate_execution_report_binding accepted report
    validate_result_binding accepted (result_of report finalized_at workflow)
    ok (result_of report finalized_at workflow)
