-- ===== src/Samples/Records.antt =====
-- Requests, reports and results.
use agent_workstation_gatewa.Base.{
  ℕ, zero, suc, ◌≡◌, refl, pos, false, [], ◌∷◌, Option, some, ok, length, map,
}
use agent_workstation_gatewa.Text.{
  Bytes, codes, bytes_eq, has_prefix, contains_byte, contains_any, extend, split, trim_prefix,
  utf8_valid, only_space,
}
use agent_workstation_gatewa.Library.{Library, DigestsTo32, ascii_lower, hex, digest_hex}
use agent_workstation_gatewa.OutputCapture.{Capture, new, write_all, snapshot}
use agent_workstation_gatewa.OutputCapture.Content.{concat}
use agent_workstation_gatewa.OutputCapture.Report.{report_of}
use agent_workstation_gatewa.OutputCapture.Reported.{snapshot-validate_output_metadata}
use native.Mathlib.Omega.{arith}
use agent_workstation_gatewa.PlatformPath.{is_one_of, is_non_canonical, has_control_character}
use agent_workstation_gatewa.Protocol.Types.{
  Shell, RequestOperation, Request, WorkflowProvenance, AcceptedRequestRecord, CommandStatus,
  ArtifactStatus, OutputMetadata, ExecutionReport, max_artifact_path_bytes,
}
use agent_workstation_gatewa.Protocol.Fields.{
  all_bytes, is_sensitive, validate_artifact_segment, validate_glob_use,
  validate_relative_artifact_path, validate_artifact_path, matches_identifier, is_bad_name,
  validate_identifier, validate_script, each, validate_posix_working_directory,
  validate_posix_segment, validate_working_directory, validate_lower_hex, validate_artifact_group,
  validate_artifact_file_path,
}
use agent_workstation_gatewa.Protocol.Accepts.{
  IsArtifactPath, validate_relative_artifact_path-IsArtifactPath,
}
use agent_workstation_gatewa.Protocol.Request.{
  validate_paths, validate_groups, validate_artifact_selections, validate_process_id,
  is_supported_operation, is_supported_shell, validate_request,
}
use agent_workstation_gatewa.Protocol.Request.Shape.{IsRequest, validate_request-IsRequest}
use agent_workstation_gatewa.Protocol.Report.{
  validate_command_outcome, validate_output_metadata, is_supported_status, validate_status_shape,
  validate_files, validate_omissions, validate_artifact_manifest, validate_timestamp,
  validate_execution_report,
}
use agent_workstation_gatewa.Protocol.Report.Manifest.{
  IsManifest, validate_artifact_manifest-IsManifest,
}
use agent_workstation_gatewa.Protocol.Records.{
  has_space, matches_login, validate_issue_provenance, matches_repository,
  validate_workflow_provenance, execution_report_from_result, result_of, marshal_canonical_request,
  digest_request, validate_accepted_request_record, validate_execution_report_binding,
  validate_result_record, validate_result_binding, finalize_result_record,
}
use agent_workstation_gatewa.Protocol.Records.Binding.{
  IsAccepted, Answers, SameRun, validate_accepted_request_record-IsAccepted,
  validate_execution_report_binding-Answers, finalize_result_record-Answers,
}

-- So many letters `t`; the clock's text for an instant.
abbrev pub ticks : ℕ → Bytes
ticks zero = []
ticks (suc n) = b't' ∷ ticks n

-- A standard library with a constant digest and a clock that writes tally marks.
abbrev pub tally : Library
tally = record {
  to_lower = map ascii_lower;
  equal_fold = λ a b. bytes_eq (map ascii_lower a) (map ascii_lower b);
  path_match = λ p c. some (bytes_eq p c);
  sha256 = λ s.
      0 ∷ 0 ∷ 0 ∷ 0 ∷ 0 ∷ 0 ∷ 0 ∷ 0 ∷ 0 ∷ 0 ∷ 0 ∷ 0 ∷ 0 ∷ 0 ∷ 0 ∷ 0 ∷ 0 ∷ 0 ∷ 0 ∷ 0 ∷ 0 ∷ 0 ∷ 0 ∷ 0
      ∷ 0 ∷ 0 ∷ 0 ∷ 0 ∷ 0 ∷ 0 ∷ 0 ∷ 0 ∷ [];
  parse_time = λ s. some (length s);
  format_time = ticks;
}

abbrev pub braces : Request → Option Bytes
braces r = some (codes "{}")

abbrev pub zeros : ℕ → Bytes
zeros zero = []
zeros (suc n) = b'0' ∷ zeros n

abbrev pub request : Request
request = record {
  protocol_version = 1;
  request_id = codes "r-1";
  session_id = codes "s-1";
  actor = codes "octo";
  operation = RequestOperation.execute;
  process_id = [];
  shell = Shell.bash;
  working_directory = codes "/srv/work";
  script = codes "make";
  timeout_seconds = pos 60;
  max_output_bytes = pos 4096;
  artifacts = some (record { name = codes "out"; paths = some (codes "build/a.txt" ∷ []) } ∷ []);
}

request_accepted : validate_request tally request ≡ ok tt
unfolding validate_request validate_identifier is_bad_name matches_identifier all_bytes
    is_supported_operation validate_process_id is_supported_shell validate_working_directory
    validate_posix_working_directory validate_posix_segment each validate_script
    validate_artifact_selections validate_groups validate_paths validate_artifact_path
    validate_relative_artifact_path validate_glob_use validate_artifact_segment is_sensitive
    is_one_of is_non_canonical has_control_character utf8_valid only_space has_prefix contains_byte
    contains_any split extend trim_prefix bytes_eq ascii_lower
request_accepted = refl

validate_request-IsRequest_example : IsRequest tally request
validate_request-IsRequest_example = validate_request-IsRequest tally request request_accepted

safe_path :
    validate_relative_artifact_path tally "artifacts.paths" (codes "build/a.txt") 256 false ≡ ok tt
unfolding validate_relative_artifact_path validate_glob_use validate_artifact_segment is_sensitive
    is_one_of each is_non_canonical has_control_character utf8_valid has_prefix contains_byte
    contains_any split extend bytes_eq ascii_lower
safe_path = refl

validate_relative_artifact_path-IsArtifactPath_example :
    IsArtifactPath tally max_artifact_path_bytes (codes "build/a.txt")
validate_relative_artifact_path-IsArtifactPath_example =
    validate_relative_artifact_path-IsArtifactPath tally "artifacts.paths" (codes "build/a.txt") 256
      false safe_path

abbrev pub run : WorkflowProvenance
run = record {
  repository = codes "o/r";
  run_id = pos 7;
  run_attempt = pos 1;
  event_name = codes "issues";
  event_action = codes "opened";
  head_sha = zeros 40;
}

abbrev pub accepted : AcceptedRequestRecord
accepted = record {
  protocol_version = 1;
  request_id = codes "r-1";
  request_digest = zeros 64;
  request = request;
  issue = record {
    number = pos 3;
    node_id = codes "I_1";
    sender_id = pos 9;
    sender_login = codes "octo";
  };
  workflow = run;
  control_source_sha = zeros 40;
  accepted_at = ticks 2;
}

pub record_accepted : validate_accepted_request_record tally braces accepted ≡ ok tt
unfolding validate_accepted_request_record validate_identifier is_bad_name matches_identifier
    all_bytes validate_request is_supported_operation validate_process_id is_supported_shell
    validate_working_directory validate_posix_working_directory validate_posix_segment each
    validate_script validate_artifact_selections validate_groups validate_paths
    validate_artifact_path validate_relative_artifact_path validate_glob_use
    validate_artifact_segment is_sensitive is_one_of is_non_canonical has_control_character
    utf8_valid only_space has_prefix contains_byte contains_any split extend trim_prefix bytes_eq
    ascii_lower validate_lower_hex digest_request marshal_canonical_request digest_hex hex
    validate_issue_provenance has_space matches_login validate_workflow_provenance
    matches_repository validate_timestamp
record_accepted = refl

validate_accepted_request_record-IsAccepted_example : IsAccepted tally braces accepted
validate_accepted_request_record-IsAccepted_example =
    validate_accepted_request_record-IsAccepted tally braces accepted record_accepted

abbrev no_output : OutputMetadata
no_output = record {
  sha256 = zeros 64;
  total_bytes = pos 0;
  retained_bytes = pos 0;
  truncated = false;
}

abbrev pub report : ExecutionReport
report = record {
  protocol_version = 1;
  request_id = codes "r-1";
  request_digest = zeros 64;
  attempt_id = codes "a-1";
  gateway_source_sha = zeros 40;
  command_status = CommandStatus.completed;
  exit_code = some (pos 0);
  started_at = ticks 3;
  finished_at = ticks 4;
  duration_milliseconds = pos 0;
  stdout = no_output;
  stderr = no_output;
  artifacts = record {
    status = ArtifactStatus.complete;
    files = some (
        record {
          group = codes "out";
          path = codes "build/a.txt";
          sha256 = zeros 64;
          size_bytes = pos 5;
        }
        ∷ []);
    omissions = some [];
  };
}

pub report_bound : validate_execution_report_binding tally braces accepted report ≡ ok tt
unfolding validate_execution_report_binding validate_accepted_request_record validate_identifier
    is_bad_name matches_identifier all_bytes validate_request is_supported_operation
    validate_process_id is_supported_shell validate_working_directory
    validate_posix_working_directory validate_posix_segment each validate_script
    validate_artifact_selections validate_groups validate_paths validate_artifact_path
    validate_relative_artifact_path validate_glob_use validate_artifact_segment is_sensitive
    is_one_of is_non_canonical has_control_character utf8_valid only_space has_prefix contains_byte
    contains_any split extend trim_prefix bytes_eq ascii_lower validate_lower_hex digest_request
    marshal_canonical_request digest_hex hex validate_issue_provenance has_space matches_login
    validate_workflow_provenance matches_repository validate_timestamp validate_execution_report
    validate_command_outcome validate_output_metadata validate_artifact_manifest is_supported_status
    validate_status_shape validate_files validate_omissions validate_artifact_group
    validate_artifact_file_path
report_bound = refl

validate_execution_report_binding-Answers_example :
    IsAccepted tally braces accepted
    × (validate_execution_report tally report ≡ ok tt)
    × Answers accepted report
validate_execution_report_binding-Answers_example =
    validate_execution_report_binding-Answers tally braces accepted report report_bound

finalized :
    finalize_result_record tally braces accepted report (ticks 5) run
    ≡ ok (result_of report (ticks 5) run)
unfolding finalize_result_record validate_result_binding validate_result_record
    execution_report_from_result result_of validate_execution_report_binding
    validate_accepted_request_record validate_identifier is_bad_name matches_identifier all_bytes
    validate_request is_supported_operation validate_process_id is_supported_shell
    validate_working_directory validate_posix_working_directory validate_posix_segment each
    validate_script validate_artifact_selections validate_groups validate_paths
    validate_artifact_path validate_relative_artifact_path validate_glob_use
    validate_artifact_segment is_sensitive is_one_of is_non_canonical has_control_character
    utf8_valid only_space has_prefix contains_byte contains_any split extend trim_prefix bytes_eq
    ascii_lower validate_lower_hex digest_request marshal_canonical_request digest_hex hex
    validate_issue_provenance has_space matches_login validate_workflow_provenance
    matches_repository validate_timestamp validate_execution_report validate_command_outcome
    validate_output_metadata validate_artifact_manifest is_supported_status validate_status_shape
    validate_files validate_omissions validate_artifact_group validate_artifact_file_path
finalized = refl

finalize_result_record-Answers_example :
    (execution_report_from_result (result_of report (ticks 5) run) ≡ report)
    × ((result_of report (ticks 5) run).finalized_at ≡ ticks 5)
    × ((result_of report (ticks 5) run).workflow ≡ run)
    × Answers accepted report
    × SameRun tally braces run run
    × (validate_result_binding tally braces accepted (result_of report (ticks 5) run) ≡ ok tt)
unfolding result_of
finalize_result_record-Answers_example =
    finalize_result_record-Answers tally braces accepted report (ticks 5) run finalized

manifest_accepted : validate_artifact_manifest tally report.artifacts ≡ ok tt
unfolding validate_artifact_manifest is_supported_status validate_status_shape validate_files
    validate_omissions validate_artifact_group validate_artifact_file_path
    validate_relative_artifact_path validate_glob_use validate_artifact_segment is_sensitive
    is_one_of each is_bad_name matches_identifier all_bytes is_non_canonical has_control_character
    utf8_valid has_prefix contains_byte contains_any split extend bytes_eq ascii_lower
    validate_lower_hex
manifest_accepted = refl

validate_artifact_manifest-IsManifest_example : IsManifest tally report.artifacts
validate_artifact_manifest-IsManifest_example =
    validate_artifact_manifest-IsManifest tally report.artifacts manifest_accepted

pub tally-DigestsTo32 : DigestsTo32 tally
tally-DigestsTo32 s = (refl, ground arith)

abbrev started : Capture
started = record { limit = 1024; digest = []; total = 0; retained = [] }

snapshot-validate_output_metadata_example :
    (snapshot tally (write_all started (codes "ab" ∷ codes "c" ∷ []))
      ≡ ok (report_of tally 1024 (concat (codes "ab" ∷ codes "c" ∷ []))))
    × (validate_output_metadata "stdout"
          (report_of tally 1024 (concat (codes "ab" ∷ codes "c" ∷ []))).metadata
        ≡ ok tt)
unfolding new
snapshot-validate_output_metadata_example =
    snapshot-validate_output_metadata tally "stdout" 1024 {c = started}
      (codes "ab" ∷ codes "c" ∷ []) tally-DigestsTo32 refl (omega arith)
