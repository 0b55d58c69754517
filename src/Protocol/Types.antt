-- ===== src/Protocol/Types.antt =====
-- protocol/v1: types.go, records_types.go, limits.go and errors.go. A Go string type with named
-- constants is a data type with one constructor for each and `other` for every other string. A
-- slice that the code compares with nil is an `Option`, `none` for nil; `items` ranges over it.
use agent_workstation_gatewa.Base.{
  ℕ, ◌*◌, ℤ, String, Bool, List, [], Option, none, some, Result, Checked, err,
}
use agent_workstation_gatewa.Text.{Bytes}

abbrev pub Slice : Type 0 → Type 0
Slice A = Option (List A)

abbrev pub items {ℓ} : {A : Type ℓ} → Option (List A) → List A
items none = []
items (some xs) = xs

abbrev pub max_request_bytes : ℕ
max_request_bytes = 64 * 1024

abbrev pub max_execution_report_bytes : ℕ
max_execution_report_bytes = 256 * 1024

abbrev pub max_script_bytes : ℕ
max_script_bytes = 48 * 1024

abbrev pub max_identifier_bytes : ℕ
max_identifier_bytes = 64

abbrev pub max_working_path_bytes : ℕ
max_working_path_bytes = 1024

abbrev pub min_timeout_seconds : ℕ
min_timeout_seconds = 1

abbrev pub max_timeout_seconds : ℕ
max_timeout_seconds = 24 * 60 * 60

abbrev pub min_output_bytes : ℕ
min_output_bytes = 1024

abbrev pub max_output_bytes : ℕ
max_output_bytes = 5 * 1024 * 1024

abbrev pub max_artifact_groups : ℕ
max_artifact_groups = 8

abbrev pub max_artifact_group_bytes : ℕ
max_artifact_group_bytes = 32

abbrev pub max_artifact_paths : ℕ
max_artifact_paths = 16

abbrev pub max_artifact_path_bytes : ℕ
max_artifact_path_bytes = 256

abbrev pub max_total_artifact_paths : ℕ
max_total_artifact_paths = 64

abbrev pub max_artifact_files : ℕ
max_artifact_files = 256

abbrev pub max_artifact_omissions : ℕ
max_artifact_omissions = 128

abbrev pub max_artifact_file_path_bytes : ℕ
max_artifact_file_path_bytes = 1024

abbrev pub max_artifact_file_bytes : ℕ
max_artifact_file_bytes = 512 * 1024 * 1024

abbrev pub max_total_artifact_bytes : ℕ
max_total_artifact_bytes = 1024 * 1024 * 1024

pub data ErrorKind : Type 0 where
  decode validation : ErrorKind

pub record ProtocolError : Type 0 where
  pub kind : ErrorKind
  pub field : String
  pub rule : String

-- `validationError(field, rule)`, as the error that a function returns
abbrev pub validation_error : {A : Type 0} → String → String → Result ProtocolError A
validation_error f r = err (record { kind = ErrorKind.validation; field = f; rule = r })

abbrev pub Validated : Type 0
Validated = Checked ProtocolError

pub data Shell : Type 0 where
  bash cmd git_bash powershell pwsh : Shell
  other : Bytes → Shell

pub data RequestOperation : Type 0 where
  execute start status stop logs : RequestOperation
  other : Bytes → RequestOperation

pub record ArtifactSelection : Type 0 where
  pub name : Bytes
  pub paths : Slice Bytes

pub record Request : Type 0 where
  pub protocol_version : ℕ
  pub request_id : Bytes
  pub session_id : Bytes
  pub actor : Bytes
  pub operation : RequestOperation
  pub process_id : Bytes
  pub shell : Shell
  pub working_directory : Bytes
  pub script : Bytes
  pub timeout_seconds : ℤ
  pub max_output_bytes : ℤ
  pub artifacts : Slice ArtifactSelection

pub record IssueProvenance : Type 0 where
  pub number : ℤ
  pub node_id : Bytes
  pub sender_id : ℤ
  pub sender_login : Bytes

pub record WorkflowProvenance : Type 0 where
  pub repository : Bytes
  pub run_id : ℤ
  pub run_attempt : ℤ
  pub event_name : Bytes
  pub event_action : Bytes
  pub head_sha : Bytes

pub record AcceptedRequestRecord : Type 0 where
  pub protocol_version : ℕ
  pub request_id : Bytes
  pub request_digest : Bytes
  pub request : Request
  pub issue : IssueProvenance
  pub workflow : WorkflowProvenance
  pub control_source_sha : Bytes
  pub accepted_at : Bytes

pub data CommandStatus : Type 0 where
  cancelled completed failed runtime_failed timed_out : CommandStatus
  other : Bytes → CommandStatus

pub data ArtifactStatus : Type 0 where
  complete complete_with_omissions failed not_requested : ArtifactStatus
  other : Bytes → ArtifactStatus

pub data ArtifactOmissionReason : Type 0 where
  byte_limit collection_failed file_limit link_rejected no_match : ArtifactOmissionReason
  policy_rejected read_failed unsupported_type : ArtifactOmissionReason
  other : Bytes → ArtifactOmissionReason

pub record OutputMetadata : Type 0 where
  pub sha256 : Bytes
  pub total_bytes : ℤ
  pub retained_bytes : ℤ
  pub truncated : Bool

pub record ArtifactFile : Type 0 where
  pub group : Bytes
  pub path : Bytes
  pub sha256 : Bytes
  pub size_bytes : ℤ

pub record ArtifactOmission : Type 0 where
  pub group : Bytes
  pub pattern_text : Bytes
  pub reason : ArtifactOmissionReason

pub record ArtifactManifest : Type 0 where
  pub status : ArtifactStatus
  pub files : Slice ArtifactFile
  pub omissions : Slice ArtifactOmission

pub record ExecutionReport : Type 0 where
  pub protocol_version : ℕ
  pub request_id : Bytes
  pub request_digest : Bytes
  pub attempt_id : Bytes
  pub gateway_source_sha : Bytes
  pub command_status : CommandStatus
  pub exit_code : Option ℤ
  pub started_at : Bytes
  pub finished_at : Bytes
  pub duration_milliseconds : ℤ
  pub stdout : OutputMetadata
  pub stderr : OutputMetadata
  pub artifacts : ArtifactManifest

pub record ResultRecord : Type 0 where
  pub protocol_version : ℕ
  pub request_id : Bytes
  pub request_digest : Bytes
  pub attempt_id : Bytes
  pub gateway_source_sha : Bytes
  pub command_status : CommandStatus
  pub exit_code : Option ℤ
  pub started_at : Bytes
  pub finished_at : Bytes
  pub duration_milliseconds : ℤ
  pub stdout : OutputMetadata
  pub stderr : OutputMetadata
  pub artifacts : ArtifactManifest
  pub finalized_at : Bytes
  pub workflow : WorkflowProvenance
