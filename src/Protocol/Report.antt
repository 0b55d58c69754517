-- ===== src/Protocol/Report.antt =====
-- protocol/v1/result_validate.go and records_validate.go: execution reports, results, provenance.
pub mod Manifest
pub mod Parts
use Prim.Native.String.{◌++◌ as text_append}
use agent_workstation_gatewa.Base.{
  ℕ, suc, ◌+◌, ◌-◌, ◌/◌, ◌%◌, ◌^◌, min, String, Bool, true, false, not, ◌&&◌, ◌||◌, List, [], ◌∷◌,
  ◌++◌, ok, err, ◌>>=◌, ◌>>◌, ltb, leb, ◌==◌, ℤ, pos, negsuc, lt_ℤ, le_ℤ, eq_ℤ, if◌then◌else◌,
  length, Option, none, some, Result,
}
use agent_workstation_gatewa.Text.{Bytes, codes, bytes_eq, within}
use agent_workstation_gatewa.Library.{Library}
use agent_workstation_gatewa.PlatformPath.{is_one_of}
use agent_workstation_gatewa.Protocol.Types.{
  Slice, items, ProtocolError, Validated, validation_error, CommandStatus, cancelled, completed,
  failed, runtime_failed, timed_out, ArtifactStatus, complete, complete_with_omissions,
  not_requested, ArtifactOmissionReason, OutputMetadata, ArtifactFile, ArtifactOmission,
  ArtifactManifest, ExecutionReport, ResultRecord, max_output_bytes, max_artifact_files,
  max_artifact_omissions, max_artifact_file_bytes, max_total_artifact_bytes,
}
use agent_workstation_gatewa.Protocol.Fields.{
  deny, validate_identifier, validate_lower_hex, validate_artifact_group,
  validate_artifact_file_path, validate_artifact_omission_pattern,
}
use agent_workstation_gatewa.Protocol.Request.{version}

-- `exitCode == nil || *exitCode != 0`
abbrev pub is_not_zero : Option ℤ → Bool
is_not_zero none = true
is_not_zero (some code) = not (eq_ℤ code (pos 0))

-- `exitCode == nil || *exitCode <= 0 || *exitCode > 4294967295`
abbrev pub is_no_failure_code : Option ℤ → Bool
is_no_failure_code none = true
is_no_failure_code (some code) = le_ℤ code (pos 0) || lt_ℤ (pos 4294967295) code

abbrev pub is_some : Option ℤ → Bool
is_some none = false
is_some (some code) = true

-- `validateCommandOutcome`
unfoldable pub validate_command_outcome : CommandStatus → Option ℤ → Validated
validate_command_outcome (CommandStatus.other name) code =
    validation_error "command_status" "unsupported-status"
validate_command_outcome completed code =
    deny (is_not_zero code) "exit_code" "completed-requires-zero"
validate_command_outcome CommandStatus.failed code =
    deny (is_no_failure_code code) "exit_code" "failed-requires-platform-code"
validate_command_outcome _ code = deny (is_some code) "exit_code" "status-requires-null"

-- `validateOutputMetadata`
unfoldable pub validate_output_metadata : String → OutputMetadata → Validated
validate_output_metadata field output = do
  validate_lower_hex (text_append field ".sha256") output.sha256 64
  deny (lt_ℤ output.total_bytes (pos 0)) (text_append field ".total_bytes") "negative"
  deny
      (lt_ℤ output.retained_bytes (pos 0)
        || lt_ℤ (pos max_output_bytes) output.retained_bytes
        || lt_ℤ output.total_bytes output.retained_bytes)
      (text_append field ".retained_bytes") "outside-total-bytes"
  deny (output.truncated && le_ℤ output.total_bytes output.retained_bytes)
      (text_append field ".truncated") "requires-omitted-bytes"
  deny (not output.truncated && not (eq_ℤ output.retained_bytes output.total_bytes))
      (text_append field ".truncated") "false-requires-all-bytes"

-- `supportedArtifactStatuses`
unfoldable pub is_supported_status : ArtifactStatus → Bool
is_supported_status (ArtifactStatus.other name) = false
is_supported_status _ = true

-- `supportedArtifactOmissionReasons`
unfoldable pub is_supported_reason : ArtifactOmissionReason → Bool
is_supported_reason (ArtifactOmissionReason.other name) = false
is_supported_reason _ = true

-- `string(omission.Reason)`
unfoldable pub reason_text : ArtifactOmissionReason → Bytes
reason_text ArtifactOmissionReason.byte_limit = codes "byte_limit"
reason_text ArtifactOmissionReason.collection_failed = codes "collection_failed"
reason_text ArtifactOmissionReason.file_limit = codes "file_limit"
reason_text ArtifactOmissionReason.link_rejected = codes "link_rejected"
reason_text ArtifactOmissionReason.no_match = codes "no_match"
reason_text ArtifactOmissionReason.policy_rejected = codes "policy_rejected"
reason_text ArtifactOmissionReason.read_failed = codes "read_failed"
reason_text ArtifactOmissionReason.unsupported_type = codes "unsupported_type"
reason_text (ArtifactOmissionReason.other name) = name

abbrev pub is_empty {ℓ} : {A : Type ℓ} → Option (List A) → Bool
is_empty xs = length (items xs) == 0

-- `validateArtifactStatusShape`
unfoldable pub validate_status_shape : ArtifactManifest → ArtifactStatus → Validated
validate_status_shape manifest not_requested =
    deny (not (is_empty manifest.files) || not (is_empty manifest.omissions)) "artifacts.status"
      "not-requested-requires-empty"
validate_status_shape manifest complete =
    deny (is_empty manifest.files || not (is_empty manifest.omissions)) "artifacts.status"
      "complete-requires-files-only"
validate_status_shape manifest complete_with_omissions =
    deny (is_empty manifest.omissions) "artifacts.status" "status-requires-omissions"
validate_status_shape manifest ArtifactStatus.failed =
    deny (is_empty manifest.omissions) "artifacts.status" "status-requires-omissions"
validate_status_shape manifest (ArtifactStatus.other name) = ok tt

abbrev pub is_nil {ℓ} : {A : Type ℓ} → Option (List A) → Bool
is_nil none = true
is_nil (some xs) = false

-- `file.Group + "\x00" + file.Path`
abbrev pub file_identity : ArtifactFile → Bytes
file_identity file = file.group ++ (0 ∷ file.path)

abbrev pub omission_identity : ArtifactOmission → Bytes
omission_identity omission =
    omission.group ++ (0 ∷ (omission.pattern_text ++ (0 ∷ reason_text omission.reason)))

-- `file.SizeBytes < 0 || file.SizeBytes > MaxArtifactFileBytes`
abbrev pub file_size : ℤ → Option ℕ
file_size (negsuc n) = none
file_size (pos n) = if ltb max_artifact_file_bytes n then none else some n

abbrev pub or_deny : Option ℕ → String → String → Result ProtocolError ℕ
or_deny none field rule = validation_error field rule
or_deny (some n) field rule = ok n

module _ (lib : Library) where
  -- The loop over the files; `total` is the int64 sum of the sizes so far.
  unfoldable pub validate_files : List Bytes → ℕ → List ArtifactFile → Validated
  validate_files seen total [] = ok tt
  validate_files seen total (file ∷ files) = do
    validate_artifact_group "artifacts.files.group" file.group
    validate_artifact_file_path lib file.path
    validate_lower_hex "artifacts.files.sha256" file.sha256 64
    size ← or_deny (file_size file.size_bytes) "artifacts.files.size_bytes" "outside-allowed-range"
    deny (is_one_of seen (file_identity file)) "artifacts.files" "duplicate-file"
    deny (ltb max_total_artifact_bytes ((total + size) % 2 ^ 64)) "artifacts.files"
        "total-bytes-exceeded"
    validate_files (file_identity file ∷ seen) ((total + size) % 2 ^ 64) files

  -- The loop over the omissions
  unfoldable pub validate_omissions : List Bytes → List ArtifactOmission → Validated
  validate_omissions seen [] = ok tt
  validate_omissions seen (omission ∷ omissions) = do
    validate_artifact_group "artifacts.omissions.group" omission.group
    validate_artifact_omission_pattern lib omission.pattern_text
    deny (not (is_supported_reason omission.reason)) "artifacts.omissions.reason"
        "unsupported-reason"
    deny (is_one_of seen (omission_identity omission)) "artifacts.omissions" "duplicate-omission"
    validate_omissions (omission_identity omission ∷ seen) omissions

  -- `validateArtifactManifest`
  unfoldable pub validate_artifact_manifest : ArtifactManifest → Validated
  validate_artifact_manifest manifest = do
    deny (not (is_supported_status manifest.status)) "artifacts.status" "unsupported-status"
    deny (is_nil manifest.files || is_nil manifest.omissions) "artifacts" "arrays-required"
    deny (ltb max_artifact_files (length (items manifest.files))) "artifacts.files" "too-many-files"
    deny (ltb max_artifact_omissions (length (items manifest.omissions))) "artifacts.omissions"
        "too-many-omissions"
    validate_status_shape manifest manifest.status
    validate_files [] 0 (items manifest.files)
    validate_omissions [] (items manifest.omissions)

  time_of : Option ℕ → String → Bytes → Result ProtocolError ℕ
  time_of none field value = validation_error field "invalid-timestamp"
  time_of (some instant) field value =
      if bytes_eq (lib.format_time instant) value
      then ok instant
      else validation_error field "not-canonical-utc"

  -- `validateCanonicalUTCTimestamp`
  unfoldable pub validate_timestamp : String → Bytes → Result ProtocolError ℕ
  unfolding time_of
  validate_timestamp field value = time_of (lib.parse_time value) field value

  -- `finishedAt.Sub(startedAt).Milliseconds()` for an interval that is not negative; a Duration
  -- saturates at the largest int64
  abbrev pub milliseconds : ℕ → ℕ → ℕ
  milliseconds started finished = min (finished - started) (2 ^ 63 - 1) / 1000000

  -- `ValidateExecutionReport`
  unfoldable pub validate_execution_report : ExecutionReport → Validated
  validate_execution_report report = do
    deny (not (report.protocol_version == version)) "protocol_version" "unsupported-version"
    validate_identifier "request_id" report.request_id
    validate_lower_hex "request_digest" report.request_digest 64
    validate_identifier "attempt_id" report.attempt_id
    validate_lower_hex "gateway_source_sha" report.gateway_source_sha 40
    validate_command_outcome report.command_status report.exit_code
    started ← validate_timestamp "started_at" report.started_at
    finished ← validate_timestamp "finished_at" report.finished_at
    deny (ltb finished started) "finished_at" "before-started-at"
    deny (not (eq_ℤ report.duration_milliseconds (pos (milliseconds started finished))))
        "duration_ms" "does-not-match-timestamps"
    validate_output_metadata "stdout" report.stdout
    validate_output_metadata "stderr" report.stderr
    validate_artifact_manifest report.artifacts
