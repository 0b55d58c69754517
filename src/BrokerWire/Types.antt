-- ===== src/BrokerWire/Types.antt =====
-- internal/brokerwire: types.go and preamble.go. The JSON of a preamble and of a report is a `Codec`.
use agent_workstation_gatewa.Base.{
  ℕ, ◌*◌, Bool, true, false, not, ◌&&◌, ◌||◌, List, [], ◌∷◌, ℤ, pos, negsuc, eq_ℤ, Result, Checked,
  ok, err, ◌>>=◌, ◌>>◌, map_err, reject, ltb, ◌==◌, length, Option, none, some,
}
use agent_workstation_gatewa.Text.{Bytes, codes, bytes_eq}
use agent_workstation_gatewa.Library.{Library, digest_hex}
use agent_workstation_gatewa.Protocol.Types.{
  items, ArtifactFile, OutputMetadata, ExecutionReport, max_execution_report_bytes,
}
use agent_workstation_gatewa.Protocol.Fields.{all_bytes, is_lower_hex}
use agent_workstation_gatewa.Protocol.Report.{validate_execution_report}
use agent_workstation_gatewa.IpcFrame.{FrameRule}
use agent_workstation_gatewa.ExecutionRun.Types.{ArtifactBundle, Output}
use agent_workstation_gatewa.ExecutionRun.Artifacts.{has_bundle}

abbrev pub current_version : ℕ
current_version = 1

pub data Outcome : Type 0 where
  execution rejected : Outcome
  other : Bytes → Outcome

pub data Failure : Type 0 where
  no_failure invalid_frame invalid_envelope authorization_denied execution_unavailable
        response_unavailable :
      Failure
  other : Bytes → Failure

abbrev pub max_preamble_bytes : ℕ
max_preamble_bytes = 1024

abbrev pub max_data_chunk_bytes : ℕ
max_data_chunk_bytes = 64 * 1024

abbrev pub max_exchange_marker_bytes : ℕ
max_exchange_marker_bytes = 16

abbrev pub terminal_marker : Bytes
terminal_marker = codes "AWG\u{1}DONE"

abbrev pub acknowledgement_marker : Bytes
acknowledgement_marker = codes "AWG\u{1}ACK"

pub record Preamble : Type 0 where
  pub protocol_version : ℕ
  pub outcome : Outcome
  pub failure : Failure
  pub stdout_retained_sha256 : Bytes
  pub stderr_retained_sha256 : Bytes

-- The rules of `Error`, and `remote` for `RemoteError`
pub data WireRule : Type 0 where
  unsupported_version unsupported_failure execution_cannot_carry_failure retained_digest_invalid :
      WireRule
  rejection_requires_failure rejection_cannot_carry_digests unsupported_outcome : WireRule
  preamble_decode_failed preamble_encode_failed rejection_invalid preamble_write_failed : WireRule
  stream_required artifact_bundle_close_failed writer_required report_encode_failed
        report_write_failed :
      WireRule
  stdout_write_failed stderr_write_failed terminal_marker_write_failed acknowledgement_invalid :
      WireRule
  report_invalid retained_length_mismatch stdout_digest_mismatch stderr_digest_mismatch : WireRule
  artifact_bundle_shape_invalid artifact_open_failed artifact_content_truncated
        artifact_write_failed :
      WireRule
  artifact_content_overrun artifact_final_read_failed artifact_digest_mismatch
        artifact_reader_close_failed :
      WireRule
  reader_required preamble_read_failed report_read_failed stdout_read_failed stderr_read_failed :
      WireRule
  stdout_retained_digest_mismatch stderr_retained_digest_mismatch artifact_sink_required : WireRule
  artifact_transaction_begin_failed artifact_transaction_commit_failed terminal_marker_invalid :
      WireRule
  acknowledgement_write_failed content_length_invalid content_chunk_overrun content_read_failed :
      WireRule
  artifact_destination_open_failed artifact_destination_write_failed
        artifact_destination_close_failed :
      WireRule
  trailing_data response_close_failed out_of_fuel : WireRule
  remote : Failure → WireRule

-- json.Marshal and the strict decoding of the two records; `none` for an error
pub record Codec : Type 0 where
  pub encode_preamble : Preamble → Option Bytes
  pub decode_preamble_object : Bytes → Option Preamble
  pub encode_report : ExecutionReport → Option Bytes
  pub decode_report_object : Bytes → Option ExecutionReport

-- `(len(files) == 0) != (output.ArtifactBundle == nil)`
abbrev pub is_bundle_misshapen : List ArtifactFile → Option ArtifactBundle → Bool
is_bundle_misshapen [] bundle = has_bundle bundle
is_bundle_misshapen (file ∷ files) bundle = not (has_bundle bundle)

-- `lowerHexDigest`
abbrev pub lower_hex_digest : Bytes → Bool
lower_hex_digest value = length value == 64 && all_bytes is_lower_hex value

-- `supportedFailures`
abbrev pub is_supported_failure : Failure → Bool
is_supported_failure (Failure.other name) = false
is_supported_failure _ = true

abbrev pub is_no_failure : Failure → Bool
is_no_failure no_failure = true
is_no_failure _ = false

-- The `switch` of `ValidatePreamble`
abbrev pub validate_outcome : Preamble → Outcome → Checked WireRule
validate_outcome preamble execution = do
  reject (not (is_no_failure preamble.failure)) execution_cannot_carry_failure
  reject
      (not (lower_hex_digest preamble.stdout_retained_sha256)
        || not (lower_hex_digest preamble.stderr_retained_sha256))
      retained_digest_invalid
validate_outcome preamble rejected = do
  reject (is_no_failure preamble.failure) rejection_requires_failure
  reject
      (not (bytes_eq preamble.stdout_retained_sha256 [])
        || not (bytes_eq preamble.stderr_retained_sha256 []))
      rejection_cannot_carry_digests
validate_outcome preamble (Outcome.other name) = err unsupported_outcome

-- `ValidatePreamble`
unfoldable pub validate_preamble : Preamble → Checked WireRule
validate_preamble preamble = do
  reject (not (preamble.protocol_version == current_version)) unsupported_version
  reject (not (is_supported_failure preamble.failure)) unsupported_failure
  validate_outcome preamble preamble.outcome

abbrev pub or_rule : {A : Type 0} → WireRule → Option A → Result WireRule A
or_rule rule none = err rule
or_rule rule (some x) = ok x

-- An int64 size as a number of bytes; no loop runs for a negative one
abbrev pub size_of : ℤ → ℕ
size_of (pos n) = n
size_of (negsuc n) = 0

-- A frame that is read is this marker
abbrev pub is_marker : Bytes → Result FrameRule (Bytes × Bytes) → Bool
is_marker marker (ok (payload, rest)) = bytes_eq payload marker
is_marker marker (err e) = false

module _ (lib : Library) (codec : Codec) where
  -- `DecodePreamble`
  unfoldable pub decode_preamble : Bytes → Result WireRule Preamble
  decode_preamble encoded = do
    reject (ltb max_preamble_bytes (length encoded)) preamble_decode_failed
    preamble ← or_rule preamble_decode_failed (codec.decode_preamble_object encoded)
    validate_preamble preamble
    ok preamble

  -- `MarshalCanonicalPreamble`
  unfoldable pub marshal_canonical_preamble : Preamble → Result WireRule Bytes
  marshal_canonical_preamble preamble = do
    validate_preamble preamble
    encoded ← or_rule preamble_encode_failed (codec.encode_preamble preamble)
    reject (ltb max_preamble_bytes (length encoded)) preamble_encode_failed
    ok encoded

  -- `MarshalCanonicalExecutionReport`, with the caller's rule for its errors
  unfoldable pub marshal_canonical_execution_report : ExecutionReport → Result WireRule Bytes
  marshal_canonical_execution_report report = do
    map_err report_encode_failed (validate_execution_report lib report)
    encoded ← or_rule report_encode_failed (codec.encode_report report)
    reject (ltb max_execution_report_bytes (length encoded)) report_encode_failed
    ok encoded

  -- `DecodeExecutionReport`, with the caller's rule for its errors
  unfoldable pub decode_execution_report : Bytes → Result WireRule ExecutionReport
  decode_execution_report encoded = do
    reject (ltb max_execution_report_bytes (length encoded)) report_invalid
    report ← or_rule report_invalid (codec.decode_report_object encoded)
    map_err report_invalid (validate_execution_report lib report)
    ok report

  -- `!metadata.Truncated && digestBytes(content) != metadata.SHA256`
  abbrev pub is_other_digest : OutputMetadata → Bytes → Bool
  is_other_digest metadata content =
      not metadata.truncated && not (bytes_eq (digest_hex lib content) metadata.sha256)

  -- `validateOutput`
  unfoldable pub validate_output : Output → Checked WireRule
  validate_output output = do
    map_err report_invalid (validate_execution_report lib output.report)
    reject
        (not (eq_ℤ (pos (length output.stdout)) output.report.stdout.retained_bytes)
          || not (eq_ℤ (pos (length output.stderr)) output.report.stderr.retained_bytes))
        retained_length_mismatch
    reject (is_other_digest output.report.stdout output.stdout) stdout_digest_mismatch
    reject (is_other_digest output.report.stderr output.stderr) stderr_digest_mismatch
    reject (is_bundle_misshapen (items output.report.artifacts.files) output.artifact_bundle)
        artifact_bundle_shape_invalid
