-- ===== src/BrokerWire/Write.antt =====
-- internal/brokerwire/write.go. A writer answers the calls of each frame as it likes; what it has taken
-- is carried along, so that each function is a step from a state to a state and a result.
use agent_workstation_gatewa.Base.{
  ℕ, zero, suc, ◌-◌, min, pos, Bool, true, not, List, [], ◌∷◌, ◌++◌, Checked, ok, err, map_err,
  reject, ltb, length, take, drop, Option, none, some,
}
use agent_workstation_gatewa.Text.{Bytes, bytes_eq}
use agent_workstation_gatewa.Library.{Library, digest_hex}
use agent_workstation_gatewa.Protocol.Types.{items, ArtifactFile, max_execution_report_bytes}
use agent_workstation_gatewa.IpcFrame.{Writer, read_full, read, write}
use agent_workstation_gatewa.ExecutionRun.Types.{ArtifactReader, ArtifactBundle, Output}
use agent_workstation_gatewa.BrokerWire.Types.{
  current_version, execution, rejected, Failure, no_failure, max_preamble_bytes,
  max_data_chunk_bytes, max_exchange_marker_bytes, terminal_marker, acknowledgement_marker,
  Preamble, WireRule, Codec, is_no_failure, or_rule, is_marker, size_of, marshal_canonical_preamble,
  marshal_canonical_execution_report, validate_output, rejection_invalid, preamble_write_failed,
  artifact_bundle_close_failed, report_write_failed, stdout_write_failed, stderr_write_failed,
  terminal_marker_write_failed, acknowledgement_invalid, artifact_open_failed,
  artifact_content_truncated, artifact_write_failed, artifact_content_overrun,
  artifact_final_read_failed, artifact_digest_mismatch, artifact_reader_close_failed, out_of_fuel,
}
use agent_workstation_gatewa.BrokerWire.Writing.{Sent, Writing, ◌>>=◌, ◌>>◌, lift}

abbrev pub open_in : Option ArtifactBundle → ArtifactFile → Option ArtifactReader
open_in none file = none
open_in (some bundle) file = bundle.open_file file.group file.path

module _ (lib : Library) (codec : Codec) (writers : ℕ → Writer) where
  -- ipcframe.Write, with the rule for its errors
  unfoldable pub emit_frame : Bytes → ℕ → WireRule → Writing (Unit {0})
  emit_frame payload maximum rule sent =
      let (result, taken) = write (some (writers sent.frames)) payload (pos maximum) in
      (
        record { frames = suc sent.frames; delivered = sent.delivered ++ taken },
        map_err rule result,
      )

  -- `writeBytes`, on fuel for each byte
  unfoldable pub write_bytes : ℕ → Bytes → WireRule → Writing (Unit {0})
  write_bytes fuel [] rule = lift (ok tt)
  write_bytes zero (c ∷ content) rule = lift (err out_of_fuel)
  write_bytes (suc fuel) (c ∷ content) rule = do
    emit_frame (take max_data_chunk_bytes (c ∷ content)) max_data_chunk_bytes rule
    write_bytes fuel (drop max_data_chunk_bytes (c ∷ content)) rule

  -- The loop of `writeArtifact`: what it has hashed, and what the reader still has
  unfoldable pub write_chunks : ℕ → ℕ → Bytes → Bytes → Writing (Bytes × Bytes)
  write_chunks fuel zero hashed content = lift (ok (hashed, content))
  write_chunks zero (suc remaining) hashed content = lift (err out_of_fuel)
  write_chunks (suc fuel) (suc remaining) hashed content = do
    let want = min (suc remaining) max_data_chunk_bytes
    (chunk, rest) ← lift (or_rule artifact_content_truncated (read_full want content))
    emit_frame chunk max_data_chunk_bytes artifact_write_failed
    write_chunks fuel (suc remaining - want) (hashed ++ chunk) rest

  -- `writeArtifact`
  unfoldable pub write_artifact : Option ArtifactBundle → ArtifactFile → Writing (Unit {0})
  write_artifact bundle file = do
    reader ← lift (or_rule artifact_open_failed (open_in bundle file))
    (hashed, rest) ←
        write_chunks (size_of file.size_bytes) (size_of file.size_bytes) [] reader.content
    lift (reject (ltb 0 (length rest)) artifact_content_overrun)
    lift (reject (not reader.ends) artifact_final_read_failed)
    lift (reject (not (bytes_eq (digest_hex lib hashed) file.sha256)) artifact_digest_mismatch)
    lift (reject (not reader.closes) artifact_reader_close_failed)

  unfoldable pub write_artifacts : Option ArtifactBundle → List ArtifactFile → Writing (Unit {0})
  write_artifacts bundle [] = lift (ok tt)
  write_artifacts bundle (file ∷ files) = do
    write_artifact bundle file
    write_artifacts bundle files

  abbrev pub preamble_of : Output → Preamble
  preamble_of output = record {
    protocol_version = current_version;
    outcome = execution;
    failure = no_failure;
    stdout_retained_sha256 = digest_hex lib output.stdout;
    stderr_retained_sha256 = digest_hex lib output.stderr;
  }

  -- `WriteExecution` up to the deferred `Close`
  unfoldable pub write_output : Output → Writing (Unit {0})
  write_output output = do
    lift (validate_output lib codec output)
    preamble ← lift (marshal_canonical_preamble lib codec (preamble_of output))
    report ← lift (marshal_canonical_execution_report lib codec output.report)
    emit_frame preamble max_preamble_bytes preamble_write_failed
    emit_frame report max_execution_report_bytes report_write_failed
    write_bytes (length output.stdout) output.stdout stdout_write_failed
    write_bytes (length output.stderr) output.stderr stderr_write_failed
    write_artifacts output.artifact_bundle (items output.report.artifacts.files)

  -- `output.Close() == nil`
  abbrev pub bundle_closes : Option ArtifactBundle → Bool
  bundle_closes none = true
  bundle_closes (some bundle) = bundle.closes

  -- The deferred `Close`: its error counts where there is no other
  abbrev pub close_output : Bool → Sent × Checked WireRule → Sent × Checked WireRule
  close_output closes (sent, err rule) = (sent, err rule)
  close_output closes (sent, ok x) = (sent, reject (not closes) artifact_bundle_close_failed)

  -- `WriteExecution`
  unfoldable pub write_execution : Output → Writing (Unit {0})
  write_execution output sent =
      close_output (bundle_closes output.artifact_bundle) (write_output output sent)

  -- `WriteRejection`
  unfoldable pub write_rejection : Failure → Writing (Unit {0})
  write_rejection failure = do
    lift (reject (is_no_failure failure) rejection_invalid)
    preamble ← lift (
        marshal_canonical_preamble lib codec (record {
          protocol_version = current_version;
          outcome = rejected;
          failure = failure;
          stdout_retained_sha256 = [];
          stderr_retained_sha256 = [];
        }))
    emit_frame preamble max_preamble_bytes preamble_write_failed

  -- `finishServerExchange`, with what the client sends
  unfoldable pub finish_server_exchange : Bytes → Writing (Unit {0})
  finish_server_exchange incoming = do
    emit_frame terminal_marker max_exchange_marker_bytes terminal_marker_write_failed
    lift (
        reject
          (not (
            is_marker acknowledgement_marker
              (read (some incoming) (pos max_exchange_marker_bytes))))
          acknowledgement_invalid)

  -- `WriteExecutionExchange`
  unfoldable pub write_execution_exchange : Bytes → Output → Writing (Unit {0})
  write_execution_exchange incoming output = do
    write_execution output
    finish_server_exchange incoming

  -- `WriteRejectionExchange`
  unfoldable pub write_rejection_exchange : Bytes → Failure → Writing (Unit {0})
  write_rejection_exchange incoming failure = do
    write_rejection failure
    finish_server_exchange incoming
