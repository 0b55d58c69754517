-- ===== src/BrokerWire/Read.antt =====
-- internal/brokerwire/read.go. A stream is the bytes that it still delivers before its end. The client's
-- artifact sink is how it answers; what it publishes is the result of the transaction.
use agent_workstation_gatewa.Base.{
  ℕ, zero, suc, ◌-◌, ℤ, pos, negsuc, Bool, not, List, [], ◌∷◌, ◌++◌, Result, Checked, ok, err,
  ◌>>=◌, ◌>>◌, map_err, reject, ltb, length, if◌then◌else◌, Option, none, some,
}
use agent_workstation_gatewa.Text.{Bytes, bytes_eq}
use agent_workstation_gatewa.Library.{Library, digest_hex}
use agent_workstation_gatewa.Protocol.Types.{
  items, ArtifactFile, ExecutionReport, max_output_bytes, max_execution_report_bytes,
}
use agent_workstation_gatewa.IpcFrame.{Writer, FrameRule, read, write, send}
use agent_workstation_gatewa.BrokerWire.Types.{
  Outcome, rejected, max_preamble_bytes, max_data_chunk_bytes, max_exchange_marker_bytes,
  terminal_marker, acknowledgement_marker, Preamble, WireRule, remote, Codec, is_marker, size_of,
  decode_preamble, decode_execution_report, artifact_content_truncated, artifact_content_overrun,
  artifact_digest_mismatch, preamble_read_failed, report_read_failed, stdout_read_failed,
  stderr_read_failed, stdout_retained_digest_mismatch, stderr_retained_digest_mismatch,
  artifact_sink_required, artifact_transaction_begin_failed, artifact_transaction_commit_failed,
  terminal_marker_invalid, acknowledgement_write_failed, content_length_invalid,
  content_chunk_overrun, content_read_failed, artifact_destination_open_failed,
  artifact_destination_write_failed, artifact_destination_close_failed, trailing_data,
  response_close_failed, out_of_fuel,
}

-- `ArtifactSink` and `ArtifactTransaction`: whether each call returns nil, and how the destination of a
-- file answers the writes of its chunks
pub record ArtifactSink : Type 0 where
  pub begins : Bool
  pub opens : ArtifactFile → Bool
  pub destination : ArtifactFile → ℕ → Writer
  pub closes : ArtifactFile → Bool
  pub commits : Bool

-- What becomes of the transaction: not begun, aborted, or committed with these files
pub data Transaction : Type 0 where
  not_begun aborted : Transaction
  committed : List (ArtifactFile × Bytes) → Transaction

pub record Response : Type 0 where
  pub report : ExecutionReport
  pub stdout : Bytes
  pub stderr : Bytes

-- `expectEOF`; the first argument tells whether the reader ends with io.EOF, not with another error
unfoldable pub expect_eof : Bool → Bytes → Checked WireRule
expect_eof ends stream = do
  reject (ltb 0 (length stream)) trailing_data
  reject (not ends) response_close_failed

abbrev pub rest_of : Result FrameRule (Bytes × Bytes) → Bytes
rest_of (ok (payload, rest)) = rest
rest_of (err e) = []

-- `finishClientExchange`
unfoldable pub finish_client_exchange : Writer → Bool → Bytes → Checked WireRule
finish_client_exchange writer ends stream = do
  let terminal = read (some stream) (pos max_exchange_marker_bytes)
  reject (not (is_marker terminal_marker terminal)) terminal_marker_invalid
  map_err acknowledgement_write_failed
      (write (some writer) acknowledgement_marker (pos max_exchange_marker_bytes)).0
  expect_eof ends (rest_of terminal)

-- The loop of `readBytes`, on fuel for each byte
unfoldable pub read_content : ℕ → ℕ → Bytes → Bytes → Result WireRule (Bytes × Bytes)
read_content fuel zero content stream = ok (content, stream)
read_content zero (suc remaining) content stream = err out_of_fuel
read_content (suc fuel) (suc remaining) content stream = do
  (chunk, rest) ← map_err content_read_failed (read (some stream) (pos max_data_chunk_bytes))
  reject (ltb (suc remaining) (length chunk)) content_chunk_overrun
  read_content fuel (suc remaining - length chunk) (content ++ chunk) rest

-- `readBytes`
unfoldable pub read_bytes : ℤ → Bytes → Result WireRule (Bytes × Bytes)
read_bytes (negsuc n) stream = err content_length_invalid
read_bytes (pos size) stream =
    if ltb max_output_bytes size
    then err content_length_invalid
    else read_content size size [] stream

abbrev pub write_rule : FrameRule → WireRule
write_rule FrameRule.out_of_fuel = WireRule.out_of_fuel
write_rule _ = artifact_destination_write_failed

abbrev pub taken_of : Checked FrameRule × Bytes → Result WireRule Bytes
taken_of (ok _, taken) = ok taken
taken_of (err rule, taken) = err (write_rule rule)

-- `writeAll`, which is the loop of ipcframe's `Write` again: what the destination has taken. The
-- caller's rule stands for all its errors; `out_of_fuel` belongs to the model only.
abbrev pub write_all : Writer → Bytes → Result WireRule Bytes
write_all writer content = taken_of (send writer (length content) 0 content [])

-- The loop of `readArtifact`: what it has hashed, and what the destination has taken
unfoldable pub read_chunks :
    (ℕ → Writer) → ℕ → ℕ → ℕ → Bytes → Bytes → Bytes → Result WireRule (Bytes × Bytes × Bytes)
read_chunks destination k fuel zero hashed taken stream = ok (hashed, taken, stream)
read_chunks destination k zero (suc remaining) hashed taken stream = err out_of_fuel
read_chunks destination k (suc fuel) (suc remaining) hashed taken stream = do
  (chunk, rest) ← map_err artifact_content_truncated (read (some stream) (pos max_data_chunk_bytes))
  reject (ltb (suc remaining) (length chunk)) artifact_content_overrun
  taken_chunk ← write_all (destination k) chunk
  read_chunks destination (suc k) fuel (suc remaining - length chunk) (hashed ++ chunk)
      (taken ++ taken_chunk) rest

module _ (lib : Library) (codec : Codec) where
  -- `readArtifact`: what the destination has taken
  unfoldable pub read_artifact :
      ArtifactSink → ArtifactFile → Bytes → Result WireRule (Bytes × Bytes)
  read_artifact sink file stream = do
    reject (not (sink.opens file)) artifact_destination_open_failed
    (hashed, taken, rest) ←
        read_chunks (sink.destination file) 0 (size_of file.size_bytes) (size_of file.size_bytes) []
          [] stream
    reject (not (bytes_eq (digest_hex lib hashed) file.sha256)) artifact_digest_mismatch
    reject (not (sink.closes file)) artifact_destination_close_failed
    ok (taken, rest)

  unfoldable pub read_artifacts :
      ArtifactSink
      → List ArtifactFile
      → Bytes
      → Result WireRule (List (ArtifactFile × Bytes) × Bytes)
  read_artifacts sink [] stream = ok ([], stream)
  read_artifacts sink (file ∷ files) stream = do
    (content, rest) ← read_artifact sink file stream
    (contents, end) ← read_artifacts sink files rest
    ok ((file, content) ∷ contents, end)

  -- `readResponse` up to the artifacts: the response, and the stream behind it
  unfoldable pub read_streams : Preamble → Bytes → Result WireRule (Response × Bytes)
  read_streams preamble stream = do
    (encoded_report, s1) ←
        map_err report_read_failed (read (some stream) (pos max_execution_report_bytes))
    report ← decode_execution_report lib codec encoded_report
    (stdout, s2) ← map_err stdout_read_failed (read_bytes report.stdout.retained_bytes s1)
    reject (not (bytes_eq (digest_hex lib stdout) preamble.stdout_retained_sha256))
        stdout_retained_digest_mismatch
    (stderr, s3) ← map_err stderr_read_failed (read_bytes report.stderr.retained_bytes s2)
    reject (not (bytes_eq (digest_hex lib stderr) preamble.stderr_retained_sha256))
        stderr_retained_digest_mismatch
    ok (record { report = report; stdout = stdout; stderr = stderr }, s3)

  -- The transaction from its begin, with the deferred `Abort`
  abbrev pub settle_transaction :
      ArtifactSink
      → Response
      → Result WireRule (List (ArtifactFile × Bytes))
      → Result WireRule Response × Transaction
  settle_transaction sink response (err rule) = (err rule, aborted)
  settle_transaction sink response (ok contents) =
      if sink.commits
      then (ok response, committed contents)
      else (err artifact_transaction_commit_failed, aborted)

  abbrev pub receive_artifacts :
      ArtifactSink
      → (Bytes → Checked WireRule)
      → Response
      → Bytes
      → Result WireRule (List (ArtifactFile × Bytes))
  receive_artifacts sink finish response stream = do
    (contents, rest) ← read_artifacts sink (items response.report.artifacts.files) stream
    finish rest
    ok contents

  abbrev pub after_finish : Checked WireRule → Response → Result WireRule Response
  after_finish finished response = do finished; ok response

  unfoldable pub with_artifacts :
      Option ArtifactSink
      → (Bytes → Checked WireRule)
      → Response
      → List ArtifactFile
      → Bytes
      → Result WireRule Response × Transaction
  with_artifacts sink finish response [] stream = (after_finish (finish stream) response, not_begun)
  with_artifacts none finish response (file ∷ files) stream =
      (err artifact_sink_required, not_begun)
  with_artifacts (some sink) finish response (file ∷ files) stream =
      if sink.begins
      then settle_transaction sink response (receive_artifacts sink finish response stream)
      else (err artifact_transaction_begin_failed, not_begun)

  abbrev pub with_response :
      Option ArtifactSink
      → (Bytes → Checked WireRule)
      → Result WireRule (Response × Bytes)
      → Result WireRule Response × Transaction
  with_response sink finish (err rule) = (err rule, not_begun)
  with_response sink finish (ok (response, stream)) =
      with_artifacts sink finish response (items response.report.artifacts.files) stream

  abbrev pub with_preamble :
      Option ArtifactSink
      → (Bytes → Checked WireRule)
      → Preamble
      → Bytes
      → Outcome
      → Result WireRule Response × Transaction
  with_preamble sink finish preamble stream rejected =
      ((finish stream >>= λ _. err (remote preamble.failure)), not_begun)
  with_preamble sink finish preamble stream _ =
      with_response sink finish (read_streams preamble stream)

  unfoldable pub read_preamble : Bytes → Result WireRule (Preamble × Bytes)
  read_preamble stream = do
    (encoded, rest) ← map_err preamble_read_failed (read (some stream) (pos max_preamble_bytes))
    preamble ← decode_preamble lib codec encoded
    ok (preamble, rest)

  abbrev pub begin_response :
      Option ArtifactSink
      → (Bytes → Checked WireRule)
      → Result WireRule (Preamble × Bytes)
      → Result WireRule Response × Transaction
  begin_response sink finish (err rule) = (err rule, not_begun)
  begin_response sink finish (ok (preamble, stream)) =
      with_preamble sink finish preamble stream preamble.outcome

  -- `readResponse`
  unfoldable pub read_response :
      Option ArtifactSink
      → (Bytes → Checked WireRule)
      → Bytes
      → Result WireRule Response × Transaction
  read_response sink finish stream = begin_response sink finish (read_preamble stream)
