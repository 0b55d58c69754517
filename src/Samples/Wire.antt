-- ===== src/Samples/Wire.antt =====
-- A response on the wire, and an exchange.
use agent_workstation_gatewa.Base.{
  ap, ◌≡◌, refl, true, false, pos, [], ◌∷◌, ok, some, length, arith,
}
use agent_workstation_gatewa.Text.{
  Bytes, codes, bytes_eq, utf8_valid, has_prefix, contains_byte, contains_any, split, extend,
}
use agent_workstation_gatewa.Library.{ascii_lower, digest_hex, hex, hex_digit}
use agent_workstation_gatewa.PlatformPath.{is_one_of, is_non_canonical, has_control_character}
use agent_workstation_gatewa.Protocol.Fields.{
  all_bytes, is_lower_hex, is_sensitive, validate_artifact_segment, validate_glob_use,
  validate_relative_artifact_path, matches_identifier, is_bad_name, validate_identifier, each,
  validate_lower_hex, validate_artifact_group, validate_artifact_file_path,
}
use agent_workstation_gatewa.Protocol.Report.{
  validate_command_outcome, validate_output_metadata, is_supported_status, validate_status_shape,
  validate_files, validate_omissions, validate_artifact_manifest, validate_timestamp,
  validate_execution_report,
}
use agent_workstation_gatewa.Protocol.Types.{items}
use agent_workstation_gatewa.IpcFrame.{Writer, write, send, put_uint32, read_full}
use agent_workstation_gatewa.IpcFrame.Header.{MakesProgress}
use agent_workstation_gatewa.ExecutionRun.Types.{Output}
use agent_workstation_gatewa.BrokerWire.Types.{
  Preamble, execution, no_failure, Codec, validate_output, marshal_canonical_preamble,
  validate_preamble, marshal_canonical_execution_report,
}
use agent_workstation_gatewa.BrokerWire.Writing.{Sent}
use agent_workstation_gatewa.BrokerWire.Write.{
  preamble_of, emit_frame, write_bytes, write_chunks, write_artifact, write_artifacts, write_output,
  write_execution,
}
use agent_workstation_gatewa.BrokerWire.Read.{
  ArtifactSink, Response, expect_eof, read_preamble, read_response,
}
use agent_workstation_gatewa.BrokerWire.Carried.{Accepts}
use agent_workstation_gatewa.BrokerWire.Committed.{Holds, IsWhole, read_response-committed}
use agent_workstation_gatewa.BrokerWire.RoundTrip.{contents_of}
use agent_workstation_gatewa.BrokerWire.Decoded.{DecodesBack}
use agent_workstation_gatewa.BrokerWire.Whole.{
  published, response_of, read_response-write_execution,
}
use agent_workstation_gatewa.Samples.Records.{tally, zeros, report}

-- Takes everything at once.
abbrev pub eager : Writer
eager k s = record { count = pos (length s); failed = false }

eager-MakesProgress : MakesProgress eager
eager-MakesProgress k b s = (length s, refl, omega arith)

abbrev output : Output
output = record {
  report = report;
  stdout = [];
  stderr = [];
  artifact_bundle = some (record {
    open_file = λ group path. some (record { content = codes "hello"; ends = true; closes = true });
    closes = true;
  });
}

abbrev pub preamble : Preamble
preamble = record {
  protocol_version = 1;
  outcome = execution;
  failure = no_failure;
  stdout_retained_sha256 = zeros 64;
  stderr_retained_sha256 = zeros 64;
}

-- An encoding of this one preamble and of this one report.
abbrev pub codec : Codec
codec = record {
  encode_preamble = λ p. some (codes "P");
  decode_preamble_object = λ b. some preamble;
  encode_report = λ r. some (codes "R");
  decode_report_object = λ b. some report;
}

abbrev pub sink : ArtifactSink
sink = record {
  begins = true;
  opens = λ file. true;
  destination = λ file k. eager;
  closes = λ file. true;
  commits = true;
}

sink-Accepts : Accepts sink
sink-Accepts = record {
  begins = refl;
  opens = λ file. refl;
  progresses = λ file k. eager-MakesProgress;
  closes = λ file. refl;
  commits = refl;
}

abbrev pub stream : Bytes
stream = 0 ∷ 0 ∷ 0 ∷ 1 ∷ b'P' ∷ 0 ∷ 0 ∷ 0 ∷ 1 ∷ b'R' ∷ 0 ∷ 0 ∷ 0 ∷ 5 ∷ codes "hello"

abbrev sent : Sent
sent = record { frames = 3; delivered = stream }

pub report_valid : validate_execution_report tally report ≡ ok tt
unfolding validate_execution_report validate_identifier is_bad_name matches_identifier all_bytes
    validate_lower_hex validate_command_outcome validate_timestamp validate_output_metadata
    validate_artifact_manifest is_supported_status validate_status_shape validate_files
    validate_omissions validate_artifact_group validate_artifact_file_path
    validate_relative_artifact_path validate_glob_use validate_artifact_segment is_sensitive
    is_one_of each is_non_canonical has_control_character utf8_valid has_prefix contains_byte
    contains_any split extend bytes_eq ascii_lower
report_valid = refl

written :
    write_execution tally codec (λ k. eager) output (record { frames = 0; delivered = [] })
    ≡ (sent, ok tt)
unfolding write_execution write_output validate_output bytes_eq digest_hex hex hex_digit
    marshal_canonical_preamble validate_preamble all_bytes is_lower_hex
    marshal_canonical_execution_report emit_frame write_bytes write_artifacts write_artifact
    write_chunks write send put_uint32 read_full
written = rw (report_valid) refl

codec-DecodesBack : DecodesBack codec (preamble_of tally codec (λ k. eager) output) report
unfolding digest_hex hex hex_digit
codec-DecodesBack = record { preamble = λ b h. refl; report = λ b h. refl }

read_response-write_execution_example :
    read_response tally codec (some sink) (expect_eof true) stream
    ≡ (ok (response_of output), published output.artifact_bundle (items report.artifacts.files))
read_response-write_execution_example =
    read_response-write_execution tally codec (λ k. eager) sink output {t = sent} codec-DecodesBack
      sink-Accepts written

read_response-committed_example :
    (response : Response) × ((read_response tally codec (some sink) (expect_eof true) stream).0
      ≡ ok response)
    × Holds tally
        (items response.report.artifacts.files)
        (contents_of output.artifact_bundle (items report.artifacts.files))
    × IsWhole tally codec
        (some sink)
        (expect_eof true)
        (read_preamble tally codec stream)
        response
        (contents_of output.artifact_bundle (items report.artifacts.files))
read_response-committed_example =
    read_response-committed tally codec (some sink) (expect_eof true) stream
      (contents_of output.artifact_bundle (items report.artifacts.files))
      (ap (λ x. x.1) read_response-write_execution_example)
