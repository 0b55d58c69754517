-- ===== src/Samples/Session.antt =====
-- A connection, and the exchange of a client.
use agent_workstation_gatewa.Base.{
  ◌≡◌, ◌≢◌, err, refl, true, false, pos, [], ◌∷◌, ◌++◌, ok, Option, some,
}
use agent_workstation_gatewa.Text.{Bytes, codes, bytes_eq}
use agent_workstation_gatewa.Library.{digest_hex, hex, hex_digit}
use agent_workstation_gatewa.Protocol.Fields.{all_bytes, is_lower_hex}
use agent_workstation_gatewa.BrokerProto.{ExecuteEnvelope}
use agent_workstation_gatewa.IpcFrame.{write, read, send, put_uint32, read_full, uint32}
use agent_workstation_gatewa.ExecutionRun.Background.Table.{new_table}
use agent_workstation_gatewa.BrokerWire.Enough.{read_bytes_enough}
use agent_workstation_gatewa.BrokerWire.Types.{
  out_of_fuel, validate_preamble, decode_preamble, decode_execution_report,
}
use agent_workstation_gatewa.BrokerWire.Read.{
  finish_client_exchange, expect_eof, read_content, read_bytes, read_chunks, read_artifact,
  read_artifacts, read_streams, with_artifacts, read_preamble, read_response, Response,
}
use agent_workstation_gatewa.BrokerSession.{Session, SessionCodec, Connection, handle}
use agent_workstation_gatewa.BrokerSession.Answered.{IsAnswered, handle-IsAnswered}
use agent_workstation_gatewa.ControlClient.{
  Exchange, publish, marshal_canonical_execute_envelope, receive, check_response, conclude_exchange,
  run_exchange,
}
use agent_workstation_gatewa.ControlClient.Published.{IsConcluded, run_exchange-IsConcluded}
use agent_workstation_gatewa.Samples.Records.{tally, braces, zeros, accepted, report, report_bound}
use agent_workstation_gatewa.Samples.Policy.{config, envelope, resolver, envelope_valid}
use agent_workstation_gatewa.Samples.Runs.{world}
use agent_workstation_gatewa.Samples.Background.{encode_header, background_world}
use agent_workstation_gatewa.Samples.Wire.{eager, codec, sink, stream, report_valid}

abbrev session_codec : SessionCodec
session_codec = record {
  wire = codec;
  encode_request = braces;
  encode_header = encode_header;
  decode_envelope_object = λ b. some envelope;
}

abbrev session : Session
session = record {
  configuration = config;
  safe_base_environment = codes "LANG=C" ∷ codes "SECRET=x" ∷ [];
  resolver = resolver;
  gateway_source_sha = zeros 40;
  request_read_timeout = pos 1;
  response_write_timeout = pos 1;
  acknowledgement_timeout = pos 1;
}

abbrev connection : Connection
connection = record {
  incoming = 0 ∷ 0 ∷ 0 ∷ 1 ∷ b'E' ∷ [];
  writers = λ k. eager;
  acknowledgement = [];
  cancelled_early = false;
  cancelled_late = false;
  world = world;
  background_world = background_world;
}

handle-IsAnswered_example :
    IsAnswered tally session_codec 1 session connection new_table
      (handle tally session_codec 1 session connection new_table)
handle-IsAnswered_example = handle-IsAnswered tally session_codec 1 session connection new_table

abbrev exchange : Exchange
exchange = record {
  cancelled = false;
  dials = true;
  request_writer = eager;
  incoming = stream ++ (0 ∷ 0 ∷ 0 ∷ 8 ∷ codes "AWG\u{1}DONE");
  acknowledgement_writer = eager;
  destination = sink;
  closes = true;
  publishes = true;
  ends = true;
}

abbrev encode_envelope : ExecuteEnvelope → Option Bytes
encode_envelope e = some (codes "E")

abbrev response : Response
response = record { report = report; stdout = []; stderr = [] }

exchanged :
    run_exchange tally codec braces encode_envelope accepted (codes "a-1") exchange
    ≡ (ok tt, publish response ∷ [])
unfolding run_exchange receive conclude_exchange check_response marshal_canonical_execute_envelope
    write send put_uint32 read read_full uint32 read_response read_preamble decode_preamble
    validate_preamble all_bytes is_lower_hex read_streams decode_execution_report read_bytes
    read_content bytes_eq digest_hex hex hex_digit with_artifacts read_artifacts read_artifact
    read_chunks finish_client_exchange expect_eof
exchanged = rw (envelope_valid, report_valid, report_bound) refl

run_exchange-IsConcluded_example :
    IsConcluded tally codec braces encode_envelope accepted
      (codes "a-1")
      exchange
      (run_exchange tally codec braces encode_envelope accepted (codes "a-1") exchange)
run_exchange-IsConcluded_example =
    run_exchange-IsConcluded tally codec braces encode_envelope accepted (codes "a-1") exchange

read_bytes_enough_example :
    (read_bytes (pos 5) stream ≢ err out_of_fuel)
    × (read_chunks (λ k. eager) 0 5 5 [] [] stream ≢ err out_of_fuel)
read_bytes_enough_example = read_bytes_enough (pos 5) 5 (λ k. eager) stream
