-- ===== src/ControlClient.antt =====
-- internal/controlclient/client.go: one exchange with the broker, from what its dialer, its transport and
-- its destination answer.
pub mod Published
use agent_workstation_gatewa.Base.{
  ℕ, pos, Bool, true, false, not, ◌||◌, List, [], ◌∷◌, ◌++◌, if◌then◌else◌, Result, Checked, ok,
  err, ◌>>=◌, ◌>>◌, map_err, reject, ltb, length, Option, none, some,
}
use agent_workstation_gatewa.Text.{Bytes, bytes_eq}
use agent_workstation_gatewa.Library.{Library}
use agent_workstation_gatewa.Protocol.Types.{Request, AcceptedRequestRecord}
use agent_workstation_gatewa.Protocol.Records.{validate_execution_report_binding}
use agent_workstation_gatewa.BrokerProto.{
  current_version, Operation, execute, ExecuteEnvelope, validate_execute_envelope,
}
use agent_workstation_gatewa.IpcFrame.{Writer, write}
use agent_workstation_gatewa.BrokerWire.Types.{Codec, WireRule}
use agent_workstation_gatewa.BrokerWire.Read.{
  ArtifactSink, Transaction, Response, finish_client_exchange, read_response,
}
use agent_workstation_gatewa.BrokerSession.{max_execute_envelope_bytes}

pub data ClientRule : Type 0 where
  envelope_invalid cancelled connect_failed request_write_failed connection_close_failed :
      ClientRule
  response_binding_invalid response_publish_failed : ClientRule
  response_read_failed : WireRule → ClientRule

-- What one exchange meets; `publishes` is whether `Publish` returns nil, and `ends` whether the
-- transport ends with io.EOF
pub record Exchange : Type 0 where
  pub cancelled : Bool
  pub dials : Bool
  pub request_writer : Writer
  pub incoming : Bytes
  pub acknowledgement_writer : Writer
  pub destination : ArtifactSink
  pub closes : Bool
  pub publishes : Bool
  pub ends : Bool

-- A call of the destination's `Publish` or `Abort`
pub data Call : Type 0 where
  publish : Response → Call
  abort : Call

module _ (lib : Library) (codec : Codec) (encode_request : Request → Option Bytes)
    (encode_envelope : ExecuteEnvelope → Option Bytes) where
  abbrev pub envelope_of : AcceptedRequestRecord → Bytes → ExecuteEnvelope
  envelope_of accepted attempt_id = record {
    protocol_version = current_version;
    operation = execute;
    attempt_id = attempt_id;
    accepted_request = accepted;
  }

  abbrev pub or_invalid : Option Bytes → Result ClientRule Bytes
  or_invalid none = err envelope_invalid
  or_invalid (some encoded) = ok encoded

  -- `MarshalCanonicalExecuteEnvelope`, with the caller's rule for its errors
  unfoldable pub marshal_canonical_execute_envelope : ExecuteEnvelope → Result ClientRule Bytes
  marshal_canonical_execute_envelope envelope = do
    map_err envelope_invalid (validate_execute_envelope lib encode_request envelope)
    encoded ← or_invalid (encode_envelope envelope)
    reject (ltb max_execute_envelope_bytes (length encoded)) envelope_invalid
    ok encoded

  abbrev pub received : Result WireRule Response → Result ClientRule Response
  received (ok response) = ok response
  received (err rule) = err (response_read_failed rule)

  -- `Exchange` up to the closing of the transport
  unfoldable pub receive : AcceptedRequestRecord → Bytes → Exchange → Result ClientRule Response
  receive accepted attempt_id exchange = do
    encoded ← marshal_canonical_execute_envelope (envelope_of accepted attempt_id)
    reject exchange.cancelled ClientRule.cancelled
    reject (not exchange.dials) connect_failed
    map_err request_write_failed
        (write (some exchange.request_writer) encoded (pos max_execute_envelope_bytes)).0
    response ←
        received
          (read_response lib codec (some exchange.destination)
            (finish_client_exchange exchange.acknowledgement_writer exchange.ends)
            exchange.incoming).0
    reject (not exchange.closes) connection_close_failed
    ok response

  -- The deferred `Abort` of an exchange that returns this rule, behind the calls so far
  abbrev pub abort_after : ClientRule → List Call → Checked ClientRule × List Call
  abort_after rule calls = (err rule, calls ++ (abort ∷ []))

  -- `Publish`
  abbrev pub publish_response : Exchange → Response → Checked ClientRule × List Call
  publish_response exchange response =
      if exchange.publishes
      then (ok tt, publish response ∷ [])
      else abort_after response_publish_failed (publish response ∷ [])

  -- The check of the binding and of the attempt
  unfoldable pub check_response : AcceptedRequestRecord → Bytes → Response → Checked ClientRule
  check_response accepted attempt_id response = do
    map_err response_binding_invalid
        (validate_execution_report_binding lib encode_request accepted response.report)
    reject (not (bytes_eq response.report.attempt_id attempt_id)) response_binding_invalid

  -- `Exchange` from that check on
  abbrev pub publish_checked :
      Exchange → Response → Checked ClientRule → Checked ClientRule × List Call
  publish_checked exchange response (err rule) = abort_after rule []
  publish_checked exchange response (ok _) = publish_response exchange response

  unfoldable pub conclude_exchange :
      AcceptedRequestRecord
      → Bytes
      → Exchange
      → Result ClientRule Response
      → Checked ClientRule × List Call
  conclude_exchange accepted attempt_id exchange (err rule) = abort_after rule []
  conclude_exchange accepted attempt_id exchange (ok response) =
      publish_checked exchange response (check_response accepted attempt_id response)

  -- `Exchange`: its error, and the calls of `Publish` and `Abort` in their order
  unfoldable pub run_exchange :
      AcceptedRequestRecord → Bytes → Exchange → Checked ClientRule × List Call
  run_exchange accepted attempt_id exchange =
      conclude_exchange accepted attempt_id exchange (receive accepted attempt_id exchange)
