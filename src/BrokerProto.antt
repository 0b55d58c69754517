-- ===== src/BrokerProto.antt =====
-- internal/brokerproto: types.go and validate.go.
use agent_workstation_gatewa.Base.{
  ℕ, Bool, true, false, not, Option, Checked, ◌>>◌, map_err, reject, ◌==◌,
}
use agent_workstation_gatewa.Text.{Bytes}
use agent_workstation_gatewa.Library.{Library}
use agent_workstation_gatewa.Protocol.Types.{Request, AcceptedRequestRecord}
use agent_workstation_gatewa.Protocol.Fields.{matches_identifier}
use agent_workstation_gatewa.Protocol.Records.{validate_accepted_request_record}

abbrev pub current_version : ℕ
current_version = 1

pub data Operation : Type 0 where
  execute : Operation
  other : Bytes → Operation

pub record ExecuteEnvelope : Type 0 where
  pub protocol_version : ℕ
  pub operation : Operation
  pub attempt_id : Bytes
  pub accepted_request : AcceptedRequestRecord

pub data EnvelopeRule : Type 0 where
  unsupported_version unsupported_operation invalid_identifier invalid_accepted_record :
      EnvelopeRule

abbrev pub is_execute_operation : Operation → Bool
is_execute_operation execute = true
is_execute_operation (Operation.other name) = false

-- `ValidateExecuteEnvelope`; `encode` is json.Marshal on a request
unfoldable pub validate_execute_envelope :
    Library → (Request → Option Bytes) → ExecuteEnvelope → Checked EnvelopeRule
validate_execute_envelope lib encode envelope = do
  reject (not (envelope.protocol_version == current_version)) unsupported_version
  reject (not (is_execute_operation envelope.operation)) unsupported_operation
  reject (not (matches_identifier envelope.attempt_id)) invalid_identifier
  map_err invalid_accepted_record
      (validate_accepted_request_record lib encode envelope.accepted_request)
