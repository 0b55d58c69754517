-- ===== src/BrokerSession.antt =====
-- internal/brokersession: session.go and types.go, and sourceversion/source.go. One connection is handled
-- from its request stream, the acknowledgement that follows, and what the runner's surroundings do.
pub mod Answered
use agent_workstation_gatewa.Base.{
  ℕ, ◌*◌, ◌+◌, ℤ, pos, lt_ℤ, eq_ℤ, Bool, true, false, not, ◌&&◌, ◌||◌, List, [], Result, Checked,
  ok, err, ◌>>=◌, ◌>>◌, map_err, reject, ◌==◌, if◌then◌else◌, length, Option, none, some,
}
use agent_workstation_gatewa.Text.{Bytes, codes, bytes_eq}
use agent_workstation_gatewa.Library.{Library}
use agent_workstation_gatewa.Protocol.Types.{items, Request, ExecutionReport}
use agent_workstation_gatewa.Protocol.Fields.{all_bytes, is_lower_hex}
use agent_workstation_gatewa.Protocol.Records.{validate_execution_report_binding}
use agent_workstation_gatewa.InstallConfig.{Config, validate}
use agent_workstation_gatewa.BrokerProto.{ExecuteEnvelope, validate_execute_envelope}
use agent_workstation_gatewa.WorkloadEnv.{build}
use agent_workstation_gatewa.ExecutionPolicy.{Resolver, LaunchPlan, PolicyRule, authorize}
use agent_workstation_gatewa.IpcFrame.{FrameRule, Writer, read}
use agent_workstation_gatewa.ExecutionRun.Types.{World, Output, RunError}
use agent_workstation_gatewa.ExecutionRun.Background.Table.{Runner}
use agent_workstation_gatewa.ExecutionRun.Background.Respond.{
  BackgroundHeader, BackgroundWorld, run,
}
use agent_workstation_gatewa.BrokerWire.Types.{
  Codec, WireRule, Failure, invalid_frame, invalid_envelope, authorization_denied,
  execution_unavailable, response_unavailable,
}
use agent_workstation_gatewa.BrokerWire.Writing.{Sent}
use agent_workstation_gatewa.BrokerWire.Write.{write_rejection_exchange, write_execution_exchange}

-- `IsCanonicalGitSHA`
unfoldable pub is_canonical_git_sha : Bytes → Bool
is_canonical_git_sha value = length value == 40 && all_bytes is_lower_hex value

abbrev pub max_accepted_record_bytes : ℕ
max_accepted_record_bytes = 128 * 1024

abbrev pub max_execute_envelope_bytes : ℕ
max_execute_envelope_bytes = max_accepted_record_bytes + 16 * 1024

pub data SessionRule : Type 0 where
  installed_configuration_invalid execution_dependency_required gateway_source_sha_invalid :
      SessionRule
  safe_base_environment_invalid request_read_timeout_invalid response_write_timeout_invalid :
      SessionRule
  acknowledgement_timeout_invalid duration_outside_limit execution_response_write_failed :
      SessionRule
  rejection_write_failed : SessionRule

-- A `time.Duration` in nanoseconds
abbrev pub seconds : ℕ → ℕ
seconds n = n * 1000000000

pub record Options : Type 0 where
  pub request_read_timeout : ℤ
  pub response_write_timeout : ℤ
  pub acknowledgement_timeout : ℤ

pub record Session : Type 0 where
  pub configuration : Config
  pub safe_base_environment : List Bytes
  pub resolver : Resolver
  pub gateway_source_sha : Bytes
  pub request_read_timeout : ℤ
  pub response_write_timeout : ℤ
  pub acknowledgement_timeout : ℤ

-- `cloneConfiguration`: a nil slice becomes an empty one
abbrev pub clone_configuration : Config → Config
clone_configuration configuration = record configuration {
  approved_roots = some (items configuration.approved_roots);
  shells = some (items configuration.shells);
  path_entries = some (items configuration.path_entries);
  capabilities = some (items configuration.capabilities);
}

-- `boundedDuration`
unfoldable pub bounded_duration : ℤ → ℕ → ℕ → Result SessionRule ℤ
bounded_duration value fallback maximum =
    if eq_ℤ value (pos 0)
    then ok (pos fallback)
    else if lt_ℤ value (pos 0) || lt_ℤ (pos maximum) value
    then err duration_outside_limit
    else ok value

-- The strict decoding of an envelope and the encoding of a background header
pub record SessionCodec : Type 0 where
  pub wire : Codec
  pub encode_request : Request → Option Bytes
  pub encode_header : BackgroundHeader → Option Bytes
  pub decode_envelope_object : Bytes → Option ExecuteEnvelope

-- What one connection brings: the request stream, how writes are answered, the client's answer to the
-- terminal marker, whether the context has ended at the two checks, and the surroundings of the run
pub record Connection : Type 0 where
  pub incoming : Bytes
  pub writers : ℕ → Writer
  pub acknowledgement : Bytes
  pub cancelled_early : Bool
  pub cancelled_late : Bool
  pub world : World
  pub background_world : BackgroundWorld

abbrev pub nothing_sent : Sent
nothing_sent = record { frames = 0; delivered = [] }

abbrev pub or_required : Option Resolver → Result SessionRule Resolver
or_required none = err execution_dependency_required
or_required (some resolver) = ok resolver

module _ (lib : Library) (codec : SessionCodec) (epoch : ℕ) where
  -- `New`, with whether there is a runner
  unfoldable pub new_session :
      Config → List Bytes → Option Resolver → Bool → Bytes → Options → Result SessionRule Session
  new_session configuration safe_base_environment optional_resolver has_runner sha options = do
    map_err installed_configuration_invalid (validate lib configuration)
    resolver ← or_required optional_resolver
    reject (not has_runner) execution_dependency_required
    reject (not (is_canonical_git_sha sha)) gateway_source_sha_invalid
    _ ← map_err safe_base_environment_invalid (
        build lib configuration safe_base_environment (record {
          request_id = codes "preflight-request";
          session_id = codes "preflight-session";
          attempt_id = codes "preflight-attempt";
        }))
    request_timeout ←
        map_err request_read_timeout_invalid
          (bounded_duration options.request_read_timeout (seconds 30) (seconds 300))
    response_timeout ←
        map_err response_write_timeout_invalid
          (bounded_duration options.response_write_timeout (seconds 1800) (seconds 3600))
    acknowledgement_timeout ←
        map_err acknowledgement_timeout_invalid
          (bounded_duration options.acknowledgement_timeout (seconds 30) (seconds 300))
    ok (record {
      configuration = clone_configuration configuration;
      safe_base_environment = safe_base_environment;
      resolver = resolver;
      gateway_source_sha = sha;
      request_read_timeout = request_timeout;
      response_write_timeout = response_timeout;
      acknowledgement_timeout = acknowledgement_timeout;
    })

  abbrev pub with_rule : SessionRule → Sent × Checked WireRule → Sent × Checked SessionRule
  with_rule rule (sent, result) = (sent, map_err rule result)

  -- `reject`
  unfoldable pub reject_with : Connection → Failure → Sent × Checked SessionRule
  reject_with connection failure = with_rule rejection_write_failed (
      write_rejection_exchange lib codec.wire connection.writers connection.acknowledgement failure
        nothing_sent)

  unfoldable pub send_output : Connection → Output → Sent × Checked SessionRule
  send_output connection output = with_rule execution_response_write_failed (
      write_execution_exchange lib codec.wire connection.writers connection.acknowledgement output
        nothing_sent)

  -- `ValidateExecutionReportBinding(...) == nil`
  abbrev pub is_nil_error : {E : Type 0} → Checked E → Bool
  is_nil_error (ok x) = true
  is_nil_error (err e) = false

  abbrev pub is_own_report : Session → ExecuteEnvelope → ExecutionReport → Bool
  is_own_report session envelope report =
      is_nil_error (
        validate_execution_report_binding lib codec.encode_request envelope.accepted_request report)
      && bytes_eq report.attempt_id envelope.attempt_id
      && bytes_eq report.gateway_source_sha session.gateway_source_sha

  -- `Handle` behind the run
  abbrev pub answer_run :
      Session → Connection → ExecuteEnvelope → Result RunError Output → Sent × Checked SessionRule
  answer_run session connection envelope (err e) = reject_with connection execution_unavailable
  answer_run session connection envelope (ok output) =
      if is_own_report session envelope output.report
      then send_output connection output
      else reject_with connection response_unavailable

  -- `Handle` behind the authorization
  abbrev pub run_plan :
      Session
      → Connection
      → Runner
      → ExecuteEnvelope
      → Result PolicyRule LaunchPlan
      → Runner × (Sent × Checked SessionRule)
  run_plan session connection runner envelope (err e) =
      (runner, reject_with connection authorization_denied)
  run_plan session connection runner envelope (ok plan) =
      if connection.cancelled_late
      then (runner, reject_with connection execution_unavailable)
      else (let (later, result) =
            run lib codec.encode_header epoch plan session.gateway_source_sha connection.world
              connection.background_world runner in
          (later, answer_run session connection envelope result))

  -- `Handle` behind the decoding
  abbrev pub handle_envelope :
      Session → Connection → Runner → Option ExecuteEnvelope → Runner × (Sent × Checked SessionRule)
  handle_envelope session connection runner none = (runner, reject_with connection invalid_envelope)
  handle_envelope session connection runner (some envelope) =
      if connection.cancelled_early
      then (runner, reject_with connection execution_unavailable)
      else run_plan session connection runner envelope (
          authorize lib codec.encode_request session.configuration envelope
            session.safe_base_environment (some session.resolver))

  abbrev pub if_valid : Option ExecuteEnvelope → Option ExecuteEnvelope
  if_valid none = none
  if_valid (some envelope) =
      if is_nil_error (validate_execute_envelope lib codec.encode_request envelope)
      then some envelope
      else none

  -- `DecodeExecuteEnvelope`
  abbrev pub decode_execute_envelope : Bytes → Option ExecuteEnvelope
  decode_execute_envelope encoded = if_valid (codec.decode_envelope_object encoded)

  abbrev pub handle_frame :
      Session
      → Connection
      → Runner
      → Result FrameRule (Bytes × Bytes)
      → Runner × (Sent × Checked SessionRule)
  handle_frame session connection runner (err e) = (runner, reject_with connection invalid_frame)
  handle_frame session connection runner (ok (encoded, rest)) =
      handle_envelope session connection runner (decode_execute_envelope encoded)

  -- `Handle`
  unfoldable pub handle : Session → Connection → Runner → Runner × (Sent × Checked SessionRule)
  handle session connection runner =
      handle_frame session connection runner
        (read (some connection.incoming) (pos max_execute_envelope_bytes))
