-- ===== src/BrokerSession/Answered.antt =====
-- What a session answers on a connection.
use agent_workstation_gatewa.Base.{
  ℕ, ◌≡◌, refl, inl, inr, Bool, true, ◌&&◌, Result, Checked, ok, err, Option, none, some,
  Bool-cases, pos, arith,
}
use agent_workstation_gatewa.Text.{Bytes, bytes_eq_iff}
use agent_workstation_gatewa.Library.{Library}
use agent_workstation_gatewa.Protocol.Records.{validate_execution_report_binding}
use agent_workstation_gatewa.BrokerProto.{ExecuteEnvelope}
use agent_workstation_gatewa.ExecutionPolicy.{LaunchPlan, PolicyRule, authorize}
use agent_workstation_gatewa.IpcFrame.{FrameRule, read}
use agent_workstation_gatewa.ExecutionRun.Types.{Output, RunError}
use agent_workstation_gatewa.ExecutionRun.Background.Table.{Runner}
use agent_workstation_gatewa.ExecutionRun.Background.Respond.{run}
use agent_workstation_gatewa.BrokerWire.Types.{
  Failure, invalid_frame, invalid_envelope, authorization_denied, execution_unavailable,
  response_unavailable,
}
use agent_workstation_gatewa.BrokerWire.Writing.{Sent}
use agent_workstation_gatewa.BrokerSession.{
  SessionRule, Session, SessionCodec, Connection, max_execute_envelope_bytes, reject_with,
  send_output, is_nil_error, is_own_report, answer_run, run_plan, handle_envelope,
  decode_execute_envelope, handle_frame, handle,
}

module _ (lib : Library) (codec : SessionCodec) (epoch : ℕ) (session : Session)
    (connection : Connection) where
  -- The envelope that the connection's frame holds.
  abbrev IsReceived : ExecuteEnvelope → Type 0
  IsReceived envelope =
      (encoded : Bytes) × (rest : Bytes) × (read (some connection.incoming)
          (pos max_execute_envelope_bytes)
        ≡ ok (encoded, rest))
      × (decode_execute_envelope lib codec epoch encoded ≡ some envelope)

  -- A rejection, or the output of the run of an authorized plan, whose report is bound to the accepted
  -- request and has the attempt of the envelope and the source of the session.
  pub data IsAnswered (runner : Runner) (x : Runner × (Sent × Checked SessionRule)) : Type 0 where
    refused :
        (failure : Failure)
        → x.1 ≡ reject_with lib codec epoch connection failure
        → IsAnswered runner x
    executed :
        (envelope : ExecuteEnvelope) (plan : LaunchPlan) (output : Output)
        → IsReceived envelope
        → authorize lib codec.encode_request session.configuration envelope
            session.safe_base_environment
            (some session.resolver)
          ≡ ok plan
        → (run lib codec.encode_header epoch plan session.gateway_source_sha connection.world
            connection.background_world runner).1
          ≡ ok output
        → validate_execution_report_binding lib codec.encode_request envelope.accepted_request
            output.report
          ≡ ok tt
        → output.report.attempt_id ≡ envelope.attempt_id
        → output.report.gateway_source_sha ≡ session.gateway_source_sha
        → x.1 ≡ send_output lib codec epoch connection output
        → IsAnswered runner x

  nil_lem : {E : Type 0} (x : Checked E) → is_nil_error lib codec epoch x ≡ true → x ≡ ok tt
  nil_lem (ok y) h = refl
  nil_lem (err e) h = absurd (cc h)

  three_lem : (a b c : Bool) → (a && b && c) ≡ true → (a ≡ true) × (b ≡ true) × (c ≡ true)
  three_lem a b c h = ground arith

  answer_run-IsAnswered :
      (runner later : Runner) (envelope : ExecuteEnvelope) (plan : LaunchPlan)
      (result : Result RunError Output)
      → IsReceived envelope
      → authorize lib codec.encode_request session.configuration envelope
          session.safe_base_environment
          (some session.resolver)
        ≡ ok plan
      → (run lib codec.encode_header epoch plan session.gateway_source_sha connection.world
          connection.background_world runner).1
        ≡ result
      → IsAnswered runner (later, answer_run lib codec epoch session connection envelope result)
  answer_run-IsAnswered runner later envelope plan (err e) from h k =
      refused execution_unavailable refl
  answer_run-IsAnswered runner later envelope plan (ok output) from h k =
      elim (Bool-cases (is_own_report lib codec epoch session envelope output.report)) [
        | inl own ↦
            let (bound, attempt, source) = three_lem _ _ _ own in
            executed envelope plan output from h k (nil_lem _ bound) ((bytes_eq_iff _ _).0 attempt)
              ((bytes_eq_iff _ _).0 source) (rw own refl)
        | inr other ↦ refused response_unavailable (rw other refl)
      ]

  run_plan-IsAnswered :
      (runner : Runner) (envelope : ExecuteEnvelope) (result : Result PolicyRule LaunchPlan)
      → IsReceived envelope
      → authorize lib codec.encode_request session.configuration envelope
          session.safe_base_environment
          (some session.resolver)
        ≡ result
      → IsAnswered runner (run_plan lib codec epoch session connection runner envelope result)
  run_plan-IsAnswered runner envelope (err e) from h = refused authorization_denied refl
  run_plan-IsAnswered runner envelope (ok plan) from h =
      elim (Bool-cases connection.cancelled_late) [
        | inl e ↦ simp (e) (refused execution_unavailable refl)
        | inr e ↦ simp (e) (answer_run-IsAnswered runner _ envelope plan _ from h refl)
      ]

  handle_envelope-IsAnswered :
      (runner : Runner) (decoded : Option ExecuteEnvelope)
      → ((envelope : ExecuteEnvelope) → decoded ≡ some envelope → IsReceived envelope)
      → IsAnswered runner (handle_envelope lib codec epoch session connection runner decoded)
  handle_envelope-IsAnswered runner none from = refused invalid_envelope refl
  handle_envelope-IsAnswered runner (some envelope) from =
      elim (Bool-cases connection.cancelled_early) [
        | inl e ↦ simp (e) (refused execution_unavailable refl)
        | inr e ↦ simp (e) (run_plan-IsAnswered runner envelope _ (from envelope refl) refl)
      ]

  handle_frame-IsAnswered :
      (runner : Runner) (frame : Result FrameRule (Bytes × Bytes))
      → read (some connection.incoming) (pos max_execute_envelope_bytes) ≡ frame
      → IsAnswered runner (handle_frame lib codec epoch session connection runner frame)
  handle_frame-IsAnswered runner (err e) h = refused invalid_frame refl
  handle_frame-IsAnswered runner (ok (encoded, rest)) h =
      handle_envelope-IsAnswered runner (decode_execute_envelope lib codec epoch encoded)
        (λ envelope e. (encoded, rest, h, e))

  -- Whatever a connection brings, `Handle` answers with a rejection, or with the output of running a
  -- plan that `Authorize` returned for the envelope that the connection's frame holds, and only if the report is bound to the accepted
  -- request of that envelope and has its attempt and the session's source.
  pub handle-IsAnswered :
      (runner : Runner) → IsAnswered runner (handle lib codec epoch session connection runner)
  unfolding handle
  handle-IsAnswered runner =
      handle_frame-IsAnswered runner
        (read (some connection.incoming) (pos max_execute_envelope_bytes)) refl
