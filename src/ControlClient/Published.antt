-- ===== src/ControlClient/Published.antt =====
-- What a client publishes, and when.
use agent_workstation_gatewa.Base.{
  ◌≡◌, refl, ap, ◌∙◌, inl, inr, true, false, List, [], ◌∷◌, Bool-cases, pos, not, Result, Checked,
  ok, err, reject-eq-ok, >>=-eq-ok, >>-eq-ok, map_err, map_err-eq-ok, reject->>, not-false, Option,
  some,
}
use agent_workstation_gatewa.Text.{Bytes, bytes_eq, bytes_eq_iff}
use agent_workstation_gatewa.Library.{Library}
use agent_workstation_gatewa.Protocol.Types.{Request, AcceptedRequestRecord}
use agent_workstation_gatewa.Protocol.Report.{validate_execution_report}
use agent_workstation_gatewa.Protocol.Records.{validate_execution_report_binding}
use agent_workstation_gatewa.Protocol.Records.Binding.{
  Answers, validate_execution_report_binding-Answers,
}
use agent_workstation_gatewa.BrokerProto.{ExecuteEnvelope}
use agent_workstation_gatewa.IpcFrame.{write}
use agent_workstation_gatewa.BrokerWire.Types.{Codec, WireRule}
use agent_workstation_gatewa.BrokerWire.Read.{Response, finish_client_exchange, read_response}
use agent_workstation_gatewa.BrokerSession.{max_execute_envelope_bytes}
use agent_workstation_gatewa.ControlClient.{
  ClientRule, connect_failed, request_write_failed, connection_close_failed,
  response_binding_invalid, response_publish_failed, Exchange, Call, publish, abort, envelope_of,
  marshal_canonical_execute_envelope, received, receive, check_response, publish_checked,
  conclude_exchange, run_exchange,
}

module _ (lib : Library) (codec : Codec) (encode_request : Request → Option Bytes)
    (encode_envelope : ExecuteEnvelope → Option Bytes) where
  -- A response that may be published: read in full, from a transport that was closed well, for this
  -- request and this attempt.
  pub record IsPublished (accepted : AcceptedRequestRecord) (attempt_id : Bytes)
      (exchange : Exchange) (response : Response) : Type 0 where
    pub was_read :
        (read_response lib codec
          (some exchange.destination)
          (finish_client_exchange exchange.acknowledgement_writer exchange.ends)
          exchange.incoming).0
        ≡ ok response
    pub closed : exchange.closes ≡ true
    pub bound : Answers accepted response.report
    pub valid : validate_execution_report lib response.report ≡ ok tt
    pub attempt : response.report.attempt_id ≡ attempt_id

  received_lem :
      (x : Result WireRule Response) {response : Response}
      → received lib codec encode_request encode_envelope x ≡ ok response
      → x ≡ ok response
  received_lem (ok y) h = cc
  received_lem (err rule) h = absurd (cc h)

  receive-read :
      (accepted : AcceptedRequestRecord) (attempt_id : Bytes) (exchange : Exchange)
      {response : Response}
      → receive lib codec encode_request encode_envelope accepted attempt_id exchange ≡ ok response
      → ((read_response lib codec
            (some exchange.destination)
            (finish_client_exchange exchange.acknowledgement_writer exchange.ends)
            exchange.incoming).0
          ≡ ok response)
        × (exchange.closes ≡ true)
  unfolding receive
  receive-read accepted attempt_id exchange {response} h =
      let (encoded, _, h1) =
        >>=-eq-ok
          (marshal_canonical_execute_envelope lib codec encode_request encode_envelope
            (envelope_of lib codec encode_request encode_envelope accepted attempt_id))
          _ h in
      let (_, h2) = (reject->> exchange.cancelled ClientRule.cancelled _).0 h1 in
      let (_, h3) = (reject->> (not exchange.dials) connect_failed _).0 h2 in
      let (_, h4) =
        (>>-eq-ok
            (map_err request_write_failed
              (write (some exchange.request_writer) encoded (pos max_execute_envelope_bytes)).0)
            _).0
          h3 in
      let (other, e, h5) =
        >>=-eq-ok
          (received lib codec encode_request encode_envelope
            (read_response lib codec (some exchange.destination)
              (finish_client_exchange exchange.acknowledgement_writer exchange.ends)
              exchange.incoming).0)
          _ h4 in
      let (closed, h6) = (reject->> (not exchange.closes) connection_close_failed _).0 h5 in
      let same : other ≡ response = cc in (received_lem _ e ∙ ap ok same, not-false _ closed)

  check_response-Answers :
      (accepted : AcceptedRequestRecord) (attempt_id : Bytes) (response : Response)
      → check_response lib codec encode_request encode_envelope accepted attempt_id response ≡ ok tt
      → Answers accepted response.report
        × (validate_execution_report lib response.report ≡ ok tt)
        × (response.report.attempt_id ≡ attempt_id)
  unfolding check_response
  check_response-Answers accepted attempt_id response h =
      let (bound, h1) =
        (>>-eq-ok
            (map_err response_binding_invalid
              (validate_execution_report_binding lib encode_request accepted response.report))
            _).0
          h in
      let attempt = (reject-eq-ok (not (bytes_eq response.report.attempt_id attempt_id)) _).0 h1 in
      let (_, valid, answers) =
        validate_execution_report_binding-Answers lib encode_request accepted response.report (
          map_err-eq-ok _
            (validate_execution_report_binding lib encode_request accepted response.report)
            bound) in
      (answers, valid, (bytes_eq_iff _ _).0 (not-false _ attempt))

  -- The ways that an exchange ends: its result, with the calls of the destination in their order.
  pub data IsConcluded (accepted : AcceptedRequestRecord) (attempt_id : Bytes) (exchange : Exchange)
      : Checked ClientRule × List Call → Type 0 where
    publishes :
        (response : Response)
        → IsPublished accepted attempt_id exchange response
        → exchange.publishes ≡ true
        → IsConcluded accepted attempt_id exchange (ok tt, publish response ∷ [])
    publish_fails :
        (response : Response)
        → IsPublished accepted attempt_id exchange response
        → exchange.publishes ≡ false
        → IsConcluded accepted attempt_id exchange
            (err response_publish_failed, publish response ∷ abort ∷ [])
    read_fails :
        (rule : ClientRule)
        → receive lib codec encode_request encode_envelope accepted attempt_id exchange ≡ err rule
        → IsConcluded accepted attempt_id exchange (err rule, abort ∷ [])
    check_fails :
        (response : Response) (rule : ClientRule)
        → check_response lib codec encode_request encode_envelope accepted attempt_id response
          ≡ err rule
        → IsConcluded accepted attempt_id exchange (err rule, abort ∷ [])

  publish_checked-IsConcluded :
      (accepted : AcceptedRequestRecord) (attempt_id : Bytes) (exchange : Exchange)
      (response : Response) (checked : Checked ClientRule)
      → receive lib codec encode_request encode_envelope accepted attempt_id exchange ≡ ok response
      → check_response lib codec encode_request encode_envelope accepted attempt_id response
        ≡ checked
      → IsConcluded accepted attempt_id exchange
          (publish_checked lib codec encode_request encode_envelope exchange response checked)
  publish_checked-IsConcluded accepted attempt_id exchange response (err rule) h k =
      check_fails response rule k
  publish_checked-IsConcluded accepted attempt_id exchange response (ok u) h k =
      let (was_read, closed) = receive-read accepted attempt_id exchange h in
      let (bound, valid, attempt) = check_response-Answers accepted attempt_id response k in
      let fit : IsPublished accepted attempt_id exchange response = record {
        was_read = was_read;
        closed = closed;
        bound = bound;
        valid = valid;
        attempt = attempt;
      } in
      elim (Bool-cases exchange.publishes) [
        | inl e ↦ simp (e) (publishes response fit e)
        | inr e ↦ simp (e) (publish_fails response fit e)
      ]

  conclude_exchange-IsConcluded :
      (accepted : AcceptedRequestRecord) (attempt_id : Bytes) (exchange : Exchange)
      (x : Result ClientRule Response)
      → receive lib codec encode_request encode_envelope accepted attempt_id exchange ≡ x
      → IsConcluded accepted attempt_id exchange (
          conclude_exchange lib codec encode_request encode_envelope accepted attempt_id exchange x)
  unfolding conclude_exchange
  conclude_exchange-IsConcluded accepted attempt_id exchange (err rule) h = read_fails rule h
  conclude_exchange-IsConcluded accepted attempt_id exchange (ok response) h =
      publish_checked-IsConcluded accepted attempt_id exchange response _ h refl

  -- Whatever the broker, the transport and the destination answer: `Exchange` calls `Publish` at most
  -- once, and only with a response that was read in full from a transport that was closed well, whose
  -- report is valid and answers the accepted request, and whose attempt is the one that was asked for.
  -- It returns nil exactly if that call returns nil, and calls `Abort` at its end in every other case.
  pub run_exchange-IsConcluded :
      (accepted : AcceptedRequestRecord) (attempt_id : Bytes) (exchange : Exchange)
      → IsConcluded accepted attempt_id exchange
          (run_exchange lib codec encode_request encode_envelope accepted attempt_id exchange)
  unfolding run_exchange
  run_exchange-IsConcluded accepted attempt_id exchange =
      conclude_exchange-IsConcluded accepted attempt_id exchange
        (receive lib codec encode_request encode_envelope accepted attempt_id exchange) refl
