-- ===== src/Protocol/Report/Parts.antt =====
-- The parts of a valid execution report, and how to exchange some of them.
use agent_workstation_gatewa.Base.{
  ℕ, ◌≡◌, refl, false, not, ok, >>=-eq-ok, >>-eq-ok, ltb, ◌==◌, pos, eq_ℤ, some,
}
use agent_workstation_gatewa.Text.{bytes_eq_iff}
use agent_workstation_gatewa.Library.{Library}
use agent_workstation_gatewa.Protocol.Types.{ExecutionReport}
use agent_workstation_gatewa.Protocol.Fields.{validate_identifier, validate_lower_hex}
use agent_workstation_gatewa.Protocol.Accepts.{deny->>}
use agent_workstation_gatewa.Protocol.Request.{version}
use agent_workstation_gatewa.Protocol.Report.{
  validate_command_outcome, validate_output_metadata, validate_artifact_manifest,
  validate_timestamp, milliseconds, validate_execution_report,
}

module _ (lib : Library) where
  -- What the checks of a report ask of its parts.
  pub record HasParts (r : ExecutionReport) : Type 0 where
    pub current : not (r.protocol_version == version) ≡ false
    pub named : validate_identifier "request_id" r.request_id ≡ ok tt
    pub digested : validate_lower_hex "request_digest" r.request_digest 64 ≡ ok tt
    pub attempted : validate_identifier "attempt_id" r.attempt_id ≡ ok tt
    pub sourced : validate_lower_hex "gateway_source_sha" r.gateway_source_sha 40 ≡ ok tt
    pub ended : validate_command_outcome r.command_status r.exit_code ≡ ok tt
    pub started : ℕ
    pub finished : ℕ
    pub started_ok : validate_timestamp lib "started_at" r.started_at ≡ ok started
    pub finished_ok : validate_timestamp lib "finished_at" r.finished_at ≡ ok finished
    pub ordered : ltb finished started ≡ false
    pub lasted :
        not (eq_ℤ r.duration_milliseconds (pos (milliseconds lib started finished))) ≡ false
    pub stdout_ok : validate_output_metadata "stdout" r.stdout ≡ ok tt
    pub stderr_ok : validate_output_metadata "stderr" r.stderr ≡ ok tt
    pub artifacts_ok : validate_artifact_manifest lib r.artifacts ≡ ok tt

  pub validate_execution_report-HasParts :
      (r : ExecutionReport) → validate_execution_report lib r ≡ ok tt → HasParts r
  unfolding validate_execution_report
  validate_execution_report-HasParts r h =
      let (a, h1) = (deny->> (not (r.protocol_version == version)) _ _ _).0 h in
      let (b, h2) = (>>-eq-ok (validate_identifier "request_id" r.request_id) _).0 h1 in
      let (c, h3) = (>>-eq-ok (validate_lower_hex "request_digest" r.request_digest 64) _).0 h2 in
      let (d, h4) = (>>-eq-ok (validate_identifier "attempt_id" r.attempt_id) _).0 h3 in
      let (e, h5) =
        (>>-eq-ok (validate_lower_hex "gateway_source_sha" r.gateway_source_sha 40) _).0 h4 in
      let (f, h6) = (>>-eq-ok (validate_command_outcome r.command_status r.exit_code) _).0 h5 in
      let (s, g, h7) = >>=-eq-ok (validate_timestamp lib "started_at" r.started_at) _ h6 in
      let (t, i, h8) = >>=-eq-ok (validate_timestamp lib "finished_at" r.finished_at) _ h7 in
      let (j, h9) = (deny->> (ltb t s) _ _ _).0 h8 in
      let (k, h10) =
        (deny->> (not (eq_ℤ r.duration_milliseconds (pos (milliseconds lib s t)))) _ _ _).0 h9 in
      let (l, h11) = (>>-eq-ok (validate_output_metadata "stdout" r.stdout) _).0 h10 in
      let (m, n) = (>>-eq-ok (validate_output_metadata "stderr" r.stderr) _).0 h11 in
      record {
        current = a;
        named = b;
        digested = c;
        attempted = d;
        sourced = e;
        ended = f;
        started = s;
        finished = t;
        started_ok = g;
        finished_ok = i;
        ordered = j;
        lasted = k;
        stdout_ok = l;
        stderr_ok = m;
        artifacts_ok = n;
      }

  pub HasParts-validate_execution_report :
      (r : ExecutionReport) → HasParts r → validate_execution_report lib r ≡ ok tt
  unfolding validate_execution_report
  HasParts-validate_execution_report r p = rw (
    p.current, p.named, p.digested, p.attempted, p.sourced, p.ended, p.started_ok, p.finished_ok,
    p.ordered, p.lasted, p.stdout_ok, p.stderr_ok, p.artifacts_ok,
  )

  -- The text of this time is read back as the time.
  abbrev pub ReadsBack : ℕ → Type 0
  ReadsBack instant = lib.parse_time (lib.format_time instant) ≡ some instant

  pub validate_timestamp-format :
      (field : _) (instant : ℕ)
      → ReadsBack instant
      → validate_timestamp lib field (lib.format_time instant) ≡ ok instant
  unfolding validate_timestamp
  validate_timestamp-format field instant reads =
      rw (reads, (bytes_eq_iff (lib.format_time instant) (lib.format_time instant)).1 refl)
