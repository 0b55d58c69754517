-- ===== src/BrokerWire/Decoded.antt =====
-- What the decoders and `readBytes` make of what the encoders and `writeBytes` have sent.
use agent_workstation_gatewa.Base.{
  ℕ, ◌≡◌, refl, ap, sym, subst, ℤ, pos, negsuc, eq_ℤ, lt_ℤ, not, Bool, false, ◌||◌, [], ok, map_err,
  map_err-eq-ok, >>=-eq-ok, >>-eq-ok, reject->>, ltb, length, some, arith, String,
}
use Prim.Native.String.{◌++◌ as text_append}
use agent_workstation_gatewa.Text.{Bytes}
use agent_workstation_gatewa.Library.{Library}
use agent_workstation_gatewa.Protocol.Types.{
  ExecutionReport, OutputMetadata, max_output_bytes, max_execution_report_bytes,
}
use agent_workstation_gatewa.Protocol.Fields.{validate_lower_hex}
use agent_workstation_gatewa.Protocol.Accepts.{deny->>}
use agent_workstation_gatewa.Protocol.Report.{validate_output_metadata, validate_execution_report}
use agent_workstation_gatewa.BrokerWire.Types.{
  Preamble, preamble_encode_failed, report_encode_failed, max_preamble_bytes, Codec, or_rule,
  validate_preamble, decode_preamble, marshal_canonical_preamble,
  marshal_canonical_execution_report, decode_execution_report,
}
use agent_workstation_gatewa.BrokerWire.Read.{read_content, read_bytes}
use agent_workstation_gatewa.BrokerWire.Carried.{or_rule-eq-ok}

-- The strict decoder reads back what json.Marshal has written of this preamble and of this report.
pub record DecodesBack (codec : Codec) (p : Preamble) (r : ExecutionReport) : Type 0 where
  pub preamble :
      (b : Bytes) → codec.encode_preamble p ≡ some b → codec.decode_preamble_object b ≡ some p
  pub report : (b : Bytes) → codec.encode_report r ≡ some b → codec.decode_report_object b ≡ some r

module _ (lib : Library) (codec : Codec) where
  pub decode_preamble-marshal :
      (p : Preamble) {r : ExecutionReport} {b : Bytes}
      → DecodesBack codec p r
      → marshal_canonical_preamble lib codec p ≡ ok b
      → decode_preamble lib codec b ≡ ok p
  unfolding marshal_canonical_preamble decode_preamble
  decode_preamble-marshal p {r} {b} back h =
      let (valid, h1) = (>>-eq-ok (validate_preamble p) _).0 h in
      let (encoded, e, h2) =
        >>=-eq-ok (or_rule preamble_encode_failed (codec.encode_preamble p)) _ h1 in
      let (small, h3) =
        (reject->> (ltb max_preamble_bytes (length encoded)) preamble_encode_failed _).0 h2 in
      let same : encoded ≡ b = cc in
      subst (λ x. decode_preamble lib codec x ≡ ok p) same
        (rw (small, back.preamble encoded (or_rule-eq-ok _ _ e), valid) refl)

  pub decode_execution_report-marshal :
      (r : ExecutionReport) {p : Preamble} {b : Bytes}
      → DecodesBack codec p r
      → marshal_canonical_execution_report lib codec r ≡ ok b
      → decode_execution_report lib codec b ≡ ok r
  unfolding marshal_canonical_execution_report decode_execution_report
  decode_execution_report-marshal r {p} {b} back h =
      let (valid, h1) =
        (>>-eq-ok (map_err report_encode_failed (validate_execution_report lib r)) _).0 h in
      let (encoded, e, h2) =
        >>=-eq-ok (or_rule report_encode_failed (codec.encode_report r)) _ h1 in
      let (small, h3) =
        (reject->> (ltb max_execution_report_bytes (length encoded)) report_encode_failed _).0 h2 in
      let same : encoded ≡ b = cc in
      subst (λ x. decode_execution_report lib codec x ≡ ok r) same
        (rw
          (
            small,
            back.report encoded (or_rule-eq-ok _ _ e),
            map_err-eq-ok _ (validate_execution_report lib r) valid,
          )
          refl)

pub retained_within :
    (field : String) (o : OutputMetadata)
    → validate_output_metadata field o ≡ ok tt
    → lt_ℤ (pos max_output_bytes) o.retained_bytes ≡ false
unfolding validate_output_metadata
retained_within field o h =
    let (_, h1) = (>>-eq-ok (validate_lower_hex (text_append field ".sha256") o.sha256 64) _).0 h in
    let (_, h2) = (deny->> (lt_ℤ o.total_bytes (pos 0)) _ _ _).0 h1 in
    let (a, _) =
      (deny->>
          (lt_ℤ o.retained_bytes (pos 0)
            || lt_ℤ (pos max_output_bytes) o.retained_bytes
            || lt_ℤ o.total_bytes o.retained_bytes)
          _ _ _).0
        h2 in
    middle_lem (lt_ℤ o.retained_bytes (pos 0)) (lt_ℤ (pos max_output_bytes) o.retained_bytes) _ a
  where
    middle_lem : (a b c : Bool) → (a || b || c) ≡ false → b ≡ false
    middle_lem a b c h = ground arith

pub length_lem : (n : ℕ) (z : ℤ) → not (eq_ℤ (pos n) z) ≡ false → z ≡ pos n
length_lem n (pos m) h = ap pos (ground arith)
length_lem n (negsuc m) h = absurd (cc h)

-- The bytes of an output, read back by the length that the report gives.
pub read_bytes-content :
    (o : OutputMetadata) (content stream rest : Bytes)
    → o.retained_bytes ≡ pos (length content)
    → lt_ℤ (pos max_output_bytes) o.retained_bytes ≡ false
    → read_content (length content) (length content) [] stream ≡ ok (content, rest)
    → read_bytes o.retained_bytes stream ≡ ok (content, rest)
unfolding read_bytes
read_bytes-content o content stream rest same small h =
    let within : ltb max_output_bytes (length content) ≡ false =
      subst (λ z. lt_ℤ (pos max_output_bytes) z ≡ false) same small in
    subst (λ z. read_bytes z stream ≡ ok (content, rest)) (sym same) (rw (within) h)
