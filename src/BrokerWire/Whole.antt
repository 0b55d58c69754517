-- ===== src/BrokerWire/Whole.antt =====
-- A whole response: `ReadResponse` takes what `WriteExecution` has sent.
use agent_workstation_gatewa.Base.{
  true, ℕ, ◌≡◌, refl, ap, sym, ◌∙◌, subst, pos, eq_ℤ, not, Bool, false, ◌||◌, List, [], ◌∷◌, ◌++◌,
  append-nil, Result, Checked, ok, err, map_err, map_err-eq-ok, >>-eq-ok, reject->>, length, Option,
  some, arith,
}
use agent_workstation_gatewa.Text.{Bytes, bytes_eq_iff}
use agent_workstation_gatewa.Library.{Library, digest_hex}
use agent_workstation_gatewa.Protocol.Types.{items, ArtifactFile, max_execution_report_bytes}
use agent_workstation_gatewa.Protocol.Report.{validate_execution_report}
use agent_workstation_gatewa.Protocol.Report.Parts.{validate_execution_report-HasParts}
use agent_workstation_gatewa.IpcFrame.{Writer, read}
use agent_workstation_gatewa.ExecutionRun.Types.{ArtifactBundle, Output}
use agent_workstation_gatewa.BrokerWire.Types.{
  Preamble, WireRule, max_preamble_bytes, Codec, decode_preamble, marshal_canonical_preamble,
  marshal_canonical_execution_report, decode_execution_report, validate_output, report_invalid,
  retained_length_mismatch, preamble_write_failed, report_write_failed, stdout_write_failed,
  stderr_write_failed,
}
use agent_workstation_gatewa.BrokerWire.Writing.{Sent, lift}
use agent_workstation_gatewa.BrokerWire.Write.{
  emit_frame, write_bytes, preamble_of, write_output, bundle_closes, close_output, write_execution,
}
use agent_workstation_gatewa.BrokerWire.Read.{
  ArtifactSink, Transaction, not_begun, committed, Response, expect_eof, read_content,
  read_artifacts, read_streams, with_artifacts, read_preamble, read_response,
}
use agent_workstation_gatewa.BrokerWire.Chained.{>>=-written, lift-written, Adds, Adds-trans}
use agent_workstation_gatewa.BrokerWire.Carried.{Accepts, emit_frame-read, write_bytes-read}
use agent_workstation_gatewa.BrokerWire.RoundTrip.{contents_of, write_artifacts-read}
use agent_workstation_gatewa.BrokerWire.Decoded.{
  DecodesBack, decode_preamble-marshal, decode_execution_report-marshal, retained_within,
  length_lem, read_bytes-content,
}

-- What a client that takes everything publishes of a bundle.
abbrev pub published : Option ArtifactBundle → List ArtifactFile → Transaction
published bundle [] = not_begun
published bundle (file ∷ files) = committed (contents_of bundle (file ∷ files))

abbrev pub response_of : Output → Response
response_of output = record {
  report = output.report;
  stdout = output.stdout;
  stderr = output.stderr;
}

end_lem :
    (contents : List (ArtifactFile × Bytes)) (stream : Bytes)
    → ◌≡◌ {A = Result WireRule (List (ArtifactFile × Bytes) × Bytes)}
        (ok ([], stream))
        (ok (contents, []))
    → stream ≡ []
end_lem contents stream h = cc

with_artifacts-published :
    (lib : Library) (codec : Codec) (sink : ArtifactSink) (bundle : Option ArtifactBundle)
    (response : Response) (files : List ArtifactFile) (stream : Bytes)
    → Accepts sink
    → items response.report.artifacts.files ≡ files
    → read_artifacts lib codec sink files stream ≡ ok (contents_of bundle files, [])
    → with_artifacts lib codec (some sink) (expect_eof true) response files stream
      ≡ (ok response, published bundle files)
unfolding with_artifacts read_artifacts expect_eof
with_artifacts-published lib codec sink bundle response [] stream accepts same h =
    let ended : stream ≡ [] = end_lem (contents_of bundle []) stream h in rw ended refl
with_artifacts-published lib codec sink bundle response (file ∷ files) stream accepts same h =
    simp (accepts.begins, same, h, accepts.commits)

-- The stretches of the stream, and what the reading functions make of each with anything behind it.
record IsCarried (lib : Library) (codec : Codec) (writers : ℕ → Writer) (sink : ArtifactSink)
    (output : Output) (s t : Sent) : Type 0 where
  lengths_out : output.report.stdout.retained_bytes ≡ pos (length output.stdout)
  lengths_err : output.report.stderr.retained_bytes ≡ pos (length output.stderr)
  valid : validate_execution_report lib output.report ≡ ok tt
  head : Bytes
  body : Bytes
  out : Bytes
  diagnostics : Bytes
  files : Bytes
  adds : Adds s t (head ++ (body ++ (out ++ (diagnostics ++ files))))
  reads_head :
      (rest : Bytes)
      → read_preamble lib codec (head ++ rest) ≡ ok (preamble_of lib codec writers output, rest)
  encoded : Bytes
  decodes : decode_execution_report lib codec encoded ≡ ok output.report
  reads_body :
      (rest : Bytes)
      → read (some (body ++ rest)) (pos max_execution_report_bytes) ≡ ok (encoded, rest)
  reads_out :
      (rest : Bytes)
      → read_content (length output.stdout) (length output.stdout) [] (out ++ rest)
        ≡ ok (output.stdout, rest)
  reads_err :
      (rest : Bytes)
      → read_content (length output.stderr) (length output.stderr) [] (diagnostics ++ rest)
        ≡ ok (output.stderr, rest)
  reads_files :
      (rest : Bytes)
      → read_artifacts lib codec sink (items output.report.artifacts.files) (files ++ rest)
        ≡ ok (contents_of output.artifact_bundle (items output.report.artifacts.files), rest)

module _ (lib : Library) (codec : Codec) (writers : ℕ → Writer) where
  or_lem : (a b : Bool) → (a || b) ≡ false → (a ≡ false) × (b ≡ false)
  or_lem a b h = ground arith

  validate_output-lengths :
      (output : Output)
      → validate_output lib codec output ≡ ok tt
      → (validate_execution_report lib output.report ≡ ok tt)
        × (output.report.stdout.retained_bytes ≡ pos (length output.stdout))
        × (output.report.stderr.retained_bytes ≡ pos (length output.stderr))
  unfolding validate_output
  validate_output-lengths output h =
      let (valid, h1) =
        (>>-eq-ok (map_err report_invalid (validate_execution_report lib output.report)) _).0 h in
      let (lengths, _) =
        (reject->>
            (not (eq_ℤ (pos (length output.stdout)) output.report.stdout.retained_bytes)
              || not (eq_ℤ (pos (length output.stderr)) output.report.stderr.retained_bytes))
            retained_length_mismatch _).0
          h1 in
      let (a, b) =
        or_lem (not (eq_ℤ (pos (length output.stdout)) output.report.stdout.retained_bytes)) _
          lengths in
      (
        map_err-eq-ok _ (validate_execution_report lib output.report) valid,
        length_lem _ _ a,
        length_lem _ _ b,
      )

  read_preamble-head :
      (p : Preamble) (encoded head rest : Bytes)
      → read (some (head ++ rest)) (pos max_preamble_bytes) ≡ ok (encoded, rest)
      → decode_preamble lib codec encoded ≡ ok p
      → read_preamble lib codec (head ++ rest) ≡ ok (p, rest)
  unfolding read_preamble
  read_preamble-head p encoded head rest h k = rw (h, k) refl

  write_output-IsCarried :
      (sink : ArtifactSink) (output : Output) (s : Sent) {t : Sent}
      → DecodesBack codec (preamble_of lib codec writers output) output.report
      → Accepts sink
      → write_output lib codec writers output s ≡ (t, ok tt)
      → IsCarried lib codec writers sink output s t
  unfolding write_output
  write_output-IsCarried sink output s {t} back accepts h =
      let sent = preamble_of lib codec writers output in
      let (s1, _, e1, h1) = >>=-written (lift (validate_output lib codec output)) _ s h in
      let (same1, checked) = lift-written (validate_output lib codec output) s e1 in
      let (valid, lengths_out, lengths_err) = validate_output-lengths output checked in
      let (s2, p, e2, h2) =
        >>=-written (lift (marshal_canonical_preamble lib codec sent)) _ s1 h1 in
      let (same2, preamble) = lift-written (marshal_canonical_preamble lib codec sent) s1 e2 in
      let (s3, r, e3, h3) =
        >>=-written (lift (marshal_canonical_execution_report lib codec output.report)) _ s2 h2 in
      let (same3, report) =
        lift-written (marshal_canonical_execution_report lib codec output.report) s2 e3 in
      let (s4, _, e4, h4) =
        >>=-written (emit_frame lib codec writers p max_preamble_bytes preamble_write_failed) _ s3
          h3 in
      let (d4, a4, r4) = emit_frame-read lib codec writers p max_preamble_bytes _ s3 e4 in
      let (s5, _, e5, h5) =
        >>=-written (emit_frame lib codec writers r max_execution_report_bytes report_write_failed)
          _ s4 h4 in
      let (d5, a5, r5) = emit_frame-read lib codec writers r max_execution_report_bytes _ s4 e5 in
      let (s6, _, e6, h6) =
        >>=-written
          (write_bytes lib codec writers (length output.stdout) output.stdout stdout_write_failed) _
          s5 h5 in
      let (d6, a6, r6) =
        write_bytes-read lib codec writers (length output.stdout) output.stdout _ s5 e6 in
      let (s7, _, e7, h7) =
        >>=-written
          (write_bytes lib codec writers (length output.stderr) output.stderr stderr_write_failed) _
          s6 h6 in
      let (d7, a7, r7) =
        write_bytes-read lib codec writers (length output.stderr) output.stderr _ s6 e7 in
      let (d8, a8, r8) =
        write_artifacts-read lib codec writers sink output.artifact_bundle
          (items output.report.artifacts.files) s7 accepts h7 in
      record {
        lengths_out = lengths_out;
        lengths_err = lengths_err;
        valid = valid;
        head = d4;
        body = d5;
        out = d6;
        diagnostics = d7;
        files = d8;
        adds =
            subst (λ x. Adds x t (d4 ++ (d5 ++ (d6 ++ (d7 ++ d8))))) (sym (same1 ∙ same2 ∙ same3))
              (Adds-trans s3 s4 t d4 _ a4 (
                Adds-trans s4 s5 t d5 _ a5
                  (Adds-trans s5 s6 t d6 _ a6 (Adds-trans s6 s7 t d7 d8 a7 a8))));
        reads_head = λ rest.
            read_preamble-head sent p d4 rest (r4 rest)
              (decode_preamble-marshal lib codec sent back preamble);
        encoded = r;
        decodes = decode_execution_report-marshal lib codec output.report back report;
        reads_body = r5;
        reads_out = λ rest. r6 (length output.stdout) [] rest (omega arith);
        reads_err = λ rest. r7 (length output.stderr) [] rest (omega arith);
        reads_files = r8;
      }

  write_execution-inner :
      (output : Output) (s : Sent) {t : Sent}
      → write_execution lib codec writers output s ≡ (t, ok tt)
      → write_output lib codec writers output s ≡ (t, ok tt)
  unfolding write_execution
  write_execution-inner output s h =
      close_lem (bundle_closes lib codec writers output.artifact_bundle)
        (write_output lib codec writers output s) h
    where
      close_lem :
          (closes : Bool) (x : Sent × Checked WireRule) {t : Sent}
          → close_output lib codec writers closes x ≡ (t, ok tt)
          → x ≡ (t, ok tt)
      close_lem closes (sent, ok x) h = ap (λ p. (p.0, ok tt)) h
      close_lem closes (sent, err rule) h = h

  read_streams-carried :
      (sink : ArtifactSink) (output : Output) (s t : Sent)
      → (c : IsCarried lib codec writers sink output s t)
      → read_streams lib codec
          (preamble_of lib codec writers output)
          (c.body ++ (c.out ++ (c.diagnostics ++ c.files)))
        ≡ ok (response_of output, c.files)
  unfolding read_streams
  read_streams-carried sink output s t c =
      let parts = validate_execution_report-HasParts lib output.report c.valid in
      rw
        (
          c.reads_body (c.out ++ (c.diagnostics ++ c.files)),
          c.decodes,
          read_bytes-content output.report.stdout output.stdout
              (c.out ++ (c.diagnostics ++ c.files)) (c.diagnostics ++ c.files) c.lengths_out
              (retained_within "stdout" output.report.stdout parts.stdout_ok)
              (c.reads_out (c.diagnostics ++ c.files)),
          (bytes_eq_iff (digest_hex lib output.stdout) (digest_hex lib output.stdout)).1 refl,
          read_bytes-content output.report.stderr output.stderr (c.diagnostics ++ c.files) c.files
              c.lengths_err (retained_within "stderr" output.report.stderr parts.stderr_ok)
              (c.reads_err c.files),
          (bytes_eq_iff (digest_hex lib output.stderr) (digest_hex lib output.stderr)).1 refl,
        )
        refl

  -- If `WriteExecution` reports success, whatever the writer does in between, and the JSON decoder reads
  -- back what json.Marshal wrote of its preamble and report, then `ReadResponse` of the bytes sent, with a sink that takes
  -- everything, returns the report, the standard output and the error output of the execution, and
  -- for each file of the report, the destination has taken exactly the content that the bundle
  -- holds for it when the sink commits.
  pub read_response-write_execution :
      (sink : ArtifactSink) (output : Output) {t : Sent}
      → DecodesBack codec (preamble_of lib codec writers output) output.report
      → Accepts sink
      → write_execution lib codec writers output (record { frames = 0; delivered = [] })
        ≡ (t, ok tt)
      → read_response lib codec (some sink) (expect_eof true) t.delivered ≡ (
        ok (response_of output),
        published output.artifact_bundle (items output.report.artifacts.files),
      )
  unfolding read_response
  read_response-write_execution sink output {t} back accepts h =
      let start : Sent = record { frames = 0; delivered = [] } in
      let c =
        write_output-IsCarried sink output start back accepts
          (write_execution-inner output start h) in
      let files = items output.report.artifacts.files in
      let all = c.reads_files [] in
      let last : read_artifacts lib codec sink files c.files
          ≡ ok (contents_of output.artifact_bundle files, []) =
        subst
          (λ x.
            read_artifacts lib codec sink files x
            ≡ ok (contents_of output.artifact_bundle files, []))
          (append-nil c.files) all in
      rw
        (
          c.adds,
          c.reads_head (c.body ++ (c.out ++ (c.diagnostics ++ c.files))),
          read_streams-carried sink output start t c,
          with_artifacts-published lib codec sink output.artifact_bundle (response_of output) files
              c.files accepts refl last,
        )
        refl
