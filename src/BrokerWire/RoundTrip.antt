-- ===== src/BrokerWire/RoundTrip.antt =====
-- `ReadResponse` after `WriteExecution`.
use agent_workstation_gatewa.Base.{
  ℕ, ◌≡◌, refl, ap, sym, ◌∙◌, subst, not, false, List, [], ◌∷◌, ◌++◌, append-nil, append_assoc, ok,
  reject, reject-eq-ok, ltb, length, Option, none, some, arith,
}
use agent_workstation_gatewa.Text.{Bytes, bytes_eq}
use agent_workstation_gatewa.Library.{Library, digest_hex}
use agent_workstation_gatewa.Protocol.Types.{ArtifactFile}
use agent_workstation_gatewa.IpcFrame.{Writer}
use agent_workstation_gatewa.ExecutionRun.Types.{ArtifactReader, ArtifactBundle}
use agent_workstation_gatewa.BrokerWire.Types.{
  artifact_open_failed, artifact_content_overrun, artifact_final_read_failed,
  artifact_digest_mismatch, artifact_reader_close_failed, Codec, or_rule, size_of,
}
use agent_workstation_gatewa.BrokerWire.Writing.{Sent, lift}
use agent_workstation_gatewa.BrokerWire.Write.{
  write_chunks, open_in, write_artifact, write_artifacts,
}
use agent_workstation_gatewa.BrokerWire.Read.{ArtifactSink, read_artifact, read_artifacts}
use agent_workstation_gatewa.BrokerWire.Chained.{
  >>=-written, lift-written, Adds, Adds-trans, Adds-none,
}
use agent_workstation_gatewa.BrokerWire.Carried.{or_rule-eq-ok, Accepts, write_chunks-Chunked}

-- The content that a bundle holds for a file.
abbrev pub content_of : Option ArtifactReader → Bytes
content_of none = []
content_of (some reader) = reader.content

no_rest : (s : Bytes) → ltb 0 (length s) ≡ false → s ≡ []
no_rest [] h = refl
no_rest (c ∷ s) h = absurd (ground arith)

abbrev pub contents_of : Option ArtifactBundle → List ArtifactFile → List (ArtifactFile × Bytes)
contents_of bundle [] = []
contents_of bundle (file ∷ files) =
    (file, content_of (open_in bundle file)) ∷ contents_of bundle files

module _ (lib : Library) (codec : Codec) (writers : ℕ → Writer) where
  write_artifact-read :
      (sink : ArtifactSink) (bundle : Option ArtifactBundle) (file : ArtifactFile) (s : Sent)
      {t : Sent}
      → Accepts sink
      → write_artifact lib codec writers bundle file s ≡ (t, ok tt)
      → (d : Bytes) × Adds s t d
        × ((behind : Bytes)
            → read_artifact lib codec sink file (d ++ behind)
              ≡ ok (content_of (open_in bundle file), behind))
  unfolding write_artifact read_artifact
  write_artifact-read sink bundle file s {t} accepts h =
      let opened = open_in bundle file in
      let (s1, reader, e1, h1) = >>=-written (lift (or_rule artifact_open_failed opened)) _ s h in
      let (same1, there) = lift-written (or_rule artifact_open_failed opened) s e1 in
      let shown : opened ≡ some reader = or_rule-eq-ok artifact_open_failed opened there in
      let size = size_of file.size_bytes in
      let (s2, pair, e2, h2) =
        >>=-written (write_chunks lib codec writers size size [] reader.content) _ s1 h1 in
      let chunks =
        write_chunks-Chunked (sink.destination file) (accepts.progresses file) lib codec writers
          size size [] reader.content s1 e2 in
      let (s3, _, e3, h3) =
        >>=-written (lift (reject (ltb 0 (length (pair.1))) artifact_content_overrun)) _ s2 h2 in
      let (same3, x3) =
        lift-written (reject (ltb 0 (length (pair.1))) artifact_content_overrun) s2 e3 in
      let (s4, _, e4, h4) =
        >>=-written (lift (reject (not reader.ends) artifact_final_read_failed)) _ s3 h3 in
      let (same4, _) = lift-written (reject (not reader.ends) artifact_final_read_failed) s3 e4 in
      let (s5, _, e5, h5) =
        >>=-written
          (lift (
            reject (not (bytes_eq (digest_hex lib (pair.0)) file.sha256)) artifact_digest_mismatch))
          _ s4 h4 in
      let (same5, x5) =
        lift-written
          (reject (not (bytes_eq (digest_hex lib (pair.0)) file.sha256)) artifact_digest_mismatch)
          s4 e5 in
      let (same6, _) =
        lift-written (reject (not reader.closes) artifact_reader_close_failed) s5 h5 in
      let empty = no_rest (pair.1) ((reject-eq-ok _ _).0 x3) in
      let whole : pair.0 ≡ reader.content =
        sym (append-nil (pair.0)) ∙ ap (λ x. pair.0 ++ x) (sym empty) ∙ chunks.whole in
      let digest =
        (reject-eq-ok (not (bytes_eq (digest_hex lib (pair.0)) file.sha256))
            artifact_digest_mismatch).0
          x5 in
      (
        chunks.bytes,
        subst (λ x. Adds x t chunks.bytes) (sym same1)
            (subst (λ x. Adds s1 x chunks.bytes) (same3 ∙ same4 ∙ same5 ∙ same6) chunks.adds),
        λ behind.
            rw
              (
                accepts.opens file,
                chunks.reads 0 size behind (omega arith),
                digest,
                accepts.closes file,
              )
              (ap (λ x. ok (x, behind)) (whole ∙ ap content_of (sym shown))),
      )

  pub write_artifacts-read :
      (sink : ArtifactSink) (bundle : Option ArtifactBundle) (files : List ArtifactFile) (s : Sent)
      {t : Sent}
      → Accepts sink
      → write_artifacts lib codec writers bundle files s ≡ (t, ok tt)
      → (d : Bytes) × Adds s t d
        × ((behind : Bytes)
            → read_artifacts lib codec sink files (d ++ behind)
              ≡ ok (contents_of bundle files, behind))
  unfolding write_artifacts read_artifacts
  write_artifacts-read sink bundle [] s accepts h =
      ([], Adds-none s _ (ap (λ p. p.0) h), λ behind. refl)
  write_artifacts-read sink bundle (file ∷ files) s {t} accepts h =
      let (u, _, e, h1) = >>=-written (write_artifact lib codec writers bundle file) _ s h in
      let (d, adds, reads) = write_artifact-read sink bundle file s accepts e in
      let (d', adds', reads') = write_artifacts-read sink bundle files u accepts h1 in
      (
        d ++ d',
        Adds-trans s u t d d' adds adds',
        λ behind. rw (append_assoc d d' behind, reads (d' ++ behind), reads' behind) refl,
      )
