-- ===== src/BrokerWire/Committed.antt =====
-- What a client commits, whatever stream it is given.
use agent_workstation_gatewa.Base.{
  ℕ, zero, suc, ◌+◌, ◌-◌, ◌≤◌, ◌≡◌, refl, ap, sym, subst, ◌∙◌, pos, not, false, List, [], ◌∷◌, ◌++◌,
  length-append, Result, Checked, ok, err, map_err, >>=-eq-ok, >>-eq-ok, reject->>, not-false, ltb,
  length, Option, none, some, Bool-cases, inl, inr, arith,
}
use agent_workstation_gatewa.Text.{Bytes, bytes_eq, bytes_eq_iff}
use agent_workstation_gatewa.Library.{Library, digest_hex}
use agent_workstation_gatewa.Protocol.Types.{items, ArtifactFile}
use agent_workstation_gatewa.IpcFrame.{Writer, read}
use agent_workstation_gatewa.BrokerWire.Types.{
  Preamble, Outcome, execution, rejected, WireRule, Codec, max_data_chunk_bytes, size_of,
  artifact_content_truncated, artifact_content_overrun, artifact_digest_mismatch,
  artifact_destination_open_failed, artifact_destination_close_failed,
}
use agent_workstation_gatewa.BrokerWire.Taken.{read_chunks-taken}
use agent_workstation_gatewa.BrokerWire.Read.{
  ArtifactSink, Transaction, not_begun, aborted, committed, Response, write_all, read_chunks,
  read_artifact, read_artifacts, settle_transaction, receive_artifacts, with_artifacts,
  with_response, with_preamble, read_streams, read_preamble, begin_response, read_response,
}

-- Each file with a content of its size and its digest.
abbrev pub Holds : Library → List ArtifactFile → List (ArtifactFile × Bytes) → Type 0
Holds lib [] [] = Unit
Holds lib [] (c ∷ contents) = ⊥
Holds lib (file ∷ files) [] = ⊥
Holds lib (file ∷ files) (c ∷ contents) =
    (c.0 ≡ file)
    × (length (c.1) ≡ size_of file.size_bytes)
    × (digest_hex lib (c.1) ≡ file.sha256)
    × Holds lib files contents

pair_lem :
    {A B : Type 0} {a c : A} {b d : B}
    → ◌≡◌ {A = Result WireRule (A × B)} (ok (a, b)) (ok (c, d))
    → (a ≡ c) × (b ≡ d)
pair_lem h = (cc, cc)

grown_lem :
    (n : ℕ) (hashed chunk after : Bytes) (m : ℕ)
    → ltb (suc n) (length chunk) ≡ false
    → m ≡ suc n - length chunk
    → length after ≡ length (hashed ++ chunk) + m
    → length after ≡ length hashed + suc n
grown_lem n hashed chunk after m small e h =
    let bound = not_less (suc n) (length chunk) small in
    omega (arith, h, e, length-append hashed chunk)
  where
    not_less : (a b : ℕ) → ltb a b ≡ false → b ≤ a
    not_less a b h = ground arith

length-read_chunks :
    (destination : ℕ → Writer) (k fuel remaining : ℕ) (hashed taken stream : Bytes)
    {after end rest : Bytes}
    → read_chunks destination k fuel remaining hashed taken stream ≡ ok (after, end, rest)
    → length after ≡ length hashed + remaining
unfolding read_chunks
length-read_chunks destination k fuel zero hashed taken stream {after} h =
    let same : hashed ≡ after = cc in ap length (sym same) ∙ (omega arith)
length-read_chunks destination k zero (suc n) hashed taken stream h = absurd (cc h)
length-read_chunks destination k (suc fuel) (suc n) hashed taken stream {after} h =
    let (pair, _, h1) =
      >>=-eq-ok (map_err artifact_content_truncated (read (some stream) (pos max_data_chunk_bytes)))
        _ h in
    let (small, h2) = (reject->> (ltb (suc n) (length (pair.0))) artifact_content_overrun _).0 h1 in
    let (chunk, _, h3) = >>=-eq-ok (write_all (destination k) (pair.0)) _ h2 in
    grown_lem n hashed (pair.0) after (suc n - length (pair.0)) small refl (
      length-read_chunks destination (suc k) fuel (suc n - length (pair.0)) (hashed ++ pair.0)
        (taken ++ chunk) (pair.1) h3)

module _ (lib : Library) (codec : Codec) where
  read_artifacts-Holds :
      (sink : ArtifactSink) (files : List ArtifactFile) (stream : Bytes)
      {contents : List (ArtifactFile × Bytes)} {rest : Bytes}
      → read_artifacts lib codec sink files stream ≡ ok (contents, rest)
      → Holds lib files contents
  unfolding read_artifacts read_artifact
  read_artifacts-Holds sink [] stream {contents} h =
      let (same, _) = pair_lem h in subst (Holds lib []) same tt
  read_artifacts-Holds sink (file ∷ files) stream {contents} h =
      let (pair, e, h1) = >>=-eq-ok (read_artifact lib codec sink file stream) _ h in
      let (later, e', h2) = >>=-eq-ok (read_artifacts lib codec sink files (pair.1)) _ h1 in
      let (same, _) = pair_lem h2 in
      let size = size_of file.size_bytes in
      let (_, k1) = (reject->> (not (sink.opens file)) artifact_destination_open_failed _).0 e in
      let (chunks, c, k2) =
        >>=-eq-ok (read_chunks (sink.destination file) 0 size size [] [] stream) _ k1 in
      let (digest, k3) =
        (reject->> (not (bytes_eq (digest_hex lib (chunks.0)) file.sha256)) artifact_digest_mismatch
            _).0
          k2 in
      let (_, k4) = (reject->> (not (sink.closes file)) artifact_destination_close_failed _).0 k3 in
      let (own, _) = pair_lem k4 in
      let written : chunks.0 ≡ _ =
        sym (read_chunks-taken (sink.destination file) 0 size size [] [] stream refl c) ∙ own in
      subst (Holds lib (file ∷ files)) same (
        refl,
        ap length (sym written)
            ∙ (length-read_chunks (sink.destination file) 0 size size [] [] stream c
                ∙ (omega arith)),
        ap (digest_hex lib) (sym written) ∙ (bytes_eq_iff _ _).0 (not-false _ digest),
        read_artifacts-Holds sink files (pair.1) e',
      )

  -- What goes with a commit: the response is returned, and more.
  abbrev Commits :
      (Response → List (ArtifactFile × Bytes) → Type 0)
      → Result WireRule Response × Transaction
      → Type 0
  Commits more x =
      (contents : List (ArtifactFile × Bytes))
      → x.1 ≡ committed contents
      → (response : Response) × (x.0 ≡ ok response) × more response contents

  -- The artifacts of a response are read from here, and the exchange ends well right behind them.
  pub record IsReceived (sink : Option ArtifactSink) (finish : Bytes → Checked WireRule)
      (stream : Bytes) (response : Response) (contents : List (ArtifactFile × Bytes)) : Type 0 where
    pub chosen : ArtifactSink
    pub given : sink ≡ some chosen
    pub end : Bytes
    pub reads :
        read_artifacts lib codec chosen (items response.report.artifacts.files) stream
        ≡ ok (contents, end)
    pub ends : finish end ≡ ok tt

  -- The same, behind the report and the two outputs of a response.
  pub record IsRead (sink : Option ArtifactSink) (finish : Bytes → Checked WireRule)
      (x : Result WireRule (Response × Bytes)) (response : Response)
      (contents : List (ArtifactFile × Bytes)) : Type 0 where
    pub behind : Bytes
    pub streams : x ≡ ok (response, behind)
    pub received : IsReceived sink finish behind response contents

  -- The parts of a whole exchange, each read where the one before ended: the preamble, the report with
  -- both outputs, the artifacts, and the end of the exchange.
  pub record IsWhole (sink : Option ArtifactSink) (finish : Bytes → Checked WireRule)
      (x : Result WireRule (Preamble × Bytes)) (response : Response)
      (contents : List (ArtifactFile × Bytes)) : Type 0 where
    pub preamble : Preamble
    pub behind : Bytes
    pub begins : x ≡ ok (preamble, behind)
    pub reads : IsRead sink finish (read_streams lib codec preamble behind) response contents

  receive-reads :
      (sink : ArtifactSink) (finish : Bytes → Checked WireRule) (response : Response)
      (stream : Bytes) {contents : List (ArtifactFile × Bytes)}
      → receive_artifacts lib codec sink finish response stream ≡ ok contents
      → IsReceived (some sink) finish stream response contents
  receive-reads sink finish response stream {contents} h =
      let files = items response.report.artifacts.files in
      let (pair, e, h1) = >>=-eq-ok (read_artifacts lib codec sink files stream) _ h in
      let (done, h2) = (>>-eq-ok (finish (pair.1)) _).0 h1 in
      let same : pair.0 ≡ contents = cc in
      record {
        chosen = sink;
        given = refl;
        end = pair.1;
        reads = e ∙ ap (λ x. ok (x, pair.1)) same;
        ends = done;
      }

  not_begun-Commits :
      (more : Response → List (ArtifactFile × Bytes) → Type 0) (r : Result WireRule Response)
      → Commits more (r, not_begun)
  not_begun-Commits more r contents h = absurd (cc h)

  settle-Commits :
      (more : Response → List (ArtifactFile × Bytes) → Type 0) (sink : ArtifactSink)
      (response : Response) (x : Result WireRule (List (ArtifactFile × Bytes)))
      → ((contents : _) → x ≡ ok contents → more response contents)
      → Commits more (settle_transaction lib codec sink response x)
  settle-Commits more sink response (err rule) holds contents h = absurd (cc h)
  settle-Commits more sink response (ok kept) holds contents h = elim (Bool-cases sink.commits) [
    | inl e ↦
        let same : committed kept ≡ committed contents = rw e at h in
        let own : kept ≡ contents = cc in rw e (response, refl, holds contents (ap ok own))
    | inr e ↦ let no : aborted ≡ committed contents = rw e at h in absurd (cc no)
  ]

  with_artifacts-Commits :
      (sink : Option ArtifactSink) (finish : Bytes → Checked WireRule) (response : Response)
      (files : List ArtifactFile) (stream : Bytes)
      → Commits
          (λ r c. (r ≡ response) × IsReceived sink finish stream r c)
          (with_artifacts lib codec sink finish response files stream)
  unfolding with_artifacts
  with_artifacts-Commits sink finish response [] stream = not_begun-Commits _ _
  with_artifacts-Commits none finish response (file ∷ files) stream = not_begun-Commits _ _
  with_artifacts-Commits (some sink) finish response (file ∷ files) stream =
      elim (Bool-cases sink.begins) [
        | inl e ↦ simp (e) (
            settle-Commits (λ r c. (r ≡ response) × IsReceived (some sink) finish stream r c) sink
              response _ (λ contents h. (refl, receive-reads sink finish response stream h)))
        | inr e ↦
            simp (e) (
              not_begun-Commits (λ r c. (r ≡ response) × IsReceived (some sink) finish stream r c)
                _)
      ]

  with_response-Commits :
      (sink : Option ArtifactSink) (finish : Bytes → Checked WireRule)
      (x : Result WireRule (Response × Bytes))
      → Commits (IsRead sink finish x) (with_response lib codec sink finish x)
  with_response-Commits sink finish (err rule) contents h = absurd (cc h)
  with_response-Commits sink finish (ok (response, stream)) contents h =
      let (r, done, (same, received)) =
        with_artifacts-Commits sink finish response (items response.report.artifacts.files) stream
          contents h in
      (
        r,
        done,
        record {
          behind = stream;
          streams = ap (λ x. ok (x, stream)) (sym same);
          received = received;
        },
      )

  with_preamble-Commits :
      (sink : Option ArtifactSink) (finish : Bytes → Checked WireRule) (preamble : Preamble)
      (stream : Bytes) (outcome : Outcome)
      → Commits
          (IsRead sink finish (read_streams lib codec preamble stream))
          (with_preamble lib codec sink finish preamble stream outcome)
  with_preamble-Commits sink finish preamble stream rejected = not_begun-Commits _ _
  with_preamble-Commits sink finish preamble stream execution =
      with_response-Commits sink finish (read_streams lib codec preamble stream)
  with_preamble-Commits sink finish preamble stream (Outcome.other name) =
      with_response-Commits sink finish (read_streams lib codec preamble stream)

  begin_response-Commits :
      (sink : Option ArtifactSink) (finish : Bytes → Checked WireRule)
      (x : Result WireRule (Preamble × Bytes))
      → Commits (IsWhole sink finish x) (begin_response lib codec sink finish x)
  begin_response-Commits sink finish (err rule) contents h = absurd (cc h)
  begin_response-Commits sink finish (ok (preamble, stream)) contents h =
      let (r, done, read) =
        with_preamble-Commits sink finish preamble stream preamble.outcome contents h in
      (r, done, record { preamble = preamble; behind = stream; begins = refl; reads = read })

  -- Whatever the stream holds and the sink and the end of the exchange answer: if the sink has
  -- committed, then the reading returned a response, the preamble, the response and the artifacts were
  -- read from the stream one behind the other, the exchange ended well with what is left behind them,
  -- and each file that was committed is one of the report's, in order, where the destination has taken
  -- a content of the size and the digest that the report gives.
  pub read_response-committed :
      (sink : Option ArtifactSink) (finish : Bytes → Checked WireRule) (stream : Bytes)
      (contents : List (ArtifactFile × Bytes))
      → (read_response lib codec sink finish stream).1 ≡ committed contents
      → (response : Response) × ((read_response lib codec sink finish stream).0 ≡ ok response)
        × Holds lib (items response.report.artifacts.files) contents
        × IsWhole sink finish (read_preamble lib codec stream) response contents
  unfolding read_response
  read_response-committed sink finish stream contents h =
      let (response, done, whole) =
        begin_response-Commits sink finish (read_preamble lib codec stream) contents h in
      let received = whole.reads.received in
      (
        response,
        done,
        read_artifacts-Holds received.chosen (items response.report.artifacts.files)
            whole.reads.behind received.reads,
        whole,
      )
