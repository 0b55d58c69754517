-- ===== src/BrokerWire/Carried.antt =====
-- What each writing function of a response leaves behind is what its reading counterpart takes.
use agent_workstation_gatewa.Base.{
  ℕ, zero, suc, ◌-◌, ◌≤◌, min, ◌≡◌, refl, ap, ap₂, sym, ◌∙◌, subst, pos, true, false, [], ◌∷◌, ◌++◌,
  append-nil, append_assoc, Result, ok, map_err-eq-ok, le→ltb_false, ltb, length, take, drop,
  length-take, length-drop, take-append-drop, Option, none, some, Bool-cases, inl, inr, arith,
}
use agent_workstation_gatewa.Text.{Bytes}
use agent_workstation_gatewa.Library.{Library}
use agent_workstation_gatewa.Protocol.Types.{ArtifactFile}
use agent_workstation_gatewa.IpcFrame.{Writer, read, read_full, write}
use agent_workstation_gatewa.IpcFrame.Header.{MakesProgress}
use agent_workstation_gatewa.IpcFrame.RoundTrip.{read-write}
use agent_workstation_gatewa.BrokerWire.Types.{
  WireRule, artifact_content_truncated, artifact_write_failed, Codec, or_rule, max_data_chunk_bytes,
}
use agent_workstation_gatewa.BrokerWire.Writing.{Sent, lift}
use agent_workstation_gatewa.BrokerWire.Write.{emit_frame, write_bytes, write_chunks}
use agent_workstation_gatewa.BrokerWire.Read.{ArtifactSink, read_content, read_chunks}
use agent_workstation_gatewa.BrokerWire.Taken.{write_all-ok}
use agent_workstation_gatewa.BrokerWire.Chained.{
  >>=-written, lift-written, Adds, Adds-trans, Adds-none,
}

module _ (lib : Library) (codec : Codec) (writers : ℕ → Writer) where
  pub emit_frame-read :
      (payload : Bytes) (maximum : ℕ) (rule : WireRule) (s : Sent) {t : Sent}
      → emit_frame lib codec writers payload maximum rule s ≡ (t, ok tt)
      → (d : Bytes) × Adds s t d
        × ((rest : Bytes) → read (some (d ++ rest)) (pos maximum) ≡ ok (payload, rest))
  unfolding emit_frame
  emit_frame-read payload maximum rule s h =
      let sent = map_err-eq-ok rule _ (ap (λ p. p.1) h) in
      (
        (write (some (writers s.frames)) payload (pos maximum)).1,
        ap (λ p. (p.0).delivered) (sym h),
        λ rest. read-write (writers s.frames) payload rest maximum sent,
      )

  rest_lem :
      (n : ℕ) (content : Bytes)
      → suc n ≡ length content
      → (suc n - length (take max_data_chunk_bytes content))
        ≡ length (drop max_data_chunk_bytes content)
  rest_lem n content h =
      omega (
        arith,
        h,
        length-take max_data_chunk_bytes content,
        length-drop max_data_chunk_bytes content,
      )

  within_lem :
      (n : ℕ) (content : Bytes)
      → suc n ≡ length content
      → ltb (suc n) (length (take max_data_chunk_bytes content)) ≡ false
  within_lem n content h =
      le→ltb_false (suc n) (length (take max_data_chunk_bytes content))
        (omega (arith, h, length-take max_data_chunk_bytes content))

  less_lem :
      (c : ℕ) (content : Bytes) (fuel : ℕ)
      → length (c ∷ content) ≤ suc fuel
      → length (drop max_data_chunk_bytes (c ∷ content)) ≤ fuel
  less_lem c content fuel h = omega (arith, h, length-drop max_data_chunk_bytes (c ∷ content))

  content_step :
      (turns n m : ℕ) (chunk before stream mid : Bytes) {r : Bytes × Bytes}
      → read (some stream) (pos max_data_chunk_bytes) ≡ ok (chunk, mid)
      → ltb (suc n) (length chunk) ≡ false
      → (suc n - length chunk) ≡ m
      → read_content turns m (before ++ chunk) mid ≡ ok r
      → read_content (suc turns) (suc n) before stream ≡ ok r
  unfolding read_content
  content_step turns n m chunk before stream mid h small e later = rw (h, small, e) later

  content_turns :
      (turns n m : ℕ) (chunk before stream mid : Bytes) {r : Bytes × Bytes}
      → suc n ≤ turns
      → read (some stream) (pos max_data_chunk_bytes) ≡ ok (chunk, mid)
      → ltb (suc n) (length chunk) ≡ false
      → (suc n - length chunk) ≡ m
      → ((fuel : ℕ) → n ≤ fuel → read_content fuel m (before ++ chunk) mid ≡ ok r)
      → read_content turns (suc n) before stream ≡ ok r
  content_turns zero n m chunk before stream mid enough h small e later = absurd (omega arith)
  content_turns (suc turns) n m chunk before stream mid enough h small e later =
      content_step turns n m chunk before stream mid h small e (later turns (omega arith))

  -- The chunks of a content.
  pub write_bytes-read :
      (fuel : ℕ) (content : Bytes) (rule : WireRule) (s : Sent) {t : Sent}
      → write_bytes lib codec writers fuel content rule s ≡ (t, ok tt)
      → (d : Bytes) × Adds s t d
        × ((turns : ℕ) (before rest : Bytes)
            → length content ≤ turns
            → read_content turns (length content) before (d ++ rest) ≡ ok (before ++ content, rest))
  unfolding write_bytes read_content
  write_bytes-read fuel [] rule s {t} h = (
    [],
    Adds-none s t (ap (λ p. p.0) h),
    λ turns before rest k. ap (λ x. ok (x, rest)) (sym (append-nil before)),
  )
  write_bytes-read zero (c ∷ content) rule s h = absurd (cc (ap (λ p. p.1) h))
  write_bytes-read (suc fuel) (c ∷ content) rule s {t} h =
      let chunk = take max_data_chunk_bytes (c ∷ content) in
      let tail = drop max_data_chunk_bytes (c ∷ content) in
      let (u, _, first, later) =
        >>=-written (emit_frame lib codec writers chunk max_data_chunk_bytes rule)
          (λ _. write_bytes lib codec writers fuel tail rule) s h in
      let (d, adds, reads) = emit_frame-read chunk max_data_chunk_bytes rule s first in
      let (e, adds', reads') = write_bytes-read fuel tail rule u later in
      (
        d ++ e,
        Adds-trans s u t d e adds adds',
        λ turns before rest k.
            content_turns turns (length content) (length tail) chunk before ((d ++ e) ++ rest)
              (e ++ rest) k
              (ap (λ x. read (some x) (pos max_data_chunk_bytes)) (append_assoc d e rest)
                ∙ reads (e ++ rest))
              (within_lem (length content) (c ∷ content) refl)
              (rest_lem (length content) (c ∷ content) refl)
              (λ left l.
                reads' left (before ++ chunk) rest (less_lem c content left (omega arith))
                ∙ ap (λ x. ok (x, rest))
                    (append_assoc before chunk tail
                      ∙ ap (λ x. before ++ x)
                          (take-append-drop max_data_chunk_bytes (c ∷ content)))),
      )

pub or_rule-eq-ok :
    {A : Type 0} (rule : WireRule) (x : Option A) {a : A} → or_rule rule x ≡ ok a → x ≡ some a
or_rule-eq-ok rule none h = absurd (cc h)
or_rule-eq-ok rule (some y) h = cc

some_lem :
    {a b c d : Bytes}
    → ◌≡◌ {A = Option (Bytes × Bytes)} (some (a, b)) (some (c, d))
    → (a ≡ c) × (b ≡ d)
some_lem h = (cc, cc)

min_lem : (n m : ℕ) → ltb m n ≡ false → min n m ≡ n
min_lem n m e = ground arith

cut_lem : (n : ℕ) (s : Bytes) → ltb (length s) n ≡ false → length (take n s) ≡ n
cut_lem n s e = length-take n s ∙ min_lem n (length s) e

read_full-some :
    (n : ℕ) (s : Bytes) {front back : Bytes}
    → read_full n s ≡ some (front, back)
    → (length front ≡ n) × (front ++ back ≡ s)
unfolding read_full
read_full-some n s {front} {back} h = elim (Bool-cases (ltb (length s) n)) [
  | inl e ↦ let no : none ≡ some (front, back) = rw e at h in absurd (cc no)
  | inr e ↦
      let whole : some (take n s, drop n s) ≡ some (front, back) = rw e at h in
      let (first, second) = some_lem whole in
      (
        ap length (sym first) ∙ cut_lem n s e,
        ap₂ (λ x y. x ++ y) (sym first) (sym second) ∙ take-append-drop n s,
      )
]

-- A sink that takes everything.
pub record Accepts (sink : ArtifactSink) : Type 0 where
  pub begins : sink.begins ≡ true
  pub opens : (file : ArtifactFile) → sink.opens file ≡ true
  pub progresses : (file : ArtifactFile) (k : ℕ) → MakesProgress (sink.destination file k)
  pub closes : (file : ArtifactFile) → sink.closes file ≡ true
  pub commits : sink.commits ≡ true

module _ (destination : ℕ → Writer) (good : (k : ℕ) → MakesProgress (destination k)) where
  chunk_step :
      (k turns n m : ℕ) (chunk hashed stream mid : Bytes) {r : Bytes × Bytes × Bytes}
      → read (some stream) (pos max_data_chunk_bytes) ≡ ok (chunk, mid)
      → ltb (suc n) (length chunk) ≡ false
      → (suc n - length chunk) ≡ m
      → read_chunks destination (suc k) turns m (hashed ++ chunk) (hashed ++ chunk) mid ≡ ok r
      → read_chunks destination k (suc turns) (suc n) hashed hashed stream ≡ ok r
  unfolding read_chunks
  chunk_step k turns n m chunk hashed stream mid h small e later =
      rw (h, small, write_all-ok (destination k) chunk (good k), e) later

  chunk_turns :
      (k turns n m : ℕ) (chunk hashed stream mid : Bytes) {r : Bytes × Bytes × Bytes}
      → suc n ≤ turns
      → read (some stream) (pos max_data_chunk_bytes) ≡ ok (chunk, mid)
      → ltb (suc n) (length chunk) ≡ false
      → (suc n - length chunk) ≡ m
      → ((fuel : ℕ)
          → n ≤ fuel
          → read_chunks destination (suc k) fuel m (hashed ++ chunk) (hashed ++ chunk) mid ≡ ok r)
      → read_chunks destination k turns (suc n) hashed hashed stream ≡ ok r
  chunk_turns k zero n m chunk hashed stream mid enough h small e later = absurd (omega arith)
  chunk_turns k (suc turns) n m chunk hashed stream mid enough h small e later =
      chunk_step k turns n m chunk hashed stream mid h small e (later turns (omega arith))

  module _ (lib : Library) (codec : Codec) (writers : ℕ → Writer) where
    -- What a written artifact leaves: its bytes in the stream, and all of the reader's content hashed and taken.
    pub record Chunked (s t : Sent) (remaining : ℕ) (hashed content after rest : Bytes)
        : Type 0 where
      pub bytes : Bytes
      pub adds : Adds s t bytes
      pub whole : after ++ rest ≡ hashed ++ content
      pub reads :
          (k turns : ℕ) (behind : Bytes)
          → remaining ≤ turns
          → read_chunks destination k turns remaining hashed hashed (bytes ++ behind)
            ≡ ok (after, after, behind)

    chunk_min : (n : ℕ) → ltb (suc n) (min (suc n) max_data_chunk_bytes) ≡ false
    chunk_min n = le→ltb_false (suc n) (min (suc n) max_data_chunk_bytes) (omega arith)

    chunk_less : (n fuel : ℕ) → n ≤ fuel → (suc n - min (suc n) max_data_chunk_bytes) ≤ fuel
    chunk_less n fuel h = omega arith

    ok_lem : {A : Type 0} {x y : A} → ◌≡◌ {A = Result WireRule A} (ok x) (ok y) → x ≡ y
    ok_lem e = cc

    pub write_chunks-Chunked :
        (fuel remaining : ℕ) (hashed content : Bytes) (s : Sent) {t : Sent} {after rest : Bytes}
        → write_chunks lib codec writers fuel remaining hashed content s ≡ (t, ok (after, rest))
        → Chunked s t remaining hashed content after rest
    unfolding write_chunks read_chunks
    write_chunks-Chunked fuel zero hashed content s {t} {after} {rest} h =
        let same : (hashed, content) ≡ (after, rest) = ok_lem (ap (λ p. p.1) h) in
        record {
          bytes = [];
          adds = Adds-none s t (ap (λ p. p.0) h);
          whole = ap (λ x. x.0 ++ x.1) (sym same);
          reads = λ k turns behind e. ap (λ x. ok (x.0, x.0, behind)) same;
        }
    write_chunks-Chunked zero (suc remaining) hashed content s h = absurd (cc (ap (λ p. p.1) h))
    write_chunks-Chunked (suc fuel) (suc n) hashed content s {t} {after} {rest} h =
        let want = min (suc n) max_data_chunk_bytes in
        let (v, pair, e0, h1) =
          >>=-written (lift (or_rule artifact_content_truncated (read_full want content))) _ s h in
        let (same, e1) =
          lift-written (or_rule artifact_content_truncated (read_full want content)) s e0 in
        let chunk = pair.0 in
        let mid = pair.1 in
        let (count, joined) = read_full-some want content (or_rule-eq-ok _ _ e1) in
        let (u, _, first, later) =
          >>=-written
            (emit_frame lib codec writers chunk max_data_chunk_bytes artifact_write_failed) _ v
            h1 in
        let (d, adds, reads) =
          emit_frame-read lib codec writers chunk max_data_chunk_bytes _ v first in
        let rest_of = write_chunks-Chunked fuel (suc n - want) (hashed ++ chunk) mid u later in
        record {
          bytes = d ++ rest_of.bytes;
          adds =
              Adds-trans s u t d rest_of.bytes (subst (λ x. Adds x u d) (sym same) adds)
                rest_of.adds;
          whole = rest_of.whole ∙ append_assoc hashed chunk mid ∙ ap (λ x. hashed ++ x) joined;
          reads = λ k turns behind enough.
              chunk_turns k turns n (suc n - want) chunk hashed ((d ++ rest_of.bytes) ++ behind)
                (rest_of.bytes ++ behind) enough
                (ap (λ x. read (some x) (pos max_data_chunk_bytes))
                    (append_assoc d rest_of.bytes behind)
                  ∙ reads (rest_of.bytes ++ behind))
                (ap (ltb (suc n)) count ∙ chunk_min n) (ap (λ x. suc n - x) count)
                (λ left l. rest_of.reads (suc k) left behind (chunk_less n left l));
        }
