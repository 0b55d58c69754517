-- ===== src/BrokerWire/Taken.antt =====
-- What the destination of an artifact has taken: `writeAll` and the loop of `readArtifact`.
use agent_workstation_gatewa.Base.{
  ℕ, zero, suc, ◌-◌, ◌≡◌, ◌≢◌, refl, ap, ap₂, sym, ◌∙◌, pos, [], ◌++◌, append-nil, Checked, ok, err,
  map_err, >>=-eq-ok, reject->>, ltb, length, some, arith,
}
use agent_workstation_gatewa.Text.{Bytes}
use agent_workstation_gatewa.IpcFrame.{FrameRule, Writer, read}
use agent_workstation_gatewa.IpcFrame.Header.{Delivers, MakesProgress, send-Delivers, send_ok}
use agent_workstation_gatewa.BrokerWire.Types.{
  WireRule, max_data_chunk_bytes, artifact_content_truncated, artifact_content_overrun,
}
use agent_workstation_gatewa.BrokerWire.Read.{taken_of, write_all, read_chunks}

taken_of-eq-ok :
    (content : Bytes) (x : Checked FrameRule × Bytes) {taken : Bytes}
    → Delivers [] content x
    → taken_of x ≡ ok taken
    → taken ≡ content
taken_of-eq-ok content (ok u, own) {taken} d h =
    let same : own ≡ taken = cc in
    sym same ∙ sym (append-nil own) ∙ ap (λ r. own ++ r) (sym (d.complete refl)) ∙ d.split_at
taken_of-eq-ok content (err rule, own) d h = absurd (cc h)

-- Without an error the destination has taken all of the chunk.
pub write_all-eq-ok :
    (writer : Writer) (content : Bytes) {taken : Bytes}
    → write_all writer content ≡ ok taken
    → taken ≡ content
write_all-eq-ok writer content h =
    taken_of-eq-ok content _ (send-Delivers writer (length content) 0 content [] (omega arith)) h

pub write_all-ok :
    (writer : Writer) (content : Bytes)
    → MakesProgress writer
    → write_all writer content ≡ ok content
write_all-ok writer content good =
    sent_lem _ (send-Delivers writer (length content) 0 content [] (omega arith))
      (send_ok writer good (length content) 0 content [] (omega arith))
  where
    sent_lem :
        (x : Checked FrameRule × Bytes)
        → Delivers [] content x
        → x.0 ≡ ok tt
        → taken_of x ≡ ok content
    sent_lem (ok u, own) d h = ap ok (taken_of-eq-ok content (ok u, own) d refl)
    sent_lem (err rule, own) d h = absurd (cc h)

-- The loop of `writeAll` ends by itself.
pub write_all_enough :
    (writer : Writer) (content : Bytes) → write_all writer content ≢ err WireRule.out_of_fuel
write_all_enough writer content =
    ended_lem _ (send-Delivers writer (length content) 0 content [] (omega arith)).enough
  where
    ended_lem :
        (x : Checked FrameRule × Bytes)
        → x.0 ≢ err FrameRule.out_of_fuel
        → taken_of x ≢ err WireRule.out_of_fuel
    ended_lem (ok u, own) h = λ no. cc
    ended_lem (err FrameRule.out_of_fuel, own) h = absurd (h refl)
    ended_lem (err FrameRule.invalid_read_policy, own) h = λ no. cc
    ended_lem (err FrameRule.header_truncated, own) h = λ no. cc
    ended_lem (err FrameRule.payload_size_denied, own) h = λ no. cc
    ended_lem (err FrameRule.payload_truncated, own) h = λ no. cc
    ended_lem (err FrameRule.invalid_write_policy, own) h = λ no. cc
    ended_lem (err FrameRule.write_count_invalid, own) h = λ no. cc
    ended_lem (err FrameRule.write_failed, own) h = λ no. cc
    ended_lem (err FrameRule.write_short, own) h = λ no. cc

-- What the destination has taken is what was hashed.
pub read_chunks-taken :
    (destination : ℕ → Writer) (k fuel remaining : ℕ) (hashed taken stream : Bytes)
    {after end rest : Bytes}
    → taken ≡ hashed
    → read_chunks destination k fuel remaining hashed taken stream ≡ ok (after, end, rest)
    → end ≡ after
unfolding read_chunks
read_chunks-taken destination k fuel zero hashed taken stream {after} {end} e h =
    let own : hashed ≡ after = cc in let own' : taken ≡ end = cc in sym own' ∙ e ∙ own
read_chunks-taken destination k zero (suc n) hashed taken stream e h = absurd (cc h)
read_chunks-taken destination k (suc fuel) (suc n) hashed taken stream e h =
    let (pair, _, h1) =
      >>=-eq-ok (map_err artifact_content_truncated (read (some stream) (pos max_data_chunk_bytes)))
        _ h in
    let (_, h2) = (reject->> (ltb (suc n) (length (pair.0))) artifact_content_overrun _).0 h1 in
    let (chunk, w, h3) = >>=-eq-ok (write_all (destination k) (pair.0)) _ h2 in
    read_chunks-taken destination (suc k) fuel (suc n - length (pair.0)) (hashed ++ pair.0)
      (taken ++ chunk) (pair.1) (ap₂ (λ x y. x ++ y) e (write_all-eq-ok (destination k) (pair.0) w))
      h3
