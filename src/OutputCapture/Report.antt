-- ===== src/OutputCapture/Report.antt =====
-- What a snapshot reports about everything written since `New`.
use agent_workstation_gatewa.Base.{
  ℕ, ◌^◌, ◌<◌, min, ◌≡◌, ap, ◌∙◌, pos, List, ok, ltb, le→ltb_false, length, length-take, take,
  arith,
}
use agent_workstation_gatewa.Text.{Bytes}
use agent_workstation_gatewa.Library.{Library, digest_hex}
use agent_workstation_gatewa.OutputCapture.{Capture, Snapshot, new, write_all, snapshot, max_int64}
use agent_workstation_gatewa.OutputCapture.Content.{
  Holds, new-Holds, concat, write_all-Holds, limit-write_all,
}

-- The report that belongs to `content` under a limit.
abbrev pub report_of : Library → ℕ → Bytes → Snapshot
report_of lib limit content = record {
  metadata = record {
    sha256 = digest_hex lib content;
    total_bytes = pos (length content);
    retained_bytes = pos (min limit (length content));
    truncated = ltb limit (length content);
  };
  retained = take limit content;
}

limit-new : (limit : ℕ) {c : Capture} → new (pos limit) ≡ ok c → c.limit ≡ limit
unfolding new
limit-new limit e = ground arith

truncated_lem : (limit n : ℕ) → ltb (min limit n) n ≡ ltb limit n
truncated_lem limit n = ground arith

snapshot-Holds :
    (lib : Library) (c : Capture) (content : Bytes)
    → Holds c content
    → length content < 2 ^ 63
    → snapshot lib c ≡ ok (report_of lib c.limit content)
unfolding snapshot
snapshot-Holds lib c content h small = rw (le→ltb_false max_int64 c.total (omega arith)) (
    ap ok (λ i. record {
      metadata = record {
        sha256 = digest_hex lib (h.hashed i);
        total_bytes = pos (h.counted i);
        retained_bytes = pos (kept i);
        truncated = cut i;
      };
      retained = h.front i;
    }))
  where
    kept : length c.retained ≡ min c.limit (length content)
    kept = ap length h.front ∙ length-take c.limit content

    cut : ltb (length c.retained) c.total ≡ ltb c.limit (length content)
    cut =
        ap (λ n. ltb n c.total) kept
        ∙ ap (ltb (min c.limit (length content))) h.counted
        ∙ truncated_lem c.limit (length content)

-- After any writes of less than 2^63 bytes in all, the snapshot retains exactly the first
-- `limit` bytes, counts and hashes all bytes, and says whether some were left out.
pub snapshot-write_all :
    (lib : Library) (limit : ℕ) {c : Capture} (xs : List Bytes)
    → new (pos limit) ≡ ok c
    → length (concat xs) < 2 ^ 63
    → snapshot lib (write_all c xs) ≡ ok (report_of lib limit (concat xs))
snapshot-write_all lib limit {c} xs e small =
    snapshot-Holds lib (write_all c xs) (concat xs)
      (write_all-Holds c _ xs (new-Holds (pos limit) e) (omega arith)) small
    ∙ ap (λ n. ok (report_of lib n (concat xs))) (limit-write_all c xs ∙ limit-new limit e)
