-- ===== src/IpcFrame/Header.antt =====
-- The length header, and how the loop of `Write` delivers a frame.
use agent_workstation_gatewa.Base.{
  ℕ, zero, suc, ◌^◌, ◌≤◌, ◌<◌, ◌≡◌, ◌≢◌, refl, ap, ◌∙◌, inl, inr, Bool, true, false, [], ◌∷◌, ◌++◌,
  append_assoc, pos, le→ltb_false, Option, none, some, Result, ok, err, ◌==◌, if◌then◌else◌,
  Bool-cases, length, length-drop, take, drop, take-append-drop, arith,
}
use agent_workstation_gatewa.Text.{Bytes}
use agent_workstation_gatewa.IpcFrame.{
  FrameRule, out_of_fuel, write_count_invalid, write_failed, write_short, uint32, put_uint32,
  Writer, Reply, valid_count, send,
}

pub uint32-put_uint32 : (n : ℕ) (s : Bytes) → n < 2 ^ 32 → uint32 (put_uint32 n ++ s) ≡ n
unfolding uint32 put_uint32
uint32-put_uint32 n s h = omega arith

-- What the loop delivers is a front of what it was given, all of it where it ends without error,
-- and the fuel lasts.
pub record Delivers (before frame : Bytes) (x : Result FrameRule (Unit {0}) × Bytes) : Type 0 where
  pub unsent : Bytes
  pub split_at : x.1 ++ unsent ≡ before ++ frame
  pub complete : x.0 ≡ ok tt → unsent ≡ []
  pub enough : x.0 ≢ err out_of_fuel

stopped :
    (before frame taken unsent : Bytes) (why : FrameRule)
    → taken ++ unsent ≡ before ++ frame
    → why ≢ out_of_fuel
    → Delivers before frame (err why, taken)
stopped before frame taken unsent why e ne = record {
  unsent = unsent;
  split_at = e;
  complete = λ h. absurd (cc h);
  enough = λ h. ne (cc h);
}

regroup :
    (n : ℕ) (before frame : Bytes) → (before ++ take n frame) ++ drop n frame ≡ before ++ frame
regroup n before frame =
    append_assoc before (take n frame) (drop n frame) ∙ ap (◌++◌ before) (take-append-drop n frame)

-- One round of the loop, from what the later rounds deliver.
round-Delivers :
    (answer : Option ℕ) (failed : Bool) (before frame : Bytes)
    (later : ℕ → Result FrameRule (Unit {0}) × Bytes)
    → ((n : ℕ) → n ≢ 0 → Delivers (before ++ take n frame) (drop n frame) (later n))
    → Delivers before frame (elim answer [
      | none ↦ (err write_count_invalid, before)
      | some n ↦
          if failed
          then (err write_failed, before ++ take n frame)
          else if n == 0
          then (err write_short, before ++ take n frame)
          else later n
    ])
round-Delivers none failed before frame later h =
    stopped before frame before frame write_count_invalid refl (λ e. cc)
round-Delivers (some n) true before frame later h =
    stopped before frame _ (drop n frame) write_failed (regroup n before frame) (λ e. cc)
round-Delivers (some n) false before frame later h = elim (Bool-cases (n == 0)) [
  | inl z ↦
      rw z (stopped before frame _ (drop n frame) write_short (regroup n before frame) (λ e. cc))
  | inr nz ↦
      let d = h n (ground arith) in
      rw nz (record {
        unsent = d.unsent;
        split_at = d.split_at ∙ regroup n before frame;
        complete = d.complete;
        enough = d.enough;
      })
]

suc-ne_zero : (n : ℕ) → (suc n == 0) ≡ false
suc-ne_zero n = ground arith

-- A round in which the writer takes some bytes and does not fail ends as the later rounds do.
round_ok :
    (answer : Option ℕ) (failed : Bool) (n : ℕ) (before frame : Bytes)
    (later : ℕ → Result FrameRule (Unit {0}) × Bytes)
    → answer ≡ some (suc n)
    → failed ≡ false
    → (later (suc n)).0 ≡ ok tt
    → ◌≡◌ {A = Result FrameRule (Unit {0})}
        (elim answer as (λ x. Result FrameRule (Unit {0}) × Bytes) [
          | none ↦ (err write_count_invalid, before)
          | some n ↦
              if failed
              then (err write_failed, before ++ take n frame)
              else if n == 0
              then (err write_short, before ++ take n frame)
              else later n
        ]).0
        (ok tt)
round_ok none failed n before frame later ea ef h = cc
round_ok (some m) true n before frame later ea ef h = cc
round_ok (some m) false n before frame later ea ef h =
    let e : m ≡ suc n = cc in rw e (rw (suc-ne_zero n) h)

valid_count_lem :
    (r : Reply) (n : ℕ) (s : Bytes)
    → r ≡ record { count = pos (suc n); failed = false }
    → suc n ≤ length s
    → valid_count r.count s ≡ some (suc n)
valid_count_lem r n s e h = rw e (rw (le→ltb_false (length s) (suc n) h))

module _ (writer : Writer) where
  pub send-Delivers :
      (fuel k : ℕ) (frame before : Bytes)
      → length frame ≤ fuel
      → Delivers before frame (send writer fuel k frame before)
  unfolding send
  send-Delivers fuel k [] before h = record {
    unsent = [];
    split_at = refl;
    complete = λ e. refl;
    enough = λ e. cc;
  }
  send-Delivers zero k (b ∷ frame) before h = absurd (omega arith)
  send-Delivers (suc fuel) k (b ∷ frame) before h =
      let reply = writer k (b ∷ frame) in
      round-Delivers (valid_count reply.count (b ∷ frame)) reply.failed before (b ∷ frame)
        (λ n. send writer fuel (suc k) (drop n (b ∷ frame)) (before ++ take n (b ∷ frame)))
        (λ n ne.
          send-Delivers fuel (suc k) (drop n (b ∷ frame)) _
            (omega (arith, length-drop n (b ∷ frame))))

  -- A writer that takes at least one byte at each call, and never fails.
  abbrev pub MakesProgress : Type 0
  MakesProgress =
      (k b : ℕ) (s : Bytes)
      → (n : ℕ) × (writer k (b ∷ s) ≡ record { count = pos (suc n); failed = false })
        × (suc n ≤ length (b ∷ s))

  pub send_ok :
      MakesProgress
      → (fuel k : ℕ) (frame before : Bytes) → length frame ≤ fuel
      → (send writer fuel k frame before).0 ≡ ok tt
  unfolding send
  send_ok good fuel k [] before h = refl
  send_ok good zero k (b ∷ frame) before h = absurd (omega arith)
  send_ok good (suc fuel) k (b ∷ frame) before h =
      let (n, e, small) = good k b frame in
      let reply = writer k (b ∷ frame) in
      round_ok (valid_count reply.count (b ∷ frame)) reply.failed n before (b ∷ frame)
        (λ n. send writer fuel (suc k) (drop n (b ∷ frame)) (before ++ take n (b ∷ frame)))
        (valid_count_lem reply n (b ∷ frame) e small) (ap (λ (r : Reply). r.failed) e)
        (send_ok good fuel (suc k) (drop n frame) _ (omega (arith, length-drop n frame)))
