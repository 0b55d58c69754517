-- ===== src/BrokerWire/Enough.antt =====
-- The loops over chunks end by themselves: the fuel, one unit for each byte, is never used up.
use agent_workstation_gatewa.Base.{
  ℕ, zero, suc, ◌-◌, ◌≤◌, ◌≡◌, ◌≢◌, refl, ap, inl, inr, true, false, ℤ, pos, negsuc, Bool, [], ◌++◌,
  Result, Checked, ok, err, ◌>>=◌, ◌>>◌, map_err, reject, ltb, length, Bool-cases, some, arith,
}
use agent_workstation_gatewa.Text.{Bytes}
use agent_workstation_gatewa.Protocol.Types.{max_output_bytes}
use agent_workstation_gatewa.IpcFrame.{FrameRule, Writer, read}
use agent_workstation_gatewa.IpcFrame.Nonempty.{read_nonempty}
use agent_workstation_gatewa.BrokerWire.Types.{
  WireRule, out_of_fuel, content_read_failed, content_chunk_overrun, artifact_content_truncated,
  artifact_content_overrun, max_data_chunk_bytes,
}
use agent_workstation_gatewa.BrokerWire.Taken.{write_all_enough}
use agent_workstation_gatewa.BrokerWire.Read.{read_content, read_bytes, write_all, read_chunks}

less_lem : (n m fuel : ℕ) → 1 ≤ m → suc n ≤ suc fuel → (suc n - m) ≤ fuel
less_lem n m fuel h k = omega arith

-- A step that fails with another rule, or goes on.
step_lem :
    {A B : Type 0} (x : Result FrameRule A) (rule : WireRule) (f : A → Result WireRule B)
    → rule ≢ out_of_fuel
    → ((a : A) → x ≡ ok a → f a ≢ err out_of_fuel)
    → (map_err rule x >>= f) ≢ err out_of_fuel
step_lem (ok a) rule f h k = k a refl
step_lem (err e) rule f h k = λ no. h (err_lem no)
  where
    err_lem : {C : Type 0} {a b : WireRule} → ◌≡◌ {A = Result WireRule C} (err a) (err b) → a ≡ b
    err_lem e = cc

guard_lem :
    {B : Type 0} (x : Checked WireRule) (k : Result WireRule B)
    → x ≢ err out_of_fuel
    → k ≢ err out_of_fuel
    → (x >> k) ≢ err out_of_fuel
guard_lem (ok y) k h l = l
guard_lem (err e) k h l = λ no. h (ap err (err_lem no))
  where
    err_lem : {C : Type 0} {a b : WireRule} → ◌≡◌ {A = Result WireRule C} (err a) (err b) → a ≡ b
    err_lem e = cc

reject_lem : (b : Bool) (rule : WireRule) → rule ≢ out_of_fuel → reject b rule ≢ err out_of_fuel
reject_lem true rule h = λ no. h (err_lem no)
  where
    err_lem : {a b : WireRule} → ◌≡◌ {A = Checked WireRule} (err a) (err b) → a ≡ b
    err_lem e = cc
reject_lem false rule h = λ no. cc

bind_lem :
    {A B : Type 0} (x : Result WireRule A) (f : A → Result WireRule B)
    → x ≢ err out_of_fuel
    → ((a : A) → f a ≢ err out_of_fuel)
    → (x >>= f) ≢ err out_of_fuel
bind_lem (ok a) f h k = k a
bind_lem (err e) f h k = λ no. h (ap err (err_lem no))
  where
    err_lem : {C : Type 0} {a b : WireRule} → ◌≡◌ {A = Result WireRule C} (err a) (err b) → a ≡ b
    err_lem e = cc

read_content_enough :
    (fuel remaining : ℕ) (content stream : Bytes)
    → remaining ≤ fuel
    → read_content fuel remaining content stream ≢ err out_of_fuel
unfolding read_content
read_content_enough fuel zero content stream h = λ no. cc
read_content_enough zero (suc n) content stream h = absurd (omega arith)
read_content_enough (suc fuel) (suc n) content stream h =
    step_lem (read (some stream) (pos max_data_chunk_bytes)) content_read_failed _ (λ no. cc)
      (λ pair e.
        guard_lem (reject (ltb (suc n) (length (pair.0))) content_chunk_overrun) _
          (reject_lem (ltb (suc n) (length (pair.0))) content_chunk_overrun (λ no. cc))
          (read_content_enough fuel (suc n - length (pair.0)) (content ++ pair.0) (pair.1)
            (less_lem n (length (pair.0)) fuel (read_nonempty stream max_data_chunk_bytes e) h)))

read_chunks_enough :
    (destination : ℕ → Writer) (k fuel remaining : ℕ) (hashed taken stream : Bytes)
    → remaining ≤ fuel
    → read_chunks destination k fuel remaining hashed taken stream ≢ err out_of_fuel
unfolding read_chunks
read_chunks_enough destination k fuel zero hashed taken stream h = λ no. cc
read_chunks_enough destination k zero (suc n) hashed taken stream h = absurd (omega arith)
read_chunks_enough destination k (suc fuel) (suc n) hashed taken stream h =
    step_lem (read (some stream) (pos max_data_chunk_bytes)) artifact_content_truncated _ (λ no. cc)
      (λ pair e.
        guard_lem (reject (ltb (suc n) (length (pair.0))) artifact_content_overrun) _
          (reject_lem (ltb (suc n) (length (pair.0))) artifact_content_overrun (λ no. cc))
          (bind_lem (write_all (destination k) (pair.0)) _
            (write_all_enough (destination k) (pair.0))
            (λ chunk.
              read_chunks_enough destination (suc k) fuel (suc n - length (pair.0))
                (hashed ++ pair.0) (taken ++ chunk) (pair.1)
                (less_lem n (length (pair.0)) fuel (read_nonempty stream max_data_chunk_bytes e)
                  h))))

-- Whatever the stream and the destination are, `readBytes` and the loop of `readArtifact`, with `writeAll`
-- in each of its rounds, end by themselves with a unit of fuel for each byte.
pub read_bytes_enough :
    (size : ℤ) (remaining : ℕ) (destination : ℕ → Writer) (stream : Bytes)
    → (read_bytes size stream ≢ err out_of_fuel)
      × (read_chunks destination 0 remaining remaining [] [] stream ≢ err out_of_fuel)
unfolding read_bytes
read_bytes_enough size remaining destination stream = (
  bytes_lem size,
  read_chunks_enough destination 0 remaining remaining [] [] stream (omega arith),
)
  where
    bytes_lem : (size : ℤ) → read_bytes size stream ≢ err out_of_fuel
    bytes_lem (negsuc n) = λ no. cc
    bytes_lem (pos n) = elim (Bool-cases (ltb max_output_bytes n)) [
      | inl e ↦ rw e (λ no. cc)
      | inr e ↦ rw e (read_content_enough n n [] stream (omega arith))
    ]
