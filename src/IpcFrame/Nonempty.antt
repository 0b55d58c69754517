-- ===== src/IpcFrame/Nonempty.antt =====
-- A frame that `Read` lets through is not empty.
use agent_workstation_gatewa.Base.{
  ℕ, ◌≡◌, ◌≤◌, min, sym, subst, Result, inl, inr, Bool, false, ◌||◌, ok, err, ltb, ◌==◌, length,
  take, drop, length-take, Bool-cases, Option, none, some, arith, pos,
}
use agent_workstation_gatewa.Text.{Bytes}
use agent_workstation_gatewa.IpcFrame.{
  FrameRule, header_bytes, max_frame_bytes, uint32, with_payload, with_header, read_full,
  read_stream, read,
}

taken_lem : (n m : ℕ) (a b : Bool) → (n == 0 || a) ≡ false → ltb m n ≡ false → 1 ≤ min n m
taken_lem n m a b h k = ground arith

with_header_nonempty :
    (maximum : ℕ) (x : Option (Bytes × Bytes)) {payload rest : Bytes}
    → with_header maximum x ≡ ok (payload, rest)
    → 1 ≤ length payload
unfolding with_header with_payload read_full
with_header_nonempty maximum none h = absurd (cc h)
with_header_nonempty maximum (some (header, behind)) {payload} {rest} h =
    let n = uint32 header in
    elim (Bool-cases (n == 0 || ltb maximum n)) [
      | inl e ↦ let no : err _ ≡ ok (payload, rest) = rw e at h in absurd (cc no)
      | inr e ↦ elim (Bool-cases (ltb (length behind) n)) [
        | inl k ↦ let no : err _ ≡ ok (payload, rest) = rw (e, k) at h in absurd (cc no)
        | inr k ↦
            let whole : ok (take n behind, drop n behind) ≡ ok (payload, rest) = rw (e, k) at h in
            let front = front_lem whole in
            subst (λ x. 1 ≤ length x) front
              (subst (λ m. 1 ≤ m) (sym (length-take n behind))
                (taken_lem n (length behind) (ltb maximum n) false e k))
      ]
    ]
  where
    front_lem :
        {a b c d : Bytes}
        → ◌≡◌ {A = Result FrameRule (Bytes × Bytes)} (ok (a, b)) (ok (c, d))
        → a ≡ c
    front_lem h = cc

-- The payload of a frame that is read has at least one byte.
pub read_nonempty :
    (s : Bytes) (maximum : ℕ) {payload rest : Bytes}
    → read (some s) (pos maximum) ≡ ok (payload, rest)
    → 1 ≤ length payload
unfolding read read_stream
read_nonempty s maximum {payload} {rest} h =
    elim (Bool-cases (maximum == 0 || ltb max_frame_bytes maximum)) [
      | inl e ↦ let no : err _ ≡ ok (payload, rest) = rw e at h in absurd (cc no)
      | inr e ↦ with_header_nonempty maximum (read_full header_bytes s) (rw e at h)
    ]
