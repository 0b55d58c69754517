-- ===== src/IpcFrame/RoundTrip.antt =====
-- `Read` after `Write`, whatever the writer does in between.
use agent_workstation_gatewa.Base.{
  ℕ, ◌%◌, ◌^◌, ◌≤◌, ◌<◌, ◌≡◌, ◌≢◌, refl, sym, ap, ◌∙◌, inl, inr, pos, false, [], ◌++◌, append-nil,
  append_assoc, some, Checked, ok, err, ltb, ◌==◌, ◌||◌, le→ltb_false, Bool-cases, length,
  length-append, take_front, drop_front, arith,
}
use agent_workstation_gatewa.Text.{Bytes}
use agent_workstation_gatewa.IpcFrame.{
  FrameRule, invalid_write_policy, payload_size_denied, header_bytes, out_of_fuel, max_frame_bytes,
  read_full, read_stream, read, Writer, send, write_frame, write, frame_of, put_uint32, uint32,
}
use agent_workstation_gatewa.IpcFrame.Header.{
  uint32-put_uint32, send-Delivers, MakesProgress, send_ok,
}

read_full-append :
    (s rest : Bytes) (n : ℕ) → n ≡ length s → read_full n (s ++ rest) ≡ some (s, rest)
unfolding read_full
read_full-append s rest n e =
    rw (le→ltb_false (length (s ++ rest)) n (omega (arith, length-append s rest)))
      (rw e (rw (take_front s rest, drop_front s rest)))

length-put_uint32 : (n : ℕ) → length (put_uint32 n) ≡ 4
unfolding put_uint32
length-put_uint32 n = refl

-- A policy under which `Read` and `Write` both let the payload through.
pub record Admits (maximum : ℕ) (payload : Bytes) : Type 0 where
  pub nonempty : length payload ≢ 0
  pub within_maximum : length payload ≤ maximum
  pub maximum_bound : maximum ≤ max_frame_bytes

size_read :
    (payload : Bytes)
    → length payload < 2 ^ 32
    → uint32 (put_uint32 (length payload % 2 ^ 32)) ≡ length payload
size_read payload h =
    ap uint32 (sym (append-nil (put_uint32 (length payload % 2 ^ 32))))
    ∙ uint32-put_uint32 (length payload % 2 ^ 32) [] (omega arith)
    ∙ (omega arith)

size_ok : (n maximum : ℕ) → n ≢ 0 → n ≤ maximum → (n == 0 || ltb maximum n) ≡ false
size_ok n maximum nz h = ground arith

-- A frame is read back as its payload, with the bytes behind it left in the reader.
read_stream-frame_of :
    (payload rest : Bytes) (maximum : ℕ)
    → Admits maximum payload
    → read_stream (frame_of payload ++ rest) maximum ≡ ok (payload, rest)
unfolding read_stream
read_stream-frame_of payload rest maximum a = rw (append_assoc (put_uint32 n) payload rest) (
    rw (read_full-append (put_uint32 n) (payload ++ rest) header_bytes (sym (length-put_uint32 n)))
      (rw
        (
          size_read payload (omega arith),
          size_ok (length payload) maximum a.nonempty a.within_maximum,
        )
        (rw (read_full-append payload rest (length payload) refl))))
  where
    n : ℕ
    n = length payload % 2 ^ 32

policy_ok :
    (maximum n : ℕ)
    → n ≢ 0
    → n ≤ maximum
    → maximum ≤ max_frame_bytes
    → (maximum == 0 || ltb max_frame_bytes maximum) ≡ false
policy_ok maximum n nz h b = ground arith

pub read-frame_of :
    (payload rest : Bytes) (maximum : ℕ)
    → Admits maximum payload
    → read (some (frame_of payload ++ rest)) (pos maximum) ≡ ok (payload, rest)
unfolding read
read-frame_of payload rest maximum a =
    rw (policy_ok maximum (length payload) a.nonempty a.within_maximum a.maximum_bound)
      (read_stream-frame_of payload rest maximum a)

write_admitted :
    (writer : Writer) (payload : Bytes) (maximum : ℕ)
    → Admits maximum payload
    → write (some writer) payload (pos maximum)
      ≡ send writer (length (frame_of payload)) 0 (frame_of payload) []
unfolding write write_frame
write_admitted writer payload maximum a =
    rw (policy_ok maximum (length payload) a.nonempty a.within_maximum a.maximum_bound)
      (rw (size_ok (length payload) maximum a.nonempty a.within_maximum))

-- What the tests of `Write` leave open.
data Admitted (maximum : ℕ) (payload : Bytes) (x : Checked FrameRule × Bytes) : Type 0 where
  admitted : Admits maximum payload → Admitted maximum payload x
  denied : (why : FrameRule) → x ≡ (err why, []) → why ≢ out_of_fuel → Admitted maximum payload x

write-Admitted :
    (writer : Writer) (payload : Bytes) (maximum : ℕ)
    → Admitted maximum payload (write (some writer) payload (pos maximum))
unfolding write write_frame
write-Admitted writer payload maximum =
    elim (Bool-cases (maximum == 0 || ltb max_frame_bytes maximum)) [
      | inl p ↦ denied invalid_write_policy (rw p) (λ e. cc)
      | inr p ↦ elim (Bool-cases (length payload == 0 || ltb maximum (length payload))) [
        | inl q ↦ denied payload_size_denied (rw (p, q)) (λ e. cc)
        | inr q ↦ admitted (record {
          nonempty = ground arith;
          within_maximum = ground arith;
          maximum_bound = ground arith;
        })
      ]
    ]

-- A payload that `Write` reports as sent is what `Read` returns under the same policy, with
-- the bytes behind the frame left to read.
pub read-write :
    (writer : Writer) (payload rest : Bytes) (maximum : ℕ)
    → (write (some writer) payload (pos maximum)).0 ≡ ok tt
    → read (some ((write (some writer) payload (pos maximum)).1 ++ rest)) (pos maximum)
      ≡ ok (payload, rest)
read-write writer payload rest maximum sent = elim (write-Admitted writer payload maximum) [
  | admitted a ↦
      let e = write_admitted writer payload maximum a in
      let frame = frame_of payload in
      let d = send-Delivers writer (length frame) 0 frame [] (omega arith) in
      let all : (send writer (length frame) 0 frame []).1 ≡ frame =
        sym (append-nil _)
        ∙ ap (◌++◌ (send writer (length frame) 0 frame []).1) (sym (d.complete (rw e at sent)))
        ∙ d.split_at in
      rw e (rw all (read-frame_of payload rest maximum a))
  | denied why e ne ↦ absurd (cc (ap (λ (x : Checked FrameRule × Bytes). x.0) e))
]

-- Whatever the writer does, it has taken a front of the frame when `Write` returns, and the
-- loop has ended by itself.
pub write_prefix :
    (writer : Writer) (payload : Bytes) (maximum : ℕ)
    → (unsent : Bytes) × ((write (some writer) payload (pos maximum)).1 ++ unsent
        ≡ frame_of payload)
      × ((write (some writer) payload (pos maximum)).0 ≢ err out_of_fuel)
write_prefix writer payload maximum = elim (write-Admitted writer payload maximum) [
  | admitted a ↦
      let e = write_admitted writer payload maximum a in
      let frame = frame_of payload in
      let d = send-Delivers writer (length frame) 0 frame [] (omega arith) in
      (d.unsent, rw e d.split_at, rw e d.enough)
  | denied why e ne ↦ (frame_of payload, rw e, rw e (λ h. ne (cc h)))
]

-- A writer that always takes at least one byte and never fails gets the whole frame of a payload
-- that is not empty and within a maximum that the policy allows.
pub write_complete :
    (writer : Writer) (payload : Bytes) (maximum : ℕ)
    → MakesProgress writer
    → Admits maximum payload
    → write (some writer) payload (pos maximum) ≡ (ok tt, frame_of payload)
write_complete writer payload maximum good a =
    write_admitted writer payload maximum a ∙ λ i. (sent i, all i)
  where
    frame : Bytes
    frame = frame_of payload

    sent : (send writer (length frame) 0 frame []).0 ≡ ok tt
    sent = send_ok writer good (length frame) 0 frame [] (omega arith)

    all : (send writer (length frame) 0 frame []).1 ≡ frame
    all =
        let d = send-Delivers writer (length frame) 0 frame [] (omega arith) in
        sym (append-nil _)
        ∙ ap (◌++◌ (send writer (length frame) 0 frame []).1) (sym (d.complete sent))
        ∙ d.split_at
