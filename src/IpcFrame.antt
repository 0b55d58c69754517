-- ===== src/IpcFrame.antt =====
-- internal/ipcframe/frame.go. A reader is the bytes that it still delivers before its end, and
-- `none` is the nil reader. A writer is how it answers each call of Write: the count and whether
-- an error came with it; `delivered` collects the bytes that it has taken.
pub mod Header
pub mod RoundTrip
pub mod Nonempty
use agent_workstation_gatewa.Base.{
  ℕ, zero, suc, ◌+◌, ◌*◌, ◌/◌, ◌%◌, ◌^◌, ℤ, pos, negsuc, Bool, true, false, [], ◌∷◌, ◌++◌, Option,
  none, some, Result, Checked, ok, err, ltb, ◌==◌, ◌||◌, if◌then◌else◌, length, take, drop,
}
use agent_workstation_gatewa.Text.{Bytes}
use agent_workstation_gatewa.Protocol.Types.{max_execution_report_bytes}

abbrev pub header_bytes : ℕ
header_bytes = 4

abbrev pub max_frame_bytes : ℕ
max_frame_bytes = max_execution_report_bytes

-- The rules of `Error`; `out_of_fuel` belongs to the model only.
pub data FrameRule : Type 0 where
  invalid_read_policy header_truncated payload_size_denied payload_truncated : FrameRule
  invalid_write_policy write_count_invalid write_failed write_short out_of_fuel : FrameRule

-- io.ReadFull of `n` bytes: they and the bytes behind them, or `none` at an early end
unfoldable pub read_full : ℕ → Bytes → Option (Bytes × Bytes)
read_full n s = if ltb (length s) n then none else some (take n s, drop n s)

-- binary.BigEndian.Uint32
unfoldable pub uint32 : Bytes → ℕ
uint32 (a ∷ b ∷ c ∷ d ∷ _) = a * 2 ^ 24 + b * 2 ^ 16 + c * 2 ^ 8 + d
uint32 _ = 0

-- binary.BigEndian.PutUint32
unfoldable pub put_uint32 : ℕ → Bytes
put_uint32 n = n / 2 ^ 24 % 256 ∷ n / 2 ^ 16 % 256 ∷ n / 2 ^ 8 % 256 ∷ n % 256 ∷ []

with_payload : Option (Bytes × Bytes) → Result FrameRule (Bytes × Bytes)
with_payload none = err payload_truncated
with_payload (some (payload, rest)) = ok (payload, rest)

with_header : ℕ → Option (Bytes × Bytes) → Result FrameRule (Bytes × Bytes)
unfolding with_payload
with_header maximum none = err header_truncated
with_header maximum (some (header, rest)) =
    if uint32 header == 0 || ltb maximum (uint32 header)
    then err payload_size_denied
    else with_payload (read_full (uint32 header) rest)

read_stream : Bytes → ℕ → Result FrameRule (Bytes × Bytes)
unfolding with_header
read_stream s maximum = with_header maximum (read_full header_bytes s)

-- `Read`: the payload, and what the reader still delivers
unfoldable pub read : Option Bytes → ℤ → Result FrameRule (Bytes × Bytes)
unfolding read_stream read_full uint32
read none maximum = err invalid_read_policy
read (some s) (negsuc n) = err invalid_read_policy
read (some s) (pos maximum) =
    if maximum == 0 || ltb max_frame_bytes maximum
    then err invalid_read_policy
    else read_stream s maximum

pub record Reply : Type 0 where
  pub count : ℤ
  pub failed : Bool

-- The answer to the k-th call with these bytes
abbrev pub Writer : Type 0
Writer = ℕ → Bytes → Reply

-- `count < 0 || count > len(frame)-written`
abbrev pub valid_count : ℤ → Bytes → Option ℕ
valid_count (negsuc n) s = none
valid_count (pos n) s = if ltb (length s) n then none else some n

module _ (writer : Writer) where
  -- the loop of `Write`, over the part of the frame that is not yet written
  unfoldable pub send : ℕ → ℕ → Bytes → Bytes → Checked FrameRule × Bytes
  send fuel k [] delivered = (ok tt, delivered)
  send zero k (b ∷ frame) delivered = (err out_of_fuel, delivered)
  send (suc fuel) k (b ∷ frame) delivered =
      elim (valid_count (writer k (b ∷ frame)).count (b ∷ frame)) [
        | none ↦ (err write_count_invalid, delivered)
        | some count ↦
            let taken = delivered ++ take count (b ∷ frame) in
            let later = send fuel (suc k) (drop count (b ∷ frame)) taken in
            if (writer k (b ∷ frame)).failed
            then (err write_failed, taken)
            else if count == 0
            then (err write_short, taken)
            else later
      ]

abbrev pub frame_of : Bytes → Bytes
frame_of payload = put_uint32 (length payload % 2 ^ 32) ++ payload

write_frame : Writer → Bytes → ℕ → Checked FrameRule × Bytes
unfolding send
write_frame writer payload maximum =
    if length payload == 0 || ltb maximum (length payload)
    then (err payload_size_denied, [])
    else send writer (length (frame_of payload)) 0 (frame_of payload) []

-- `Write`: its error, and the bytes that the writer has taken; `none` is the nil writer
unfoldable pub write : Option Writer → Bytes → ℤ → Checked FrameRule × Bytes
unfolding write_frame
write none payload maximum = (err invalid_write_policy, [])
write (some writer) payload (negsuc n) = (err invalid_write_policy, [])
write (some writer) payload (pos maximum) =
    if maximum == 0 || ltb max_frame_bytes maximum
    then (err invalid_write_policy, [])
    else write_frame writer payload maximum
