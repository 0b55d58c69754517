-- ===== src/OutputCapture.antt =====
-- internal/outputcapture/capture.go. A capture is used under its mutex, so each method is one
-- step from a state to a state. The running digest is the bytes that it has been given.
pub mod Content
pub mod Report
pub mod Reported
use agent_workstation_gatewa.Base.{
  ℕ, suc, ◌+◌, ◌-◌, ◌%◌, ◌^◌, min, ℤ, pos, negsuc, Bool, List, [], ◌∷◌, ◌++◌, Result, ok, err, ltb,
  if◌then◌else◌, ◌||◌, length, take,
}
use agent_workstation_gatewa.Text.{Bytes}
use agent_workstation_gatewa.Library.{Library, digest_hex}
use agent_workstation_gatewa.Protocol.Types.{OutputMetadata, min_output_bytes, max_output_bytes}

abbrev pub max_uint64 : ℕ
max_uint64 = 2 ^ 64 - 1

abbrev pub max_int64 : ℕ
max_int64 = 2 ^ 63 - 1

pub data CaptureError : Type 0 where
  invalid_limit byte_count_overflow : CaptureError

pub record Capture : Type 0 where
  pub limit : ℕ
  pub digest : Bytes
  pub total : ℕ
  pub retained : Bytes

-- `New`
unfoldable pub new : ℤ → Result CaptureError Capture
new (negsuc n) = err invalid_limit
new (pos limit) =
    if ltb limit min_output_bytes || ltb max_output_bytes limit
    then err invalid_limit
    else ok (record { limit = limit; digest = []; total = 0; retained = [] })

-- `Write`: the state after it, and the byte count or the error that it returns
unfoldable pub write : Capture → Bytes → Capture × Result CaptureError ℕ
write c content =
    if ltb (max_uint64 - c.total) (length content) then (c, err byte_count_overflow) else (
      let remaining = min (c.limit - length c.retained) (length content) in
          record c {
            digest = c.digest ++ content;
            total = (c.total + length content) % 2 ^ 64;
            retained = if ltb 0 remaining then c.retained ++ take remaining content else c.retained;
          },
      ok (length content),
    )

-- A sequence of writes, whatever each returns
unfoldable pub write_all : Capture → List Bytes → Capture
write_all c [] = c
write_all c (x ∷ xs) = write_all (write c x).0 xs

pub record Snapshot : Type 0 where
  pub metadata : OutputMetadata
  pub retained : Bytes

-- `Snapshot`
unfoldable pub snapshot : Library → Capture → Result CaptureError Snapshot
snapshot lib c =
    if ltb max_int64 c.total
    then err byte_count_overflow
    else ok (record {
      metadata = record {
        sha256 = digest_hex lib c.digest;
        total_bytes = pos c.total;
        retained_bytes = pos (length c.retained);
        truncated = ltb (length c.retained) c.total;
      };
      retained = c.retained;
    })
