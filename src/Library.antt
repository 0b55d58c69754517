-- ===== src/Library.antt =====
-- What the sources take from Go's standard library and the model does not define: the Unicode
-- case tables, SHA-256, glob matching of one segment, and the RFC 3339 time format.
use agent_workstation_gatewa.Base.{
  ℕ, ◌+◌, ◌<◌, ◌≡◌, ◌/◌, ◌%◌, Bool, [], ◌∷◌, Option, ltb, if◌then◌else◌, length, All, map,
}
use agent_workstation_gatewa.Text.{Bytes, within}

pub record Library : Type 0 where
  -- strings.ToLower
  pub to_lower : Bytes → Bytes
  -- strings.EqualFold
  pub equal_fold : Bytes → Bytes → Bool
  -- path.Match; `none` is ErrBadPattern
  pub path_match : Bytes → Bytes → Option Bool
  -- sha256.Sum256
  pub sha256 : Bytes → Bytes
  -- time.Parse with the layout RFC3339Nano: nanoseconds since a fixed origin before the year 0
  pub parse_time : Bytes → Option ℕ
  -- UTC().Format with that layout
  pub format_time : ℕ → Bytes

-- ASCII letters in lower case, other bytes as they are
unfoldable pub ascii_lower : ℕ → ℕ
ascii_lower c = if within b'A' b'Z' c then c + 32 else c

-- strings.ToLower, on ASCII texts
abbrev pub LowersAscii : Library → Type 0
LowersAscii lib = (s : Bytes) → All (λ c. c < 128) s → lib.to_lower s ≡ map ascii_lower s

-- A digest has 32 bytes.
abbrev pub DigestsTo32 : Library → Type 0
DigestsTo32 lib = (s : Bytes) → (length (lib.sha256 s) ≡ 32) × All (λ c. c < 256) (lib.sha256 s)

unfoldable pub hex_digit : ℕ → ℕ
hex_digit n = if ltb n 10 then b'0' + n else 87 + n

-- hex.EncodeToString
unfoldable pub hex : Bytes → Bytes
unfolding hex_digit
hex [] = []
hex (c ∷ s) = hex_digit (c / 16) ∷ hex_digit (c % 16) ∷ hex s

-- The digest as the records carry it.
unfoldable pub digest_hex : Library → Bytes → Bytes
digest_hex lib s = hex (lib.sha256 s)
