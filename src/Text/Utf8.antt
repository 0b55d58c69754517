-- ===== src/Text/Utf8.antt =====
-- utf8.Valid, and the white space of strings.TrimSpace.
use agent_workstation_gatewa.Base.{
  ℕ, zero, suc, Bool, true, false, ◌&&◌, ◌||◌, [], ◌∷◌, ◌==◌, if◌then◌else◌, Option, none, some,
}
use agent_workstation_gatewa.Text.Defs.{Bytes, within}

-- Between two bytes of a text: at the start of a rune, or with so many continuation bytes to
-- come, the next of them in a range.
pub data Pending : Type 0 where
  at_start : Pending
  after_lead : ℕ → ℕ → ℕ → Pending

abbrev tail_bytes : ℕ → Pending
tail_bytes zero = at_start
tail_bytes (suc n) = after_lead (suc n) 0x80 0xbf

lead : ℕ → Option Pending
lead c =
    if within 0 0x7f c
    then some at_start
    else if within 0xc2 0xdf c
    then some (after_lead 1 0x80 0xbf)
    else if c == 0xe0
    then some (after_lead 2 0xa0 0xbf)
    else if c == 0xed
    then some (after_lead 2 0x80 0x9f)
    else if within 0xe1 0xef c
    then some (after_lead 2 0x80 0xbf)
    else if c == 0xf0
    then some (after_lead 3 0x90 0xbf)
    else if within 0xf1 0xf3 c
    then some (after_lead 3 0x80 0xbf)
    else if c == 0xf4
    then some (after_lead 3 0x80 0x8f)
    else none

pub utf8_step : Pending → ℕ → Option Pending
unfolding lead
utf8_step at_start c = lead c
utf8_step (after_lead zero lo hi) c = none
utf8_step (after_lead (suc n) lo hi) c = if within lo hi c then some (tail_bytes n) else none

pub utf8_from : Option Pending → Bytes → Bool
utf8_from none s = false
utf8_from (some at_start) [] = true
utf8_from (some (after_lead n lo hi)) [] = false
utf8_from (some p) (c ∷ s) = utf8_from (utf8_step p c) s

-- utf8.ValidString
unfoldable pub utf8_valid : Bytes → Bool
unfolding utf8_from utf8_step
utf8_valid s = utf8_from (some at_start) s

is_ascii_space : ℕ → Bool
is_ascii_space c = c == b' ' || within 9 13 c

-- U+0085 and U+00A0, by their second byte
space_c2 : ℕ → Bool
space_c2 c = c == 0x85 || c == 0xa0

-- U+1680, U+2000 to U+200A, U+2028, U+2029, U+202F, U+205F and U+3000, by their bytes
space_e : ℕ → ℕ → ℕ → Bool
space_e a b c =
    (a == 0xe1 && b == 0x9a && c == 0x80)
    || (a == 0xe2 && b == 0x80 && (within 0x80 0x8a c || c == 0xa8 || c == 0xa9 || c == 0xaf))
    || (a == 0xe2 && b == 0x81 && c == 0x9f)
    || (a == 0xe3 && b == 0x80 && c == 0x80)

-- strings.TrimSpace(s) == "" for a valid UTF-8 text: it holds white space only
unfoldable pub only_space : Bytes → Bool
unfolding is_ascii_space space_c2 space_e
only_space [] = true
only_space (a ∷ []) = is_ascii_space a
only_space (a ∷ b ∷ []) = (is_ascii_space a && is_ascii_space b) || (a == 0xc2 && space_c2 b)
only_space (a ∷ b ∷ c ∷ s) =
    let after_one = only_space (b ∷ c ∷ s) in
    let after_two = only_space (c ∷ s) in
    let after_three = only_space s in
    if is_ascii_space a
    then after_one
    else if a == 0xc2 && space_c2 b
    then after_two
    else if space_e a b c
    then after_three
    else false
