-- ===== src/PlatformPath.antt =====
-- internal/platformpath/path.go
pub mod Linux
pub mod Contains
use agent_workstation_gatewa.Base.{
  ℕ, Bool, true, false, not, ◌&&◌, ◌||◌, List, [], ◌∷◌, ◌++◌, map, Checked, ok, err, ◌>>=◌, ◌>>◌,
  require, reject, ltb, ◌==◌, if◌then◌else◌, length,
}
use agent_workstation_gatewa.Text.{
  Bytes, codes, bytes_eq, has_prefix, ends_with, contains_byte, contains_any, split, trim_prefix,
  utf8_valid, within,
}
use agent_workstation_gatewa.Library.{Library, ascii_lower}

pub data Platform : Type 0 where
  linux windows : Platform
  other : Bytes → Platform

abbrev pub max_path_bytes : ℕ
max_path_bytes = 1024

-- The rules of `pathError`
pub data PathRule : Type 0 where
  invalid_size_or_encoding contains_nul unsupported_platform not_absolute : PathRule
  ambiguous_separator not_canonical_drive_absolute non_canonical_segment : PathRule
  contains_control_character invalid_windows_segment ambiguous_windows_segment : PathRule
  reserved_windows_name : PathRule

-- `containsControlCharacter`: the runes below 0x20, and 0x7f, are single bytes
unfoldable pub has_control_character : Bytes → Bool
has_control_character [] = false
has_control_character (c ∷ s) = ltb c 0x20 || c == 0x7f || has_control_character s

unfoldable pub before_dot : Bytes → Bytes
before_dot [] = []
before_dot (c ∷ s) = if c == b'.' then [] else c ∷ before_dot s

unfoldable pub after_dot : Bytes → Bytes
after_dot [] = []
after_dot (c ∷ s) = if c == b'.' then s else after_dot s

unfoldable pub is_one_of : List Bytes → Bytes → Bool
unfolding bytes_eq
is_one_of [] s = false
is_one_of (x ∷ xs) s = bytes_eq s x || is_one_of xs s

-- `com[1-9]` and `lpt[1-9]`
numbered : Bytes → Bool
numbered (a ∷ b ∷ c ∷ d ∷ []) =
    is_one_of (codes "com" ∷ codes "lpt" ∷ []) (a ∷ b ∷ c ∷ []) && within b'1' b'9' d
numbered _ = false

is_reserved_base : Bytes → Bool
unfolding is_one_of numbered
is_reserved_base s =
    is_one_of (codes "aux" ∷ codes "con" ∷ codes "nul" ∷ codes "prn" ∷ []) s || numbered s

-- `reservedWindowsNames.MatchString`. None of the letters in the expression has a case variant
-- outside ASCII; `.` does not match a line feed.
unfoldable pub is_reserved_windows_name : Bytes → Bool
unfolding is_reserved_base before_dot after_dot contains_byte ascii_lower
is_reserved_windows_name s =
    is_reserved_base (map ascii_lower (before_dot s)) && not (contains_byte b'\n' (after_dot s))

-- `segment == "" || segment == "." || segment == ".."`
unfoldable pub is_non_canonical : Bytes → Bool
unfolding bytes_eq
is_non_canonical s = bytes_eq s [] || bytes_eq s (codes ".") || bytes_eq s (codes "..")

abbrev forbidden_windows_characters : Bytes
forbidden_windows_characters = codes "<>:\"/|?*"

validate_windows_segment : Bytes → Checked PathRule
unfolding contains_any ends_with is_reserved_windows_name
validate_windows_segment s = do
  reject (contains_any s forbidden_windows_characters) invalid_windows_segment
  reject (ends_with s b'.' || ends_with s b' ') ambiguous_windows_segment
  reject (is_reserved_windows_name s) reserved_windows_name

validate_segment : Bool → Bytes → Checked PathRule
unfolding is_non_canonical has_control_character
validate_segment on_windows s = do
  reject (is_non_canonical s) non_canonical_segment
  reject (has_control_character s) contains_control_character
  if on_windows then validate_windows_segment s else ok tt

-- `validateSegments`
unfoldable pub validate_segments : List Bytes → Bool → Checked PathRule
unfolding validate_segment validate_windows_segment
validate_segments [] on_windows = ok tt
validate_segments (s ∷ rest) on_windows =
    validate_segment on_windows s >> validate_segments rest on_windows

-- `validateLinux`
unfoldable pub validate_linux : Bytes → Checked PathRule
validate_linux value = do
  require (has_prefix value (codes "/")) not_absolute
  reject (contains_byte b'\\' value) ambiguous_separator
  if bytes_eq value (codes "/")
      then ok tt
      else validate_segments (split b'/' (trim_prefix b'/' value)) false

-- `len(value) >= 3`, a capital drive letter, `:` and `\`
starts_at_drive : Bytes → Bool
starts_at_drive (a ∷ b ∷ c ∷ _) = within b'A' b'Z' a && b == b':' && c == b'\\'
starts_at_drive _ = false

abbrev behind_drive : Bytes → Bytes
behind_drive (a ∷ b ∷ c ∷ s) = s
behind_drive _ = []

-- `validateWindows`
unfoldable pub validate_windows : Bytes → Checked PathRule
unfolding validate_segments contains_byte split starts_at_drive
validate_windows value = do
  require (starts_at_drive value) not_canonical_drive_absolute
  reject (contains_byte b'/' value) ambiguous_separator
  if length value == 3 then ok tt else validate_segments (split b'\\' (behind_drive value)) true

validate_on : Platform → Bytes → Checked PathRule
validate_on linux value = validate_linux value
validate_on windows value = validate_windows value
validate_on (other name) value = err unsupported_platform

-- `ValidateAbsolute`
unfoldable pub validate_absolute : Platform → Bytes → Checked PathRule
unfolding validate_on
validate_absolute platform value = do
  reject (not (utf8_valid value) || length value == 0 || ltb max_path_bytes (length value))
      invalid_size_or_encoding
  reject (contains_byte 0 value) contains_nul
  validate_on platform value

-- `IsFilesystemRoot`
unfoldable pub is_filesystem_root : Platform → Bytes → Bool
unfolding bytes_eq starts_at_drive
is_filesystem_root linux value = bytes_eq value (codes "/")
is_filesystem_root windows value = length value == 3 && starts_at_drive value
is_filesystem_root (other name) value = false

module _ (lib : Library) where
  -- `Equal`
  unfoldable pub equal : Platform → Bytes → Bytes → Bool
  unfolding bytes_eq
  equal windows left right = lib.equal_fold left right
  equal linux left right = bytes_eq left right
  equal (other name) left right = bytes_eq left right

  -- the root with the separator behind it, unless it has one
  abbrev pub with_separator : ℕ → Bytes → Bytes
  with_separator separator root = if ends_with root separator then root else root ++ separator ∷ []

  beneath : Platform → Bytes → Bytes → Bool
  beneath windows root candidate =
      has_prefix (lib.to_lower candidate) (lib.to_lower (with_separator b'\\' root))
  beneath linux root candidate = has_prefix candidate (with_separator b'/' root)
  beneath (other name) root candidate = has_prefix candidate (with_separator b'/' root)

  -- `Contains`
  unfoldable pub contains : Platform → Bytes → Bytes → Bool
  unfolding equal beneath has_prefix ends_with
  contains platform root candidate =
      equal platform root candidate || beneath platform root candidate

  -- `Overlaps`
  unfoldable pub overlaps : Platform → Bytes → Bytes → Bool
  unfolding contains
  overlaps platform left right = contains platform left right || contains platform right left
