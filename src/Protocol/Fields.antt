-- ===== src/Protocol/Fields.antt =====
-- protocol/v1: the checks of single fields, from validate.go and records_validate.go. The texts of
-- errors are the source's, so a failed check is told from every other.
use agent_workstation_gatewa.Base.{
  ℕ, String, Bool, true, false, not, ◌&&◌, ◌||◌, List, [], ◌∷◌, ok, ◌>>◌, ltb, leb, ◌==◌,
  if◌then◌else◌, length, Option, none, some,
}
use agent_workstation_gatewa.Text.{
  Bytes, codes, bytes_eq, has_prefix, ends_with, contains_byte, contains_any, split, trim_prefix,
  utf8_valid, only_space, within,
}
use agent_workstation_gatewa.Library.{Library}
use agent_workstation_gatewa.PlatformPath.{
  has_control_character, is_non_canonical, before_dot, is_one_of,
}
use agent_workstation_gatewa.Protocol.Types.{
  Validated, validation_error, max_identifier_bytes, max_script_bytes, max_working_path_bytes,
  max_artifact_path_bytes, max_artifact_file_path_bytes, max_artifact_group_bytes,
}

-- `if condition { return validationError(field, rule) }`
abbrev pub deny : Bool → String → String → Validated
deny true f r = validation_error f r
deny false f r = ok tt

unfoldable pub all_bytes : (ℕ → Bool) → Bytes → Bool
all_bytes p [] = true
all_bytes p (c ∷ s) = p c && all_bytes p s

unfoldable pub is_identifier_start : ℕ → Bool
is_identifier_start c = within b'a' b'z' c || within b'0' b'9' c

unfoldable pub is_identifier_byte : ℕ → Bool
is_identifier_byte c =
    within b'a' b'z' c || within b'0' b'9' c || c == b'.' || c == b'_' || c == b'-'

-- `identifierPattern.MatchString`
unfoldable pub matches_identifier : Bytes → Bool
unfolding all_bytes is_identifier_start is_identifier_byte
matches_identifier [] = false
matches_identifier (c ∷ s) =
    is_identifier_start c && all_bytes is_identifier_byte s && leb (length s) 63

-- `len(value) == 0 || len(value) > maximum || !identifierPattern.MatchString(value)`
unfoldable pub is_bad_name : ℕ → Bytes → Bool
unfolding matches_identifier
is_bad_name maximum value =
    length value == 0 || ltb maximum (length value) || not (matches_identifier value)

-- `validateIdentifier`
unfoldable pub validate_identifier : String → Bytes → Validated
unfolding is_bad_name
validate_identifier field value =
    deny (is_bad_name max_identifier_bytes value) field "invalid-identifier"

-- `validateArtifactGroup`
unfoldable pub validate_artifact_group : String → Bytes → Validated
unfolding is_bad_name
validate_artifact_group field group =
    deny (is_bad_name max_artifact_group_bytes group) field "invalid-identifier"

-- `validateScript`
unfoldable pub validate_script : Bytes → Validated
validate_script script = do
  deny (not (utf8_valid script)) "script" "invalid-utf8"
  deny (length script == 0 || ltb max_script_bytes (length script)) "script" "outside-size-limit"
  deny (only_space script) "script" "empty-script"
  deny (contains_byte 0 script) "script" "contains-nul"

unfoldable pub validate_posix_segment : Bytes → Validated
validate_posix_segment segment = do
  deny (is_non_canonical segment) "working_directory" "non-canonical-posix-segment"
  deny (has_control_character segment) "working_directory" "contains-control-character"

-- A check of each segment in turn; the first that fails decides.
unfoldable pub each : {A : Type 0} → (A → Validated) → List A → Validated
each check [] = ok tt
each check (x ∷ xs) = check x >> each check xs

-- `validatePOSIXWorkingDirectory`
unfoldable pub validate_posix_working_directory : Bytes → Validated
unfolding validate_posix_segment
validate_posix_working_directory directory = if bytes_eq directory (codes "/") then ok tt else (do
  deny (contains_byte b'\\' directory) "working_directory" "ambiguous-posix-separator"
  each validate_posix_segment (split b'/' (trim_prefix b'/' directory)))

-- `reservedWindowsNames`
abbrev pub reserved_windows_names : List Bytes
reserved_windows_names =
    codes "aux"
    ∷ codes "con"
    ∷ codes "nul"
    ∷ codes "prn"
    ∷ codes "com1"
    ∷ codes "com2"
    ∷ codes "com3"
    ∷ codes "com4"
    ∷ codes "com5"
    ∷ codes "com6"
    ∷ codes "com7"
    ∷ codes "com8"
    ∷ codes "com9"
    ∷ codes "lpt1"
    ∷ codes "lpt2"
    ∷ codes "lpt3"
    ∷ codes "lpt4"
    ∷ codes "lpt5"
    ∷ codes "lpt6"
    ∷ codes "lpt7"
    ∷ codes "lpt8"
    ∷ codes "lpt9"
    ∷ []

-- `forbiddenArtifactSegments`
abbrev pub forbidden_artifact_segments : List Bytes
forbidden_artifact_segments =
    codes ".aws"
    ∷ codes ".azure"
    ∷ codes ".git"
    ∷ codes ".gnupg"
    ∷ codes ".kube"
    ∷ codes ".runtime"
    ∷ codes ".ssh"
    ∷ []

-- A capital or small letter, `:` and `\`
unfoldable pub starts_at_any_drive : Bytes → Bool
starts_at_any_drive (a ∷ b ∷ c ∷ _) =
    (within b'A' b'Z' a || within b'a' b'z' a) && b == b':' && c == b'\\'
starts_at_any_drive _ = false

abbrev pub behind_drive : Bytes → Bytes
behind_drive (a ∷ b ∷ c ∷ s) = s
behind_drive _ = []

module _ (lib : Library) where
  unfoldable pub validate_windows_working_segment : Bytes → Validated
  validate_windows_working_segment segment = do
    deny (is_non_canonical segment) "working_directory" "non-canonical-windows-segment"
    deny (has_control_character segment || contains_any segment (codes "<>:\"/|?*"))
        "working_directory" "invalid-windows-segment"
    deny (ends_with segment b'.' || ends_with segment b' ') "working_directory"
        "ambiguous-windows-segment"
    deny (is_one_of reserved_windows_names (lib.to_lower (before_dot segment))) "working_directory"
        "reserved-windows-name"

  -- `validateWindowsWorkingDirectory`
  unfoldable pub validate_windows_working_directory : Bytes → Validated
  unfolding validate_windows_working_segment
  validate_windows_working_directory directory =
      if length directory == 3
      then ok tt
      else each validate_windows_working_segment (split b'\\' (behind_drive directory))

  -- `validateWorkingDirectory`
  unfoldable pub validate_working_directory : Bytes → Validated
  unfolding starts_at_any_drive
  validate_working_directory directory = do
    deny
        (not (utf8_valid directory)
          || length directory == 0
          || ltb max_working_path_bytes (length directory))
        "working_directory" "invalid-size-or-encoding"
    deny (contains_byte 0 directory) "working_directory" "contains-nul"
    if has_prefix directory (codes "/")
        then validate_posix_working_directory directory
        else if starts_at_any_drive directory
        then validate_windows_working_directory directory
        else validation_error "working_directory" "not-supported-absolute-path"

  -- `forbiddenArtifactSegments[lowerSegment]`, `.env` and `.env.*`
  unfoldable pub is_sensitive : Bytes → Bool
  is_sensitive lower_segment =
      is_one_of forbidden_artifact_segments lower_segment
      || bytes_eq lower_segment (codes ".env")
      || has_prefix lower_segment (codes ".env.")

  unfoldable pub validate_artifact_segment : String → Bytes → Validated
  validate_artifact_segment field segment = do
    deny (is_non_canonical segment) field "non-canonical-segment"
    deny (has_control_character segment) field "contains-control-character"
    deny (is_sensitive (lib.to_lower segment)) field "sensitive-segment"

  abbrev pub is_malformed_glob : Option Bool → Bool
  is_malformed_glob none = true
  is_malformed_glob (some b) = false

  unfoldable pub validate_glob_use : Bool → String → Bytes → Validated
  validate_glob_use true field path =
      deny (is_malformed_glob (lib.path_match path (codes "synthetic/path"))) field
        "invalid-glob-syntax"
  validate_glob_use false field path =
      deny (contains_any path (codes "*?[")) field "glob-in-file-path"

  -- `validateRelativeArtifactPath`
  unfoldable pub validate_relative_artifact_path : String → Bytes → ℕ → Bool → Validated
  validate_relative_artifact_path field path maximum_bytes allow_glob = do
    deny (not (utf8_valid path) || length path == 0 || ltb maximum_bytes (length path)) field
        "invalid-size-or-encoding"
    deny (has_prefix path (codes "/") || contains_any path (92 ∷ b':' ∷ 0 ∷ [])) field
        "not-safe-relative-path"
    validate_glob_use allow_glob field path
    each (validate_artifact_segment field) (split b'/' path)

  -- `validateArtifactPath`
  unfoldable pub validate_artifact_path : Bytes → Validated
  validate_artifact_path path =
      validate_relative_artifact_path "artifacts.paths" path max_artifact_path_bytes true

  -- `validateArtifactFilePath`
  unfoldable pub validate_artifact_file_path : Bytes → Validated
  validate_artifact_file_path path =
      validate_relative_artifact_path "artifacts.files.path" path max_artifact_file_path_bytes false

  -- `validateArtifactOmissionPattern`
  unfoldable pub validate_artifact_omission_pattern : Bytes → Validated
  validate_artifact_omission_pattern path =
      validate_relative_artifact_path "artifacts.omissions.pattern" path max_artifact_path_bytes
        true

unfoldable pub is_lower_hex : ℕ → Bool
is_lower_hex c = within b'0' b'9' c || within b'a' b'f' c

-- `validateLowerHex`: two returns of one error
unfoldable pub validate_lower_hex : String → Bytes → ℕ → Validated
unfolding all_bytes is_lower_hex
validate_lower_hex field value expected_length = do
  deny (not (length value == expected_length)) field "invalid-lower-hex"
  deny (not (all_bytes is_lower_hex value)) field "invalid-lower-hex"
