-- ===== src/InstallConfig.antt =====
-- internal/installconfig: types.go, errors.go and validate.go. The lists of what a loop has seen
-- grow at the front; the loops only ask whether one of them matches.
pub mod Accepts
use Prim.Native.String.{◌++◌ as text_append}
use agent_workstation_gatewa.Base.{
  ℕ, ◌+◌, ◌*◌, ◌^◌, ◌-◌, String, Bool, true, false, not, ◌&&◌, ◌||◌, List, [], ◌∷◌, Checked, Result,
  ok, err, ◌>>=◌, ◌>>◌, map_err, ltb, leb, ◌==◌, if◌then◌else◌, length, drop, Option, none, some,
}
use agent_workstation_gatewa.Text.{Bytes, codes, bytes_eq, has_prefix, split, within}
use agent_workstation_gatewa.Library.{Library}
use agent_workstation_gatewa.PlatformPath.{
  Platform, linux, windows, is_one_of, validate_absolute, is_filesystem_root, equal, contains,
  overlaps,
}
use agent_workstation_gatewa.Protocol.Types.{Slice, items, Shell}
use agent_workstation_gatewa.Protocol.Fields.{all_bytes, matches_identifier}

abbrev pub current_version : ℕ
current_version = 1

pub data Capability : Type 0 where
  docker : Capability
  other : Bytes → Capability

pub record Principal : Type 0 where
  pub name : Bytes
  pub identifier : Bytes
  pub primary_group_identifier : Bytes

pub record ShellBinding : Type 0 where
  pub shell : Shell
  pub executable : Bytes

pub record Config : Type 0 where
  pub config_version : ℕ
  pub platform : Platform
  pub control_identity : Principal
  pub execution_identity : Principal
  pub approved_roots : Slice Bytes
  pub shells : Slice ShellBinding
  pub profile_root : Bytes
  pub temp_root : Bytes
  pub path_entries : Slice Bytes
  pub capabilities : Slice Capability

pub record ConfigError : Type 0 where
  pub field : String
  pub rule : String

abbrev pub ConfigChecked : Type 0
ConfigChecked = Checked ConfigError

-- `if condition { return configError(field, rule) }`
abbrev pub refuse : Bool → String → String → ConfigChecked
refuse true f r = err (record { field = f; rule = r })
refuse false f r = ok tt

abbrev pub max_approved_roots : ℕ
max_approved_roots = 16

abbrev pub max_capabilities : ℕ
max_capabilities = 8

abbrev pub max_path_entries : ℕ
max_path_entries = 32

abbrev pub max_shells : ℕ
max_shells = 5

is_digit : ℕ → Bool
is_digit c = within b'0' b'9' c

is_name_start : Bytes → Bool
is_name_start [] = false
is_name_start (c ∷ s) = within b'a' b'z' c

-- `principalNamePattern.MatchString`: an identifier that begins with a letter
unfoldable pub matches_principal_name : Bytes → Bool
unfolding is_name_start matches_identifier
matches_principal_name s = is_name_start s && matches_identifier s

are_numbers : List Bytes → Bool
unfolding is_digit
are_numbers [] = true
are_numbers (s ∷ xs) = leb 1 (length s) && all_bytes is_digit s && are_numbers xs

is_sid_parts : List Bytes → Bool
unfolding are_numbers
is_sid_parts (s ∷ one ∷ authority ∷ parts) =
    bytes_eq s (codes "S")
    && bytes_eq one (codes "1")
    && are_numbers (authority ∷ parts)
    && leb 1 (length parts)
    && leb (length parts) 14
is_sid_parts _ = false

-- `windowsSIDPattern.MatchString`
unfoldable pub matches_sid : Bytes → Bool
unfolding is_sid_parts are_numbers is_digit
matches_sid s = is_sid_parts (split b'-' s)

is_count_start : Bytes → Bool
unfolding is_digit
is_count_start [] = false
is_count_start (c ∷ s) = within b'1' b'9' c && all_bytes is_digit s && leb (length s) 9

-- `linuxUIDPattern.MatchString` for the prefix `uid:`, and `linuxGIDPattern` for `gid:`
unfoldable pub matches_account : Bytes → Bytes → Bool
unfolding is_count_start is_digit
matches_account label s = has_prefix s label && is_count_start (drop (length label) s)

decimal : ℕ → Bytes → ℕ
decimal n [] = n
decimal n (c ∷ s) = decimal (n * 10 + (c - b'0')) s

-- The number behind the prefix is refused: it does not fit 32 bits, or is 0 or 4294967295
unfoldable pub is_bad_account : Bytes → Bytes → Bool
unfolding decimal
is_bad_account label s =
    let n = decimal 0 (drop (length label) s) in leb (2 ^ 32) n || n == 0 || n == 4294967295

-- The switch on the platform
validate_account : String → Principal → Platform → ConfigChecked
validate_account field principal windows = do
  refuse (not (matches_sid principal.identifier)) (text_append field ".identifier")
      "invalid-windows-sid"
  refuse (not (matches_sid principal.primary_group_identifier))
      (text_append field ".primary_group_identifier") "invalid-windows-sid"
validate_account field principal linux = do
  refuse (not (matches_account (codes "uid:") principal.identifier))
      (text_append field ".identifier") "invalid-linux-uid"
  refuse (is_bad_account (codes "uid:") principal.identifier) (text_append field ".identifier")
      "invalid-linux-uid"
  refuse (not (matches_account (codes "gid:") principal.primary_group_identifier))
      (text_append field ".primary_group_identifier") "invalid-linux-gid"
  refuse (is_bad_account (codes "gid:") principal.primary_group_identifier)
      (text_append field ".primary_group_identifier") "invalid-linux-gid"
validate_account field principal (Platform.other name) = ok tt

-- `validatePrincipal`
unfoldable pub validate_principal : String → Platform → Principal → ConfigChecked
unfolding validate_account
validate_principal field platform principal = do
  refuse (not (matches_principal_name principal.name)) (text_append field ".name") "invalid-name"
  validate_account field principal platform

-- The string of a shell
unfoldable pub shell_text : Shell → Bytes
shell_text Shell.bash = codes "bash"
shell_text Shell.cmd = codes "cmd"
shell_text Shell.git_bash = codes "git-bash"
shell_text Shell.powershell = codes "powershell"
shell_text Shell.pwsh = codes "pwsh"
shell_text (Shell.other name) = name

-- `platformShells`
unfoldable pub is_platform_shell : Platform → Shell → Bool
is_platform_shell windows Shell.cmd = true
is_platform_shell windows Shell.git_bash = true
is_platform_shell windows Shell.powershell = true
is_platform_shell windows Shell.pwsh = true
is_platform_shell linux Shell.bash = true
is_platform_shell linux Shell.pwsh = true
is_platform_shell _ _ = false

-- `x == nil || len(x) == 0 || len(x) > maximum`
abbrev pub is_bad_length : {A : Type 0} → ℕ → Slice A → Bool
is_bad_length maximum none = true
is_bad_length maximum (some xs) = length xs == 0 || ltb maximum (length xs)

abbrev pub is_supported_platform : Platform → Bool
is_supported_platform (Platform.other name) = false
is_supported_platform _ = true

abbrev pub is_supported_capability : Capability → Bool
is_supported_capability docker = true
is_supported_capability (Capability.other name) = false

abbrev pub capability_text : Capability → Bytes
capability_text docker = codes "docker"
capability_text (Capability.other name) = name

-- The loop over the capabilities
unfoldable pub validate_each_capability : List Bytes → List Capability → ConfigChecked
validate_each_capability seen [] = ok tt
validate_each_capability seen (capability ∷ capabilities) = do
  refuse (not (is_supported_capability capability)) "capabilities" "unsupported-capability"
  refuse (is_one_of seen (capability_text capability)) "capabilities" "duplicate-capability"
  validate_each_capability (capability_text capability ∷ seen) capabilities

abbrev pub is_bad_array : Slice Capability → Bool
is_bad_array none = true
is_bad_array (some xs) = ltb max_capabilities (length xs)

-- `validateCapabilities`
unfoldable pub validate_capabilities : Slice Capability → ConfigChecked
validate_capabilities capabilities = do
  refuse (is_bad_array capabilities) "capabilities" "required-bounded-array"
  validate_each_capability [] (items capabilities)

module _ (lib : Library) where
  -- Some element of the list passes the test
  abbrev pub any_of : {A : Type 0} → (A → Bool) → List A → Bool
  any_of p [] = false
  any_of p (x ∷ xs) = p x || any_of p xs

  -- `principalsEqual`
  unfoldable pub principals_equal : Platform → Principal → Principal → Bool
  principals_equal windows left right = lib.equal_fold left.identifier right.identifier
  principals_equal linux left right = bytes_eq left.identifier right.identifier
  principals_equal (Platform.other name) left right = bytes_eq left.identifier right.identifier

  -- `validateNonRootPath`
  unfoldable pub validate_non_root_path : String → Platform → Bytes → ConfigChecked
  validate_non_root_path field platform value = do
    map_err (record { field = field; rule = "invalid-absolute-path" })
        (validate_absolute platform value)
    refuse (is_filesystem_root platform value) field "filesystem-root-forbidden"

  -- `validateProtectedToolPath`
  unfoldable pub validate_protected_tool_path : Config → String → Bytes → ConfigChecked
  validate_protected_tool_path configuration field value = do
    validate_non_root_path field configuration.platform value
    refuse
        (any_of (λ r. contains lib configuration.platform r value)
          (items configuration.approved_roots))
        field "inside-approved-root"

  -- The loop over the roots, behind the `earlier` ones
  unfoldable pub validate_each_root : Config → List Bytes → List Bytes → ConfigChecked
  validate_each_root configuration earlier [] = ok tt
  validate_each_root configuration earlier (r ∷ later) = do
    validate_non_root_path "approved_roots" configuration.platform r
    refuse
        (overlaps lib configuration.platform r configuration.profile_root
          || overlaps lib configuration.platform r configuration.temp_root)
        "approved_roots" "overlaps-execution-state"
    refuse (any_of (overlaps lib configuration.platform r) earlier) "approved_roots"
        "duplicate-or-overlapping-root"
    validate_each_root configuration (r ∷ earlier) later

  -- `validateRoots`
  unfoldable pub validate_roots : Config → ConfigChecked
  validate_roots configuration = do
    refuse (is_bad_length max_approved_roots configuration.approved_roots) "approved_roots"
        "outside-count-limit"
    validate_non_root_path "profile_root" configuration.platform configuration.profile_root
    validate_non_root_path "temp_root" configuration.platform configuration.temp_root
    refuse (equal lib configuration.platform configuration.profile_root configuration.temp_root)
        "temp_root" "must-differ-from-profile"
    validate_each_root configuration [] (items configuration.approved_roots)

  -- The loop over the shells
  unfoldable pub validate_each_shell :
      Config → List Bytes → List Bytes → List ShellBinding → ConfigChecked
  validate_each_shell configuration shells executables [] = ok tt
  validate_each_shell configuration shells executables (binding ∷ bindings) = do
    refuse (not (is_platform_shell configuration.platform binding.shell)) "shells.shell"
        "unsupported-for-platform"
    refuse (is_one_of shells (shell_text binding.shell)) "shells.shell" "duplicate-shell"
    validate_protected_tool_path configuration "shells.executable" binding.executable
    refuse (any_of (λ e. equal lib configuration.platform e binding.executable) executables)
        "shells.executable" "duplicate-executable"
    validate_each_shell configuration (shell_text binding.shell ∷ shells)
        (binding.executable ∷ executables) bindings

  -- `validateShells`
  unfoldable pub validate_shells : Config → ConfigChecked
  validate_shells configuration = do
    refuse (is_bad_length max_shells configuration.shells) "shells" "outside-count-limit"
    validate_each_shell configuration [] [] (items configuration.shells)

  -- The loop over the path entries
  unfoldable pub validate_each_entry : Config → List Bytes → List Bytes → ConfigChecked
  validate_each_entry configuration earlier [] = ok tt
  validate_each_entry configuration earlier (entry ∷ later) = do
    validate_protected_tool_path configuration "path_entries" entry
    refuse (any_of (equal lib configuration.platform entry) earlier) "path_entries" "duplicate-path"
    validate_each_entry configuration (entry ∷ earlier) later

  -- `validatePathEntries`
  unfoldable pub validate_path_entries : Config → ConfigChecked
  validate_path_entries configuration = do
    refuse (is_bad_length max_path_entries configuration.path_entries) "path_entries"
        "outside-count-limit"
    validate_each_entry configuration [] (items configuration.path_entries)

  -- `Validate`
  unfoldable pub validate : Config → ConfigChecked
  validate configuration = do
    refuse (not (configuration.config_version == current_version)) "config_version"
        "unsupported-version"
    refuse (not (is_supported_platform configuration.platform)) "platform" "unsupported-platform"
    validate_principal "control_identity" configuration.platform configuration.control_identity
    validate_principal "execution_identity" configuration.platform configuration.execution_identity
    refuse
        (principals_equal configuration.platform configuration.control_identity
          configuration.execution_identity)
        "execution_identity" "must-differ-from-control"
    validate_roots configuration
    validate_shells configuration
    validate_path_entries configuration
    validate_capabilities configuration.capabilities
