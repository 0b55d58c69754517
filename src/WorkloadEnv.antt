-- ===== src/WorkloadEnv.antt =====
-- internal/workloadenv/build.go. A Go map from names to values is an association list without a
-- repeated name; `sort.Slice` orders distinct names, so every sort gives its result.
pub mod Allowed
use agent_workstation_gatewa.Base.{
  ℕ, ◌*◌, Bool, true, false, not, ◌&&◌, ◌||◌, List, [], ◌∷◌, ◌++◌, map, Checked, Result, ok, err,
  ◌>>=◌, ◌>>◌, map_err, reject, ltb, leb, ◌==◌, if◌then◌else◌, length, Option, none, some,
}
use agent_workstation_gatewa.Text.{
  Bytes, codes, bytes_eq, has_prefix, contains_byte, split, join, within,
}
use agent_workstation_gatewa.Library.{Library}
use agent_workstation_gatewa.PlatformPath.{
  Platform, linux, windows, is_one_of, validate_absolute, equal,
}
use agent_workstation_gatewa.Protocol.Types.{items}
use agent_workstation_gatewa.Protocol.Fields.{all_bytes, matches_identifier}
use agent_workstation_gatewa.InstallConfig.{Config, validate}

abbrev pub max_base_entries : ℕ
max_base_entries = 512

abbrev pub max_entry_bytes : ℕ
max_entry_bytes = 32 * 1024

pub record Context : Type 0 where
  pub request_id : Bytes
  pub session_id : Bytes
  pub attempt_id : Bytes

-- The rules of `environmentError`
pub data EnvironmentRule : Type 0 where
  invalid_installation_config invalid_request_id invalid_session_id invalid_attempt_id :
      EnvironmentRule
  too_many_entries missing_windows_system_paths inconsistent_windows_system_paths : EnvironmentRule
  invalid_entry duplicate_allowed_key invalid_locale invalid_time_zone invalid_system_path :
      EnvironmentRule
  invalid_path_extensions invalid_system_value : EnvironmentRule

abbrev pub Variables : Type 0
Variables = List (Bytes × Bytes)

is_alphanumeric : ℕ → Bool
is_alphanumeric c = within b'A' b'Z' c || within b'a' b'z' c || within b'0' b'9' c

-- A text of 1 to `maximum` characters, letters, digits or in `others`
matches_text : Bytes → ℕ → Bytes → Bool
unfolding is_alphanumeric
matches_text others maximum s =
    leb 1 (length s)
    && leb (length s) maximum
    && all_bytes (λ c. is_alphanumeric c || contains_byte c others) s

-- `\.[A-Za-z0-9]{1,16}`
is_extension : Bytes → Bool
unfolding matches_text
is_extension [] = false
is_extension (c ∷ s) = c == b'.' && matches_text [] 16 s

are_extensions : List Bytes → Bool
unfolding is_extension
are_extensions [] = true
are_extensions (s ∷ xs) = is_extension s && are_extensions xs

-- `windowsPathExtensionsPattern.MatchString`
unfoldable pub matches_extensions : Bytes → Bool
unfolding are_extensions is_extension matches_text is_alphanumeric
matches_extensions s = leb (length (split b';' s)) 32 && are_extensions (split b';' s)

-- `windowsSafeBaseNames`: the names with capitals; they are looked up in small letters
abbrev pub windows_safe_base_names : Variables
windows_safe_base_names =
    (codes "number_of_processors", codes "NUMBER_OF_PROCESSORS")
    ∷ (codes "os", codes "OS")
    ∷ (codes "pathext", codes "PATHEXT")
    ∷ (codes "processor_architecture", codes "PROCESSOR_ARCHITECTURE")
    ∷ (codes "processor_identifier", codes "PROCESSOR_IDENTIFIER")
    ∷ (codes "processor_level", codes "PROCESSOR_LEVEL")
    ∷ (codes "processor_revision", codes "PROCESSOR_REVISION")
    ∷ (codes "systemroot", codes "SystemRoot")
    ∷ (codes "windir", codes "WINDIR")
    ∷ []

-- `linuxSafeBaseNames`
abbrev pub linux_safe_base_names : Variables
linux_safe_base_names =
    (codes "LANG", codes "LANG") ∷ (codes "LC_ALL", codes "LC_ALL") ∷ (codes "TZ", codes "TZ") ∷ []

-- `environment[name]`
unfoldable pub value_of : Variables → Bytes → Option Bytes
value_of [] name = none
value_of ((n, v) ∷ rest) name =
    let later = value_of rest name in if bytes_eq n name then some v else later

-- `environment[name] = value`
unfoldable pub set : Variables → Bytes → Bytes → Variables
set [] name value = (name, value) ∷ []
set ((n, v) ∷ rest) name value =
    let later = set rest name value in if bytes_eq n name then (n, value) ∷ rest else (n, v) ∷ later

-- The name and the value around the first `=`
unfoldable pub cut : Bytes → Option (Bytes × Bytes)
cut [] = none
cut (c ∷ s) = if c == b'=' then some ([], s) else extend_name c (cut s)
  where
    extend_name : ℕ → Option (Bytes × Bytes) → Option (Bytes × Bytes)
    extend_name c none = none
    extend_name c (some (name, value)) = some (c ∷ name, value)

is_locale_name : Bytes → Bool
is_locale_name name = bytes_eq name (codes "LANG") || bytes_eq name (codes "LC_ALL")

is_system_path_name : Bytes → Bool
is_system_path_name name = bytes_eq name (codes "SystemRoot") || bytes_eq name (codes "WINDIR")

-- `validateSafeBaseValue`
unfoldable pub validate_safe_base_value : Platform → Bytes → Bytes → Checked EnvironmentRule
unfolding matches_text is_locale_name is_system_path_name
validate_safe_base_value linux name value = do
  reject (is_locale_name name && not (matches_text (codes "_.@-") 64 value)) invalid_locale
  reject (bytes_eq name (codes "TZ") && not (matches_text (codes "_+:/.-") 128 value))
      invalid_time_zone
validate_safe_base_value _ name value =
    if is_system_path_name name
    then map_err invalid_system_path (validate_absolute windows value)
    else if bytes_eq name (codes "PATHEXT")
    then reject (not (matches_extensions value)) invalid_path_extensions
    else reject (not (matches_text (codes " _.,()/-") 128 value)) invalid_system_value

module _ (lib : Library) where
  -- The name by which an allowed variable goes, if the variable is allowed
  unfoldable pub canonical_name : Platform → Bytes → Option Bytes
  canonical_name windows name = value_of windows_safe_base_names (lib.to_lower name)
  canonical_name linux name = value_of linux_safe_base_names name
  canonical_name (Platform.other p) name = value_of linux_safe_base_names name

  abbrev pub seen_name : Platform → Bytes → Bytes
  seen_name windows name = lib.to_lower name
  seen_name linux name = name
  seen_name (Platform.other p) name = name

  -- What one entry adds to the names seen and the values, behind the test of its size
  unfoldable pub add_allowed :
      Platform
      → List Bytes
      → Variables
      → Bytes
      → Option Bytes
      → Result EnvironmentRule (List Bytes × Variables)
  add_allowed platform seen projected value none = ok (seen, projected)
  add_allowed platform seen projected value (some name) = do
    reject (is_one_of seen (seen_name platform name)) duplicate_allowed_key
    validate_safe_base_value platform name value
    ok (seen_name platform name ∷ seen, set projected name value)

  unfoldable pub add_cut :
      Platform
      → List Bytes
      → Variables
      → Option (Bytes × Bytes)
      → Result EnvironmentRule (List Bytes × Variables)
  unfolding add_allowed
  add_cut platform seen projected none = err invalid_entry
  add_cut platform seen projected (some ([], value)) = err invalid_entry
  add_cut platform seen projected (some (c ∷ name, value)) =
      add_allowed platform seen projected value (canonical_name platform (c ∷ name))

  abbrev pub is_windows : Platform → Bool
  is_windows windows = true
  is_windows _ = false

  -- One turn of the loop
  unfoldable pub add_entry :
      Platform → List Bytes → Variables → Bytes → Result EnvironmentRule (List Bytes × Variables)
  unfolding add_cut add_allowed
  add_entry platform seen projected entry = do
    reject (length entry == 0 || ltb max_entry_bytes (length entry) || contains_byte 0 entry)
        invalid_entry
    if is_windows platform && has_prefix entry (codes "=")
        then ok (seen, projected)
        else add_cut platform seen projected (cut entry)

  -- `projectSafeBase`
  unfoldable pub project_safe_base :
      Platform → List Bytes → Variables → List Bytes → Result EnvironmentRule Variables
  project_safe_base platform seen projected [] = ok projected
  project_safe_base platform seen projected (entry ∷ entries) = do
    (seen', projected') ← add_entry platform seen projected entry
    project_safe_base platform seen' projected' entries

  unfoldable pub set_identity : Config → Platform → Variables → Variables
  set_identity configuration windows environment =
      let e1 = set environment (codes "USERPROFILE") configuration.profile_root in
      let e2 = set e1 (codes "HOME") configuration.profile_root in
      let e3 = set e2 (codes "TEMP") configuration.temp_root in
      let e4 = set e3 (codes "TMP") configuration.temp_root in
      set e4 (codes "USERNAME") configuration.execution_identity.name
  set_identity configuration _ environment =
      let e1 = set environment (codes "HOME") configuration.profile_root in
      let e2 = set e1 (codes "TMPDIR") configuration.temp_root in
      let e3 = set e2 (codes "USER") configuration.execution_identity.name in
      set e3 (codes "LOGNAME") configuration.execution_identity.name

  unfoldable pub path_separator : Platform → ℕ
  path_separator windows = b';'
  path_separator _ = b':'

  -- `setGatewayValues`
  unfoldable pub set_gateway_values : Config → Context → Variables → Variables
  unfolding set_identity path_separator
  set_gateway_values configuration context environment =
      let e1 = set_identity configuration configuration.platform environment in
      let e2 =
        set e1 (codes "PATH")
          (join (path_separator configuration.platform) (items configuration.path_entries)) in
      let e3 = set e2 (codes "AWG_REQUEST_ID") context.request_id in
      let e4 = set e3 (codes "AWG_SESSION_ID") context.session_id in
      set e4 (codes "AWG_ATTEMPT_ID") context.attempt_id

  -- `a < b` on strings
  unfoldable pub is_before : Bytes → Bytes → Bool
  is_before s [] = false
  is_before [] (d ∷ t) = true
  is_before (c ∷ s) (d ∷ t) = ltb c d || (c == d && is_before s t)

  unfoldable pub insert : Platform → (Bytes × Bytes) → Variables → Variables
  unfolding is_before
  insert platform x [] = x ∷ []
  insert platform x (y ∷ ys) =
      let later = insert platform x ys in
      if is_before (seen_name platform (y.0)) (seen_name platform (x.0))
      then y ∷ later
      else x ∷ y ∷ ys

  unfoldable pub sorted : Platform → Variables → Variables
  unfolding insert
  sorted platform [] = []
  sorted platform (x ∷ xs) = insert platform x (sorted platform xs)

  -- `sortedEnvironment`
  unfoldable pub sorted_environment : Platform → Variables → List Bytes
  unfolding sorted
  sorted_environment platform environment =
      map (λ (name, value). name ++ (b'=' ∷ value)) (sorted platform environment)

  check_system_paths : Option Bytes → Option Bytes → Checked EnvironmentRule
  check_system_paths (some system_root) (some windows_directory) =
      reject (not (equal lib windows system_root windows_directory))
        inconsistent_windows_system_paths
  check_system_paths _ _ = err missing_windows_system_paths

  unfoldable pub check_platform : Platform → Variables → Checked EnvironmentRule
  unfolding check_system_paths
  check_platform windows projected =
      check_system_paths (value_of projected (codes "SystemRoot"))
        (value_of projected (codes "WINDIR"))
  check_platform _ projected = ok tt

  -- `Build`
  unfoldable pub build : Config → List Bytes → Context → Result EnvironmentRule (List Bytes)
  unfolding check_platform check_system_paths
  build configuration safe_base context = do
    map_err invalid_installation_config (validate lib configuration)
    reject (not (matches_identifier context.request_id)) invalid_request_id
    reject (not (matches_identifier context.session_id)) invalid_session_id
    reject (not (matches_identifier context.attempt_id)) invalid_attempt_id
    reject (ltb max_base_entries (length safe_base)) too_many_entries
    projected ← project_safe_base configuration.platform [] [] safe_base
    check_platform configuration.platform projected
    ok (
        sorted_environment configuration.platform
          (set_gateway_values configuration context projected))
