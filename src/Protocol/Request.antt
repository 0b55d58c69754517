-- ===== src/Protocol/Request.antt =====
-- protocol/v1/validate.go: requests and their artifact selections. A Go map used as a set is the
-- list of its keys.
pub mod Selections
pub mod Shape
use agent_workstation_gatewa.Base.{
  ℕ, suc, ◌+◌, Bool, true, false, not, ◌&&◌, ◌||◌, List, [], ◌∷◌, ok, err, ◌>>=◌, ◌>>◌, ltb, ◌==◌,
  ℤ, pos, lt_ℤ, if◌then◌else◌, length, Option, none, some, Result,
}
use agent_workstation_gatewa.Text.{Bytes, codes, bytes_eq}
use agent_workstation_gatewa.Library.{Library}
use agent_workstation_gatewa.PlatformPath.{is_one_of}
use agent_workstation_gatewa.Protocol.Types.{
  Slice, items, ProtocolError, Validated, validation_error, Shell, RequestOperation, execute, start,
  status, stop, logs, ArtifactSelection, Request, min_timeout_seconds, max_timeout_seconds,
  min_output_bytes, max_output_bytes, max_artifact_groups, max_artifact_group_bytes,
  max_artifact_paths, max_total_artifact_paths,
}
use agent_workstation_gatewa.Protocol.Fields.{
  deny, is_bad_name, validate_identifier, validate_script, validate_working_directory,
  validate_artifact_path,
}

-- `Version`
abbrev pub version : ℕ
version = 1

-- `supportedShells`
unfoldable pub is_supported_shell : Shell → Bool
is_supported_shell (Shell.other name) = false
is_supported_shell _ = true

-- `supportedRequestOperations`
unfoldable pub is_supported_operation : RequestOperation → Bool
is_supported_operation (RequestOperation.other name) = false
is_supported_operation _ = true

-- `operation == RequestOperationExecute`
abbrev pub is_execute : RequestOperation → Bool
is_execute execute = true
is_execute _ = false

abbrev pub is_start : RequestOperation → Bool
is_start start = true
is_start _ = false

-- outside `lo` and `hi`
abbrev pub is_outside : ℕ → ℕ → ℤ → Bool
is_outside lo hi x = lt_ℤ x (pos lo) || lt_ℤ (pos hi) x

module _ (lib : Library) where
  -- The loop over one selection's paths; the count of paths so far goes in and comes out.
  unfoldable pub validate_paths : List Bytes → ℕ → List Bytes → Result ProtocolError ℕ
  validate_paths seen total [] = ok total
  validate_paths seen total (path ∷ paths) = do
    validate_artifact_path lib path
    deny (is_one_of seen path) "artifacts.paths" "duplicate-path"
    validate_paths (path ∷ seen) (total + 1) paths

  -- `artifact.Paths == nil || len(artifact.Paths) == 0 || len(artifact.Paths) > MaxArtifactPaths`
  abbrev pub is_bad_count : Slice Bytes → Bool
  is_bad_count none = true
  is_bad_count (some paths) = length paths == 0 || ltb max_artifact_paths (length paths)

  -- The loop over the selections
  unfoldable pub validate_groups : List Bytes → ℕ → List ArtifactSelection → Result ProtocolError ℕ
  validate_groups names total [] = ok total
  validate_groups names total (artifact ∷ artifacts) = do
    deny (is_bad_name max_artifact_group_bytes artifact.name) "artifacts.name" "invalid-identifier"
    deny (is_one_of names artifact.name) "artifacts.name" "duplicate-group"
    deny (is_bad_count artifact.paths) "artifacts.paths" "outside-count-limit"
    total' ← validate_paths [] total (items artifact.paths)
    validate_groups (artifact.name ∷ names) total' artifacts

  validate_selections : List ArtifactSelection → Validated
  validate_selections artifacts = do
    deny (ltb max_artifact_groups (length artifacts)) "artifacts" "too-many-groups"
    total ← validate_groups [] 0 artifacts
    deny (ltb max_total_artifact_paths total) "artifacts.paths" "too-many-total-paths"

  -- `validateArtifactSelections`
  unfoldable pub validate_artifact_selections : Slice ArtifactSelection → Validated
  unfolding validate_selections
  validate_artifact_selections none = validation_error "artifacts" "required-array"
  validate_artifact_selections (some artifacts) = validate_selections artifacts

  -- The check of `process_id`, which depends on the operation
  unfoldable pub validate_process_id : Bool → Bytes → Validated
  validate_process_id true process_id =
      deny (not (bytes_eq process_id [])) "process_id" "execute-requires-empty"
  validate_process_id false process_id = validate_identifier "process_id" process_id

  -- `ValidateRequest`
  unfoldable pub validate_request : Request → Validated
  validate_request request = do
    deny (not (request.protocol_version == version)) "protocol_version" "unsupported-version"
    validate_identifier "request_id" request.request_id
    validate_identifier "session_id" request.session_id
    validate_identifier "actor" request.actor
    deny (not (is_supported_operation request.operation)) "operation" "unsupported-operation"
    validate_process_id (is_execute request.operation) request.process_id
    deny (not (is_supported_shell request.shell)) "shell" "unsupported-shell"
    validate_working_directory lib request.working_directory
    validate_script request.script
    deny
        (not (is_execute request.operation)
          && not (is_start request.operation)
          && not (bytes_eq request.script (codes "-")))
        "script" "lifecycle-placeholder-required"
    deny (is_outside min_timeout_seconds max_timeout_seconds request.timeout_seconds)
        "timeout_seconds" "outside-allowed-range"
    deny (is_outside min_output_bytes max_output_bytes request.max_output_bytes) "max_output_bytes"
        "outside-allowed-range"
    validate_artifact_selections request.artifacts
    deny (not (is_execute request.operation) && not (length (items request.artifacts) == 0))
        "artifacts" "lifecycle-requires-empty"
