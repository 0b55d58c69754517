-- ===== src/ExecutionPolicy.antt =====
-- internal/executionpolicy: types.go, errors.go and authorize.go. A resolver is a function, `none`
-- where it returns an error; the interface value nil is `none`.
pub mod Stages
pub mod Confined
use agent_workstation_gatewa.Base.{
  ℕ, ℤ, Bool, true, false, not, ◌&&◌, ◌||◌, List, [], ◌∷◌, Checked, Result, ok, err, ◌>>=◌, ◌>>◌,
  map_err, reject, require, ◌==◌, if◌then◌else◌, Option, none, some,
}
use agent_workstation_gatewa.Text.{Bytes, codes, bytes_eq, has_prefix}
use agent_workstation_gatewa.Library.{Library}
use agent_workstation_gatewa.PlatformPath.{
  Platform, linux, windows, validate_absolute, equal, contains,
}
use agent_workstation_gatewa.Protocol.Types.{
  items, Shell, RequestOperation, ArtifactSelection, Request, AcceptedRequestRecord,
}
use agent_workstation_gatewa.Protocol.Fields.{starts_at_any_drive}
use agent_workstation_gatewa.BrokerProto.{ExecuteEnvelope, validate_execute_envelope}
use agent_workstation_gatewa.InstallConfig.{
  Capability, Principal, ShellBinding, Config, any_of, shell_text, validate,
}
use agent_workstation_gatewa.WorkloadEnv.{Context, build}

pub record Resolution : Type 0 where
  pub requested_path : Bytes
  pub working_directory : Bytes
  pub approved_root : Bytes

-- `ResolveWithin`
abbrev pub Resolver : Type 0
Resolver = Platform → Bytes → List Bytes → Option Resolution

pub record LaunchPlan : Type 0 where
  pub request_id : Bytes
  pub request_digest : Bytes
  pub session_id : Bytes
  pub attempt_id : Bytes
  pub operation : RequestOperation
  pub process_id : Bytes
  pub execution_identity : Principal
  pub shell : Shell
  pub executable : Bytes
  pub working_directory : Bytes
  pub approved_root : Bytes
  pub script : Bytes
  pub timeout_seconds : ℤ
  pub max_output_bytes : ℤ
  pub artifacts : List ArtifactSelection
  pub environment : List Bytes
  pub capabilities : List Capability

-- The pairs of field and rule of `policyError`
pub data PolicyRule : Type 0 where
  invalid_installation_config invalid_execute_envelope resolver_required platform_mismatch :
      PolicyRule
  shell_not_configured resolution_denied resolver_request_mismatch : PolicyRule
  resolver_returned_invalid_path resolver_returned_invalid_root root_not_configured : PolicyRule
  outside_approved_root construction_failed : PolicyRule

-- `requestPathMatchesPlatform`
unfoldable pub request_path_matches_platform : Platform → Bytes → Bool
request_path_matches_platform windows requested = starts_at_any_drive requested
request_path_matches_platform linux requested = has_prefix requested (codes "/")
request_path_matches_platform (Platform.other name) requested = false

-- `configuredShell`
unfoldable pub configured_shell : List ShellBinding → Shell → Option Bytes
configured_shell [] requested = none
configured_shell (binding ∷ bindings) requested =
    let later = configured_shell bindings requested in
    if bytes_eq (shell_text binding.shell) (shell_text requested)
    then some binding.executable
    else later

-- `cloneArtifactSelections`: a nil slice of paths stays nil
unfoldable pub clone_artifact_selections : List ArtifactSelection → List ArtifactSelection
clone_artifact_selections [] = []
clone_artifact_selections (selection ∷ selections) =
    record { name = selection.name; paths = clone_paths selection.paths }
    ∷ clone_artifact_selections selections
  where
    clone_paths : Option (List Bytes) → Option (List Bytes)
    clone_paths none = none
    clone_paths (some []) = none
    clone_paths (some (path ∷ paths)) = some (path ∷ paths)

abbrev pub or_deny_plan : {A : Type 0} → PolicyRule → Option A → Result PolicyRule A
or_deny_plan rule none = err rule
or_deny_plan rule (some a) = ok a

module _ (lib : Library) (encode : Request → Option Bytes) where
  -- `validateResolution`
  unfoldable pub validate_resolution : Config → Bytes → Resolution → Checked PolicyRule
  validate_resolution configuration requested resolution = do
    reject (not (bytes_eq resolution.requested_path requested)) resolver_request_mismatch
    map_err resolver_returned_invalid_path
        (validate_absolute configuration.platform resolution.working_directory)
    map_err resolver_returned_invalid_root
        (validate_absolute configuration.platform resolution.approved_root)
    reject
        (not (
          any_of lib (λ r. equal lib configuration.platform r resolution.approved_root)
            (items configuration.approved_roots)))
        root_not_configured
    reject
        (not (
          contains lib configuration.platform resolution.approved_root
            resolution.working_directory))
        outside_approved_root

  abbrev pub context_of : ExecuteEnvelope → Context
  context_of envelope = record {
    request_id = envelope.accepted_request.request.request_id;
    session_id = envelope.accepted_request.request.session_id;
    attempt_id = envelope.attempt_id;
  }

  -- The plan that `Authorize` returns
  abbrev pub plan_of : Config → ExecuteEnvelope → Bytes → Resolution → List Bytes → LaunchPlan
  plan_of configuration envelope executable resolution environment = record {
    request_id = envelope.accepted_request.request.request_id;
    request_digest = envelope.accepted_request.request_digest;
    session_id = envelope.accepted_request.request.session_id;
    attempt_id = envelope.attempt_id;
    operation = envelope.accepted_request.request.operation;
    process_id = envelope.accepted_request.request.process_id;
    execution_identity = configuration.execution_identity;
    shell = envelope.accepted_request.request.shell;
    executable = executable;
    working_directory = resolution.working_directory;
    approved_root = resolution.approved_root;
    script = envelope.accepted_request.request.script;
    timeout_seconds = envelope.accepted_request.request.timeout_seconds;
    max_output_bytes = envelope.accepted_request.request.max_output_bytes;
    artifacts = clone_artifact_selections (items envelope.accepted_request.request.artifacts);
    environment = environment;
    capabilities = items configuration.capabilities;
  }

  -- `Authorize`
  unfoldable pub authorize :
      Config → ExecuteEnvelope → List Bytes → Option Resolver → Result PolicyRule LaunchPlan
  authorize configuration envelope safe_base_environment optional_resolver = do
    map_err invalid_installation_config (validate lib configuration)
    map_err invalid_execute_envelope (validate_execute_envelope lib encode envelope)
    resolver ← or_deny_plan resolver_required optional_resolver
    require
        (request_path_matches_platform configuration.platform
          envelope.accepted_request.request.working_directory)
        platform_mismatch
    executable ←
        or_deny_plan shell_not_configured
          (configured_shell (items configuration.shells) envelope.accepted_request.request.shell)
    resolution ← or_deny_plan resolution_denied (
        resolver configuration.platform envelope.accepted_request.request.working_directory
          (items configuration.approved_roots))
    validate_resolution configuration envelope.accepted_request.request.working_directory resolution
    environment ←
        map_err construction_failed
          (build lib configuration safe_base_environment (context_of envelope))
    ok (plan_of configuration envelope executable resolution environment)
