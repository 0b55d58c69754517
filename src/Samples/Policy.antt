-- ===== src/Samples/Policy.antt =====
-- An installation, and what it authorizes.
use agent_workstation_gatewa.Base.{All, ◌≡◌, refl, List, [], ◌∷◌, some, ok}
use agent_workstation_gatewa.Text.{
  Bytes, codes, bytes_eq, has_prefix, ends_with, contains_byte, extend, split, join, trim_prefix,
  utf8_valid,
}
use agent_workstation_gatewa.PlatformPath.{
  linux, is_one_of, is_non_canonical, has_control_character, validate_segments, validate_linux,
  validate_absolute, is_filesystem_root, equal, contains, overlaps,
}
use agent_workstation_gatewa.Protocol.Types.{Shell}
use agent_workstation_gatewa.Protocol.Fields.{matches_identifier, all_bytes}
use agent_workstation_gatewa.InstallConfig.{
  Capability, Config, matches_principal_name, matches_account, is_bad_account, validate_principal,
  shell_text, is_platform_shell, validate_each_capability, validate_capabilities, principals_equal,
  validate_non_root_path, validate_protected_tool_path, validate_each_root, validate_roots,
  validate_each_shell, validate_shells, validate_each_entry, validate_path_entries, validate,
}
use agent_workstation_gatewa.InstallConfig.Accepts.{IsSeparated, validate-IsSeparated}
use agent_workstation_gatewa.BrokerProto.{Operation, ExecuteEnvelope, validate_execute_envelope}
use agent_workstation_gatewa.WorkloadEnv.Allowed.{IsAllowedEntry, build-IsAllowedEntry}
use agent_workstation_gatewa.WorkloadEnv.{
  Context, value_of, set, cut, validate_safe_base_value, canonical_name, add_entry,
  project_safe_base, set_gateway_values, sorted_environment, build,
}
use agent_workstation_gatewa.ExecutionPolicy.{
  Resolver, LaunchPlan, request_path_matches_platform, configured_shell, validate_resolution,
  plan_of, authorize,
}
use agent_workstation_gatewa.ExecutionPolicy.Confined.{IsConfined, authorize-IsConfined}
use agent_workstation_gatewa.Samples.Records.{tally, braces, accepted, record_accepted}

abbrev pub config : Config
config = record {
  config_version = 1;
  platform = linux;
  control_identity = record {
    name = codes "control";
    identifier = codes "uid:990";
    primary_group_identifier = codes "gid:990";
  };
  execution_identity = record {
    name = codes "agent";
    identifier = codes "uid:991";
    primary_group_identifier = codes "gid:991";
  };
  approved_roots = some (codes "/srv" ∷ []);
  shells = some (record { shell = Shell.bash; executable = codes "/bin/bash" } ∷ []);
  profile_root = codes "/var/p";
  temp_root = codes "/var/t";
  path_entries = some (codes "/bin" ∷ []);
  capabilities = some (Capability.docker ∷ []);
}

config_valid : validate tally config ≡ ok tt
unfolding validate validate_principal matches_principal_name matches_identifier all_bytes
    matches_account is_bad_account principals_equal validate_roots validate_non_root_path
    validate_absolute validate_linux validate_segments is_filesystem_root equal contains overlaps
    validate_each_root validate_shells validate_each_shell is_platform_shell shell_text
    validate_protected_tool_path validate_path_entries validate_each_entry validate_capabilities
    validate_each_capability is_one_of is_non_canonical has_control_character utf8_valid has_prefix
    ends_with contains_byte split extend trim_prefix bytes_eq
config_valid = refl

validate-IsSeparated_example : IsSeparated tally config
validate-IsSeparated_example = validate-IsSeparated tally config config_valid

abbrev pub envelope : ExecuteEnvelope
envelope = record {
  protocol_version = 1;
  operation = Operation.execute;
  attempt_id = codes "a-1";
  accepted_request = accepted;
}

-- Takes the folder for what it says, below `/srv`.
abbrev pub resolver : Resolver
resolver p requested roots = some (record {
  requested_path = requested;
  working_directory = requested;
  approved_root = codes "/srv";
})

abbrev environment : List Bytes
environment =
    codes "AWG_ATTEMPT_ID=a-1"
    ∷ codes "AWG_REQUEST_ID=r-1"
    ∷ codes "AWG_SESSION_ID=s-1"
    ∷ codes "HOME=/var/p"
    ∷ codes "LANG=C"
    ∷ codes "LOGNAME=agent"
    ∷ codes "PATH=/bin"
    ∷ codes "TMPDIR=/var/t"
    ∷ codes "USER=agent"
    ∷ []

abbrev pub plan : LaunchPlan
plan =
    plan_of tally braces config envelope (codes "/bin/bash")
      (record {
        requested_path = codes "/srv/work";
        working_directory = codes "/srv/work";
        approved_root = codes "/srv";
      })
      environment

built :
    build tally config
      (codes "LANG=C" ∷ codes "SECRET=x" ∷ [])
      (record { request_id = codes "r-1"; session_id = codes "s-1"; attempt_id = codes "a-1" })
    ≡ ok environment
unfolding build project_safe_base add_entry cut canonical_name value_of set validate_safe_base_value
    set_gateway_values sorted_environment validate validate_principal matches_principal_name
    matches_identifier all_bytes matches_account is_bad_account principals_equal validate_roots
    validate_non_root_path validate_absolute validate_linux validate_segments is_filesystem_root
    equal contains overlaps validate_each_root validate_shells validate_each_shell is_platform_shell
    shell_text validate_protected_tool_path validate_path_entries validate_each_entry
    validate_capabilities validate_each_capability is_one_of is_non_canonical has_control_character
    utf8_valid has_prefix ends_with contains_byte split extend join trim_prefix bytes_eq
built = refl

pub envelope_valid : validate_execute_envelope tally braces envelope ≡ ok tt
unfolding validate_execute_envelope matches_identifier all_bytes
envelope_valid = rw record_accepted

pub authorized :
    authorize tally braces config envelope (codes "LANG=C" ∷ codes "SECRET=x" ∷ []) (some resolver)
    ≡ ok plan
unfolding authorize request_path_matches_platform configured_shell shell_text validate_resolution
    validate_absolute validate_linux validate_segments is_non_canonical has_control_character
    utf8_valid equal contains has_prefix ends_with contains_byte split extend trim_prefix bytes_eq
authorized = rw (config_valid, envelope_valid, built)

authorize-IsConfined_example : IsConfined tally braces config envelope plan
authorize-IsConfined_example =
    authorize-IsConfined tally braces config envelope (codes "LANG=C" ∷ codes "SECRET=x" ∷ [])
      (some resolver) refl authorized

abbrev context : Context
context = record { request_id = codes "r-1"; session_id = codes "s-1"; attempt_id = codes "a-1" }

build-IsAllowedEntry_example : All (IsAllowedEntry tally config context) environment
build-IsAllowedEntry_example =
    build-IsAllowedEntry tally config context (codes "LANG=C" ∷ codes "SECRET=x" ∷ []) refl built
