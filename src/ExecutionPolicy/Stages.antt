-- ===== src/ExecutionPolicy/Stages.antt =====
-- What an authorization that ends well has passed through.
use agent_workstation_gatewa.Base.{
  ◌≡◌, not, List, ok, >>=-eq-ok, >>-eq-ok, reject->>, require->>, map_err, map_err-eq-ok, ◌==◌,
  Option, none, some,
}
use agent_workstation_gatewa.Text.{Bytes}
use agent_workstation_gatewa.Library.{Library}
use agent_workstation_gatewa.Protocol.Types.{items, Request}
use agent_workstation_gatewa.Protocol.Records.{validate_accepted_request_record}
use agent_workstation_gatewa.BrokerProto.{
  ExecuteEnvelope, current_version, is_execute_operation, validate_execute_envelope,
}
use agent_workstation_gatewa.InstallConfig.{Config, validate}
use agent_workstation_gatewa.WorkloadEnv.{build}
use agent_workstation_gatewa.ExecutionPolicy.{
  Resolution, Resolver, LaunchPlan, PolicyRule, request_path_matches_platform, configured_shell,
  or_deny_plan, validate_resolution, context_of, plan_of, authorize,
}

pub or_deny_plan-eq-ok :
    {A : Type 0} (rule : PolicyRule) (x : Option A) {a : A}
    → or_deny_plan rule x ≡ ok a
    → x ≡ some a
or_deny_plan-eq-ok rule none h = cc
or_deny_plan-eq-ok rule (some y) h = cc

module _ (lib : Library) (encode : Request → Option Bytes) where
  pub record Stages (c : Config) (envelope : ExecuteEnvelope) (base : List Bytes)
      (plan : LaunchPlan) : Type 0 where
    pub configured : validate lib c ≡ ok tt
    pub enveloped : validate_execute_envelope lib encode envelope ≡ ok tt
    pub executable : Bytes
    pub resolution : Resolution
    pub environment : List Bytes
    pub bound :
        configured_shell (items c.shells) envelope.accepted_request.request.shell ≡ some executable
    pub resolved :
        validate_resolution lib encode c envelope.accepted_request.request.working_directory
          resolution
        ≡ ok tt
    pub built : build lib c base (context_of lib encode envelope) ≡ ok environment
    pub planned : plan_of lib encode c envelope executable resolution environment ≡ plan

  pub authorize-Stages :
      (c : Config) (envelope : ExecuteEnvelope) (base : List Bytes)
      (optional_resolver : Option Resolver) {plan : LaunchPlan}
      → authorize lib encode c envelope base optional_resolver ≡ ok plan
      → Stages c envelope base plan
  unfolding authorize
  authorize-Stages c envelope base resolver {plan} h =
      let request = envelope.accepted_request.request in
      let (a, h1) = (>>-eq-ok (map_err _ (validate lib c)) _).0 h in
      let (b, h2) = (>>-eq-ok (map_err _ (validate_execute_envelope lib encode envelope)) _).0 h1 in
      let (resolve, _, h3) = >>=-eq-ok (or_deny_plan _ resolver) _ h2 in
      let (_, h4) =
        (require->> (request_path_matches_platform c.platform request.working_directory) _ _).0
          h3 in
      let (executable, d, h5) =
        >>=-eq-ok (or_deny_plan _ (configured_shell (items c.shells) request.shell)) _ h4 in
      let (resolution, _, h6) =
        >>=-eq-ok
          (or_deny_plan _ (resolve c.platform request.working_directory (items c.approved_roots))) _
          h5 in
      let (e, h7) =
        (>>-eq-ok (validate_resolution lib encode c request.working_directory resolution) _).0 h6 in
      let (environment, f, h8) =
        >>=-eq-ok (map_err _ (build lib c base (context_of lib encode envelope))) _ h7 in
      record {
        configured = map_err-eq-ok _ (validate lib c) a;
        enveloped = map_err-eq-ok _ (validate_execute_envelope lib encode envelope) b;
        executable = executable;
        resolution = resolution;
        environment = environment;
        bound = or_deny_plan-eq-ok _ _ d;
        resolved = e;
        built = map_err-eq-ok _ (build lib c base (context_of lib encode envelope)) f;
        planned = cc;
      }

  -- The accepted record of an envelope that is let through is let through.
  pub validate_execute_envelope-accepted :
      (envelope : ExecuteEnvelope)
      → validate_execute_envelope lib encode envelope ≡ ok tt
      → validate_accepted_request_record lib encode envelope.accepted_request ≡ ok tt
  unfolding validate_execute_envelope
  validate_execute_envelope-accepted envelope h =
      let (_, h1) = (reject->> (not (envelope.protocol_version == current_version)) _ _).0 h in
      let (_, h2) = (reject->> (not (is_execute_operation envelope.operation)) _ _).0 h1 in
      let (_, h3) = (reject->> _ _ _).0 h2 in
      map_err-eq-ok _ (validate_accepted_request_record lib encode envelope.accepted_request) h3
