-- ===== src/ExecutionPolicy/Confined.antt =====
-- What a launch plan is confined to on Linux.
use agent_workstation_gatewa.Base.{
  not-false, ◌≡◌, ◌≢◌, refl, ap, ◌∙◌, subst, ◌⊎◌, inl, inr, true, false, not, List, [], ◌∷◌, ◌++◌,
  append_assoc, ok, >>-eq-ok, reject->>, reject-eq-ok, map_err, map_err-eq-ok, Bool-cases, All,
  Option, some, arith,
}
use agent_workstation_gatewa.Text.{Bytes, bytes_eq, bytes_eq_iff, bytes_eq-false_iff}
use agent_workstation_gatewa.Library.{Library}
use agent_workstation_gatewa.PlatformPath.{Platform, linux, validate_absolute, equal, contains}
use agent_workstation_gatewa.PlatformPath.Linux.{IsLinuxPath, validate_absolute_iff}
use agent_workstation_gatewa.PlatformPath.Contains.{path_segments, Leads, contains_iff}
use agent_workstation_gatewa.Protocol.Types.{items, Shell, Request}
use agent_workstation_gatewa.Protocol.Records.Binding.{
  IsAccepted, validate_accepted_request_record-IsAccepted,
}
use agent_workstation_gatewa.BrokerProto.{ExecuteEnvelope}
use agent_workstation_gatewa.InstallConfig.{
  Principal, ShellBinding, Config, any_of, shell_text, is_platform_shell, principals_equal,
}
use agent_workstation_gatewa.InstallConfig.Accepts.{IsTool, validate-IsSeparated}
use agent_workstation_gatewa.ExecutionPolicy.Stages.{
  authorize-Stages, validate_execute_envelope-accepted,
}
use agent_workstation_gatewa.ExecutionPolicy.{
  Resolution, Resolver, LaunchPlan, configured_shell, validate_resolution, authorize,
}

abbrev pub Among : List Bytes → Bytes → Type 0
Among [] a = ⊥
Among (x ∷ xs) a = (x ≡ a) ⊎ Among xs a

-- The shell is bound to the executable.
abbrev pub Binds : List ShellBinding → Shell → Bytes → Type 0
Binds [] shell executable = ⊥
Binds (b ∷ bs) shell executable =
    ((shell_text b.shell ≡ shell_text shell) × (b.executable ≡ executable))
    ⊎ Binds bs shell executable

configured_shell-Binds :
    (bs : List ShellBinding) (shell : Shell) {executable : Bytes}
    → configured_shell bs shell ≡ some executable
    → Binds bs shell executable
unfolding configured_shell
configured_shell-Binds [] shell h = cc
configured_shell-Binds (b ∷ bs) shell h =
    elim (Bool-cases (bytes_eq (shell_text b.shell) (shell_text shell))) [
      | inl e ↦
          let same : some b.executable ≡ some _ = rw e at h in
          inl ((bytes_eq_iff (shell_text b.shell) (shell_text shell)).0 e, cc (same))
      | inr e ↦ inr (configured_shell-Binds bs shell (rw e at h))
    ]

-- Names that lead on from names that lead on.
Leads-trans : (a b c : Bytes) → Leads a b → Leads b c → Leads a c
Leads-trans a b c (us, e) (vs, f) =
    (us ++ vs, f ∙ ap (λ l. l ++ vs) e ∙ append_assoc (path_segments a) us vs)

module _ (lib : Library) (encode : Request → Option Bytes) where
  any_equal-Among :
      (xs : List Bytes) (a : Bytes) → any_of lib (λ r. equal lib linux r a) xs ≡ true → Among xs a
  unfolding equal
  any_equal-Among [] a h = cc
  any_equal-Among (x ∷ xs) a h = elim (Bool-cases (bytes_eq x a)) [
    | inl e ↦ inl ((bytes_eq_iff x a).0 e)
    | inr e ↦ inr (any_equal-Among xs a (ground arith))
  ]

  Among-All : (P : Bytes → Type 0) (xs : List Bytes) (a : Bytes) → Among xs a → All P xs → P a
  Among-All P [] a m h = absurd m
  Among-All P (x ∷ xs) a (inl e) h = subst P e (h.0)
  Among-All P (x ∷ xs) a (inr m) h = Among-All P xs a m (h.1)

  Binds-All :
      (P : Bytes → Type 0) (Q : ShellBinding → Type 0) (bs : List ShellBinding) (shell : Shell)
      (e : Bytes)
      → Binds bs shell e
      → All (λ b. P b.executable × Q b) bs
      → P e
  Binds-All P Q [] shell e m h = absurd m
  Binds-All P Q (b ∷ bs) shell e (inl (_, k)) h = subst P k ((h.0).0)
  Binds-All P Q (b ∷ bs) shell e (inr m) h = Binds-All P Q bs shell e m (h.1)

  -- A resolved folder on Linux.
  record IsResolved (roots : List Bytes) (resolution : Resolution) : Type 0 where
    place : IsLinuxPath resolution.working_directory
    start : IsLinuxPath resolution.approved_root
    approved : Among roots resolution.approved_root
    inside : Leads resolution.approved_root resolution.working_directory

  validate_resolution-IsResolved :
      (c : Config) (requested : Bytes) (resolution : Resolution)
      → c.platform ≡ linux
      → validate_resolution lib encode c requested resolution ≡ ok tt
      → IsResolved (items c.approved_roots) resolution
  unfolding validate_resolution
  validate_resolution-IsResolved c requested resolution on_linux h =
      let wd = resolution.working_directory in
      let r = resolution.approved_root in
      let (_, h1) = (reject->> (not (bytes_eq resolution.requested_path requested)) _ _).0 h in
      let (a, h2) = (>>-eq-ok (map_err _ (validate_absolute c.platform wd)) _).0 h1 in
      let (b, h3) = (>>-eq-ok (map_err _ (validate_absolute c.platform r)) _).0 h2 in
      let (d, h4) =
        (reject->> (not (any_of lib (λ x. equal lib c.platform x r) (items c.approved_roots))) _
            _).0
          h3 in
      let e = (reject-eq-ok (not (contains lib c.platform r wd)) _).0 h4 in
      let place = (validate_absolute_iff wd).0 (
        subst (λ p. validate_absolute p wd ≡ ok tt) on_linux
          (map_err-eq-ok _ (validate_absolute c.platform wd) a)) in
      let start = (validate_absolute_iff r).0 (
        subst (λ p. validate_absolute p r ≡ ok tt) on_linux
          (map_err-eq-ok _ (validate_absolute c.platform r) b)) in
      record {
        place = place;
        start = start;
        approved = any_equal-Among (items c.approved_roots) r (
            subst (λ p. any_of lib (λ x. equal lib p x r) (items c.approved_roots) ≡ true) on_linux
              (not-false _ d));
        inside =
            (contains_iff lib r wd start.form place.form).0
              (subst (λ p. contains lib p r wd ≡ true) on_linux (not-false _ e));
      }

  -- What a launch plan keeps to.
  pub record IsConfined (c : Config) (envelope : ExecuteEnvelope) (plan : LaunchPlan) : Type 0 where
    pub accepted : IsAccepted lib encode envelope.accepted_request
    pub same_script : plan.script ≡ envelope.accepted_request.request.script
    pub same_digest : plan.request_digest ≡ envelope.accepted_request.request_digest
    pub runs_as : plan.execution_identity ≡ c.execution_identity
    pub not_control : c.control_identity.identifier ≢ plan.execution_identity.identifier
    pub root_canonical : IsLinuxPath plan.approved_root
    pub folder_canonical : IsLinuxPath plan.working_directory
    pub root_approved : Among (items c.approved_roots) plan.approved_root
    pub inside : Leads plan.approved_root plan.working_directory
    pub shell_bound : Binds (items c.shells) plan.shell plan.executable
    pub executable_outside : Leads plan.working_directory plan.executable → ⊥

  tool_outside :
      (c : Config) (resolution : Resolution) (executable : Bytes)
      → c.platform ≡ linux
      → IsResolved (items c.approved_roots) resolution
      → IsTool lib c executable
      → Leads resolution.working_directory executable
      → ⊥
  tool_outside c resolution executable on_linux resolved tool leads =
      let form =
        ((validate_absolute_iff executable).0 (
          subst (λ p. validate_absolute p executable ≡ ok tt) on_linux
            tool.folder.absolute)).form in
      let through =
        Leads-trans resolution.approved_root resolution.working_directory executable resolved.inside
          leads in
      let held : contains lib linux resolution.approved_root executable ≡ true =
        (contains_iff lib resolution.approved_root executable resolved.start.form form).1 through in
      let free : contains lib linux resolution.approved_root executable ≡ false =
        subst (λ p. contains lib p resolution.approved_root executable ≡ false) on_linux
          (Among-All (λ r. contains lib c.platform r executable ≡ false) (items c.approved_roots)
            resolution.approved_root resolved.approved tool.outside) in
      cc (held, free)

  accounts_lem :
      (p : Platform) (x y : Principal)
      → p ≡ linux
      → principals_equal lib p x y ≡ false
      → x.identifier ≢ y.identifier
  unfolding principals_equal
  accounts_lem p x y e h =
      (bytes_eq-false_iff x.identifier y.identifier).0
        (subst (λ q. principals_equal lib q x y ≡ false) e h)

  -- On Linux, whatever the resolver answers, a plan that `Authorize` returns runs the script of a
  -- well-formed accepted request under the execution account, which is not the control account, in
  -- a folder at or below a configured root, where both are canonical absolute paths without `.` and
  -- `..`, and with the executable that the configuration binds to the shell, which does not lie in
  -- that folder.
  pub authorize-IsConfined :
      (c : Config) (envelope : ExecuteEnvelope) (safe_base_environment : List Bytes)
      (optional_resolver : Option Resolver) {plan : LaunchPlan}
      → c.platform ≡ linux
      → authorize lib encode c envelope safe_base_environment optional_resolver ≡ ok plan
      → IsConfined c envelope plan
  authorize-IsConfined c envelope base resolver {plan} on_linux h =
      let request = envelope.accepted_request.request in
      let stages = authorize-Stages lib encode c envelope base resolver h in
      let separated = validate-IsSeparated lib c stages.configured in
      let resolved =
        validate_resolution-IsResolved c request.working_directory stages.resolution on_linux
          stages.resolved in
      let bound = configured_shell-Binds (items c.shells) request.shell stages.bound in
      let tool =
        Binds-All (IsTool lib c) (λ x. is_platform_shell c.platform x.shell ≡ true) (items c.shells)
          request.shell stages.executable bound separated.shells in
      subst (IsConfined c envelope) stages.planned (record {
        accepted =
            validate_accepted_request_record-IsAccepted lib encode envelope.accepted_request
              (validate_execute_envelope-accepted lib encode envelope stages.enveloped);
        same_script = refl;
        same_digest = refl;
        runs_as = refl;
        not_control =
            accounts_lem c.platform c.control_identity c.execution_identity on_linux
              separated.accounts_differ;
        root_canonical = resolved.start;
        folder_canonical = resolved.place;
        root_approved = resolved.approved;
        inside = resolved.inside;
        shell_bound = bound;
        executable_outside =
            tool_outside c stages.resolution stages.executable on_linux resolved tool;
      })
