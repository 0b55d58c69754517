-- ===== src/InstallConfig/Accepts.antt =====
-- What a configuration that `Validate` lets through guarantees.
use agent_workstation_gatewa.Base.{
  ◌≡◌, refl, Bool, true, false, not, ◌||◌, List, [], ◌∷◌, Result, ok, ◌>>◌, >>-eq-ok, map_err,
  map_err-eq-ok, ◌==◌, All, All-map, arith,
}
use agent_workstation_gatewa.Text.{Bytes}
use agent_workstation_gatewa.Library.{Library}
use agent_workstation_gatewa.PlatformPath.{
  is_one_of, validate_absolute, is_filesystem_root, equal, contains, overlaps,
}
use agent_workstation_gatewa.Protocol.Types.{items}
use agent_workstation_gatewa.InstallConfig.{
  ShellBinding, Config, ConfigError, current_version, max_approved_roots, max_shells,
  max_path_entries, refuse, validate_principal, shell_text, is_platform_shell, is_bad_length,
  is_supported_platform, any_of, principals_equal, validate_non_root_path,
  validate_protected_tool_path, validate_each_root, validate_roots, validate_each_shell,
  validate_shells, validate_each_entry, validate_path_entries, validate,
}

pub refuse->> :
    {B : Type 0} (b : Bool) (f r : _) (k : Result ConfigError B) {x : B}
    → ((refuse b f r >> k) ≡ ok x)
    → ((b ≡ false) × (k ≡ ok x))
refuse->> true f r k h = cc
refuse->> false f r k h = (refl, h)

pub refuse-eq-ok : (b : Bool) (f r : _) → refuse b f r ≡ ok tt → b ≡ false
refuse-eq-ok true f r h = cc
refuse-eq-ok false f r h = refl

module _ (lib : Library) where
  pub any_of-false :
      {A : Type 0} (p : A → Bool) (xs : List A)
      → any_of lib p xs ≡ false
      → All (λ x. p x ≡ false) xs
  any_of-false p [] h = tt
  any_of-false p (x ∷ xs) h = (ground arith, any_of-false p xs (ground arith))

  module _ (configuration : Config) where
    -- An absolute path that is not the root of a file system.
    pub record IsFolder (value : Bytes) : Type 0 where
      pub absolute : validate_absolute configuration.platform value ≡ ok tt
      pub below : is_filesystem_root configuration.platform value ≡ false

    -- A path outside every approved root.
    pub record IsTool (value : Bytes) : Type 0 where
      pub folder : IsFolder value
      pub outside :
          All
            (λ r. contains lib configuration.platform r value ≡ false)
            (items configuration.approved_roots)

    -- An approved root, apart from what the execution account keeps.
    pub record IsRoot (value : Bytes) : Type 0 where
      pub folder : IsFolder value
      pub off_profile : overlaps lib configuration.platform value configuration.profile_root ≡ false
      pub off_temp : overlaps lib configuration.platform value configuration.temp_root ≡ false

    abbrev pub Apart : List Bytes → Type 0
    Apart [] = Unit
    Apart (x ∷ xs) = All (λ y. overlaps lib configuration.platform y x ≡ false) xs × Apart xs

    validate_non_root_path-IsFolder :
        (field : _) (value : Bytes)
        → validate_non_root_path lib field configuration.platform value ≡ ok tt
        → IsFolder value
    unfolding validate_non_root_path
    validate_non_root_path-IsFolder field value h =
        let (a, k) =
          (>>-eq-ok (map_err _ (validate_absolute configuration.platform value)) _).0 h in
        record {
          absolute = map_err-eq-ok _ (validate_absolute configuration.platform value) a;
          below = refuse-eq-ok (is_filesystem_root configuration.platform value) _ _ k;
        }

    validate_protected_tool_path-IsTool :
        (field : _) (value : Bytes)
        → validate_protected_tool_path lib configuration field value ≡ ok tt
        → IsTool value
    unfolding validate_protected_tool_path
    validate_protected_tool_path-IsTool field value h =
        let p : Bytes → Bool = λ r. contains lib configuration.platform r value in
        let (a, k) =
          (>>-eq-ok (validate_non_root_path lib field configuration.platform value) _).0 h in
        record {
          folder = validate_non_root_path-IsFolder field value a;
          outside =
              any_of-false p _
                (refuse-eq-ok (any_of lib p (items configuration.approved_roots)) _ _ k);
        }

    record RootsSeen (earlier later : List Bytes) : Type 0 where
      valid : All IsRoot later
      apart : Apart later
      away : All (λ y. All (λ x. overlaps lib configuration.platform y x ≡ false) earlier) later

    or_false : (a b : Bool) → (a || b) ≡ false → (a ≡ false) × (b ≡ false)
    or_false a b h = ground arith

    validate_each_root-RootsSeen :
        (earlier later : List Bytes)
        → validate_each_root lib configuration earlier later ≡ ok tt
        → RootsSeen earlier later
    unfolding validate_each_root
    validate_each_root-RootsSeen earlier [] h = record { valid = tt; apart = tt; away = tt }
    validate_each_root-RootsSeen earlier (r ∷ later) h =
        let platform = configuration.platform in
        let away_from : Bytes → Bytes → Type 0 = λ y x. overlaps lib platform y x ≡ false in
        let (a, k) = (>>-eq-ok (validate_non_root_path lib "approved_roots" platform r) _).0 h in
        let (b, l) =
          refuse->>
            (overlaps lib platform r configuration.profile_root
              || overlaps lib platform r configuration.temp_root)
            _ _ _ k in
        let (c, m) = refuse->> (any_of lib (overlaps lib platform r) earlier) _ _ _ l in
        let rest = validate_each_root-RootsSeen (r ∷ earlier) later m in
        let (x, y) = or_false (overlaps lib platform r configuration.profile_root) _ b in
        record {
          valid = (
            record {
              folder = validate_non_root_path-IsFolder _ r a;
              off_profile = x;
              off_temp = y;
            },
            rest.valid,
          );
          apart = (
            All-map (λ y. All (away_from y) (r ∷ earlier)) (λ y. away_from y r) later (λ y d. d.0)
                rest.away,
            rest.apart,
          );
          away = (
            any_of-false (overlaps lib platform r) earlier c,
            All-map (λ y. All (away_from y) (r ∷ earlier)) (λ y. All (away_from y) earlier) later
                (λ y d. d.1) rest.away,
          );
        }

    validate_each_shell-IsTool :
        (shells executables : List Bytes) (bindings : List ShellBinding)
        → validate_each_shell lib configuration shells executables bindings ≡ ok tt
        → All
            (λ b. IsTool b.executable × (is_platform_shell configuration.platform b.shell ≡ true))
            bindings
    unfolding validate_each_shell
    validate_each_shell-IsTool shells executables [] h = tt
    validate_each_shell-IsTool shells executables (b ∷ bindings) h =
        let (a, k) = refuse->> (not (is_platform_shell configuration.platform b.shell)) _ _ _ h in
        let (_, l) = refuse->> (is_one_of shells (shell_text b.shell)) _ _ _ k in
        let (c, m) =
          (>>-eq-ok
              (validate_protected_tool_path lib configuration "shells.executable" b.executable) _).0
            l in
        let (_, n) =
          refuse->> (any_of lib (λ e. equal lib configuration.platform e b.executable) executables)
            _ _ _ m in
        (
          (validate_protected_tool_path-IsTool _ b.executable c, ground arith),
          validate_each_shell-IsTool (shell_text b.shell ∷ shells) (b.executable ∷ executables)
              bindings n,
        )

    validate_each_entry-IsTool :
        (earlier later : List Bytes)
        → validate_each_entry lib configuration earlier later ≡ ok tt
        → All IsTool later
    unfolding validate_each_entry
    validate_each_entry-IsTool earlier [] h = tt
    validate_each_entry-IsTool earlier (entry ∷ later) h =
        let (a, k) =
          (>>-eq-ok (validate_protected_tool_path lib configuration "path_entries" entry) _).0 h in
        let (_, l) =
          refuse->> (any_of lib (equal lib configuration.platform entry) earlier) _ _ _ k in
        (
          validate_protected_tool_path-IsTool _ entry a,
          validate_each_entry-IsTool (entry ∷ earlier) later l,
        )

    -- An installation that keeps accounts, roots and tools apart.
    pub record IsSeparated : Type 0 where
      pub accounts_differ :
          principals_equal lib configuration.platform configuration.control_identity
            configuration.execution_identity
          ≡ false
      pub profile_folder : IsFolder configuration.profile_root
      pub temp_folder : IsFolder configuration.temp_root
      pub roots : All IsRoot (items configuration.approved_roots)
      pub roots_apart : Apart (items configuration.approved_roots)
      pub shells :
          All
            (λ b. IsTool b.executable × (is_platform_shell configuration.platform b.shell ≡ true))
            (items configuration.shells)
      pub entries : All IsTool (items configuration.path_entries)

    -- A configuration that `Validate` lets through runs commands under another account than the
    -- control service's; no approved root overlaps another one, the profile or the folder for
    -- temporary files; and every shell is one of the platform's, whose executable, like every entry
    -- of the search path, is an absolute path outside all approved roots.
    pub validate-IsSeparated : validate lib configuration ≡ ok tt → IsSeparated
    unfolding validate validate_roots validate_shells validate_path_entries
    validate-IsSeparated h =
        let c = configuration in
        let (_, h1) = refuse->> (not (c.config_version == current_version)) _ _ _ h in
        let (_, h2) = refuse->> (not (is_supported_platform c.platform)) _ _ _ h1 in
        let (_, h3) =
          (>>-eq-ok (validate_principal "control_identity" c.platform c.control_identity) _).0 h2 in
        let (_, h4) =
          (>>-eq-ok (validate_principal "execution_identity" c.platform c.execution_identity) _).0
            h3 in
        let (a, h5) =
          refuse->> (principals_equal lib c.platform c.control_identity c.execution_identity) _ _ _
            h4 in
        let (r, h6) = (>>-eq-ok (validate_roots lib c) _).0 h5 in
        let (s, h7) = (>>-eq-ok (validate_shells lib c) _).0 h6 in
        let (p, _) = (>>-eq-ok (validate_path_entries lib c) _).0 h7 in
        let (_, r1) = refuse->> (is_bad_length max_approved_roots c.approved_roots) _ _ _ r in
        let (b, r2) =
          (>>-eq-ok (validate_non_root_path lib "profile_root" c.platform c.profile_root) _).0 r1 in
        let (d, r3) =
          (>>-eq-ok (validate_non_root_path lib "temp_root" c.platform c.temp_root) _).0 r2 in
        let (_, r4) = refuse->> (equal lib c.platform c.profile_root c.temp_root) _ _ _ r3 in
        let (_, s1) = refuse->> (is_bad_length max_shells c.shells) _ _ _ s in
        let (_, p1) = refuse->> (is_bad_length max_path_entries c.path_entries) _ _ _ p in
        let seen = validate_each_root-RootsSeen [] (items c.approved_roots) r4 in
        record {
          accounts_differ = a;
          profile_folder = validate_non_root_path-IsFolder _ c.profile_root b;
          temp_folder = validate_non_root_path-IsFolder _ c.temp_root d;
          roots = seen.valid;
          roots_apart = seen.apart;
          shells = validate_each_shell-IsTool [] [] (items c.shells) s1;
          entries = validate_each_entry-IsTool [] (items c.path_entries) p1;
        }
