-- ===== src/WorkloadEnv/Allowed.antt =====
-- Which variables the environment of a command can hold on Linux.
use agent_workstation_gatewa.Base.{
  ◌≡◌, refl, sym, subst, ◌⊎◌, inl, inr, not, ◌||◌, List, [], ◌∷◌, ◌++◌, map, ok, >>=-eq-ok,
  >>-eq-ok, reject->>, map_err, ltb, ◌==◌, Bool-cases, length, All, Option, none, some,
}
use agent_workstation_gatewa.Text.{Bytes, codes, bytes_eq, bytes_eq_iff, contains_byte, join}
use agent_workstation_gatewa.Library.{Library}
use agent_workstation_gatewa.PlatformPath.{Platform, linux, is_one_of}
use agent_workstation_gatewa.Protocol.Types.{items}
use agent_workstation_gatewa.Protocol.Fields.{matches_identifier}
use agent_workstation_gatewa.InstallConfig.{Config, validate}
use agent_workstation_gatewa.WorkloadEnv.{
  Context, Variables, max_base_entries, max_entry_bytes, linux_safe_base_names, value_of, set, cut,
  validate_safe_base_value, seen_name, canonical_name, add_allowed, add_cut, add_entry,
  project_safe_base, set_identity, path_separator, set_gateway_values, is_before, insert, sorted,
  sorted_environment, check_platform, build,
}

abbrev pub In : Variables → (Bytes × Bytes) → Type 0
In [] x = ⊥
In (y ∷ ys) x = (y ≡ x) ⊎ In ys x

-- What the gateway itself sets on Linux.
abbrev pub gateway_variables : Config → Context → Variables
gateway_variables c context =
    (codes "HOME", c.profile_root)
    ∷ (codes "TMPDIR", c.temp_root)
    ∷ (codes "USER", c.execution_identity.name)
    ∷ (codes "LOGNAME", c.execution_identity.name)
    ∷ (codes "PATH", join b':' (items c.path_entries))
    ∷ (codes "AWG_REQUEST_ID", context.request_id)
    ∷ (codes "AWG_SESSION_ID", context.session_id)
    ∷ (codes "AWG_ATTEMPT_ID", context.attempt_id)
    ∷ []

-- A variable of the gateway's own, or one of the allowed names with a value that passed its check.
pub data IsAllowed (c : Config) (context : Context) (x : Bytes × Bytes) : Type 0 where
  given : In (gateway_variables c context) x → IsAllowed c context x
  checked :
      (asked : Bytes)
      → value_of linux_safe_base_names asked ≡ some (x.0)
      → validate_safe_base_value linux (x.0) (x.1) ≡ ok tt
      → IsAllowed c context x

module _ (P : Bytes × Bytes → Type 0) where
  set-All :
      (env : Variables) (name value : Bytes)
      → All P env
      → P (name, value)
      → All P (set env name value)
  unfolding set
  set-All [] name value h k = (k, tt)
  set-All ((n, v) ∷ rest) name value h k = elim (Bool-cases (bytes_eq n name)) [
    | inl e ↦
        let same : name ≡ n = sym ((bytes_eq_iff n name).0 e) in
        rw e (subst (λ m. P (m, value)) same k, h.1)
    | inr e ↦ rw e (h.0, set-All rest name value (h.1) k)
  ]

module _ (lib : Library) where
  insert-All :
      (P : Bytes × Bytes → Type 0) (p : Platform) (x : Bytes × Bytes) (env : Variables)
      → P x
      → All P env
      → All P (insert lib p x env)
  unfolding insert
  insert-All P p x [] k h = (k, tt)
  insert-All P p x (y ∷ ys) k h =
      elim (Bool-cases (is_before lib (seen_name lib p (y.0)) (seen_name lib p (x.0)))) [
        | inl e ↦ rw e (h.0, insert-All P p x ys k (h.1))
        | inr e ↦ rw e (k, h)
      ]

  sorted-All :
      (P : Bytes × Bytes → Type 0) (p : Platform) (env : Variables)
      → All P env
      → All P (sorted lib p env)
  unfolding sorted
  sorted-All P p [] h = tt
  sorted-All P p (x ∷ env) h = insert-All P p x (sorted lib p env) (h.0) (sorted-All P p env (h.1))

  module _ (c : Config) (context : Context) where
    Allowed : Variables → Type 0
    Allowed env = All (IsAllowed c context) env

    add_allowed-Allowed :
        (seen : List Bytes) (projected : Variables) (asked value : Bytes) (x : Option Bytes)
        → value_of linux_safe_base_names asked ≡ x
        → Allowed projected
        → {seen' : List Bytes} {projected' : Variables}
        → add_allowed lib linux seen projected value x ≡ ok (seen', projected')
        → Allowed projected'
    unfolding add_allowed Allowed
    add_allowed-Allowed seen projected asked value none e a {projected' = after} h =
        let same : projected ≡ after = cc in subst (All (IsAllowed c context)) same a
    add_allowed-Allowed seen projected asked value (some name) e a {projected' = after} h =
        let (_, h1) = (reject->> (is_one_of seen name) _ _).0 h in
        let (k, h2) = (>>-eq-ok (validate_safe_base_value linux name value) _).0 h1 in
        let same : set projected name value ≡ after = cc in
        subst (All (IsAllowed c context)) same
          (set-All (IsAllowed c context) projected name value a (checked asked e k))

    add_cut-Allowed :
        (seen : List Bytes) (projected : Variables) (x : Option (Bytes × Bytes))
        → Allowed projected
        → {seen' : List Bytes} {projected' : Variables}
        → add_cut lib linux seen projected x ≡ ok (seen', projected')
        → Allowed projected'
    unfolding add_cut canonical_name
    add_cut-Allowed seen projected none a h = cc
    add_cut-Allowed seen projected (some ([], value)) a h = cc
    add_cut-Allowed seen projected (some (d ∷ name, value)) a h =
        add_allowed-Allowed seen projected (d ∷ name) value
          (value_of linux_safe_base_names (d ∷ name)) refl a h

    add_entry-Allowed :
        (seen : List Bytes) (projected : Variables) (entry : Bytes)
        → Allowed projected
        → {seen' : List Bytes} {projected' : Variables}
        → add_entry lib linux seen projected entry ≡ ok (seen', projected')
        → Allowed projected'
    unfolding add_entry
    add_entry-Allowed seen projected entry a h =
        add_cut-Allowed seen projected (cut entry) a
          ((reject->>
              (length entry == 0 || ltb max_entry_bytes (length entry) || contains_byte 0 entry) _
              _).0
            h).1

    project_safe_base-Allowed :
        (seen : List Bytes) (projected : Variables) (entries : List Bytes)
        → Allowed projected
        → {result : Variables} → project_safe_base lib linux seen projected entries ≡ ok result
        → Allowed result
    unfolding project_safe_base
    project_safe_base-Allowed seen projected [] a {result} h =
        let same : projected ≡ result = cc in subst Allowed same a
    project_safe_base-Allowed seen projected (entry ∷ entries) a h =
        let ((seen', projected'), k, h1) =
          >>=-eq-ok (add_entry lib linux seen projected entry) _ h in
        project_safe_base-Allowed seen' projected' entries
          (add_entry-Allowed seen projected entry a k) h1

    set_identity-Allowed : (env : Variables) → Allowed env → Allowed (set_identity lib c linux env)
    unfolding set_identity Allowed
    set_identity-Allowed env a =
        let Q : Bytes × Bytes → Type 0 = IsAllowed c context in
        let a1 = set-All Q env (codes "HOME") c.profile_root a (given (inl refl)) in
        let a2 = set-All Q _ (codes "TMPDIR") c.temp_root a1 (given (inr (inl refl))) in
        let a3 =
          set-All Q _ (codes "USER") c.execution_identity.name a2 (given (inr (inr (inl refl)))) in
        set-All Q _ (codes "LOGNAME") c.execution_identity.name a3
          (given (inr (inr (inr (inl refl)))))

    set_gateway_values-Allowed :
        (env : Variables)
        → c.platform ≡ linux
        → Allowed env
        → Allowed (set_gateway_values lib c context env)
    unfolding set_gateway_values path_separator Allowed
    set_gateway_values-Allowed env on_linux a =
        let Q : Bytes × Bytes → Type 0 = IsAllowed c context in
        let a0 = set_identity-Allowed env a in
        let a1 =
          set-All Q _ (codes "PATH") (join b':' (items c.path_entries)) a0
            (given (inr (inr (inr (inr (inl refl)))))) in
        let a2 =
          set-All Q _ (codes "AWG_REQUEST_ID") context.request_id a1
            (given (inr (inr (inr (inr (inr (inl refl))))))) in
        let a3 =
          set-All Q _ (codes "AWG_SESSION_ID") context.session_id a2
            (given (inr (inr (inr (inr (inr (inr (inl refl)))))))) in
        let a4 =
          set-All Q _ (codes "AWG_ATTEMPT_ID") context.attempt_id a3
            (given (inr (inr (inr (inr (inr (inr (inr (inl refl))))))))) in
        let at : Platform → Variables = λ p.
          set
            (set
              (set
                (set (set_identity lib c p env) (codes "PATH")
                  (join (path_separator lib p) (items c.path_entries)))
                (codes "AWG_REQUEST_ID") context.request_id)
              (codes "AWG_SESSION_ID") context.session_id)
            (codes "AWG_ATTEMPT_ID") context.attempt_id in
        subst (λ p. All Q (at p)) (sym on_linux) a4

    -- An entry of the environment that spells an allowed variable.
    pub record IsAllowedEntry (entry : Bytes) : Type 0 where
      pub name : Bytes
      pub value : Bytes
      pub spelled : entry ≡ name ++ (b'=' ∷ value)
      pub allowed : IsAllowed c context (name, value)

    entries-IsAllowedEntry :
        (env : Variables)
        → Allowed env
        → All IsAllowedEntry (map (λ (name, value). name ++ (b'=' ∷ value)) env)
    unfolding Allowed
    entries-IsAllowedEntry [] a = tt
    entries-IsAllowedEntry ((n, v) ∷ env) a = (
      record { name = n; value = v; spelled = refl; allowed = a.0 },
      entries-IsAllowedEntry env (a.1),
    )

    -- On Linux, every entry of the environment that `Build` returns is a variable of the gateway's
    -- own with the gateway's value, or one of LANG, LC_ALL and TZ with a value that passed its check.
    pub build-IsAllowedEntry :
        (safe_base : List Bytes) {environment : List Bytes}
        → c.platform ≡ linux
        → build lib c safe_base context ≡ ok environment
        → All IsAllowedEntry environment
    unfolding build sorted_environment
    build-IsAllowedEntry safe_base {environment} on_linux h =
        let (_, h1) = (>>-eq-ok (map_err _ (validate lib c)) _).0 h in
        let (_, h2) = (reject->> (not (matches_identifier context.request_id)) _ _).0 h1 in
        let (_, h3) = (reject->> (not (matches_identifier context.session_id)) _ _).0 h2 in
        let (_, h4) = (reject->> (not (matches_identifier context.attempt_id)) _ _).0 h3 in
        let (_, h5) = (reject->> (ltb max_base_entries (length safe_base)) _ _).0 h4 in
        let (projected, k, h6) =
          >>=-eq-ok (project_safe_base lib c.platform [] [] safe_base) _ h5 in
        let (_, h7) = (>>-eq-ok (check_platform lib c.platform projected) _).0 h6 in
        let start : Allowed projected =
          project_safe_base-Allowed [] [] safe_base nothing
            (subst (λ p. project_safe_base lib p [] [] safe_base ≡ ok projected) on_linux k) in
        let same : sorted_environment lib c.platform (set_gateway_values lib c context projected)
            ≡ environment =
          cc in
        subst (All IsAllowedEntry) same (
          entries-IsAllowedEntry _ (
            ordered (set_gateway_values lib c context projected)
              (set_gateway_values-Allowed projected on_linux start)))
      where
        nothing : Allowed []
        nothing = unfold Allowed in tt

        ordered : (env : Variables) → Allowed env → Allowed (sorted lib c.platform env)
        ordered env a = unfold Allowed in sorted-All (IsAllowed c context) c.platform env a
