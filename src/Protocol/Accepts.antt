-- ===== src/Protocol/Accepts.antt =====
-- What it means that a check of a field returned no error.
use agent_workstation_gatewa.Base.{
  ℕ, ◌≤◌, ◌≡◌, ◌≢◌, ◌↔◌, refl, sym, ap, ◌∙◌, subst, String, Bool, true, false, not, ◌||◌, List, [],
  ◌∷◌, ◌++◌, ok, ◌>>◌, >>-eq-ok, Result, ltb, ◌==◌, length, All, All-map, Avoids, arith,
}
use agent_workstation_gatewa.Text.{
  Bytes, codes, bytes_eq-false_iff, has_prefix, has_prefix_intro, contains_any, split, join,
  join-split, split-IsFree, IsFree, utf8_valid,
}
use agent_workstation_gatewa.Library.{Library}
use agent_workstation_gatewa.PlatformPath.{is_one_of, is_non_canonical, has_control_character}
use agent_workstation_gatewa.PlatformPath.Linux.{IsPlain, is_non_canonical_iff}
use agent_workstation_gatewa.Protocol.Types.{
  ProtocolError, Validated, max_artifact_path_bytes, max_artifact_file_path_bytes,
}
use agent_workstation_gatewa.Protocol.Fields.{
  deny, all_bytes, is_identifier_start, is_identifier_byte, matches_identifier, is_bad_name, each,
  forbidden_artifact_segments, is_sensitive, validate_artifact_segment, validate_glob_use,
  validate_relative_artifact_path, validate_artifact_path, validate_artifact_file_path,
}

pub deny->> :
    {B : Type 0} (b : Bool) (f r : String) (k : Result ProtocolError B) {x : B}
    → ((deny b f r >> k) ≡ ok x) ↔ ((b ≡ false) × (k ≡ ok x))
deny->> true f r k = (λ h. cc, λ h. cc (h.0))
deny->> false f r k = (λ h. (refl, h), λ h. h.1)

pub deny-eq-ok : (b : Bool) (f r : String) → (deny b f r ≡ ok tt) ↔ (b ≡ false)
deny-eq-ok true f r = (λ h. cc, λ h. cc)
deny-eq-ok false f r = (λ h. refl, λ h. refl)

pub each_iff :
    {A : Type 0} (check : A → Validated) (xs : List A)
    → (each check xs ≡ ok tt) ↔ All (λ x. check x ≡ ok tt) xs
unfolding each
each_iff check [] = (λ h. tt, λ h. refl)
each_iff check (x ∷ xs) =
    let rule = >>-eq-ok (check x) (each check xs) in
    (
      λ h. ((rule.0 h).0, (each_iff check xs).0 (rule.0 h).1),
      λ h. rule.1 (h.0, (each_iff check xs).1 h.1),
    )

pub is_one_of-false_iff : (xs : List Bytes) (s : Bytes) → (is_one_of xs s ≡ false) ↔ Avoids xs s
unfolding is_one_of
is_one_of-false_iff [] s = (λ h. tt, λ h. refl)
is_one_of-false_iff (x ∷ xs) s = (
  λ h. ((bytes_eq-false_iff s x).0 (ground arith), (is_one_of-false_iff xs s).0 (ground arith)),
  λ h. simp ((bytes_eq-false_iff s x).1 h.0, (is_one_of-false_iff xs s).1 h.1),
)

-- A name of the identifier alphabet, of at most 64 bytes.
pub record IsName (s : Bytes) : Type 0 where
  pub first : ℕ
  pub others : Bytes
  pub split_at : s ≡ first ∷ others
  pub first_ok : is_identifier_start first ≡ true
  pub others_ok : All (λ c. is_identifier_byte c ≡ true) others

all_bytes_iff : (p : ℕ → Bool) (s : Bytes) → (all_bytes p s ≡ true) ↔ All (λ c. p c ≡ true) s
unfolding all_bytes
all_bytes_iff p [] = (λ h. tt, λ h. refl)
all_bytes_iff p (c ∷ s) = (
  λ h. (ground arith, (all_bytes_iff p s).0 (ground arith)),
  λ h. simp (h.0, (all_bytes_iff p s).1 h.1),
)

pub is_bad_name_iff :
    (maximum : ℕ) (s : Bytes)
    → maximum ≤ 64
    → (is_bad_name maximum s ≡ false) ↔ (IsName s × (length s ≤ maximum))
unfolding is_bad_name matches_identifier
is_bad_name_iff maximum [] small = (λ h. cc, λ (n, l). cc (n.split_at))
is_bad_name_iff maximum (c ∷ s) small = (
  λ h. (
    record {
      first = c;
      others = s;
      split_at = refl;
      first_ok = ground arith;
      others_ok = (all_bytes_iff is_identifier_byte s).0 (ground arith);
    },
    ground arith,
  ),
  λ (n, l).
      let start : is_identifier_start c ≡ true = ap is_identifier_start (head_eq n) ∙ n.first_ok in
      let rest : all_bytes is_identifier_byte s ≡ true =
        (all_bytes_iff is_identifier_byte s).1
          (subst (All (λ c. is_identifier_byte c ≡ true)) (sym (tail_eq n)) n.others_ok) in
      ground arith,
)
  where
    head_eq : (n : IsName (c ∷ s)) → c ≡ n.first
    head_eq n = cc (n.split_at)

    tail_eq : (n : IsName (c ∷ s)) → s ≡ n.others
    tail_eq n = cc (n.split_at)

-- A segment of an artifact path that may be read: a plain name that is none of the credential
-- folders, and neither `.env` nor a name that begins with `.env.`, in any case of letters.
pub record IsOrdinary (lib : Library) (s : Bytes) : Type 0 where
  pub plain : IsPlain s
  pub not_forbidden : Avoids forbidden_artifact_segments (lib.to_lower s)
  pub not_env : lib.to_lower s ≢ codes ".env"
  pub not_env_variant : (rest : Bytes) → lib.to_lower s ≢ codes ".env." ++ rest

-- A relative path of ordinary names.
pub record IsArtifactPath (lib : Library) (maximum : ℕ) (path : Bytes) : Type 0 where
  pub encoded : utf8_valid path ≡ true
  pub bounded : length path ≤ maximum
  pub no_special : contains_any path (92 ∷ b':' ∷ 0 ∷ []) ≡ false
  pub names : List Bytes
  pub joined : path ≡ join b'/' names
  pub separate : All (IsFree b'/') names
  pub ordinary : All (IsOrdinary lib) names
  pub relative : has_prefix path (codes "/") ≡ false

module _ (lib : Library) where
  sensitive_elim :
      (lower : Bytes)
      → is_sensitive lib lower ≡ false
      → Avoids forbidden_artifact_segments lower
        × (lower ≢ codes ".env")
        × ((rest : Bytes) → lower ≢ codes ".env." ++ rest)
  unfolding is_sensitive
  sensitive_elim lower h = (
    (is_one_of-false_iff forbidden_artifact_segments lower).0 (ground arith),
    (bytes_eq-false_iff lower (codes ".env")).0 (ground arith),
    λ rest e.
        let no : has_prefix lower (codes ".env.") ≡ false = ground arith in
        cc (no, ap (λ l. has_prefix l (codes ".env.")) e, has_prefix_intro (codes ".env.") rest),
  )

  validate_artifact_segment-IsOrdinary :
      (field : String) (s : Bytes)
      → validate_artifact_segment lib field s ≡ ok tt
      → IsOrdinary lib s
  unfolding validate_artifact_segment
  validate_artifact_segment-IsOrdinary field s h =
      let (a, k) = (deny->> (is_non_canonical s) _ _ _).0 h in
      let (b, l) = (deny->> (has_control_character s) _ _ _).0 k in
      let c = (deny-eq-ok (is_sensitive lib (lib.to_lower s)) _ _).0 l in
      let (x, y, z) = (is_non_canonical_iff s).0 a in
      let (u, v, w) = sensitive_elim (lib.to_lower s) c in
      record {
        plain = record { ne_nil = x; ne_dot = y; ne_dot_dot = z; no_control = b };
        not_forbidden = u;
        not_env = v;
        not_env_variant = w;
      }

  size_lem :
      (b : Bool) (n maximum : ℕ)
      → (not b || n == 0 || ltb maximum n) ≡ false
      → (b ≡ true) × (n ≢ 0) × (n ≤ maximum)
  size_lem b n maximum h = ground arith

  or_false : (a b : Bool) → (a || b) ≡ false → (a ≡ false) × (b ≡ false)
  or_false a b h = ground arith

  -- A relative path that the check lets through, with or without a glob, leads down through
  -- ordinary names only.
  pub validate_relative_artifact_path-IsArtifactPath :
      (field : String) (path : Bytes) (maximum : ℕ) (allow_glob : Bool)
      → validate_relative_artifact_path lib field path maximum allow_glob ≡ ok tt
      → IsArtifactPath lib maximum path
  unfolding validate_relative_artifact_path
  validate_relative_artifact_path-IsArtifactPath field path maximum allow_glob h =
      let (a, k) =
        (deny->> (not (utf8_valid path) || length path == 0 || ltb maximum (length path)) _ _ _).0
          h in
      let (b, l) =
        (deny->> (has_prefix path (codes "/") || contains_any path (92 ∷ b':' ∷ 0 ∷ [])) _ _ _).0
          k in
      let (_, m) = (>>-eq-ok (validate_glob_use lib allow_glob field path) _).0 l in
      let (u, v, w) = size_lem (utf8_valid path) (length path) maximum a in
      let (x, y) = or_false (has_prefix path (codes "/")) _ b in
      record {
        encoded = u;
        bounded = w;
        no_special = y;
        names = split b'/' path;
        joined = sym (join-split b'/' path);
        separate = split-IsFree b'/' path;
        ordinary =
            All-map (λ s. validate_artifact_segment lib field s ≡ ok tt) (IsOrdinary lib)
              (split b'/' path) (validate_artifact_segment-IsOrdinary field)
              ((each_iff (validate_artifact_segment lib field) (split b'/' path)).0 m);
        relative = x;
      }

  pub validate_artifact_path-IsArtifactPath :
      (path : Bytes)
      → validate_artifact_path lib path ≡ ok tt
      → IsArtifactPath lib max_artifact_path_bytes path
  unfolding validate_artifact_path
  validate_artifact_path-IsArtifactPath path h =
      validate_relative_artifact_path-IsArtifactPath _ path max_artifact_path_bytes true h

  pub validate_artifact_file_path-IsArtifactPath :
      (path : Bytes)
      → validate_artifact_file_path lib path ≡ ok tt
      → IsArtifactPath lib max_artifact_file_path_bytes path
  unfolding validate_artifact_file_path
  validate_artifact_file_path-IsArtifactPath path h =
      validate_relative_artifact_path-IsArtifactPath _ path max_artifact_file_path_bytes false h
