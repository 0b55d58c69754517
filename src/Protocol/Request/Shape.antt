-- ===== src/Protocol/Request/Shape.antt =====
-- What a request that `ValidateRequest` lets through looks like.
use agent_workstation_gatewa.Base.{
  not-false, ℕ, ◌≤◌, ◌≡◌, ◌≢◌, refl, sym, ap, ◌∙◌, subst, ◌⊎◌, inl, inr, Bool, true, false, not,
  ◌&&◌, ◌||◌, List, [], ◌∷◌, ok, >>-eq-ok, ltb, ◌==◌, ℤ, pos, negsuc, IsBetween, if◌then◌else◌,
  Bool-cases, length, All, All-map, arith,
}
use agent_workstation_gatewa.Text.{
  Bytes, codes, bytes_eq, bytes_eq_iff, has_prefix, has_prefix_elim, contains_byte, contains_any,
  ends_with, split, split_nonempty, trim_prefix, utf8_valid, only_space, join-split, join, IsFree,
  split-IsFree,
}
use agent_workstation_gatewa.Library.{Library}
use agent_workstation_gatewa.PlatformPath.{
  is_non_canonical, has_control_character, before_dot, is_one_of,
}
use agent_workstation_gatewa.PlatformPath.Linux.{
  IsPlain, is_non_canonical_iff, LinuxForm, root, plain_form,
}
use agent_workstation_gatewa.Protocol.Types.{
  items, validation_error, RequestOperation, execute, start, status, stop, logs, Request,
  ArtifactSelection, min_timeout_seconds, max_timeout_seconds, min_output_bytes, max_output_bytes,
  max_identifier_bytes, max_script_bytes, max_working_path_bytes,
}
use agent_workstation_gatewa.Protocol.Fields.{
  is_bad_name, validate_identifier, validate_script, validate_posix_segment,
  validate_posix_working_directory, validate_windows_working_directory, validate_working_directory,
  starts_at_any_drive, behind_drive, reserved_windows_names, validate_windows_working_segment,
}
use agent_workstation_gatewa.Protocol.Accepts.{
  deny->>, deny-eq-ok, each_iff, IsName, is_bad_name_iff,
}
use agent_workstation_gatewa.Protocol.Request.{
  version, is_supported_shell, is_supported_operation, is_execute, is_start, is_outside,
  validate_process_id, validate_artifact_selections, validate_request,
}
use agent_workstation_gatewa.Protocol.Request.Selections.{
  IsSelections, validate_artifact_selections-IsSelections,
}

pub record IsIdentifier (s : Bytes) : Type 0 where
  pub named : IsName s
  pub bounded : length s ≤ max_identifier_bytes

pub validate_identifier-IsIdentifier :
    (field : _) (s : Bytes) → validate_identifier field s ≡ ok tt → IsIdentifier s
unfolding validate_identifier
validate_identifier-IsIdentifier field s h =
    let (n, l) =
      (is_bad_name_iff max_identifier_bytes s (omega arith)).0
        ((deny-eq-ok (is_bad_name max_identifier_bytes s) _ _).0 h) in
    record { named = n; bounded = l }

-- A script of at most 48 KiB that holds more than white space, and no NUL.
pub record IsScript (s : Bytes) : Type 0 where
  pub encoded : utf8_valid s ≡ true
  pub nonempty : s ≢ []
  pub bounded : length s ≤ max_script_bytes
  pub substantial : only_space s ≡ false
  pub no_nul : contains_byte 0 s ≡ false

script_size :
    (s : Bytes)
    → (length s == 0 || ltb max_script_bytes (length s)) ≡ false
    → (s ≢ []) × (length s ≤ max_script_bytes)
script_size [] h = cc
script_size (c ∷ s) h = (λ e. cc, ground arith)

validate_script-IsScript : (s : Bytes) → validate_script s ≡ ok tt → IsScript s
unfolding validate_script
validate_script-IsScript s h =
    let (a, k) = (deny->> (not (utf8_valid s)) _ _ _).0 h in
    let (b, l) = (deny->> (length s == 0 || ltb max_script_bytes (length s)) _ _ _).0 k in
    let (c, m) = (deny->> (only_space s) _ _ _).0 l in
    let d = (deny-eq-ok (contains_byte 0 s) _ _).0 m in
    let (x, y) = script_size s b in
    record { encoded = not-false _ a; nonempty = x; bounded = y; substantial = c; no_nul = d }

is_outside-false : (lo hi : ℕ) (x : ℤ) → is_outside lo hi x ≡ false → IsBetween lo hi x
is_outside-false lo hi (pos n) h = ground arith
is_outside-false lo hi (negsuc n) h = cc

validate_posix_segment-IsPlain : (s : Bytes) → validate_posix_segment s ≡ ok tt → IsPlain s
unfolding validate_posix_segment
validate_posix_segment-IsPlain s h =
    let (a, k) = (deny->> (is_non_canonical s) _ _ _).0 h in
    let b = (deny-eq-ok (has_control_character s) _ _).0 k in
    let (x, y, z) = (is_non_canonical_iff s).0 a in
    record { ne_nil = x; ne_dot = y; ne_dot_dot = z; no_control = b }

-- A path from the root, with plain names between its slashes and no backslash.
abbrev PosixForm : Bytes → Type 0
PosixForm d = (contains_byte b'\\' d ≡ false) × LinuxForm d

validate_posix-PosixForm :
    (body : Bytes)
    → validate_posix_working_directory (b'/' ∷ body) ≡ ok tt
    → PosixForm (b'/' ∷ body)
unfolding validate_posix_working_directory trim_prefix
validate_posix-PosixForm body h = elim (Bool-cases (bytes_eq (b'/' ∷ body) (codes "/"))) [
  | inl e ↦
      let same = (bytes_eq_iff (b'/' ∷ body) (codes "/")).0 e in
      (ap (contains_byte b'\\') same ∙ (unfold contains_byte in refl), root same)
  | inr e ↦
      let (free, k) = (deny->> (contains_byte b'\\' (b'/' ∷ body)) _ _ _).0 (rw e at h) in
      (
        free,
        plain_form body (
            All-map (λ s. validate_posix_segment s ≡ ok tt) IsPlain _ validate_posix_segment-IsPlain
              ((each_iff validate_posix_segment _).0 k)),
      )
]

module _ (lib : Library) where
  -- A file name on Windows: plain, without the characters that Windows denies, a dot or a space at
  -- its end, or the name of a device before its first dot.
  pub record IsWindowsName (s : Bytes) : Type 0 where
    pub plain : IsPlain s
    pub no_denied : contains_any s (codes "<>:\"/|?*") ≡ false
    pub no_last_dot : ends_with s b'.' ≡ false
    pub no_last_space : ends_with s b' ' ≡ false
    pub no_device : is_one_of reserved_windows_names (lib.to_lower (before_dot s)) ≡ false

  -- A drive, or file names between the backslashes behind it.
  pub data WindowsForm (d : Bytes) : Type 0 where
    at_drive : length d ≡ 3 → WindowsForm d
    below_drive :
        (x : Bytes) (xs : List Bytes)
        → behind_drive d ≡ join b'\\' (x ∷ xs)
        → All (IsFree b'\\') (x ∷ xs)
        → All IsWindowsName (x ∷ xs)
        → WindowsForm d

  or_lem : (a b : Bool) → (a || b) ≡ false → (a ≡ false) × (b ≡ false)
  or_lem a b h = ground arith

  validate_windows_working_segment-IsWindowsName :
      (s : Bytes) → validate_windows_working_segment lib s ≡ ok tt → IsWindowsName s
  unfolding validate_windows_working_segment
  validate_windows_working_segment-IsWindowsName s h =
      let (a, h1) = (deny->> (is_non_canonical s) _ _ _).0 h in
      let (b, h2) =
        (deny->> (has_control_character s || contains_any s (codes "<>:\"/|?*")) _ _ _).0 h1 in
      let (c, h3) = (deny->> (ends_with s b'.' || ends_with s b' ') _ _ _).0 h2 in
      let d =
        (deny-eq-ok (is_one_of reserved_windows_names (lib.to_lower (before_dot s))) _ _).0 h3 in
      let (x, y, z) = (is_non_canonical_iff s).0 a in
      let (control, denied) = or_lem (has_control_character s) _ b in
      let (dot, space) = or_lem (ends_with s b'.') _ c in
      record {
        plain = record { ne_nil = x; ne_dot = y; ne_dot_dot = z; no_control = control };
        no_denied = denied;
        no_last_dot = dot;
        no_last_space = space;
        no_device = d;
      }

  windows_form :
      (d : Bytes) (names : List Bytes)
      → split b'\\' (behind_drive d) ≡ names
      → All IsWindowsName names
      → WindowsForm d
  windows_form d [] e h = absurd (split_nonempty b'\\' (behind_drive d) e)
  windows_form d (x ∷ xs) e h =
      below_drive x xs (sym (join-split b'\\' (behind_drive d)) ∙ ap (join b'\\') e)
        (subst (All (IsFree b'\\')) e (split-IsFree b'\\' (behind_drive d))) h

  validate_windows-WindowsForm :
      (d : Bytes) → validate_windows_working_directory lib d ≡ ok tt → WindowsForm d
  unfolding validate_windows_working_directory
  validate_windows-WindowsForm d h = elim (Bool-cases (length d == 3)) [
    | inl e ↦ at_drive (ground arith)
    | inr e ↦ windows_form d (split b'\\' (behind_drive d)) refl (
        All-map (λ s. validate_windows_working_segment lib s ≡ ok tt) IsWindowsName _
          validate_windows_working_segment-IsWindowsName
          ((each_iff (validate_windows_working_segment lib) _).0 (rw e at h)))
  ]

  -- A directory that an agent may ask for: in canonical form from the root or on a Windows drive.
  pub record IsDirectory (d : Bytes) : Type 0 where
    pub encoded : utf8_valid d ≡ true
    pub bounded : length d ≤ max_working_path_bytes
    pub no_nul : contains_byte 0 d ≡ false
    pub rooted : PosixForm d ⊎ ((starts_at_any_drive d ≡ true) × WindowsForm d)

  rooted_lem :
      (d : Bytes)
      → (if has_prefix d (codes "/")
          then validate_posix_working_directory d
          else if starts_at_any_drive d
          then validate_windows_working_directory lib d
          else validation_error "working_directory" "not-supported-absolute-path")
        ≡ ok tt
      → PosixForm d ⊎ ((starts_at_any_drive d ≡ true) × WindowsForm d)
  rooted_lem d h = elim (Bool-cases (has_prefix d (codes "/"))) [
    | inl e ↦
        let (body, same) = has_prefix_elim d (codes "/") e in
        let checked : validate_posix_working_directory d ≡ ok tt = rw e at h in
        inl (
          subst PosixForm (sym same) (
            validate_posix-PosixForm body
              (subst (λ x. validate_posix_working_directory x ≡ ok tt) same checked)))
    | inr e ↦ elim (Bool-cases (starts_at_any_drive d)) [
      | inl f ↦ inr (f, validate_windows-WindowsForm d (rw (e, f) at h))
      | inr f ↦
          let no : validation_error "working_directory" "not-supported-absolute-path" ≡ ok tt =
            rw (e, f) at h in
          cc (no)
    ]
  ]

  size_lem :
      (b : Bool) (n maximum : ℕ)
      → (not b || n == 0 || ltb maximum n) ≡ false
      → (b ≡ true) × (n ≤ maximum)
  size_lem b n maximum h = ground arith

  validate_working_directory-IsDirectory :
      (d : Bytes) → validate_working_directory lib d ≡ ok tt → IsDirectory d
  unfolding validate_working_directory
  validate_working_directory-IsDirectory d h =
      let (a, k) =
        (deny->> (not (utf8_valid d) || length d == 0 || ltb max_working_path_bytes (length d)) _ _
            _).0
          h in
      let (b, l) = (deny->> (contains_byte 0 d) _ _ _).0 k in
      let (x, y) = size_lem (utf8_valid d) (length d) max_working_path_bytes a in
      record { encoded = x; bounded = y; no_nul = b; rooted = rooted_lem d l }

  -- What the operation asks of the identifier of the process, of the script and of the artifacts.
  pub data FitsOperation (r : Request) : RequestOperation → Type 0 where
    executes : r.process_id ≡ [] → FitsOperation r execute
    starts : IsIdentifier r.process_id → items r.artifacts ≡ [] → FitsOperation r start
    manages :
        (operation : RequestOperation)
        → is_supported_operation operation ≡ true
        → is_execute operation ≡ false
        → is_start operation ≡ false
        → IsIdentifier r.process_id
        → r.script ≡ codes "-"
        → items r.artifacts ≡ []
        → FitsOperation r operation

  -- A request that may be accepted.
  pub record IsRequest (r : Request) : Type 0 where
    pub current : r.protocol_version ≡ version
    pub request_named : IsIdentifier r.request_id
    pub session_named : IsIdentifier r.session_id
    pub actor_named : IsIdentifier r.actor
    pub fits : FitsOperation r r.operation
    pub shell_known : is_supported_shell r.shell ≡ true
    pub placed : IsDirectory r.working_directory
    pub scripted : IsScript r.script
    pub timed : IsBetween min_timeout_seconds max_timeout_seconds r.timeout_seconds
    pub output_limited : IsBetween min_output_bytes max_output_bytes r.max_output_bytes
    pub selects : IsSelections lib (items r.artifacts)

  nil_lem : (xs : List ArtifactSelection) → (true && not (length xs == 0)) ≡ false → xs ≡ []
  nil_lem [] h = refl
  nil_lem (x ∷ xs) h = absurd (ground arith)

  fits_lem :
      (r : Request) (operation : RequestOperation)
      → is_supported_operation operation ≡ true
      → validate_process_id lib (is_execute operation) r.process_id ≡ ok tt
      → (not (is_execute operation)
          && not (is_start operation)
          && not (bytes_eq r.script (codes "-")))
        ≡ false
      → (not (is_execute operation) && not (length (items r.artifacts) == 0)) ≡ false
      → FitsOperation r operation
  unfolding validate_process_id
  fits_lem r execute a b c d = executes (
      (bytes_eq_iff r.process_id []).0
        (not-false _ ((deny-eq-ok (not (bytes_eq r.process_id [])) _ _).0 b)))
  fits_lem r start a b c d =
      starts (validate_identifier-IsIdentifier _ r.process_id b) (nil_lem _ d)
  fits_lem r status a b c d =
      manages status a refl refl (validate_identifier-IsIdentifier _ r.process_id b)
        ((bytes_eq_iff r.script (codes "-")).0 (not-false _ c)) (nil_lem _ d)
  fits_lem r stop a b c d =
      manages stop a refl refl (validate_identifier-IsIdentifier _ r.process_id b)
        ((bytes_eq_iff r.script (codes "-")).0 (not-false _ c)) (nil_lem _ d)
  fits_lem r logs a b c d =
      manages logs a refl refl (validate_identifier-IsIdentifier _ r.process_id b)
        ((bytes_eq_iff r.script (codes "-")).0 (not-false _ c)) (nil_lem _ d)
  fits_lem r (RequestOperation.other name) a b c d = unfold is_supported_operation in cc

  -- A request that `ValidateRequest` lets through has version 1, identifiers of the identifier
  -- alphabet, a supported shell, a working directory in canonical form (plain names, neither `.` nor `..`,
  -- between slashes from the root or between backslashes from a drive), a script within its limits,
  -- a timeout and an output limit in range and well-formed artifact selections; and only a request
  -- to execute has no process, and only it selects artifacts.
  pub validate_request-IsRequest : (r : Request) → validate_request lib r ≡ ok tt → IsRequest r
  unfolding validate_request
  validate_request-IsRequest r h =
      let (a, h1) = (deny->> (not (r.protocol_version == version)) _ _ _).0 h in
      let (b, h2) = (>>-eq-ok (validate_identifier "request_id" r.request_id) _).0 h1 in
      let (c, h3) = (>>-eq-ok (validate_identifier "session_id" r.session_id) _).0 h2 in
      let (d, h4) = (>>-eq-ok (validate_identifier "actor" r.actor) _).0 h3 in
      let (e, h5) = (deny->> (not (is_supported_operation r.operation)) _ _ _).0 h4 in
      let (f, h6) =
        (>>-eq-ok (validate_process_id lib (is_execute r.operation) r.process_id) _).0 h5 in
      let (g, h7) = (deny->> (not (is_supported_shell r.shell)) _ _ _).0 h6 in
      let (i, h8) = (>>-eq-ok (validate_working_directory lib r.working_directory) _).0 h7 in
      let (j, h9) = (>>-eq-ok (validate_script r.script) _).0 h8 in
      let (k, h10) =
        (deny->>
            (not (is_execute r.operation)
              && not (is_start r.operation)
              && not (bytes_eq r.script (codes "-")))
            _ _ _).0
          h9 in
      let (l, h11) =
        (deny->> (is_outside min_timeout_seconds max_timeout_seconds r.timeout_seconds) _ _ _).0
          h10 in
      let (m, h12) =
        (deny->> (is_outside min_output_bytes max_output_bytes r.max_output_bytes) _ _ _).0 h11 in
      let (n, h13) = (>>-eq-ok (validate_artifact_selections lib r.artifacts) _).0 h12 in
      let o =
        (deny-eq-ok (not (is_execute r.operation) && not (length (items r.artifacts) == 0)) _ _).0
          h13 in
      record {
        current = ground arith;
        request_named = validate_identifier-IsIdentifier _ r.request_id b;
        session_named = validate_identifier-IsIdentifier _ r.session_id c;
        actor_named = validate_identifier-IsIdentifier _ r.actor d;
        fits = fits_lem r r.operation (not-false _ e) f k o;
        shell_known = not-false _ g;
        placed = validate_working_directory-IsDirectory r.working_directory i;
        scripted = validate_script-IsScript r.script j;
        timed = is_outside-false min_timeout_seconds max_timeout_seconds r.timeout_seconds l;
        output_limited = is_outside-false min_output_bytes max_output_bytes r.max_output_bytes m;
        selects = (validate_artifact_selections-IsSelections lib r.artifacts n).1;
      }
