-- ===== src/PlatformPath/Linux.antt =====
-- The Linux paths that `ValidateAbsolute` lets through: `/`, or plain segments behind slashes.
use agent_workstation_gatewa.Base.{
  ℕ, ◌≤◌, ◌<◌, ◌≡◌, ◌≢◌, ◌↔◌, refl, sym, ap, ◌∙◌, subst, inl, inr, Bool, true, false, not, ◌||◌,
  List, [], ◌∷◌, Checked, ok, >>-eq-ok, reject->>, require->>, ltb, ◌==◌, if◌then◌else◌, Bool-cases,
  length, All, arith,
}
use agent_workstation_gatewa.Text.{
  Bytes, codes, bytes_eq, bytes_eq_iff, bytes_eq-false_iff, split_nonempty, has_prefix,
  has_prefix_elim, contains_byte, split, join, join-split, split-join, IsFree, split-IsFree,
  trim_prefix, utf8_valid,
}
use agent_workstation_gatewa.PlatformPath.{
  PathRule, linux, max_path_bytes, has_control_character, is_non_canonical, validate_segment,
  validate_segments, validate_linux, validate_absolute,
}

-- A file name that stands for itself: not empty, not `.` or `..`, and with no control character.
pub record IsPlain (s : Bytes) : Type 0 where
  pub ne_nil : s ≢ []
  pub ne_dot : s ≢ codes "."
  pub ne_dot_dot : s ≢ codes ".."
  pub no_control : has_control_character s ≡ false

pub is_non_canonical_iff :
    (s : Bytes) → (is_non_canonical s ≡ false) ↔ ((s ≢ []) × (s ≢ codes ".") × (s ≢ codes ".."))
unfolding is_non_canonical
is_non_canonical_iff s = (
  λ h. (
    (bytes_eq-false_iff s []).0 (ground arith),
    (bytes_eq-false_iff s (codes ".")).0 (ground arith),
    (bytes_eq-false_iff s (codes "..")).0 (ground arith),
  ),
  λ (a, b, c). simp (
    (bytes_eq-false_iff s []).1 a,
    (bytes_eq-false_iff s (codes ".")).1 b,
    (bytes_eq-false_iff s (codes "..")).1 c,
  ),
)

validate_segment_iff : (s : Bytes) → (validate_segment false s ≡ ok tt) ↔ IsPlain s
unfolding validate_segment
validate_segment_iff s = (
  λ h.
      let (a, k) = (reject->> _ _ _).0 h in
      let (b, _) = (reject->> _ _ _).0 k in
      let (x, y, z) = (is_non_canonical_iff s).0 a in
      record { ne_nil = x; ne_dot = y; ne_dot_dot = z; no_control = b },
  λ p. rw ((is_non_canonical_iff s).1 (p.ne_nil, p.ne_dot, p.ne_dot_dot), p.no_control),
)

pub validate_segments_iff :
    (xs : List Bytes) → (validate_segments xs false ≡ ok tt) ↔ All IsPlain xs
unfolding validate_segments
validate_segments_iff [] = (λ h. tt, λ h. refl)
validate_segments_iff (s ∷ xs) =
    let rule = >>-eq-ok (validate_segment false s) (validate_segments xs false) in
    (
      λ h. let (a, b) = rule.0 h in ((validate_segment_iff s).0 a, (validate_segments_iff xs).0 b),
      λ h. rule.1 ((validate_segment_iff s).1 h.0, (validate_segments_iff xs).1 h.1),
    )

-- `/`, or plain segments behind slashes.
pub data LinuxForm (value : Bytes) : Type 0 where
  root : value ≡ codes "/" → LinuxForm value
  segments :
      (x : Bytes) (xs : List Bytes)
      → value ≡ b'/' ∷ join b'/' (x ∷ xs)
      → All (IsFree b'/') (x ∷ xs)
      → All IsPlain (x ∷ xs)
      → LinuxForm value

pub record IsLinuxPath (value : Bytes) : Type 0 where
  pub encoded : utf8_valid value ≡ true
  pub nonempty : 0 < length value
  pub bounded : length value ≤ max_path_bytes
  pub no_nul : contains_byte 0 value ≡ false
  pub no_backslash : contains_byte b'\\' value ≡ false
  pub form : LinuxForm value

-- A path with plain segments behind its first slash.
pub plain_form : (body : Bytes) → All IsPlain (split b'/' body) → LinuxForm (b'/' ∷ body)
plain_form body h = go (split b'/' body) refl
  where
    go : (xs : List Bytes) → split b'/' body ≡ xs → LinuxForm (b'/' ∷ body)
    go [] e = absurd (split_nonempty b'/' body e)
    go (x ∷ xs) e =
        segments x xs (ap (◌∷◌ b'/') (sym (join-split b'/' body) ∙ ap (join b'/') e))
          (subst (All (IsFree b'/')) e (split-IsFree b'/' body)) (subst (All IsPlain) e h)

-- The part of `validateLinux` behind its first two tests.
form_of :
    (body : Bytes) → validate_segments (split b'/' body) false ≡ ok tt → LinuxForm (b'/' ∷ body)
form_of body h = plain_form body ((validate_segments_iff (split b'/' body)).0 h)

behind_root : Bytes → Checked PathRule
behind_root value =
    if bytes_eq value (codes "/")
    then ok tt
    else validate_segments (split b'/' (trim_prefix b'/' value)) false

behind_root_iff : (body : Bytes) → (behind_root (b'/' ∷ body) ≡ ok tt) ↔ LinuxForm (b'/' ∷ body)
unfolding behind_root
behind_root_iff body = elim (Bool-cases (bytes_eq (b'/' ∷ body) (codes "/"))) [
  | inl e ↦ (λ h. root ((bytes_eq_iff (b'/' ∷ body) (codes "/")).0 e), λ h. rw e)
  | inr e ↦ (
    λ h. form_of body (unfold trim_prefix in (rw e at h)),
    λ h. rw e (unfold trim_prefix in segments_of h e),
  )
]
  where
    segments_of :
        LinuxForm (b'/' ∷ body)
        → bytes_eq (b'/' ∷ body) (codes "/") ≡ false
        → validate_segments (split b'/' body) false ≡ ok tt
    segments_of (root e) ne = absurd ((bytes_eq-false_iff _ _).0 ne e)
    segments_of (segments x xs e free plain) ne =
        let e' : body ≡ join b'/' (x ∷ xs) = cc in
        rw (e', split-join b'/' x xs free) ((validate_segments_iff (x ∷ xs)).1 plain)

pub LinuxForm-prefix : (value : Bytes) → LinuxForm value → has_prefix value (codes "/") ≡ true
LinuxForm-prefix value (root e) = rw e (unfold has_prefix in refl)
LinuxForm-prefix value (segments x xs e free plain) = rw e (unfold has_prefix in refl)

validate_linux_iff :
    (value : Bytes)
    → (validate_linux value ≡ ok tt) ↔ ((contains_byte b'\\' value ≡ false) × LinuxForm value)
unfolding validate_linux behind_root
validate_linux_iff value = (
  λ h.
      let (p, k) = (require->> (has_prefix value (codes "/")) _ _).0 h in
      let (b, l) = (reject->> (contains_byte b'\\' value) _ (behind_root value)).0 k in
      let (body, e) = has_prefix_elim value (codes "/") p in
      (
        b,
        subst LinuxForm (sym e) ((behind_root_iff body).0 (subst (λ v. behind_root v ≡ ok tt) e l)),
      ),
  λ (b, f).
      let p = LinuxForm-prefix value f in
      let (body, e) = has_prefix_elim value (codes "/") p in
      (require->> (has_prefix value (codes "/")) _ _).1 (
        p,
        (reject->> (contains_byte b'\\' value) _ (behind_root value)).1 (
          b,
          subst (λ v. behind_root v ≡ ok tt) (sym e)
              ((behind_root_iff body).1 (subst LinuxForm e f)),
        ),
      ),
)

-- On Linux `ValidateAbsolute` lets through exactly the canonical absolute paths.
pub validate_absolute_iff :
    (value : Bytes) → (validate_absolute linux value ≡ ok tt) ↔ IsLinuxPath value
unfolding validate_absolute
validate_absolute_iff value = (
  λ h.
      let (a, k) =
        (reject->>
            (not (utf8_valid value) || length value == 0 || ltb max_path_bytes (length value)) _
            _).0
          h in
      let (b, l) = (reject->> (contains_byte 0 value) _ (validate_linux value)).0 k in
      let (c, f) = (validate_linux_iff value).0 l in
      record {
        encoded = ground arith;
        nonempty = ground arith;
        bounded = ground arith;
        no_nul = b;
        no_backslash = c;
        form = f;
      },
  λ p.
      (reject->> (not (utf8_valid value) || length value == 0 || ltb max_path_bytes (length value))
          _ _).1
        (
          size_lem (utf8_valid value) (length value) p.encoded p.nonempty p.bounded,
          (reject->> (contains_byte 0 value) _ (validate_linux value)).1
              (p.no_nul, (validate_linux_iff value).1 (p.no_backslash, p.form)),
        ),
)
  where
    size_lem :
        (b : Bool) (n : ℕ)
        → b ≡ true
        → 0 < n
        → n ≤ max_path_bytes
        → (not b || n == 0 || ltb max_path_bytes n) ≡ false
    size_lem b n e h k = ground arith
