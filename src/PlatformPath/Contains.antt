-- ===== src/PlatformPath/Contains.antt =====
-- `Contains` and `Overlaps` on Linux, told by the segments of the paths.
use agent_workstation_gatewa.Base.{
  ◌≡◌, ◌≢◌, ◌↔◌, refl, sym, ap, ◌∙◌, subst, ◌⊎◌, inl, inr, Bool, true, false, ◌||◌, List, [], ◌∷◌,
  ◌++◌, append-nil, append_assoc, if◌then◌else◌, Bool-cases, All, All-append_right, arith,
}
use agent_workstation_gatewa.Text.{
  Bytes, codes, bytes_eq, bytes_eq_iff, bytes_eq-false_iff, has_prefix, has_prefix_elim,
  has_prefix_intro, ends_with, ends_with_elim, split, join, join-append, split-join, split-append,
  IsFree, trim_prefix,
}
use agent_workstation_gatewa.Library.{Library}
use agent_workstation_gatewa.PlatformPath.{linux, contains, overlaps, with_separator}
use agent_workstation_gatewa.PlatformPath.Linux.{
  IsPlain, LinuxForm, root, segments, LinuxForm-prefix,
}

-- The names on the way from `/` to the path.
unfoldable pub path_segments : Bytes → List Bytes
path_segments value = if bytes_eq value (codes "/") then [] else split b'/' (trim_prefix b'/' value)

path_segments-root : path_segments (codes "/") ≡ []
unfolding path_segments bytes_eq
path_segments-root = refl

-- A list of plain names is not joined to nothing.
join-ne_nil :
    (x : Bytes) (xs : List Bytes)
    → All (IsFree b'/') (x ∷ xs)
    → All IsPlain (x ∷ xs)
    → join b'/' (x ∷ xs) ≢ []
join-ne_nil x xs free plain e =
    let same : x ∷ xs ≡ [] ∷ [] =
      sym (split-join b'/' x xs free) ∙ ap (split b'/') e ∙ (unfold split in refl) in
    plain.0.ne_nil (cc)

path_segments-join :
    (x : Bytes) (xs : List Bytes)
    → All (IsFree b'/') (x ∷ xs)
    → All IsPlain (x ∷ xs)
    → path_segments (b'/' ∷ join b'/' (x ∷ xs)) ≡ x ∷ xs
unfolding path_segments trim_prefix
path_segments-join x xs free plain =
    rw
      ((bytes_eq-false_iff (b'/' ∷ join b'/' (x ∷ xs)) (codes "/")).1
        (λ e. join-ne_nil x xs free plain (cc)))
      (split-join b'/' x xs free)

-- No canonical path but `/` ends in a slash.
no_slash_at_end :
    (x : Bytes) (xs : List Bytes)
    → All (IsFree b'/') (x ∷ xs)
    → All IsPlain (x ∷ xs)
    → ends_with (b'/' ∷ join b'/' (x ∷ xs)) b'/' ≡ false
no_slash_at_end x xs free plain = elim (Bool-cases (ends_with (b'/' ∷ join b'/' (x ∷ xs)) b'/')) [
  | inr e ↦ e
  | inl e ↦
      let (t, same) = ends_with_elim (b'/' ∷ join b'/' (x ∷ xs)) b'/' e in
      let parts : [] ∷ (x ∷ xs) ≡ split b'/' t ++ ([] ∷ []) =
        ap (◌∷◌ []) (sym (split-join b'/' x xs free))
        ∙ sym (split-append b'/' [] (join b'/' (x ∷ xs)) ∙ (unfold split in refl))
        ∙ ap (split b'/') same
        ∙ split-append b'/' t []
        ∙ (unfold split in refl) in
      absurd (at_end (split b'/' t) parts)
]
  where
    at_end : (ys : List Bytes) → [] ∷ (x ∷ xs) ≡ ys ++ ([] ∷ []) → ⊥
    at_end [] e = cc
    at_end (y ∷ ys) e =
        let rest : x ∷ xs ≡ ys ++ ([] ∷ []) = cc in
        (All-append_right IsPlain ys ([] ∷ []) (subst (All IsPlain) rest plain)).0.ne_nil refl

-- The path's names begin with the root's.
abbrev pub Leads : Bytes → Bytes → Type 0
Leads start value = (rest : List Bytes) × (path_segments value ≡ path_segments start ++ rest)

module _ (lib : Library) where
  contains-linux :
      (start value : Bytes)
      → contains lib linux start value
        ≡ (bytes_eq start value || has_prefix value (with_separator lib b'/' start))
  unfolding contains
  contains-linux start value = refl

  contains-root : (value : Bytes) → LinuxForm value → contains lib linux (codes "/") value ≡ true
  contains-root value f =
      contains-linux (codes "/") value
      ∙ (unfold ends_with in rw (LinuxForm-prefix value f) (ground arith))

  prefix_root :
      (start : Bytes)
      → ends_with start b'/' ≡ false
      → with_separator lib b'/' start ≡ start ++ (b'/' ∷ [])
  prefix_root start e = rw e

  -- What stands behind the separator is split into the names that follow.
  beneath-segments :
      (x : Bytes) (xs : List Bytes) (value rest : Bytes)
      → All (IsFree b'/') (x ∷ xs)
      → LinuxForm value
      → value ≡ (b'/' ∷ join b'/' (x ∷ xs)) ++ (b'/' ∷ rest)
      → path_segments value ≡ (x ∷ xs) ++ split b'/' rest
  beneath-segments x xs value rest free (root e) h = absurd (nonempty (join b'/' (x ∷ xs)) (cc))
    where
      nonempty : (s : Bytes) → [] ≡ s ++ (b'/' ∷ rest) → ⊥
      nonempty [] e = cc
      nonempty (c ∷ s) e = cc
  beneath-segments x xs value rest free (segments y ys e free' plain) h =
      let same : join b'/' (y ∷ ys) ≡ join b'/' (x ∷ xs) ++ (b'/' ∷ rest) = cc in
      ap path_segments e
      ∙ path_segments-join y ys free' plain
      ∙ sym (split-join b'/' y ys free')
      ∙ ap (split b'/') same
      ∙ split-append b'/' (join b'/' (x ∷ xs)) rest
      ∙ ap (λ l. l ++ split b'/' rest) (split-join b'/' x xs free)

  contains→Leads :
      (start value : Bytes)
      → LinuxForm start
      → LinuxForm value
      → contains lib linux start value ≡ true
      → Leads start value
  contains→Leads start value (root e) g h = (
    path_segments value,
    sym (ap (λ l. l ++ path_segments value) (ap path_segments e ∙ path_segments-root)),
  )
  contains→Leads start value (segments x xs e free plain) g h =
      elim (Bool-cases (bytes_eq start value)) [
        | inl same ↦ (
          [],
          ap path_segments (sym ((bytes_eq_iff start value).0 same))
              ∙ sym (append-nil (path_segments start)),
        )
        | inr other ↦
            let tail : has_prefix value (with_separator lib b'/' start) ≡ true =
              ap (λ b. b || has_prefix value (with_separator lib b'/' start)) (sym other)
              ∙ sym (contains-linux start value)
              ∙ h in
            let ends : ends_with start b'/' ≡ false =
              ap (λ s. ends_with s b'/') e ∙ no_slash_at_end x xs free plain in
            let (rest, cut) =
              has_prefix_elim value (start ++ (b'/' ∷ []))
                (ap (has_prefix value) (sym (prefix_root start ends)) ∙ tail) in
            let placed : value ≡ (b'/' ∷ join b'/' (x ∷ xs)) ++ (b'/' ∷ rest) =
              cut ∙ append_assoc start (b'/' ∷ []) rest ∙ ap (λ s. s ++ (b'/' ∷ rest)) e in
            (
              split b'/' rest,
              beneath-segments x xs value rest free g placed
                  ∙ ap (λ l. l ++ split b'/' rest)
                      (sym (ap path_segments e ∙ path_segments-join x xs free plain)),
            )
      ]

  Leads-segments :
      (x : Bytes) (xs : List Bytes) (value : Bytes)
      → All (IsFree b'/') (x ∷ xs)
      → All IsPlain (x ∷ xs)
      → LinuxForm value
      → (rest : List Bytes) → path_segments value ≡ (x ∷ xs) ++ rest
      → contains lib linux (b'/' ∷ join b'/' (x ∷ xs)) value ≡ true
  Leads-segments x xs value free plain (root e) rest h =
      absurd (cc (sym (ap path_segments e ∙ path_segments-root) ∙ h))
  Leads-segments x xs value free plain (segments y ys e free' plain') [] h =
      let names : y ∷ ys ≡ x ∷ xs =
        sym (ap path_segments e ∙ path_segments-join y ys free' plain') ∙ h ∙ append-nil (x ∷ xs) in
      let same : (b'/' ∷ join b'/' (x ∷ xs)) ≡ value =
        sym (e ∙ ap (λ l. b'/' ∷ join b'/' l) names) in
      contains-linux (b'/' ∷ join b'/' (x ∷ xs)) value ∙ rw ((bytes_eq_iff _ value).1 same)
  Leads-segments x xs value free plain (segments y ys e free' plain') (z ∷ zs) h =
      let start = b'/' ∷ join b'/' (x ∷ xs) in
      let names : y ∷ ys ≡ (x ∷ xs) ++ (z ∷ zs) =
        sym (ap path_segments e ∙ path_segments-join y ys free' plain') ∙ h in
      let placed : value ≡ (start ++ (b'/' ∷ [])) ++ join b'/' (z ∷ zs) =
        e
        ∙ ap (λ l. b'/' ∷ join b'/' l) names
        ∙ ap (◌∷◌ b'/') (join-append b'/' x xs z zs)
        ∙ sym (append_assoc start (b'/' ∷ []) (join b'/' (z ∷ zs))) in
      let found : has_prefix value (with_separator lib b'/' start) ≡ true =
        ap (has_prefix value) (prefix_root start (no_slash_at_end x xs free plain))
        ∙ ap (λ v. has_prefix v (start ++ (b'/' ∷ []))) placed
        ∙ has_prefix_intro (start ++ (b'/' ∷ [])) (join b'/' (z ∷ zs)) in
      contains-linux start value ∙ rw found (or_true (bytes_eq start value))
    where
      or_true : (b : Bool) → (b || true) ≡ true
      or_true true = refl
      or_true false = refl

  Leads→contains :
      (start value : Bytes)
      → LinuxForm start
      → LinuxForm value
      → Leads start value
      → contains lib linux start value ≡ true
  Leads→contains start value (root e) g l =
      ap (λ s. contains lib linux s value) e ∙ contains-root value g
  Leads→contains start value (segments x xs e free plain) g (rest, h) =
      ap (λ s. contains lib linux s value) e
      ∙ Leads-segments x xs value free plain g rest
          (h ∙ ap (λ l. l ++ rest) (ap path_segments e ∙ path_segments-join x xs free plain))

  -- On canonical Linux paths `Contains` holds exactly when the names of the root are the first
  -- names of the candidate.
  pub contains_iff :
      (start value : Bytes)
      → LinuxForm start
      → LinuxForm value
      → (contains lib linux start value ≡ true) ↔ Leads start value
  contains_iff start value f g = (contains→Leads start value f g, Leads→contains start value f g)

  -- Two fronts of one list: one is a front of the other.
  fronts {ℓ} :
      {A : Type ℓ} (xs ys us vs : List A)
      → xs ++ us ≡ ys ++ vs
      → ((r : List A) × (ys ≡ xs ++ r)) ⊎ ((r : List A) × (xs ≡ ys ++ r))
  fronts [] ys us vs e = inl (ys, refl)
  fronts (x ∷ xs) [] us vs e = inr (x ∷ xs, refl)
  fronts (x ∷ xs) (y ∷ ys) us vs e =
      let heads : x ≡ y = cc in
      let tails : xs ++ us ≡ ys ++ vs = cc in
      elim (fronts xs ys us vs tails) [ inl (r, h) ↦ inl (r, cc) | inr (r, h) ↦ inr (r, cc) ]

  -- On Linux, two canonical roots that contain one canonical path overlap.
  pub contains-overlaps :
      (left right value : Bytes)
      → LinuxForm left
      → LinuxForm right
      → LinuxForm value
      → contains lib linux left value ≡ true
      → contains lib linux right value ≡ true
      → overlaps lib linux left right ≡ true
  unfolding overlaps
  contains-overlaps left right value f g h c d =
      let (us, e) = contains→Leads left value f h c in
      let (vs, k) = contains→Leads right value g h d in
      elim (fronts (path_segments left) (path_segments right) us vs (sym e ∙ k)) [
        | inl l ↦ rw (Leads→contains left right f g l)
        | inr l ↦ rw (Leads→contains right left g f l) (or_true (contains lib linux left right))
      ]
    where
      or_true : (b : Bool) → (b || true) ≡ true
      or_true true = refl
      or_true false = refl
