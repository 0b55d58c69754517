-- ===== src/ExecutionRun/Artifacts/Groups.antt =====
-- Every manifest that a run reports keeps to the groups of the plan's selections.
use agent_workstation_gatewa.Base.{
  ℕ, ◌≡◌, refl, sym, subst, inl, inr, Bool, true, false, not, ◌&&◌, ◌||◌, List, [], ◌∷◌, ok, ltb,
  ◌==◌, Bool-cases, length, All, All-map, All-append, Option, none, some, arith,
}
use agent_workstation_gatewa.Text.{Bytes, bytes_eq, bytes_eq_iff, bytes_eq-false_iff}
use agent_workstation_gatewa.Library.{Library}
use agent_workstation_gatewa.PlatformPath.{is_one_of}
use agent_workstation_gatewa.Protocol.Types.{
  items, ArtifactSelection, ArtifactFile, ArtifactOmission, ArtifactManifest,
  ArtifactOmissionReason,
}
use agent_workstation_gatewa.Protocol.Accepts.{deny-eq-ok}
use agent_workstation_gatewa.Protocol.Records.{
  group_names, is_not_requested, no_names, deny_file, deny_omission,
}
use agent_workstation_gatewa.ExecutionPolicy.{LaunchPlan}
use agent_workstation_gatewa.ExecutionRun.Types.{ArtifactPlan, ArtifactCollection}
use agent_workstation_gatewa.ExecutionRun.Artifacts.{
  omitted, all_omitted, failed_artifact_manifest, patterns_of, is_matched, is_listed, files_allowed,
  omissions_allowed, artifact_collection_allowed, has_bundle, artifact_plan_of, keep_collection,
  ask_collector, collect_artifacts,
}

-- The manifest speaks of the selected groups only, and says that nothing was requested exactly
-- where nothing was selected.
pub record Represents (selections : List ArtifactSelection) (m : ArtifactManifest) : Type 0 where
  pub requested : (no_names (group_names selections) && not (is_not_requested m.status)) ≡ false
  pub not_forgotten : (not (no_names (group_names selections)) && is_not_requested m.status) ≡ false
  pub files : All (λ f. deny_file (group_names selections) f ≡ ok tt) (items m.files)
  pub omissions : All (λ o. deny_omission (group_names selections) o ≡ ok tt) (items m.omissions)

patterns_of-none :
    (selections : List ArtifactSelection) (name : Bytes)
    → is_one_of (group_names selections) name ≡ false
    → patterns_of selections name ≡ none
unfolding patterns_of is_one_of
patterns_of-none [] name h = refl
patterns_of-none (a ∷ selections) name h =
    let other : bytes_eq a.name name ≡ false =
      (bytes_eq-false_iff a.name name).1
        (λ e. (bytes_eq-false_iff name a.name).0 (ground arith) (sym e)) in
    rw (patterns_of-none selections name (ground arith), other)

ok_of_true : (b : Bool) → b ≡ true → not b ≡ false
ok_of_true b h = ground arith

deny_omission-ok :
    (names : List Bytes) (o : ArtifactOmission)
    → is_one_of names o.group ≡ true
    → deny_omission names o ≡ ok tt
deny_omission-ok names o h = (deny-eq-ok (not (is_one_of names o.group)) _ _).1 (ok_of_true _ h)

omitted-ok :
    (names : List Bytes) (group : Bytes) (patterns : List Bytes)
    → is_one_of names group ≡ true
    → All (λ o. deny_omission names o ≡ ok tt) (omitted group patterns)
omitted-ok names group [] h = tt
omitted-ok names group (p ∷ patterns) h = (
  deny_omission-ok names
      (record {
        group = group;
        pattern_text = p;
        reason = ArtifactOmissionReason.collection_failed;
      })
      h,
  omitted-ok names group patterns h,
)

all_omitted-ok :
    (names : List Bytes) (selections : List ArtifactSelection)
    → All (λ a. is_one_of names a.name ≡ true) selections
    → All (λ o. deny_omission names o ≡ ok tt) (all_omitted selections)
unfolding all_omitted
all_omitted-ok names [] h = tt
all_omitted-ok names (a ∷ selections) h =
    All-append (λ o. deny_omission names o ≡ ok tt) (omitted a.name (items a.paths))
      (all_omitted selections) (omitted-ok names a.name (items a.paths) (h.0))
      (all_omitted-ok names selections (h.1))

group_names-own :
    (selections : List ArtifactSelection)
    → All (λ a. is_one_of (group_names selections) a.name ≡ true) selections
unfolding is_one_of
group_names-own [] = tt
group_names-own (a ∷ selections) = (
  rw ((bytes_eq_iff a.name a.name).1 refl),
  All-map (λ b. is_one_of (group_names selections) b.name ≡ true)
      (λ b. is_one_of (a.name ∷ group_names selections) b.name ≡ true) selections
      (λ b e. or_true (bytes_eq b.name a.name) _ e) (group_names-own selections),
)
  where
    or_true : (x y : Bool) → y ≡ true → (x || y) ≡ true
    or_true x y h = ground arith

-- The manifest of a failed collection.
pub failed_artifact_manifest-Represents :
    (selections : List ArtifactSelection)
    → Represents selections (failed_artifact_manifest selections)
unfolding failed_artifact_manifest
failed_artifact_manifest-Represents [] = record {
  requested = refl;
  not_forgotten = refl;
  files = tt;
  omissions = tt;
}
failed_artifact_manifest-Represents (a ∷ selections) = record {
  requested = refl;
  not_forgotten = refl;
  files = tt;
  omissions =
      all_omitted-ok (group_names (a ∷ selections)) (a ∷ selections)
        (group_names-own (a ∷ selections));
}

pub failed-no_files :
    (selections : List ArtifactSelection)
    → false ≡ ltb 0 (length (items (failed_artifact_manifest selections).files))
unfolding failed_artifact_manifest
failed-no_files [] = refl
failed-no_files (a ∷ selections) = refl

length-nil :
    (selections : List ArtifactSelection) → (length selections == 0) ≡ true → selections ≡ []
length-nil [] h = refl
length-nil (a ∷ selections) h = absurd (ground arith)

module _ (lib : Library) where
  and_true : (a b : Bool) → (a && b) ≡ true → (a ≡ true) × (b ≡ true)
  and_true a b h = ground arith

  files_allowed-ok :
      (selections : List ArtifactSelection) (files : List ArtifactFile)
      → files_allowed lib selections files ≡ true
      → All (λ f. deny_file (group_names selections) f ≡ ok tt) files
  unfolding files_allowed
  files_allowed-ok selections [] h = tt
  files_allowed-ok selections (f ∷ files) h =
      let (a, b) = and_true (is_matched lib (patterns_of selections f.group) f.path) _ h in
      (
        elim (Bool-cases (is_one_of (group_names selections) f.group)) [
          | inl e ↦
              (deny-eq-ok (not (is_one_of (group_names selections) f.group)) _ _).1 (ok_of_true _ e)
          | inr e ↦
              let no : false ≡ true = rw (patterns_of-none selections f.group e) at a in cc (no)
        ],
        files_allowed-ok selections files b,
      )

  omissions_allowed-ok :
      (selections : List ArtifactSelection) (omissions : List ArtifactOmission)
      → omissions_allowed lib selections omissions ≡ true
      → All (λ o. deny_omission (group_names selections) o ≡ ok tt) omissions
  unfolding omissions_allowed
  omissions_allowed-ok selections [] h = tt
  omissions_allowed-ok selections (o ∷ omissions) h =
      let (a, b) = and_true (is_listed (patterns_of selections o.group) o.pattern_text) _ h in
      (
        elim (Bool-cases (is_one_of (group_names selections) o.group)) [
          | inl e ↦ deny_omission-ok (group_names selections) o e
          | inr e ↦
              let no : false ≡ true = rw (patterns_of-none selections o.group e) at a in cc (no)
        ],
        omissions_allowed-ok selections omissions b,
      )

  nil_lem {ℓ} : {A : Type ℓ} (P : A → Type 0) (xs : List A) → (length xs == 0) ≡ true → All P xs
  nil_lem P [] h = tt
  nil_lem P (x ∷ xs) h = absurd (ground arith)

  -- A collection that `artifactCollectionAllowed` lets through.
  pub artifact_collection_allowed-Represents :
      (m : ArtifactManifest) (selections : List ArtifactSelection)
      → artifact_collection_allowed lib m selections ≡ true
      → Represents selections m
  unfolding artifact_collection_allowed
  artifact_collection_allowed-Represents m [] h =
      let (a, b) = and_true _ (length (items m.omissions) == 0) h in
      let (c, d) = and_true (is_not_requested m.status) (length (items m.files) == 0) a in
      record {
        requested = ground arith;
        not_forgotten = refl;
        files = nil_lem _ (items m.files) d;
        omissions = nil_lem _ (items m.omissions) b;
      }
  artifact_collection_allowed-Represents m (a ∷ selections) h =
      let (b, c) = and_true _ (omissions_allowed lib (a ∷ selections) (items m.omissions)) h in
      let (d, e) = and_true (not (is_not_requested m.status)) _ b in
      record {
        requested = refl;
        not_forgotten = ground arith;
        files = files_allowed-ok (a ∷ selections) (items m.files) e;
        omissions = omissions_allowed-ok (a ∷ selections) (items m.omissions) c;
      }

  keep_collection-Represents :
      (plan : LaunchPlan) (c : ArtifactCollection)
      → Represents plan.artifacts (keep_collection lib plan c).0
        × (has_bundle (keep_collection lib plan c).1
            ≡ ltb 0 (length (items (keep_collection lib plan c).0.files)))
  unfolding keep_collection
  keep_collection-Represents plan c =
      let allowed = artifact_collection_allowed lib c.manifest plan.artifacts in
      let count = length (items c.manifest.files) in
      elim (Bool-cases (c.failed || not allowed || (ltb 0 count && not (has_bundle c.bundle)))) [
        | inl bad ↦
            rw bad
              (failed_artifact_manifest-Represents plan.artifacts, failed-no_files plan.artifacts)
        | inr good ↦
            let represents =
              artifact_collection_allowed-Represents c.manifest plan.artifacts
                (kept_allowed c.failed allowed _ good) in
            elim (Bool-cases (count == 0)) [
              | inl e ↦ rw (good, e) (represents, empty_lem count e)
              | inr e ↦ rw (good, e) (represents, bundle_lem c.failed allowed count _ good e)
            ]
      ]
    where
      kept_allowed : (a b c : Bool) → (a || not b || c) ≡ false → b ≡ true
      kept_allowed a b c h = ground arith

      empty_lem : (n : ℕ) → (n == 0) ≡ true → false ≡ ltb 0 n
      empty_lem n h = ground arith

      bundle_lem :
          (a b : Bool) (n : ℕ) (c : Bool)
          → (a || not b || (ltb 0 n && not c)) ≡ false
          → (n == 0) ≡ false
          → c ≡ ltb 0 n
      bundle_lem a b n c h k = ground arith

  answer-Represents :
      (plan : LaunchPlan) (collector : Option (ArtifactPlan → ArtifactCollection))
      → Represents plan.artifacts (ask_collector lib plan collector).0
        × (has_bundle (ask_collector lib plan collector).1
            ≡ ltb 0 (length (items (ask_collector lib plan collector).0.files)))
  unfolding ask_collector
  answer-Represents plan none =
      (failed_artifact_manifest-Represents plan.artifacts, failed-no_files plan.artifacts)
  answer-Represents plan (some collect) =
      keep_collection-Represents plan (collect (artifact_plan_of plan))

  -- Whatever the collector answers, the manifest that is reported names selected groups only, it says
  -- that nothing was requested exactly where nothing was selected, and a bundle is kept exactly where
  -- the manifest has files.
  pub collect_artifacts-Represents :
      (plan : LaunchPlan) (collector : Option (ArtifactPlan → ArtifactCollection))
      → Represents plan.artifacts (collect_artifacts lib plan collector).0
        × (has_bundle (collect_artifacts lib plan collector).1
            ≡ ltb 0 (length (items (collect_artifacts lib plan collector).0.files)))
  unfolding collect_artifacts
  collect_artifacts-Represents plan collector = elim (Bool-cases (length plan.artifacts == 0)) [
    | inl e ↦ rw e (
      subst (λ selections. Represents selections (failed_artifact_manifest []))
          (sym (length-nil plan.artifacts e)) (failed_artifact_manifest-Represents []),
      failed-no_files [],
    )
    | inr e ↦ rw e (answer-Represents plan collector)
  ]
