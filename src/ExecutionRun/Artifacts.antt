-- ===== src/ExecutionRun/Artifacts.antt =====
-- internal/executionrun/run.go: the manifests of failed and of collected artifacts.
pub mod Groups
use agent_workstation_gatewa.Base.{
  ℕ, Bool, true, false, not, ◌&&◌, ◌||◌, List, [], ◌∷◌, ◌++◌, map, ltb, ◌==◌, if◌then◌else◌, length,
  Option, none, some,
}
use agent_workstation_gatewa.Text.{Bytes, bytes_eq}
use agent_workstation_gatewa.Library.{Library}
use agent_workstation_gatewa.ArtifactPattern.{match}
use agent_workstation_gatewa.PlatformPath.{is_one_of}
use agent_workstation_gatewa.Protocol.Types.{
  items, ArtifactSelection, ArtifactFile, ArtifactOmission, ArtifactManifest, ArtifactStatus,
  not_requested, ArtifactOmissionReason,
}
use agent_workstation_gatewa.Protocol.Records.{is_not_requested}
use agent_workstation_gatewa.ExecutionPolicy.{LaunchPlan, clone_artifact_selections}
use agent_workstation_gatewa.ExecutionRun.Types.{ArtifactPlan, ArtifactBundle, ArtifactCollection}

-- The omissions of one selection
abbrev pub omitted : Bytes → List Bytes → List ArtifactOmission
omitted group [] = []
omitted group (pattern_text ∷ patterns) =
    record {
      group = group;
      pattern_text = pattern_text;
      reason = ArtifactOmissionReason.collection_failed;
    }
    ∷ omitted group patterns

unfoldable pub all_omitted : List ArtifactSelection → List ArtifactOmission
all_omitted [] = []
all_omitted (selection ∷ selections) =
    omitted selection.name (items selection.paths) ++ all_omitted selections

-- `failedArtifactManifest`
unfoldable pub failed_artifact_manifest : List ArtifactSelection → ArtifactManifest
failed_artifact_manifest [] = record {
  status = not_requested;
  files = some [];
  omissions = some [];
}
failed_artifact_manifest (selection ∷ selections) = record {
  status = ArtifactStatus.failed;
  files = some [];
  omissions = some (all_omitted (selection ∷ selections));
}

or_later : Option (List Bytes) → Option (List Bytes) → Option (List Bytes)
or_later (some later) earlier = some later
or_later none earlier = earlier

-- `groups[name]`: of two selections with one name the later counts
unfoldable pub patterns_of : List ArtifactSelection → Bytes → Option (List Bytes)
unfolding or_later
patterns_of [] name = none
patterns_of (selection ∷ selections) name =
    or_later (patterns_of selections name)
      (if bytes_eq selection.name name then some (items selection.paths) else none)

or_matched : Option Bool → Option Bool → Option Bool
or_matched (some a) (some b) = some (a || b)
or_matched _ _ = none

abbrev pub is_true : Option Bool → Bool
is_true (some true) = true
is_true _ = false

abbrev pub is_listed : Option (List Bytes) → Bytes → Bool
is_listed none pattern_text = false
is_listed (some patterns) pattern_text = is_one_of patterns pattern_text

abbrev pub has_bundle : Option ArtifactBundle → Bool
has_bundle none = false
has_bundle (some bundle) = true

abbrev pub artifact_plan_of : LaunchPlan → ArtifactPlan
artifact_plan_of plan = record {
  execution_identity = plan.execution_identity;
  working_directory = plan.working_directory;
  approved_root = plan.approved_root;
  selections = clone_artifact_selections plan.artifacts;
}

module _ (lib : Library) where
  -- The loop over the patterns: whether one of them matches, `none` where one is malformed
  unfoldable pub some_match : List Bytes → Bytes → Option Bool
  unfolding or_matched
  some_match [] path = some false
  some_match (pattern_text ∷ patterns) path =
      or_matched (match lib.path_match pattern_text path) (some_match patterns path)

  abbrev pub is_matched : Option (List Bytes) → Bytes → Bool
  is_matched none path = false
  is_matched (some patterns) path = is_true (some_match patterns path)

  unfoldable pub files_allowed : List ArtifactSelection → List ArtifactFile → Bool
  files_allowed selections [] = true
  files_allowed selections (file ∷ files) =
      is_matched (patterns_of selections file.group) file.path && files_allowed selections files

  unfoldable pub omissions_allowed : List ArtifactSelection → List ArtifactOmission → Bool
  omissions_allowed selections [] = true
  omissions_allowed selections (omission ∷ omissions) =
      is_listed (patterns_of selections omission.group) omission.pattern_text
      && omissions_allowed selections omissions

  -- `artifactCollectionAllowed`
  unfoldable pub artifact_collection_allowed : ArtifactManifest → List ArtifactSelection → Bool
  artifact_collection_allowed manifest [] =
      is_not_requested manifest.status
      && length (items manifest.files) == 0
      && length (items manifest.omissions) == 0
  artifact_collection_allowed manifest (selection ∷ selections) =
      not (is_not_requested manifest.status)
      && files_allowed (selection ∷ selections) (items manifest.files)
      && omissions_allowed (selection ∷ selections) (items manifest.omissions)

  -- What is kept of a collection
  unfoldable pub keep_collection :
      LaunchPlan → ArtifactCollection → ArtifactManifest × Option ArtifactBundle
  keep_collection plan collection =
      if collection.failed
        || not (artifact_collection_allowed collection.manifest plan.artifacts)
        || (ltb 0 (length (items collection.manifest.files)) && not (has_bundle collection.bundle))
      then (failed_artifact_manifest plan.artifacts, none)
      else if length (items collection.manifest.files) == 0
      then (collection.manifest, none)
      else (collection.manifest, collection.bundle)

  unfoldable pub ask_collector :
      LaunchPlan
      → Option (ArtifactPlan → ArtifactCollection)
      → ArtifactManifest × Option ArtifactBundle
  unfolding keep_collection
  ask_collector plan none = (failed_artifact_manifest plan.artifacts, none)
  ask_collector plan (some collect) = keep_collection plan (collect (artifact_plan_of plan))

  -- `collectArtifacts`
  unfoldable pub collect_artifacts :
      LaunchPlan
      → Option (ArtifactPlan → ArtifactCollection)
      → ArtifactManifest × Option ArtifactBundle
  unfolding ask_collector keep_collection
  collect_artifacts plan collector =
      if length plan.artifacts == 0
      then (failed_artifact_manifest [], none)
      else ask_collector plan collector
