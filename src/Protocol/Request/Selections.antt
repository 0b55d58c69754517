-- ===== src/Protocol/Request/Selections.antt =====
-- The artifact selections that a request may carry.
use agent_workstation_gatewa.Base.{
  ℕ, ◌+◌, ◌≤◌, ◌≡◌, ◌≢◌, refl, sym, false, List, [], ◌∷◌, ok, >>=-eq-ok, >>-eq-ok, ltb, length,
  none, some, All, All-map, Distinct, Avoids, arith,
}
use agent_workstation_gatewa.Text.{Bytes}
use agent_workstation_gatewa.Library.{Library}
use agent_workstation_gatewa.PlatformPath.{is_one_of}
use agent_workstation_gatewa.Protocol.Types.{
  Slice, items, ArtifactSelection, max_artifact_groups, max_artifact_group_bytes,
  max_artifact_paths, max_total_artifact_paths, max_artifact_path_bytes,
}
use agent_workstation_gatewa.Protocol.Fields.{is_bad_name, validate_artifact_path}
use agent_workstation_gatewa.Protocol.Accepts.{
  deny->>, deny-eq-ok, is_one_of-false_iff, IsName, is_bad_name_iff, IsArtifactPath,
  validate_artifact_path-IsArtifactPath,
}
use agent_workstation_gatewa.Protocol.Request.{
  validate_paths, is_bad_count, validate_groups, validate_artifact_selections,
}

module _ (lib : Library) where
  -- What a run of the inner loop that returns a count has seen.
  record PathsSeen (seen : List Bytes) (total : ℕ) (paths : List Bytes) (result : ℕ) : Type 0 where
    counted : result ≡ total + length paths
    safe : All (IsArtifactPath lib max_artifact_path_bytes) paths
    distinct : Distinct paths
    unseen : All (Avoids seen) paths

  validate_paths-PathsSeen :
      (seen : List Bytes) (total : ℕ) (paths : List Bytes) {result : ℕ}
      → validate_paths lib seen total paths ≡ ok result
      → PathsSeen seen total paths result
  unfolding validate_paths
  validate_paths-PathsSeen seen total [] h = record {
    counted = ground arith;
    safe = tt;
    distinct = tt;
    unseen = tt;
  }
  validate_paths-PathsSeen seen total (path ∷ paths) h =
      let (a, k) = (>>-eq-ok (validate_artifact_path lib path) _).0 h in
      let (b, l) = (deny->> (is_one_of seen path) _ _ _).0 k in
      let later = validate_paths-PathsSeen (path ∷ seen) (total + 1) paths l in
      record {
        counted = let c = later.counted in omega arith;
        safe = (validate_artifact_path-IsArtifactPath lib path a, later.safe);
        distinct = (
          All-map (Avoids (path ∷ seen)) (λ y. path ≢ y) paths (λ y d e. d.0 (sym e)) later.unseen,
          later.distinct,
        );
        unseen = (
          (is_one_of-false_iff seen path).0 b,
          All-map (Avoids (path ∷ seen)) (Avoids seen) paths (λ y d. d.1) later.unseen,
        );
      }

  abbrev pub path_total : List ArtifactSelection → ℕ
  path_total [] = 0
  path_total (a ∷ as') = length (items a.paths) + path_total as'

  -- A named group of one to sixteen distinct safe paths.
  pub record IsSelection (a : ArtifactSelection) : Type 0 where
    pub named : IsName a.name
    pub short : length a.name ≤ max_artifact_group_bytes
    pub some_paths : items a.paths ≢ []
    pub few_paths : length (items a.paths) ≤ max_artifact_paths
    pub distinct_paths : Distinct (items a.paths)
    pub safe_paths : All (IsArtifactPath lib max_artifact_path_bytes) (items a.paths)

  abbrev pub names_of : List ArtifactSelection → List Bytes
  names_of [] = []
  names_of (a ∷ as') = a.name ∷ names_of as'

  record GroupsSeen (names : List Bytes) (total : ℕ) (xs : List ArtifactSelection) (result : ℕ)
      : Type 0 where
    counted : result ≡ total + path_total xs
    valid : All IsSelection xs
    distinct : Distinct (names_of xs)
    unseen : All (Avoids names) (names_of xs)

  count_lem :
      (paths : Slice Bytes)
      → is_bad_count lib paths ≡ false
      → (items paths ≢ []) × (length (items paths) ≤ max_artifact_paths)
  count_lem none h = cc
  count_lem (some []) h = cc
  count_lem (some (p ∷ ps)) h = (λ e. cc, ground arith)

  validate_groups-GroupsSeen :
      (names : List Bytes) (total : ℕ) (xs : List ArtifactSelection) {result : ℕ}
      → validate_groups lib names total xs ≡ ok result
      → GroupsSeen names total xs result
  unfolding validate_groups
  validate_groups-GroupsSeen names total [] h = record {
    counted = ground arith;
    valid = tt;
    distinct = tt;
    unseen = tt;
  }
  validate_groups-GroupsSeen names total (a ∷ xs) h =
      let (p, k) = (deny->> (is_bad_name max_artifact_group_bytes a.name) _ _ _).0 h in
      let (q, l) = (deny->> (is_one_of names a.name) _ _ _).0 k in
      let (r, m) = (deny->> (is_bad_count lib a.paths) _ _ _).0 l in
      let (total', n, o) = >>=-eq-ok (validate_paths lib [] total (items a.paths)) _ m in
      let inner = validate_paths-PathsSeen [] total (items a.paths) n in
      let later = validate_groups-GroupsSeen (a.name ∷ names) total' xs o in
      let (named, short) = (is_bad_name_iff max_artifact_group_bytes a.name (omega arith)).0 p in
      let (some_paths, few_paths) = count_lem a.paths r in
      record {
        counted = let c = inner.counted in let d = later.counted in omega arith;
        valid = (
          record {
            named = named;
            short = short;
            some_paths = some_paths;
            few_paths = few_paths;
            distinct_paths = inner.distinct;
            safe_paths = inner.safe;
          },
          later.valid,
        );
        distinct = (
          All-map (Avoids (a.name ∷ names)) (λ y. a.name ≢ y) (names_of xs) (λ y d e. d.0 (sym e))
              later.unseen,
          later.distinct,
        );
        unseen = (
          (is_one_of-false_iff names a.name).0 q,
          All-map (Avoids (a.name ∷ names)) (Avoids names) (names_of xs) (λ y d. d.1) later.unseen,
        );
      }

  -- At most eight groups with distinct names, and at most 64 paths in all.
  pub record IsSelections (xs : List ArtifactSelection) : Type 0 where
    pub few_groups : length xs ≤ max_artifact_groups
    pub few_paths : path_total xs ≤ max_total_artifact_paths
    pub distinct_names : Distinct (names_of xs)
    pub valid : All IsSelection xs

  -- The artifact selections that the check lets through are a present array, within every count
  -- limit, of distinctly named groups of distinct safe relative paths.
  pub validate_artifact_selections-IsSelections :
      (artifacts : Slice ArtifactSelection)
      → validate_artifact_selections lib artifacts ≡ ok tt
      → (artifacts ≡ some (items artifacts)) × IsSelections (items artifacts)
  unfolding validate_artifact_selections
  validate_artifact_selections-IsSelections none h = cc
  validate_artifact_selections-IsSelections (some xs) h =
      let (a, k) = (deny->> (ltb max_artifact_groups (length xs)) _ _ _).0 h in
      let (total, m, o) = >>=-eq-ok (validate_groups lib [] 0 xs) _ k in
      let b = (deny-eq-ok (ltb max_total_artifact_paths total) _ _).0 o in
      let seen = validate_groups-GroupsSeen [] 0 xs m in
      let c = seen.counted in
      (
        refl,
        record {
          few_groups = ground arith;
          few_paths = ground arith;
          distinct_names = seen.distinct;
          valid = seen.valid;
        },
      )
