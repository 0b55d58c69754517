-- ===== src/Protocol/Report/Manifest.antt =====
-- What an artifact manifest that is let through can hold.
use agent_workstation_gatewa.Base.{
  ℕ, ◌+◌, ◌%◌, ◌^◌, ◌≤◌, ◌≡◌, ◌≢◌, sym, ap, ◌∙◌, inl, inr, not, ◌||◌, List, [], ◌∷◌, ◌++◌, ok,
  >>=-eq-ok, >>-eq-ok, ltb, Bool-cases, ℤ, pos, negsuc, length, All, All-map, Distinct, Avoids,
  arith,
}
use agent_workstation_gatewa.Text.{Bytes}
use agent_workstation_gatewa.Library.{Library}
use agent_workstation_gatewa.PlatformPath.{is_one_of}
use agent_workstation_gatewa.Protocol.Types.{
  items, ArtifactFile, ArtifactManifest, max_artifact_files, max_artifact_omissions,
  max_artifact_file_bytes, max_total_artifact_bytes, max_artifact_file_path_bytes,
  max_artifact_group_bytes,
}
use agent_workstation_gatewa.Protocol.Fields.{
  is_bad_name, validate_artifact_group, validate_artifact_file_path, validate_lower_hex,
}
use agent_workstation_gatewa.Protocol.Accepts.{
  deny->>, deny-eq-ok, is_one_of-false_iff, IsName, is_bad_name_iff, IsArtifactPath,
  validate_artifact_file_path-IsArtifactPath,
}
use agent_workstation_gatewa.Protocol.Report.{
  is_supported_status, is_nil, file_identity, file_size, or_deny, validate_status_shape,
  validate_files, validate_artifact_manifest,
}

abbrev pub size_of : ℤ → ℕ
size_of (pos n) = n
size_of (negsuc n) = 0

-- The sum of the sizes, with no bound on it.
abbrev pub total_size : List ArtifactFile → ℕ
total_size [] = 0
total_size (f ∷ fs) = size_of f.size_bytes + total_size fs

-- A file's group and path.
abbrev pub keys : List ArtifactFile → List (Bytes × Bytes)
keys [] = []
keys (f ∷ fs) = (f.group, f.path) ∷ keys fs

abbrev identities : List ArtifactFile → List Bytes
identities [] = []
identities (f ∷ fs) = file_identity f ∷ identities fs

size_lem :
    (x : ℤ) (f r : _) {size : ℕ}
    → or_deny (file_size x) f r ≡ ok size
    → (size_of x ≡ size) × (x ≡ pos size) × (size ≤ max_artifact_file_bytes)
size_lem (negsuc n) f r h = cc
size_lem (pos n) f r {size} h = elim (Bool-cases (ltb max_artifact_file_bytes n)) [
  | inl e ↦ absurd (cc (rw e at h))
  | inr e ↦
      let same : ok n ≡ ok size = rw e at h in
      let value : n ≡ size = cc in (value, ap pos value, ground arith)
]

-- Two files with one group and path would have one identity.
keys-identities :
    (f : ArtifactFile) (fs : List ArtifactFile)
    → All (λ y. file_identity f ≢ y) (identities fs)
    → All (λ y. (f.group, f.path) ≢ y) (keys fs)
keys-identities f [] h = tt
keys-identities f (g ∷ fs) h =
    (λ e. h.0 (ap (λ (group, path). group ++ (0 ∷ path)) e), keys-identities f fs (h.1))

module _ (lib : Library) where
  -- A file of the manifest: in a named group, under a safe relative path, and of bounded size.
  pub record IsFile (f : ArtifactFile) : Type 0 where
    pub named : IsName f.group
    pub short : length f.group ≤ max_artifact_group_bytes
    pub safe : IsArtifactPath lib max_artifact_file_path_bytes f.path
    pub sized : f.size_bytes ≡ pos (size_of f.size_bytes)
    pub bounded : size_of f.size_bytes ≤ max_artifact_file_bytes

  record FilesSeen (seen : List Bytes) (total : ℕ) (files : List ArtifactFile) : Type 0 where
    valid : All IsFile files
    bounded : total + total_size files ≤ max_total_artifact_bytes
    distinct : Distinct (keys files)
    unseen : All (Avoids seen) (identities files)

  no_wrap :
      (total size : ℕ)
      → total ≤ max_total_artifact_bytes
      → size ≤ max_artifact_file_bytes
      → (total + size) % 2 ^ 64 ≡ total + size
  no_wrap total size h k = omega arith

  group_lem :
      (field : _) (g : Bytes)
      → validate_artifact_group field g ≡ ok tt
      → IsName g × (length g ≤ max_artifact_group_bytes)
  unfolding validate_artifact_group
  group_lem field g h =
      (is_bad_name_iff max_artifact_group_bytes g (omega arith)).0
        ((deny-eq-ok (is_bad_name max_artifact_group_bytes g) _ _).0 h)

  validate_files-FilesSeen :
      (seen : List Bytes) (total : ℕ) (files : List ArtifactFile)
      → total ≤ max_total_artifact_bytes
      → validate_files lib seen total files ≡ ok tt
      → FilesSeen seen total files
  unfolding validate_files
  validate_files-FilesSeen seen total [] small h = record {
    valid = tt;
    bounded = omega arith;
    distinct = tt;
    unseen = tt;
  }
  validate_files-FilesSeen seen total (f ∷ files) small h =
      let (a, h1) = (>>-eq-ok (validate_artifact_group "artifacts.files.group" f.group) _).0 h in
      let (b, h2) = (>>-eq-ok (validate_artifact_file_path lib f.path) _).0 h1 in
      let (_, h3) = (>>-eq-ok (validate_lower_hex "artifacts.files.sha256" f.sha256 64) _).0 h2 in
      let (size, d, h4) = >>=-eq-ok (or_deny (file_size f.size_bytes) _ _) _ h3 in
      let (e, h5) = (deny->> (is_one_of seen (file_identity f)) _ _ _).0 h4 in
      let (g, h6) = (deny->> (ltb max_total_artifact_bytes ((total + size) % 2 ^ 64)) _ _ _).0 h5 in
      let (x, y, z) = size_lem f.size_bytes _ _ d in
      let (named, short) = group_lem _ f.group a in
      let exact = no_wrap total size small z in
      let rest =
        validate_files-FilesSeen (file_identity f ∷ seen) ((total + size) % 2 ^ 64) files
          (ground arith) h6 in
      record {
        valid = (
          record {
            named = named;
            short = short;
            safe = validate_artifact_file_path-IsArtifactPath lib f.path b;
            sized = y ∙ ap pos (sym x);
            bounded = omega (arith, x, z);
          },
          rest.valid,
        );
        bounded = let s = rest.bounded in omega (arith, x, exact, s);
        distinct = (
          keys-identities f files (
              All-map (Avoids (file_identity f ∷ seen)) (λ y. file_identity f ≢ y)
                (identities files) (λ y q e. q.0 (sym e)) rest.unseen),
          rest.distinct,
        );
        unseen = (
          (is_one_of-false_iff seen (file_identity f)).0 e,
          All-map (Avoids (file_identity f ∷ seen)) (Avoids seen) (identities files) (λ y q. q.1)
              rest.unseen,
        );
      }

  -- A manifest that may be reported.
  pub record IsManifest (m : ArtifactManifest) : Type 0 where
    pub few_files : length (items m.files) ≤ max_artifact_files
    pub few_omissions : length (items m.omissions) ≤ max_artifact_omissions
    pub shaped : validate_status_shape m m.status ≡ ok tt
    pub files : All IsFile (items m.files)
    pub bounded : total_size (items m.files) ≤ max_total_artifact_bytes
    pub distinct : Distinct (keys (items m.files))

  -- A manifest that the check lets through lists at most 256 files and 128 omissions, in keeping
  -- with its status. The files have safe relative paths, no two the same group and path, and sizes
  -- of at most 512 MiB each and of at most 1 GiB in all, with no overflow of the sum.
  pub validate_artifact_manifest-IsManifest :
      (m : ArtifactManifest) → validate_artifact_manifest lib m ≡ ok tt → IsManifest m
  unfolding validate_artifact_manifest
  validate_artifact_manifest-IsManifest m h =
      let (_, h1) = (deny->> (not (is_supported_status m.status)) _ _ _).0 h in
      let (_, h2) = (deny->> (is_nil m.files || is_nil m.omissions) _ _ _).0 h1 in
      let (a, h3) = (deny->> (ltb max_artifact_files (length (items m.files))) _ _ _).0 h2 in
      let (b, h4) =
        (deny->> (ltb max_artifact_omissions (length (items m.omissions))) _ _ _).0 h3 in
      let (c, h5) = (>>-eq-ok (validate_status_shape m m.status) _).0 h4 in
      let (d, _) = (>>-eq-ok (validate_files lib [] 0 (items m.files)) _).0 h5 in
      let seen = validate_files-FilesSeen [] 0 (items m.files) (omega arith) d in
      record {
        few_files = ground arith;
        few_omissions = ground arith;
        shaped = c;
        files = seen.valid;
        bounded = let s = seen.bounded in omega (arith, s);
        distinct = seen.distinct;
      }
