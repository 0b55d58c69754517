-- ===== src/Samples/Patterns.antt =====
-- Artifact patterns, with a path.Match that knows `*`, and refuses a lone `[`.
use agent_workstation_gatewa.Base.{
  ◌≡◌, ◌≢◌, refl, true, false, ◌∷◌, ◌++◌, none, some, if◌then◌else◌, All,
}
use agent_workstation_gatewa.Text.{Bytes, codes, bytes_eq, contains_byte, split}
use agent_workstation_gatewa.ArtifactPattern.{slash, is_globstar, match, could_match_descendant}
use agent_workstation_gatewa.ArtifactPattern.Visited.{Outcome}
use agent_workstation_gatewa.ArtifactPattern.Glob.{Matches, Decides}
use agent_workstation_gatewa.ArtifactPattern.Memo.{match-Decides}
use agent_workstation_gatewa.ArtifactPattern.Descendant.{
  IsSatisfiable, could_match_descendant_complete, could_match_descendant_sound,
}

star_or_name : Bytes → Bytes → Outcome
star_or_name p c =
    if bytes_eq p (codes "*")
    then some true
    else if bytes_eq p (codes "[")
    then none
    else some (bytes_eq p c)

globstar_run : match star_or_name (codes "out/**/log") (codes "out/a/b/log") ≡ some true
unfolding match star_or_name
globstar_run = refl

error_run : match star_or_name (codes "out/[") (codes "out/a") ≡ none
unfolding match star_or_name
error_run = refl

boundary_run : could_match_descendant star_or_name (codes "out/*/log") (codes "out/a") ≡ some true
unfolding could_match_descendant star_or_name
boundary_run = refl

match-Decides_example :
    Decides star_or_name
      (Matches star_or_name (split slash (codes "out/**/log")) (split slash (codes "out/a/b/log")))
      (split slash (codes "out/**/log"))
      (split slash (codes "out/a/b/log"))
      (match star_or_name (codes "out/**/log") (codes "out/a/b/log"))
match-Decides_example = match-Decides star_or_name (codes "out/**/log") (codes "out/a/b/log")

could_match_descendant_complete_example :
    could_match_descendant star_or_name (codes "out/**/log") (codes "out/a") ≢ some false
could_match_descendant_complete_example =
    could_match_descendant_complete star_or_name (codes "out/**/log") (codes "out/a")
      (codes "b/log") globstar_run

satisfiable : All (IsSatisfiable star_or_name) (split slash (codes "out/*/log"))
unfolding split is_globstar star_or_name contains_byte
satisfiable = (
  λ g. (codes "out", refl, refl),
  (λ g. (codes "a", refl, refl), (λ g. (codes "log", refl, refl), tt)),
)

could_match_descendant_sound_example :
    (suffix : Bytes) × Matches star_or_name
      (split slash (codes "out/*/log"))
      (split slash (codes "out/a" ++ (slash ∷ suffix)))
could_match_descendant_sound_example =
    could_match_descendant_sound star_or_name (codes "out/*/log") (codes "out/a") satisfiable
      boundary_run
