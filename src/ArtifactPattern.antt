-- ===== src/ArtifactPattern.antt =====
-- internal/artifactpattern/match.go: `Match` and `CouldMatchDescendant`, with their two maps
-- threaded through the calls. A suffix of the segments is passed beside the index at which it
-- starts. `segment_match` stands for path.Match; `none` is its ErrBadPattern.
pub mod Visited
pub mod Glob
pub mod Calls
pub mod Memo
pub mod Descendant
use agent_workstation_gatewa.Base.{
  ℕ, suc, Bool, true, false, List, [], ◌∷◌, Option, none, some, if◌then◌else◌,
}
use agent_workstation_gatewa.Text.{Bytes, codes, bytes_eq, split}
use Visited.{Outcome, Table, fresh, visit, remember, settle}

abbrev pub Segments : Type 0
Segments = List Bytes

abbrev pub slash : ℕ
slash = b'/'

unfoldable pub is_globstar : Bytes → Bool
unfolding bytes_eq
is_globstar p = bytes_eq p (codes "**")

abbrev pub is_nil : Segments → Bool
is_nil [] = true
is_nil (_ ∷ _) = false

-- After a first call that found no match, `go_on` makes the second; an error or a match ends here.
unfoldable pub or_else : ℕ → ℕ → Outcome × Table → (Table → Outcome × Table) → Outcome × Table
unfolding remember
or_else i j (none, t) go_on = (none, remember t i j false)
or_else i j (some true, t) go_on = (some true, remember t i j true)
or_else i j (some false, t) go_on = go_on t

-- A segment's test comes first; without a match the call ends at once and writes nothing.
unfoldable pub and_then : Outcome → Table → (Table → Outcome × Table) → Outcome × Table
and_then none t go_on = (none, t)
and_then (some false) t go_on = (some false, t)
and_then (some true) t go_on = go_on t

module _ (segment_match : Bytes → Bytes → Outcome) where
  -- the closure `match` of `Match`
  unfoldable pub match_from : ℕ → ℕ → Segments → Segments → Table → Outcome × Table
  unfolding visit remember settle or_else and_then is_globstar
  match_from i j [] cs t = visit t i j (λ u. (some (is_nil cs), remember u i j (is_nil cs)))
  match_from i j (p ∷ ps) [] t = visit t i j (λ u.
      if is_globstar p
      then or_else i j (match_from (suc i) j ps [] u) (λ v. (some false, v))
      else (some false, u))
  match_from i j (p ∷ ps) (c ∷ cs) t = visit t i j (λ u.
      let globstar =
        or_else i j (match_from (suc i) j ps (c ∷ cs) u)
          (λ v. settle i j (match_from i (suc j) (p ∷ ps) cs v)) in
      let segment =
        and_then (segment_match p c) u (λ v. settle i j (match_from (suc i) (suc j) ps cs v)) in
      if is_globstar p then globstar else segment)

  -- `Match`
  unfoldable pub match : Bytes → Bytes → Outcome
  unfolding match_from split
  match pattern candidate = (match_from 0 0 (split slash pattern) (split slash candidate) fresh).0

  -- the closure `possible` of `CouldMatchDescendant`
  unfoldable pub possible_from : ℕ → ℕ → Segments → Segments → Table → Outcome × Table
  unfolding visit remember settle or_else and_then is_globstar
  possible_from i j [] [] t = visit t i j (λ u. (some false, remember u i j false))
  possible_from i j (p ∷ ps) [] t = visit t i j (λ u. (some true, remember u i j true))
  possible_from i j [] (c ∷ cs) t = visit t i j (λ u. (some false, u))
  possible_from i j (p ∷ ps) (c ∷ cs) t = visit t i j (λ u.
      let globstar =
        or_else i j (possible_from (suc i) j ps (c ∷ cs) u)
          (λ v. settle i j (possible_from i (suc j) (p ∷ ps) cs v)) in
      let segment =
        and_then (segment_match p c) u (λ v. settle i j (possible_from (suc i) (suc j) ps cs v)) in
      if is_globstar p then globstar else segment)

  -- `CouldMatchDescendant`
  unfoldable pub could_match_descendant : Bytes → Bytes → Outcome
  unfolding possible_from split
  could_match_descendant pattern prefix =
      (possible_from 0 0 (split slash pattern) (split slash prefix) fresh).0
