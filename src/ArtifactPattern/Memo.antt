-- ===== src/ArtifactPattern/Memo.antt =====
-- `Match` with its tables answers what the plain search answers, and so decides the relation.
use agent_workstation_gatewa.Base.{
  ℕ, suc, ◌+◌, ◌≡◌, refl, sym, ◌∙◌, ap, ap₂, true, false, some, [], ◌∷◌, drop, arith,
}
use agent_workstation_gatewa.Text.{Bytes, split}
use agent_workstation_gatewa.ArtifactPattern.{
  Segments, slash, is_globstar, is_nil, match_from, match,
}
use agent_workstation_gatewa.ArtifactPattern.Glob.{Matches, Decides, glob, glob-Decides}
use agent_workstation_gatewa.ArtifactPattern.Calls.{
  IsEarly, IsEarly-idle, IsEarly-mark, drop-suc, write-Answers, last-Answers, step-Answers,
}
use agent_workstation_gatewa.ArtifactPattern.Visited.{
  Outcome, Cells, mark, Table, first_or, first_and, fresh, IsRight, Answers, fresh-IsRight,
  visit-Answers,
}

module _ (segment_match : Bytes → Bytes → Outcome) where
  glob-globstar :
      (p c : Bytes) (ps cs : Segments)
      → is_globstar p ≡ true
      → glob segment_match (p ∷ ps) (c ∷ cs)
        ≡ first_or (glob segment_match ps (c ∷ cs)) (glob segment_match (p ∷ ps) cs)
  unfolding glob
  glob-globstar p c ps cs g = rw g

  glob-nil :
      (p : Bytes) (ps : Segments)
      → is_globstar p ≡ true
      → glob segment_match (p ∷ ps) [] ≡ first_or (glob segment_match ps []) (some false)
  unfolding glob
  glob-nil p ps g = rw g (ground arith)

  glob_stuck :
      (p : Bytes) (ps : Segments)
      → is_globstar p ≡ false
      → glob segment_match (p ∷ ps) [] ≡ some false
  unfolding glob
  glob_stuck p ps g = rw g

  glob-segment :
      (p c : Bytes) (ps cs : Segments)
      → is_globstar p ≡ false
      → glob segment_match (p ∷ ps) (c ∷ cs)
        ≡ first_and (segment_match p c) (glob segment_match ps cs)
  unfolding glob
  glob-segment p c ps cs g = rw g

  module _ (pattern path : Segments) where
    abbrev spec : ℕ → ℕ → Outcome
    spec a b = glob segment_match (drop a pattern) (drop b path)

    spec_at :
        (i j : ℕ) (ps cs : Segments)
        → drop i pattern ≡ ps
        → drop j path ≡ cs
        → spec i j ≡ glob segment_match ps cs
    spec_at i j ps cs e f = ap₂ (glob segment_match) e f

    match_from-Answers :
        (i j : ℕ) (ps cs : Segments) (busy : Cells) (t : Table)
        → drop i pattern ≡ ps
        → drop j path ≡ cs
        → IsEarly busy (i + j)
        → IsRight spec busy t
        → Answers spec busy i j (match_from segment_match i j ps cs t)
    unfolding match_from
    match_from-Answers i j [] cs busy t e f early h =
        let idle = IsEarly-idle busy i j early in
        visit-Answers spec busy i j idle t _ h (λ u hu.
          write-Answers spec busy i j idle u (is_nil cs)
            (spec_at i j [] cs e f ∙ unfold glob in refl) hu)
    match_from-Answers i j (p ∷ ps) [] busy t e f early h =
        let idle = IsEarly-idle busy i j early in
        let e' = drop-suc i pattern p ps e in
        let here = spec_at i j (p ∷ ps) [] e f in
        last-Answers spec busy i j idle (is_globstar p) _
          (λ g.
            here
            ∙ glob-nil p ps g
            ∙ ap (λ r. first_or r (some false)) (sym (spec_at (suc i) j ps [] e' f)))
          (λ g. here ∙ glob_stuck p ps g)
          (λ u hu.
            match_from-Answers (suc i) j ps [] (mark busy i j true) u e' f
              (IsEarly-mark busy i j (suc i + j) (omega arith) early) hu)
          t h
    match_from-Answers i j (p ∷ ps) (c ∷ cs) busy t e f early h =
        let idle = IsEarly-idle busy i j early in
        let e' = drop-suc i pattern p ps e in
        let f' = drop-suc j path c cs f in
        let here = spec_at i j (p ∷ ps) (c ∷ cs) e f in
        step-Answers spec busy i j idle (is_globstar p) (segment_match p c) _ _ _
          (λ g.
            here
            ∙ glob-globstar p c ps cs g
            ∙ ap₂ first_or (sym (spec_at (suc i) j ps (c ∷ cs) e' f))
                (sym (spec_at i (suc j) (p ∷ ps) cs e f')))
          (λ g.
            here
            ∙ glob-segment p c ps cs g
            ∙ ap (first_and (segment_match p c)) (sym (spec_at (suc i) (suc j) ps cs e' f')))
          (λ u hu.
            match_from-Answers (suc i) j ps (c ∷ cs) (mark busy i j true) u e' f
              (IsEarly-mark busy i j (suc i + j) (omega arith) early) hu)
          (λ u hu.
            match_from-Answers i (suc j) (p ∷ ps) cs (mark busy i j true) u e f'
              (IsEarly-mark busy i j (i + suc j) (omega arith) early) hu)
          (λ u hu.
            match_from-Answers (suc i) (suc j) ps cs (mark busy i j true) u e' f'
              (IsEarly-mark busy i j (suc i + suc j) (omega arith) early) hu)
          t h

  -- The tables change no answer.
  pub match-glob :
      (pattern candidate : Bytes)
      → match segment_match pattern candidate
        ≡ glob segment_match (split slash pattern) (split slash candidate)
  unfolding match
  match-glob pattern candidate =
      (match_from-Answers (split slash pattern) (split slash candidate) 0 0 _ _ (λ a b. false) fresh
        refl refl (λ a b k. absurd (cc k)) (fresh-IsRight _ (λ a b. false))).result

  -- `Match` returns true only if the path's segments match the pattern's, false only if they do
  -- not, and an error only if path.Match refuses some segment of the pattern.
  pub match-Decides :
      (pattern candidate : Bytes)
      → Decides segment_match
          (Matches segment_match (split slash pattern) (split slash candidate))
          (split slash pattern)
          (split slash candidate)
          (match segment_match pattern candidate)
  match-Decides pattern candidate =
      rw (match-glob pattern candidate)
        (glob-Decides segment_match (split slash pattern) (split slash candidate))
