-- ===== src/ArtifactPattern/Descendant.antt =====
-- `CouldMatchDescendant` against `Match`: what it answers about the paths beneath a prefix.
use agent_workstation_gatewa.Base.{
  ℕ, suc, ◌+◌, ◌≡◌, ◌≢◌, refl, sym, ◌∙◌, ap, ap₂, subst, ◌⊎◌, inl, inr, true, false, none, some, [],
  ◌∷◌, ◌++◌, drop, All, if◌then◌else◌, Bool-cases, arith,
}
use agent_workstation_gatewa.Text.{
  Bytes, codes, contains_byte, split, join, split_nonempty, IsFree, split-append, split-join,
}
use agent_workstation_gatewa.ArtifactPattern.{
  Segments, slash, is_globstar, possible_from, match, could_match_descendant,
}
use agent_workstation_gatewa.ArtifactPattern.Glob.{
  Matches, done, leave, take, one, Decides, not_done, globstar_inv, one_inv,
}
use agent_workstation_gatewa.ArtifactPattern.Memo.{match-Decides}
use agent_workstation_gatewa.ArtifactPattern.Calls.{
  IsEarly, IsEarly-idle, IsEarly-mark, drop-suc, write-Answers, silent-Answers, step-Answers,
}
use agent_workstation_gatewa.ArtifactPattern.Visited.{
  Outcome, Cells, mark, Table, first_or, first_and, fresh, IsRight, Answers, fresh-IsRight,
  visit-Answers,
}

module _ (segment_match : Bytes → Bytes → Outcome) where
  -- The search beneath a prefix without its tables.
  unfoldable pub reach : Segments → Segments → Outcome
  reach [] [] = some false
  reach (p ∷ ps) [] = some true
  reach [] (c ∷ cs) = some false
  reach (p ∷ ps) (c ∷ cs) =
      let globstar = first_or (reach ps (c ∷ cs)) (reach (p ∷ ps) cs) in
      let segment = first_and (segment_match p c) (reach ps cs) in
      if is_globstar p then globstar else segment

  reach_here : (p : Bytes) (ps : Segments) → reach (p ∷ ps) [] ≡ some true
  unfolding reach
  reach_here p ps = refl

  reach_over : (cs : Segments) → reach [] cs ≡ some false
  unfolding reach
  reach_over [] = refl
  reach_over (c ∷ cs) = refl

  reach-globstar :
      (p c : Bytes) (ps cs : Segments)
      → is_globstar p ≡ true
      → reach (p ∷ ps) (c ∷ cs) ≡ first_or (reach ps (c ∷ cs)) (reach (p ∷ ps) cs)
  unfolding reach
  reach-globstar p c ps cs g = rw g

  reach-segment :
      (p c : Bytes) (ps cs : Segments)
      → is_globstar p ≡ false
      → reach (p ∷ ps) (c ∷ cs) ≡ first_and (segment_match p c) (reach ps cs)
  unfolding reach
  reach-segment p c ps cs g = rw g

  module _ (pattern path : Segments) where
    abbrev spec : ℕ → ℕ → Outcome
    spec a b = reach (drop a pattern) (drop b path)

    possible_from-Answers :
        (i j : ℕ) (ps cs : Segments) (busy : Cells) (t : Table)
        → drop i pattern ≡ ps
        → drop j path ≡ cs
        → IsEarly busy (i + j)
        → IsRight spec busy t
        → Answers spec busy i j (possible_from segment_match i j ps cs t)
    unfolding possible_from
    possible_from-Answers i j [] [] busy t e f early h =
        let idle = IsEarly-idle busy i j early in
        visit-Answers spec busy i j idle t _ h (λ u hu.
          write-Answers spec busy i j idle u false (ap₂ reach e f ∙ unfold reach in refl) hu)
    possible_from-Answers i j (p ∷ ps) [] busy t e f early h =
        let idle = IsEarly-idle busy i j early in
        visit-Answers spec busy i j idle t _ h (λ u hu.
          write-Answers spec busy i j idle u true (ap₂ reach e f ∙ unfold reach in refl) hu)
    possible_from-Answers i j [] (c ∷ cs) busy t e f early h =
        let idle = IsEarly-idle busy i j early in
        visit-Answers spec busy i j idle t _ h
          (λ u hu. silent-Answers spec busy i j idle u (ap₂ reach e f ∙ unfold reach in refl) hu)
    possible_from-Answers i j (p ∷ ps) (c ∷ cs) busy t e f early h =
        let idle = IsEarly-idle busy i j early in
        let e' = drop-suc i pattern p ps e in
        let f' = drop-suc j path c cs f in
        step-Answers spec busy i j idle (is_globstar p) (segment_match p c) _ _ _
          (λ g.
            ap₂ reach e f
            ∙ reach-globstar p c ps cs g
            ∙ ap₂ first_or (sym (ap₂ reach e' f)) (sym (ap₂ reach e f')))
          (λ g.
            ap₂ reach e f
            ∙ reach-segment p c ps cs g
            ∙ ap (first_and (segment_match p c)) (sym (ap₂ reach e' f')))
          (λ u hu.
            possible_from-Answers (suc i) j ps (c ∷ cs) (mark busy i j true) u e' f
              (IsEarly-mark busy i j (suc i + j) (omega arith) early) hu)
          (λ u hu.
            possible_from-Answers i (suc j) (p ∷ ps) cs (mark busy i j true) u e f'
              (IsEarly-mark busy i j (i + suc j) (omega arith) early) hu)
          (λ u hu.
            possible_from-Answers (suc i) (suc j) ps cs (mark busy i j true) u e' f'
              (IsEarly-mark busy i j (suc i + suc j) (omega arith) early) hu)
          t h

  could_match_descendant-reach :
      (pattern prefix : Bytes)
      → could_match_descendant segment_match pattern prefix
        ≡ reach (split slash pattern) (split slash prefix)
  unfolding could_match_descendant
  could_match_descendant-reach pattern prefix =
      (possible_from-Answers (split slash pattern) (split slash prefix) 0 0 _ _ (λ a b. false) fresh
        refl refl (λ a b k. absurd (cc k)) (fresh-IsRight _ (λ a b. false))).result

  first_or-false : (x y : Outcome) → first_or x y ≡ some false → (x ≡ some false) × (y ≡ some false)
  first_or-false (some false) y e = (refl, e)
  first_or-false (some true) y e = cc
  first_or-false none y e = cc

  first_or-true : (x y : Outcome) → first_or x y ≡ some true → (x ≡ some true) ⊎ (y ≡ some true)
  first_or-true (some true) y e = inl refl
  first_or-true (some false) y e = inr e
  first_or-true none y e = cc

  first_and-true : (x y : Outcome) → first_and x y ≡ some true → (x ≡ some true) × (y ≡ some true)
  first_and-true (some true) y e = (refl, e)
  first_and-true (some false) y e = cc
  first_and-true none y e = cc

  first_and-false : (x y : Outcome) → first_and x y ≡ some false → x ≡ some true → y ≡ some false
  first_and-false (some true) y e h = e
  first_and-false (some false) y e h = cc
  first_and-false none y e h = cc

  -- Where the search says no, nothing beneath matches.
  reach_complete :
      (ps cs : Segments) (d : Bytes) (rest : Segments)
      → reach ps cs ≡ some false
      → ¬ Matches segment_match ps (cs ++ (d ∷ rest))
  reach_complete [] [] d rest e = λ m. not_done segment_match m
  reach_complete (p ∷ ps) [] d rest e = absurd (cc (reach_here p ps, e))
  reach_complete [] (c ∷ cs) d rest e = λ m. not_done segment_match m
  reach_complete (p ∷ ps) (c ∷ cs) d rest e = elim (Bool-cases (is_globstar p)) [
    | inl g ↦
        let (x, y) = first_or-false _ _ (sym (reach-globstar p c ps cs g) ∙ e) in
        λ m.
          reach_complete (p ∷ ps) cs d rest y
            (globstar_inv segment_match g (reach_complete ps (c ∷ cs) d rest x) m)
    | inr g ↦ λ m.
        let (h, m') = one_inv segment_match g m in
        reach_complete ps cs d rest (first_and-false _ _ (sym (reach-segment p c ps cs g) ∙ e) h) m'
  ]

  -- A segment of a pattern other than `**` that some name matches.
  abbrev pub IsSatisfiable : Bytes → Type 0
  IsSatisfiable p =
      is_globstar p ≡ false → (c : Bytes) × (segment_match p c ≡ some true) × IsFree slash c

  abbrev Beneath : Segments → Segments → Type 0
  Beneath ps cs =
      (d : Bytes) × (rest : Segments) × Matches segment_match ps (cs ++ (d ∷ rest))
      × All (IsFree slash) (d ∷ rest)

  abbrev Filled : Segments → Type 0
  Filled ps = (xs : Segments) × Matches segment_match ps xs × All (IsFree slash) xs

  fill : (ps : Segments) → All IsSatisfiable ps → Filled ps
  fill [] h = ([], done, tt)
  fill (p ∷ ps) h =
      let (xs, m, free) = fill ps h.1 in
      elim (Bool-cases (is_globstar p)) [
        | inl g ↦ (xs, leave g m, free)
        | inr g ↦ let (c, e, f) = h.0 g in (c ∷ xs, one g e m, (f, free))
      ]

  fill-Beneath : (p : Bytes) (ps : Segments) → All IsSatisfiable (p ∷ ps) → Beneath (p ∷ ps) []
  fill-Beneath p ps h =
      let (xs, m, free) = fill ps h.1 in
      elim (Bool-cases (is_globstar p)) [
        | inl g ↦ (codes "x", xs, take g (leave g m), (unfold contains_byte in refl, free))
        | inr g ↦ let (c, e, f) = h.0 g in (c, xs, one g e m, (f, free))
      ]

  reach_sound : (ps cs : Segments) → All IsSatisfiable ps → reach ps cs ≡ some true → Beneath ps cs
  reach_sound [] [] h e = absurd (cc (reach_over [], e))
  reach_sound (p ∷ ps) [] h e = fill-Beneath p ps h
  reach_sound [] (c ∷ cs) h e = absurd (cc (reach_over (c ∷ cs), e))
  reach_sound (p ∷ ps) (c ∷ cs) h e = elim (Bool-cases (is_globstar p)) [
    | inl g ↦ elim (first_or-true _ _ (sym (reach-globstar p c ps cs g) ∙ e)) [
      | inl x ↦ let (d, rest, m, free) = reach_sound ps (c ∷ cs) h.1 x in (d, rest, leave g m, free)
      | inr y ↦ let (d, rest, m, free) = reach_sound (p ∷ ps) cs h y in (d, rest, take g m, free)
    ]
    | inr g ↦
        let (a, b) = first_and-true _ _ (sym (reach-segment p c ps cs g) ∙ e) in
        let (d, rest, m, free) = reach_sound ps cs h.1 b in (d, rest, one g a m, free)
  ]

  -- If some path beneath the prefix matches, then `CouldMatchDescendant` does not answer no.
  pub could_match_descendant_complete :
      (pattern prefix suffix : Bytes)
      → match segment_match pattern (prefix ++ (slash ∷ suffix)) ≡ some true
      → could_match_descendant segment_match pattern prefix ≢ some false
  could_match_descendant_complete pattern prefix suffix e no_match =
      beneath (split slash suffix) (split_nonempty slash suffix)
        (rw (split-append slash prefix suffix) at matches)
    where
      matches :
          Matches segment_match (split slash pattern) (split slash (prefix ++ (slash ∷ suffix)))
      matches =
          subst (Decides segment_match _ _ _) e
            (match-Decides segment_match pattern (prefix ++ (slash ∷ suffix)))

      beneath :
          (xs : Segments)
          → xs ≢ []
          → Matches segment_match (split slash pattern) (split slash prefix ++ xs)
          → ⊥
      beneath [] ne m = ne refl
      beneath (d ∷ rest) ne m =
          reach_complete (split slash pattern) (split slash prefix) d rest
            (sym (could_match_descendant-reach pattern prefix) ∙ no_match) m

  -- If `CouldMatchDescendant` answers yes and every segment of the pattern matches some name,
  -- then some path beneath the prefix matches the pattern.
  pub could_match_descendant_sound :
      (pattern prefix : Bytes)
      → All IsSatisfiable (split slash pattern)
      → could_match_descendant segment_match pattern prefix ≡ some true
      → (suffix : Bytes) × Matches segment_match
          (split slash pattern)
          (split slash (prefix ++ (slash ∷ suffix)))
  could_match_descendant_sound pattern prefix h e =
      let (d, rest, m, free) =
        reach_sound (split slash pattern) (split slash prefix) h
          (sym (could_match_descendant-reach pattern prefix) ∙ e) in
      (
        join slash (d ∷ rest),
        rw (split-append slash prefix (join slash (d ∷ rest)), split-join slash d rest free) m,
      )
