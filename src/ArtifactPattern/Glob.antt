-- ===== src/ArtifactPattern/Glob.antt =====
-- What it means for a path to match a pattern, with no indices, no search order and no tables.
use agent_workstation_gatewa.Base.{
  ◌≡◌, refl, true, false, [], ◌∷◌, none, some, if◌then◌else◌, Bool-cases, inl, inr,
}
use agent_workstation_gatewa.Text.{Bytes}
use agent_workstation_gatewa.ArtifactPattern.{Segments, is_globstar, is_nil}
use agent_workstation_gatewa.ArtifactPattern.Visited.{Outcome, first_or, first_and}

module _ (segment_match : Bytes → Bytes → Outcome) where
  -- `**` takes any number of segments; any other segment of the pattern takes one.
  pub data Matches : Segments → Segments → Type 0 where
    done : Matches [] []
    leave :
        {p : Bytes} {ps cs : Segments} → is_globstar p ≡ true → Matches ps cs → Matches (p ∷ ps) cs
    take :
        {p c : Bytes} {ps cs : Segments}
        → is_globstar p ≡ true
        → Matches (p ∷ ps) cs
        → Matches (p ∷ ps) (c ∷ cs)
    one :
        {p c : Bytes} {ps cs : Segments}
        → is_globstar p ≡ false
        → segment_match p c ≡ some true
        → Matches ps cs
        → Matches (p ∷ ps) (c ∷ cs)

  -- Some segment of the pattern is refused by path.Match against some segment of the path.
  pub data BadSegment : Segments → Segments → Type 0 where
    here :
        {p c : Bytes} {ps cs : Segments}
        → is_globstar p ≡ false
        → segment_match p c ≡ none
        → BadSegment (p ∷ ps) (c ∷ cs)
    next_pattern : {p : Bytes} {ps cs : Segments} → BadSegment ps cs → BadSegment (p ∷ ps) cs
    next_path : {c : Bytes} {ps cs : Segments} → BadSegment ps cs → BadSegment ps (c ∷ cs)

  -- An answer about `G`, or the reason why there is none.
  abbrev pub Decides : Type 0 → Segments → Segments → Outcome → Type 0
  Decides G ps cs (some true) = G
  Decides G ps cs (some false) = ¬ G
  Decides G ps cs none = BadSegment ps cs

  -- The search without its tables.
  unfoldable pub glob : Segments → Segments → Outcome
  glob [] cs = some (is_nil cs)
  glob (p ∷ ps) [] = if is_globstar p then glob ps [] else some false
  glob (p ∷ ps) (c ∷ cs) =
      let globstar = first_or (glob ps (c ∷ cs)) (glob (p ∷ ps) cs) in
      let segment = first_and (segment_match p c) (glob ps cs) in
      if is_globstar p then globstar else segment

  pub not_done : {c : Bytes} {cs : Segments} → ¬ Matches [] (c ∷ cs)
  not_done d = elim d [ ]

  leave_inv :
      {p : Bytes} {ps : Segments} → Matches (p ∷ ps) [] → (is_globstar p ≡ true) × Matches ps []
  leave_inv (leave g d) = (g, d)

  pub globstar_inv :
      {p c : Bytes} {ps cs : Segments}
      → is_globstar p ≡ true
      → ¬ Matches ps (c ∷ cs)
      → Matches (p ∷ ps) (c ∷ cs)
      → Matches (p ∷ ps) cs
  globstar_inv g n (leave h d) = absurd (n d)
  globstar_inv g n (take h d) = d
  globstar_inv g n (one h e d) = cc

  pub one_inv :
      {p c : Bytes} {ps cs : Segments}
      → is_globstar p ≡ false
      → Matches (p ∷ ps) (c ∷ cs)
      → (segment_match p c ≡ some true) × Matches ps cs
  one_inv g (leave h d) = cc
  one_inv g (take h d) = cc
  one_inv g (one h e d) = (e, d)

  Decides-or :
      (p c : Bytes) (ps cs : Segments) (x y : Outcome)
      → is_globstar p ≡ true
      → Decides (Matches ps (c ∷ cs)) ps (c ∷ cs) x
      → Decides (Matches (p ∷ ps) cs) (p ∷ ps) cs y
      → Decides (Matches (p ∷ ps) (c ∷ cs)) (p ∷ ps) (c ∷ cs) (first_or x y)
  Decides-or p c ps cs none y g hx hy = next_pattern hx
  Decides-or p c ps cs (some true) y g hx hy = leave g hx
  Decides-or p c ps cs (some false) none g hx hy = next_path hy
  Decides-or p c ps cs (some false) (some true) g hx hy = take g hy
  Decides-or p c ps cs (some false) (some false) g hx hy = λ d. hy (globstar_inv g hx d)

  Decides-and :
      (p c : Bytes) (ps cs : Segments) (x y : Outcome)
      → is_globstar p ≡ false
      → segment_match p c ≡ x
      → Decides (Matches ps cs) ps cs y
      → Decides (Matches (p ∷ ps) (c ∷ cs)) (p ∷ ps) (c ∷ cs) (first_and x y)
  Decides-and p c ps cs none y g e hy = here g e
  Decides-and p c ps cs (some true) none g e hy = next_pattern (next_path hy)
  Decides-and p c ps cs (some true) (some true) g e hy = one g e hy
  Decides-and p c ps cs (some true) (some false) g e hy = λ d. hy (one_inv g d).1
  Decides-and p c ps cs (some false) y g e hy = λ d. cc ((one_inv g d).0)

  Decides-skip :
      (p : Bytes) (ps : Segments) (x : Outcome)
      → is_globstar p ≡ true
      → Decides (Matches ps []) ps [] x
      → Decides (Matches (p ∷ ps) []) (p ∷ ps) [] x
  Decides-skip p ps none g hx = next_pattern hx
  Decides-skip p ps (some true) g hx = leave g hx
  Decides-skip p ps (some false) g hx = λ d. hx (leave_inv d).1

  pub glob-Decides : (ps cs : Segments) → Decides (Matches ps cs) ps cs (glob ps cs)
  unfolding glob
  glob-Decides [] [] = done
  glob-Decides [] (c ∷ cs) = not_done
  glob-Decides (p ∷ ps) [] = elim (Bool-cases (is_globstar p)) [
    | inl g ↦ rw g (Decides-skip p ps (glob ps []) g (glob-Decides ps []))
    | inr g ↦ rw g (λ d. cc ((leave_inv d).0))
  ]
  glob-Decides (p ∷ ps) (c ∷ cs) = elim (Bool-cases (is_globstar p)) [
    | inl g ↦
        rw g (Decides-or p c ps cs _ _ g (glob-Decides ps (c ∷ cs)) (glob-Decides (p ∷ ps) cs))
    | inr g ↦ rw g (Decides-and p c ps cs _ _ g refl (glob-Decides ps cs))
  ]
