-- ===== src/ArtifactPattern/Calls.antt =====
-- One call of either closure: what it answers, from what the calls inside it answer.
use agent_workstation_gatewa.Base.{
  ℕ, zero, suc, ◌+◌, ◌<◌, ◌≡◌, refl, sym, ◌∙◌, ap, inl, inr, Bool, true, false, none, some, [], ◌∷◌,
  List, drop, if◌then◌else◌, Bool-cases, arith,
}
use agent_workstation_gatewa.ArtifactPattern.{or_else, and_then}
use agent_workstation_gatewa.ArtifactPattern.Visited.{
  Outcome, Cells, mark, Table, first_or, first_and, remember, visit, settle, IsRight, Answers,
  remember-IsRight, silent-IsRight, settle-Answers, visit-Answers,
}

-- The calls still running stand at cells of a smaller sum.
abbrev pub IsEarly : Cells → ℕ → Type 0
IsEarly busy n = (a b : ℕ) → busy a b ≡ true → a + b < n

pub IsEarly-idle : (busy : Cells) (i j : ℕ) → IsEarly busy (i + j) → busy i j ≡ false
IsEarly-idle busy i j h = elim (Bool-cases (busy i j)) [
  | inl e ↦ absurd (let l : i + j < i + j = h i j e in omega arith)
  | inr e ↦ e
]

pub IsEarly-mark :
    (busy : Cells) (i j n : ℕ) → i + j < n → IsEarly busy (i + j) → IsEarly (mark busy i j true) n
IsEarly-mark busy i j n l h a b m = ground (arith, h a b)

pub drop-suc {ℓ} :
    {A : Type ℓ} (i : ℕ) (l : List A) (x : A) (xs : List A)
    → drop i l ≡ x ∷ xs
    → drop (suc i) l ≡ xs
drop-suc zero [] x xs e = cc
drop-suc (suc i) [] x xs e = cc
drop-suc zero (y ∷ l) x xs e = cc
drop-suc (suc i) (y ∷ l) x xs e = drop-suc i l x xs e

module _ (spec : ℕ → ℕ → Outcome) (busy : Cells) (i j : ℕ) (idle : busy i j ≡ false) where
  pub write-Answers :
      (t : Table) (v : Bool)
      → spec i j ≡ some v
      → IsRight spec (mark busy i j true) t
      → Answers spec busy i j (some v, remember t i j v)
  write-Answers t v e h = record {
    result = sym e;
    table = λ w k. remember-IsRight spec busy i j idle t v e h;
  }

  pub silent-Answers :
      (t : Table)
      → spec i j ≡ some false
      → IsRight spec (mark busy i j true) t
      → Answers spec busy i j (some false, t)
  silent-Answers t e h = record {
    result = sym e;
    table = λ w k. silent-IsRight spec busy i j idle t e h;
  }

  pub or_else-Answers :
      (i' j' : ℕ) (y : Outcome) (x : Outcome × Table) (go_on : Table → Outcome × Table)
      → spec i j ≡ first_or (spec i' j') y
      → Answers spec (mark busy i j true) i' j' x
      → ((t : Table)
          → IsRight spec (mark busy i j true) t
          → spec i j ≡ y
          → Answers spec busy i j (go_on t))
      → Answers spec busy i j (or_else i j x go_on)
  unfolding or_else
  or_else-Answers i' j' y (none, t) go_on e a k = record {
    result = sym (e ∙ ap (λ r. first_or r y) (sym a.result));
    table = λ w h. absurd (cc h);
  }
  or_else-Answers i' j' y (some true, t) go_on e a k =
      write-Answers t true (e ∙ ap (λ r. first_or r y) (sym a.result)) (a.table true refl)
  or_else-Answers i' j' y (some false, t) go_on e a k =
      k t (a.table false refl) (e ∙ ap (λ r. first_or r y) (sym a.result))

  pub and_then-Answers :
      (r y : Outcome) (t : Table) (go_on : Table → Outcome × Table)
      → spec i j ≡ first_and r y
      → IsRight spec (mark busy i j true) t
      → (spec i j ≡ y → Answers spec busy i j (go_on t))
      → Answers spec busy i j (and_then r t go_on)
  unfolding and_then
  and_then-Answers none y t go_on e h k = record { result = sym e; table = λ w d. absurd (cc d) }
  and_then-Answers (some false) y t go_on e h k = silent-Answers t e h
  and_then-Answers (some true) y t go_on e h k = k e

  -- A visit to a cell where both lists have a head: `g` says whether the pattern's is `**`.
  pub step-Answers :
      (g : Bool) (r : Outcome) (down right across : Table → Outcome × Table)
      → (g ≡ true → spec i j ≡ first_or (spec (suc i) j) (spec i (suc j)))
      → (g ≡ false → spec i j ≡ first_and r (spec (suc i) (suc j)))
      → ((t : Table)
          → IsRight spec (mark busy i j true) t
          → Answers spec (mark busy i j true) (suc i) j (down t))
      → ((t : Table)
          → IsRight spec (mark busy i j true) t
          → Answers spec (mark busy i j true) i (suc j) (right t))
      → ((t : Table)
          → IsRight spec (mark busy i j true) t
          → Answers spec (mark busy i j true) (suc i) (suc j) (across t))
      → (t : Table) → IsRight spec busy t
      → Answers spec busy i j (
          visit t i j (λ u.
            if g
            then or_else i j (down u) (λ v. settle i j (right v))
            else and_then r u (λ v. settle i j (across v))))
  step-Answers true r down right across eg es hd hr ha t h =
      visit-Answers spec busy i j idle t _ h (λ u hu.
        or_else-Answers (suc i) j (spec i (suc j)) (down u) _ (eg refl) (hd u hu)
          (λ v hv e. settle-Answers spec busy i j idle i (suc j) (right v) (sym e) (hr v hv)))
  step-Answers false r down right across eg es hd hr ha t h =
      visit-Answers spec busy i j idle t _ h (λ u hu.
        and_then-Answers r (spec (suc i) (suc j)) u _ (es refl) hu
          (λ e. settle-Answers spec busy i j idle (suc i) (suc j) (across u) (sym e) (ha u hu)))

  -- The same where the path is used up.
  pub last-Answers :
      (g : Bool) (down : Table → Outcome × Table)
      → (g ≡ true → spec i j ≡ first_or (spec (suc i) j) (some false))
      → (g ≡ false → spec i j ≡ some false)
      → ((t : Table)
          → IsRight spec (mark busy i j true) t
          → Answers spec (mark busy i j true) (suc i) j (down t))
      → (t : Table) → IsRight spec busy t
      → Answers spec busy i j (
          visit t i j
            (λ u. if g then or_else i j (down u) (λ v. (some false, v)) else (some false, u)))
  last-Answers true down eg es hd t h = visit-Answers spec busy i j idle t _ h (λ u hu.
      or_else-Answers (suc i) j (some false) (down u) _ (eg refl) (hd u hu)
        (λ v hv e. silent-Answers v e hv))
  last-Answers false down eg es hd t h =
      visit-Answers spec busy i j idle t _ h (λ u hu. silent-Answers u (es refl) hu)
