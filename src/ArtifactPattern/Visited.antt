-- ===== src/ArtifactPattern/Visited.antt =====
-- The maps `seen` and `memo` of internal/artifactpattern/match.go, and when they are right about
-- a table of results while calls are still running.
use agent_workstation_gatewa.Base.{
  ℕ, ◌≡◌, refl, sym, ◌∙◌, inl, inr, Bool, true, false, ◌&&◌, Option, none, some, ◌==◌,
  if◌then◌else◌, Bool-cases, arith,
}

-- `(bool, error)`, with `none` for an error
abbrev pub Outcome : Type 0
Outcome = Option Bool

abbrev pub Cells : Type 0
Cells = ℕ → ℕ → Bool

abbrev pub mark : Cells → ℕ → ℕ → Bool → Cells
mark t i j v = λ a b. if a == i && b == j then v else t a b

pub record Table : Type 0 where
  pub seen : Cells
  pub memo : Cells

abbrev pub fresh : Table
fresh = record { seen = λ a b. false; memo = λ a b. false }

-- `memo[current] = matched`
unfoldable pub remember : Table → ℕ → ℕ → Bool → Table
remember t i j v = record t { memo = mark t.memo i j v }

-- `seen[current] = true`
unfoldable pub enter : Table → ℕ → ℕ → Table
enter t i j = record t { seen = mark t.seen i j true }

-- `if seen[current] { return memo[current], nil }`, and else the rest of the function
unfoldable pub visit : Table → ℕ → ℕ → (Table → Outcome × Table) → Outcome × Table
unfolding enter
visit t i j rest = elim (t.seen i j) [ true ↦ (some (t.memo i j), t) | false ↦ rest (enter t i j) ]

-- The `bool` of a result; an error comes with false.
abbrev pub matched : Outcome → Bool
matched none = false
matched (some b) = b

-- `memo[current] = matched; return matched, err`
unfoldable pub settle : ℕ → ℕ → Outcome × Table → Outcome × Table
unfolding remember
settle i j (r, t) = (r, remember t i j (matched r))

-- A result that stands unless it is `false`, or unless it is `true`, with no tables.
abbrev pub first_or : Outcome → Outcome → Outcome
first_or none later = none
first_or (some true) later = some true
first_or (some false) later = later

abbrev pub first_and : Outcome → Outcome → Outcome
first_and none later = none
first_and (some false) later = some false
first_and (some true) later = later

-- With the calls in `busy` still running, every finished cell holds its result, and the others
-- hold nothing.
pub record IsRight (spec : ℕ → ℕ → Outcome) (busy : Cells) (t : Table) : Type 0 where
  pub right : (a b : ℕ) → t.seen a b ≡ true → busy a b ≡ false → spec a b ≡ some (t.memo a b)
  pub clear : (a b : ℕ) → t.memo a b ≡ true → (t.seen a b ≡ true) × (busy a b ≡ false)
  pub known : (a b : ℕ) → busy a b ≡ true → t.seen a b ≡ true

-- What a call at a cell returns: the cell's result, and a table that is right unless it failed.
pub record Answers (spec : ℕ → ℕ → Outcome) (busy : Cells) (i j : ℕ) (x : Outcome × Table)
    : Type 0 where
  pub result : x.0 ≡ spec i j
  pub table : (v : Bool) → x.0 ≡ some v → IsRight spec busy x.1

module _ (spec : ℕ → ℕ → Outcome) (busy : Cells) where
  pub fresh-IsRight : IsRight spec (λ a b. false) fresh
  fresh-IsRight = record {
    right = λ a b h k. cc;
    clear = λ a b h. absurd (cc h);
    known = λ a b h. cc;
  }

  module _ (i j : ℕ) (idle : busy i j ≡ false) where
    pub enter-IsRight :
        (t : Table)
        → t.seen i j ≡ false
        → IsRight spec busy t
        → IsRight spec (mark busy i j true) (enter t i j)
    unfolding enter
    enter-IsRight t new h = record {
      right = λ a b s k. ground (arith, h.right a b);
      clear = λ a b m. ground (arith, h.clear a b m);
      known = λ a b k. ground (arith, h.known a b);
    }

    -- The running call ends and writes its result.
    pub remember-IsRight :
        (t : Table) (v : Bool)
        → spec i j ≡ some v
        → IsRight spec (mark busy i j true) t
        → IsRight spec busy (remember t i j v)
    unfolding remember
    remember-IsRight t v e h = record {
      right = λ a b s k. ground (arith, h.right a b);
      clear = λ a b m. ground (arith, h.clear a b, h.known i j);
      known = λ a b k. ground (arith, h.known a b);
    }

    -- The running call ends with false and writes nothing.
    pub silent-IsRight :
        (t : Table)
        → spec i j ≡ some false
        → IsRight spec (mark busy i j true) t
        → IsRight spec busy t
    silent-IsRight t e h = record {
      right = λ a b s k. ground (arith, h.right a b, h.clear a b, h.clear i j);
      clear = λ a b m. ground (arith, h.clear a b);
      known = λ a b k. ground (arith, h.known a b);
    }

    pub settle-Answers :
        (i' j' : ℕ) (x : Outcome × Table)
        → spec i' j' ≡ spec i j
        → Answers spec (mark busy i j true) i' j' x
        → Answers spec busy i j (settle i j x)
    unfolding settle
    settle-Answers i' j' (none, t) e a = record {
      result = a.result ∙ e;
      table = λ v h. absurd (cc h);
    }
    settle-Answers i' j' (some v, t) e a = record {
      result = a.result ∙ e;
      table = λ w h. remember-IsRight t v (sym (a.result ∙ e)) (a.table v refl);
    }

    pub visit-Answers :
        (t : Table) (rest : Table → Outcome × Table)
        → IsRight spec busy t
        → ((u : Table) → IsRight spec (mark busy i j true) u → Answers spec busy i j (rest u))
        → Answers spec busy i j (visit t i j rest)
    unfolding visit
    visit-Answers t rest h go = elim (Bool-cases (t.seen i j)) [
      | inl old ↦ rw (old, visit) (record { result = sym (h.right i j old idle); table = λ v e. h })
      | inr new ↦ rw (new, visit) (go (enter t i j) (enter-IsRight t new h))
    ]
