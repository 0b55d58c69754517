-- ===== src/ExecutionRun/Background/Lookup.antt =====
-- The table by key, and the list of entries by number, after a deletion, an act and an addition.
use agent_workstation_gatewa.Base.{
  ℕ, zero, suc, ◌≤◌, ◌≡◌, refl, ap, sym, inl, inr, ◌⊎◌, false, List, [], ◌∷◌, ◌++◌, if◌then◌else◌,
  length, All, Bool-cases, none, some, arith,
}
use agent_workstation_gatewa.Text.{Bytes, bytes_eq, bytes_eq_iff}
use agent_workstation_gatewa.ExecutionRun.Background.Table.{
  Slot, get_elem?, modify, find_key, delete_key,
}
use agent_workstation_gatewa.ExecutionRun.Background.Sound.{IsSound}

-- A key occurs once.
abbrev pub IsDistinct : List (Bytes × ℕ) → Type 0
IsDistinct [] = Unit
IsDistinct (cell ∷ table) = (find_key table (cell.0) ≡ none) × IsDistinct table

-- The entry can be found.
abbrev pub IsHeld : List (Bytes × ℕ) → ℕ → Type 0
IsHeld table id = (key : Bytes) × (find_key table key ≡ some id)

-- The table without a key.

pub find_key-delete_other :
    (table : List (Bytes × ℕ)) (key other : Bytes)
    → bytes_eq key other ≡ false
    → find_key (delete_key table key) other ≡ find_key table other
unfolding find_key delete_key
find_key-delete_other [] key other h = refl
find_key-delete_other (cell ∷ table) key other h =
    let ih = find_key-delete_other table key other h in
    elim (Bool-cases (bytes_eq (cell.0) key)) [
      | inl e ↦
          let differs : bytes_eq (cell.0) other ≡ false = rw ((bytes_eq_iff (cell.0) key).0 e) h in
          rw (e, differs) ih
      | inr e ↦ rw e (ap (λ x. if bytes_eq (cell.0) other then some (cell.1) else x) ih)
    ]

pub find_key-delete_none :
    (table : List (Bytes × ℕ)) (key other : Bytes)
    → find_key table other ≡ none
    → find_key (delete_key table key) other ≡ none
unfolding find_key delete_key
find_key-delete_none [] key other h = refl
find_key-delete_none (cell ∷ table) key other h = elim (Bool-cases (bytes_eq (cell.0) other)) [
  | inl e ↦ let no : some (cell.1) ≡ none = rw e at h in absurd (cc no)
  | inr e ↦
      let rest : find_key table other ≡ none = rw e at h in
      let ih = find_key-delete_none table key other rest in
      elim (Bool-cases (bytes_eq (cell.0) key)) [ inl k ↦ rw k ih | inr k ↦ rw (k, e) ih ]
]

pub delete_key-IsDistinct :
    (table : List (Bytes × ℕ)) (key : Bytes) → IsDistinct table → IsDistinct (delete_key table key)
unfolding delete_key
delete_key-IsDistinct [] key h = tt
delete_key-IsDistinct (cell ∷ table) key h = elim (Bool-cases (bytes_eq (cell.0) key)) [
  | inl e ↦ rw e (delete_key-IsDistinct table key (h.1))
  | inr e ↦
      rw e (find_key-delete_none table key (cell.0) (h.0), delete_key-IsDistinct table key (h.1))
]

pub length-delete_key :
    (table : List (Bytes × ℕ)) (key : Bytes) → length (delete_key table key) ≤ length table
unfolding delete_key
length-delete_key [] key = omega arith
length-delete_key (cell ∷ table) key =
    let ih = length-delete_key table key in
    elim (Bool-cases (bytes_eq (cell.0) key)) [
      | inl e ↦ rw e (omega arith)
      | inr e ↦ rw e (omega arith)
    ]

-- Acts and the list of entries.

pub modify-All :
    (f : Slot → Slot) (n : ℕ) (slots : List Slot)
    → ((s : Slot) → IsSound s → IsSound (f s))
    → All IsSound slots
    → All IsSound (modify n f slots)
unfolding modify
modify-All f n [] step h = tt
modify-All f zero (s ∷ slots) step h = (step s (h.0), h.1)
modify-All f (suc n) (s ∷ slots) step h = (h.0, modify-All f n slots step (h.1))

-- An entry after an act was there before it.
pub get_elem?-modify :
    (f : Slot → Slot) (n id : ℕ) (slots : List Slot) (s : Slot)
    → get_elem? (modify n f slots) id ≡ some s
    → (old : Slot) × (get_elem? slots id ≡ some old) × ((s ≡ old) ⊎ (s ≡ f old))
unfolding modify get_elem?
get_elem?-modify f n id [] s h = absurd (cc h)
get_elem?-modify f zero zero (x ∷ slots) s h = (x, refl, inr (sym (cc h)))
get_elem?-modify f zero (suc id) (x ∷ slots) s h = (s, h, inl refl)
get_elem?-modify f (suc n) zero (x ∷ slots) s h = (x, refl, inl (sym (cc h)))
get_elem?-modify f (suc n) (suc id) (x ∷ slots) s h = get_elem?-modify f n id slots s h

pub get_elem?-append :
    (slots : List Slot) (new_slot : Slot) (id : ℕ) (s : Slot)
    → get_elem? (slots ++ (new_slot ∷ [])) id ≡ some s
    → (get_elem? slots id ≡ some s) ⊎ (id ≡ length slots)
unfolding get_elem?
get_elem?-append [] x zero s h = inr refl
get_elem?-append [] x (suc id) s h = absurd (cc h)
get_elem?-append (y ∷ slots) x zero s h = inl h
get_elem?-append (y ∷ slots) x (suc id) s h = elim (get_elem?-append slots x id s h) [
  | inl e ↦ inl e
  | inr e ↦ inr (ap suc e)
]
