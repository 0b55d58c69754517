-- ===== src/Text/Laws.antt =====
-- Comparison, splitting and joining.
use agent_workstation_gatewa.Base.{
  ℕ, ◌≡◌, refl, sym, ap, ap₂, ◌∙◌, ◌↔◌, inl, inr, true, false, List, [], ◌∷◌, ◌++◌, ◌≢◌, ◌==◌,
  ==_iff, if◌then◌else◌, Bool-cases, arith, All, append_assoc,
}
use agent_workstation_gatewa.Text.Defs.{
  Bytes, bytes_eq, has_prefix, contains_byte, extend, split, join, ends_with,
}

pub bytes_eq_iff : (a b : Bytes) → (bytes_eq a b ≡ true) ↔ (a ≡ b)
unfolding bytes_eq
bytes_eq_iff (x ∷ a) (y ∷ b) = ground (arith, bytes_eq_iff a b)
bytes_eq_iff _ _ = ground arith

pub bytes_eq_refl : (a : Bytes) → bytes_eq a a ≡ true
bytes_eq_refl a = (bytes_eq_iff a a).1 refl

pub bytes_eq-false_iff : (a b : Bytes) → (bytes_eq a b ≡ false) ↔ (a ≢ b)
bytes_eq-false_iff a b = elim (Bool-cases (bytes_eq a b)) [
  | inl e ↦ (λ h. cc, λ ne. absurd (ne ((bytes_eq_iff a b).0 e)))
  | inr e ↦ (λ h p. cc ((bytes_eq_iff a b).1 p), λ ne. e)
]

-- A prefix is what stands in front of some rest.
pub has_prefix_elim : (s p : Bytes) → has_prefix s p ≡ true → (rest : Bytes) × (s ≡ p ++ rest)
unfolding has_prefix
has_prefix_elim s [] h = (s, refl)
has_prefix_elim [] (p ∷ ps) h = cc
has_prefix_elim (c ∷ s) (p ∷ ps) h =
    let here : c ≡ p = ground arith in
    let later : has_prefix s ps ≡ true = ground arith in
    let (rest, e) = has_prefix_elim s ps later in (rest, cc)

pub has_prefix_intro : (p rest : Bytes) → has_prefix (p ++ rest) p ≡ true
unfolding has_prefix
has_prefix_intro [] rest = refl
has_prefix_intro (p ∷ ps) rest = ground (arith, has_prefix_intro ps rest)

-- No byte of the text is `b`.
abbrev pub IsFree : ℕ → Bytes → Type 0
IsFree b s = contains_byte b s ≡ false

split-cons :
    (sep c : ℕ) (s : Bytes)
    → split sep (c ∷ s) ≡ (if c == sep then [] ∷ split sep s else extend c (split sep s))
unfolding split
split-cons sep c s = refl

extend_nonempty : (c : ℕ) (xs : List Bytes) → xs ≢ [] → extend c xs ≢ []
unfolding extend
extend_nonempty c [] ne = λ e. ne refl
extend_nonempty c (x ∷ xs) ne = λ e. cc

pub split_nonempty : (sep : ℕ) (s : Bytes) → split sep s ≢ []
split_nonempty sep [] = unfold split in λ e. cc
split_nonempty sep (c ∷ s) = elim (Bool-cases (c == sep)) [
  | inl h ↦ rw (split-cons sep c s, h) (λ e. cc)
  | inr h ↦ rw (split-cons sep c s, h) (extend_nonempty c (split sep s) (split_nonempty sep s))
]

join-extend : (sep c : ℕ) (xs : List Bytes) → xs ≢ [] → join sep (extend c xs) ≡ c ∷ join sep xs
unfolding join extend
join-extend sep c [] ne = absurd (ne refl)
join-extend sep c (x ∷ []) ne = refl
join-extend sep c (x ∷ y ∷ r) ne = refl

join-cons_nil : (sep : ℕ) (xs : List Bytes) → xs ≢ [] → join sep ([] ∷ xs) ≡ sep ∷ join sep xs
unfolding join
join-cons_nil sep [] ne = absurd (ne refl)
join-cons_nil sep (x ∷ xs) ne = refl

-- Joining the segments gives the text back.
pub join-split : (sep : ℕ) (s : Bytes) → join sep (split sep s) ≡ s
join-split sep [] = unfold join split in refl
join-split sep (c ∷ s) = elim (Bool-cases (c == sep)) [
  | inl h ↦
      rw (split-cons sep c s, h)
        (join-cons_nil sep (split sep s) (split_nonempty sep s)
          ∙ ap₂ ◌∷◌ (sym ((==_iff c sep).0 h)) (join-split sep s))
  | inr h ↦
      rw (split-cons sep c s, h)
        (join-extend sep c (split sep s) (split_nonempty sep s) ∙ ap (◌∷◌ c) (join-split sep s))
]

All-extend :
    (sep c : ℕ) (xs : List Bytes)
    → (c == sep) ≡ false
    → All (IsFree sep) xs
    → All (IsFree sep) (extend c xs)
unfolding extend contains_byte
All-extend sep c [] h a = tt
All-extend sep c (x ∷ xs) h a = (rw (h, a.0), a.1)

-- No segment holds the separator.
pub split-IsFree : (sep : ℕ) (s : Bytes) → All (IsFree sep) (split sep s)
split-IsFree sep [] = unfold split contains_byte in (refl, tt)
split-IsFree sep (c ∷ s) = elim (Bool-cases (c == sep)) [
  | inl h ↦ rw (split-cons sep c s, h) (unfold contains_byte in refl, split-IsFree sep s)
  | inr h ↦ rw (split-cons sep c s, h) (All-extend sep c (split sep s) h (split-IsFree sep s))
]

-- Splitting at the first separator.
pub split-segment :
    (sep : ℕ) (x rest : Bytes) → IsFree sep x → split sep (x ++ (sep ∷ rest)) ≡ x ∷ split sep rest
unfolding split contains_byte extend
split-segment sep [] rest h = rw ((==_iff sep sep).1 refl)
split-segment sep (c ∷ x) rest h =
    ground (arith, split-segment sep x rest, split-segment sep x rest (ground arith))

pub split-last : (sep : ℕ) (x : Bytes) → IsFree sep x → split sep x ≡ x ∷ []
unfolding split contains_byte extend
split-last sep [] h = refl
split-last sep (c ∷ x) h = ground (arith, split-last sep x (ground arith))

-- Splitting gives joined segments back.
pub split-join :
    (sep : ℕ) (x : Bytes) (xs : List Bytes)
    → All (IsFree sep) (x ∷ xs)
    → split sep (join sep (x ∷ xs)) ≡ x ∷ xs
unfolding join
split-join sep x [] h = split-last sep x h.0
split-join sep x (y ∷ ys) h =
    split-segment sep x (join sep (y ∷ ys)) h.0 ∙ ap (◌∷◌ x) (split-join sep y ys h.1)

extend-append : (c : ℕ) (xs ys : List Bytes) → xs ≢ [] → extend c (xs ++ ys) ≡ extend c xs ++ ys
unfolding extend
extend-append c [] ys ne = absurd (ne refl)
extend-append c (x ∷ xs) ys ne = refl

-- A separator ends a segment, whatever stands behind it.
pub split-append : (sep : ℕ) (s t : Bytes) → split sep (s ++ (sep ∷ t)) ≡ split sep s ++ split sep t
split-append sep [] t = split-cons sep sep t ∙ rw ((==_iff sep sep).1 refl) (unfold split in refl)
split-append sep (c ∷ s) t = elim (Bool-cases (c == sep)) [
  | inl h ↦
      rw (split-cons sep c s, split-cons sep c (s ++ (sep ∷ t)), h)
        (ap (◌∷◌ []) (split-append sep s t))
  | inr h ↦
      rw (split-cons sep c s, split-cons sep c (s ++ (sep ∷ t)), h)
        (ap (extend c) (split-append sep s t)
          ∙ extend-append c (split sep s) (split sep t) (split_nonempty sep s))
]

-- Joining two lists of segments, neither empty.
pub join-append :
    (sep : ℕ) (x : Bytes) (xs : List Bytes) (y : Bytes) (ys : List Bytes)
    → join sep ((x ∷ xs) ++ (y ∷ ys)) ≡ join sep (x ∷ xs) ++ (sep ∷ join sep (y ∷ ys))
unfolding join
join-append sep x [] y ys = refl
join-append sep x (z ∷ zs) y ys =
    ap (λ t. x ++ (sep ∷ t)) (join-append sep z zs y ys)
    ∙ sym (append_assoc x (sep ∷ join sep (z ∷ zs)) (sep ∷ join sep (y ∷ ys)))

pub ends_with_elim : (s : Bytes) (b : ℕ) → ends_with s b ≡ true → (t : Bytes) × (s ≡ t ++ (b ∷ []))
unfolding ends_with
ends_with_elim [] b h = cc
ends_with_elim (c ∷ []) b h = ([], ap (λ x. x ∷ []) ((==_iff c b).0 h))
ends_with_elim (c ∷ d ∷ s) b h = let (t, e) = ends_with_elim (d ∷ s) b h in (c ∷ t, ap (◌∷◌ c) e)
