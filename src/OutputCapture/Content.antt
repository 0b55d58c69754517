-- ===== src/OutputCapture/Content.antt =====
-- What a capture holds, told by the bytes that have been written to it.
use agent_workstation_gatewa.Base.{
  ℕ, zero, suc, subst, ◌+◌, ◌-◌, ◌^◌, ◌<◌, min, ◌≡◌, refl, sym, ap, ◌∙◌, ℤ, pos, negsuc, List, [],
  ◌∷◌, ◌++◌, append-nil, append_assoc, ok, err, ltb, lt→ltb, le→ltb_false, if◌then◌else◌, length,
  length-append, length-take, take, take-append, take-min, take_nil, arith,
}
use agent_workstation_gatewa.Text.{Bytes}
use agent_workstation_gatewa.OutputCapture.{
  Capture, byte_count_overflow, new, write, write_all, max_uint64,
}

-- The capture has been given `content`: it has counted and hashed all of it, and keeps the front.
pub record Holds (c : Capture) (content : Bytes) : Type 0 where
  pub hashed : c.digest ≡ content
  pub counted : c.total ≡ length content
  pub fits : length content < 2 ^ 64
  pub front : c.retained ≡ take c.limit content

pub new-Holds : (limit : ℤ) {c : Capture} → new limit ≡ ok c → Holds c []
unfolding new
new-Holds (negsuc n) e = cc
new-Holds (pos n) {c} e = record {
  hashed = ground arith;
  counted = ground arith;
  fits = omega arith;
  front = ground (arith, take_nil {A = ℕ} c.limit);
}

-- What `retained` grows to, by `r` more bytes.
grown : Bytes → ℕ → Bytes → Bytes
grown front r more = if ltb 0 r then front ++ take r more else front

grown_lem :
    (front more : Bytes) (n r : ℕ)
    → r ≡ min n (length more)
    → grown front r more ≡ front ++ take n more
unfolding grown
grown_lem front more n zero e = sym (append-nil front) ∙ ap (◌++◌ front) (take-min n 0 more e)
grown_lem front more n (suc r) e =
    rw (lt→ltb 0 (suc r) (omega arith)) (ap (◌++◌ front) (take-min n (suc r) more e))

-- It is again the front of all that was written.
keep-front :
    (limit : ℕ) (content more : Bytes)
    → grown (take limit content) (min (limit - length (take limit content)) (length more)) more
      ≡ take limit (content ++ more)
keep-front limit content more =
    grown_lem (take limit content) more (limit - length content) _
      (omega (arith, length-take limit content))
    ∙ sym (take-append limit content more)

abbrev pub Fits : Bytes → Bytes → Type 0
Fits content more = length content + length more < 2 ^ 64

-- A write that fits is counted, hashed and kept up to the limit, and returns its length.
pub write-Holds :
    (c : Capture) (content more : Bytes)
    → Holds c content
    → Fits content more
    → Holds (write c more).0 (content ++ more) × ((write c more).1 ≡ ok (length more))
unfolding write grown
write-Holds c content more h fits =
    rw (le→ltb_false (max_uint64 - c.total) (length more) (omega arith)) (
      record {
        hashed = ap (λ s. s ++ more) h.hashed;
        counted = omega (arith, length-append content more);
        fits = omega (arith, length-append content more);
        front =
            ap (λ s. grown s (min (c.limit - length s) (length more)) more) h.front
            ∙ keep-front c.limit content more;
      },
      refl,
    )

-- A write that does not fit is refused, and leaves the capture as it was.
pub write_refused :
    (c : Capture) (content more : Bytes)
    → Holds c content
    → ¬ Fits content more
    → write c more ≡ (c, err byte_count_overflow)
unfolding write
write_refused c content more h big = rw (lt→ltb (max_uint64 - c.total) (length more) (omega arith))

abbrev pub concat : List Bytes → Bytes
concat [] = []
concat (x ∷ xs) = x ++ concat xs

-- A run of writes that fits holds the concatenation.
pub write_all-Holds :
    (c : Capture) (content : Bytes) (xs : List Bytes)
    → Holds c content
    → Fits content (concat xs)
    → Holds (write_all c xs) (content ++ concat xs)
unfolding write_all
write_all-Holds c content [] h fits = rw (append-nil content) h
write_all-Holds c content (x ∷ xs) h fits =
    subst (Holds (write_all (write c x).0 xs)) (append_assoc content x (concat xs)) (
      write_all-Holds (write c x).0 (content ++ x) xs
        (write-Holds c content x h (omega (arith, length-append x (concat xs)))).0
        (omega (arith, length-append x (concat xs), length-append content x)))

-- The limit of a capture never changes.
limit-write : (c : Capture) (x : Bytes) → (write c x).0.limit ≡ c.limit
unfolding write
limit-write c x = ground arith

pub limit-write_all : (c : Capture) (xs : List Bytes) → (write_all c xs).limit ≡ c.limit
unfolding write_all
limit-write_all c [] = refl
limit-write_all c (x ∷ xs) = limit-write_all (write c x).0 xs ∙ limit-write c x
