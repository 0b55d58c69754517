-- ===== src/Base/Errors.antt =====
-- A Go function that returns `(value, error)`: exactly one of the two is meaningful.
use mathlib.Core.Path.{◌≡◌, refl}
use mathlib.Core.Bool.{Bool, true, false}
use mathlib.Core.Logic.{◌↔◌}

pub data Result {ℓ} (E : Type ℓ) (A : Type ℓ) : Type ℓ where
  ok : A → Result E A
  err : E → Result E A

-- The functions that return only an `error`; `ok tt` is the nil error.
abbrev pub Checked : Type 0 → Type 0
Checked E = Result E (Unit {0})

infixl 5 ◌>>=◌ ◌>>◌
abbrev pub ◌>>=◌ {ℓ} : {E A B : Type ℓ} → Result E A → (A → Result E B) → Result E B
err e >>= f = err e
ok a >>= f = f a

abbrev pub ◌>>◌ : {E B : Type 0} → Result E (Unit {0}) → Result E B → Result E B
m >> k = m >>= λ _. k

-- `if !condition { return err }`
abbrev pub require : {E : Type 0} → Bool → E → Result E (Unit {0})
require true e = ok tt
require false e = err e

-- `if condition { return err }`
abbrev pub reject : {E : Type 0} → Bool → E → Result E (Unit {0})
reject true e = err e
reject false e = ok tt

pub is_ok : {E A : Type 0} → Result E A → Bool
is_ok (ok a) = true
is_ok (err e) = false

-- `if err != nil { return other }`
abbrev pub map_err : {E F A : Type 0} → F → Result E A → Result F A
map_err f (ok a) = ok a
map_err f (err e) = err f

module _ {E A B : Type 0} where
  -- Both parts of a chain without an error ended well.
  pub >>=-eq-ok :
      (first : Result E A) (next : A → Result E B) {end : B}
      → (first >>= next) ≡ ok end
      → (x : A) × (first ≡ ok x) × (next x ≡ ok end)
  >>=-eq-ok (err failure) next done = cc
  >>=-eq-ok (ok x) next done = (x, refl, done)

module _ {E B : Type 0} where
  pub >>-eq-ok :
      (m : Result E (Unit {0})) (k : Result E B) {b : B}
      → ((m >> k) ≡ ok b) ↔ ((m ≡ ok tt) × (k ≡ ok b))
  >>-eq-ok (ok tt) k = (λ h. (refl, h), λ h. h.1)
  >>-eq-ok (err e) k = (λ h. cc, λ h. absurd (cc (h.0)))

module _ {E F A : Type 0} where
  pub map_err-eq-ok : (f : F) (m : Result E A) {a : A} → map_err f m ≡ ok a → m ≡ ok a
  map_err-eq-ok f (ok a) h = cc
  map_err-eq-ok f (err e) h = cc

module _ {E : Type 0} where
  pub reject-eq-ok : (b : Bool) (e : E) → (reject b e ≡ ok tt) ↔ (b ≡ false)
  reject-eq-ok true e = (λ h. cc, λ h. cc)
  reject-eq-ok false e = (λ h. refl, λ h. refl)

  pub require-eq-ok : (b : Bool) (e : E) → (require b e ≡ ok tt) ↔ (b ≡ true)
  require-eq-ok true e = (λ h. refl, λ h. refl)
  require-eq-ok false e = (λ h. cc, λ h. cc)

  -- A guard in front of the rest of a function.
  pub reject->> :
      {B : Type 0} (b : Bool) (e : E) (k : Result E B) {x : B}
      → ((reject b e >> k) ≡ ok x) ↔ ((b ≡ false) × (k ≡ ok x))
  reject->> true e k = (λ h. cc, λ h. cc (h.0))
  reject->> false e k = (λ h. (refl, h), λ h. h.1)

  pub require->> :
      {B : Type 0} (b : Bool) (e : E) (k : Result E B) {x : B}
      → ((require b e >> k) ≡ ok x) ↔ ((b ≡ true) × (k ≡ ok x))
  require->> true e k = (λ h. (refl, h), λ h. h.1)
  require->> false e k = (λ h. cc, λ h. cc (h.0))
