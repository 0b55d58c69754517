-- ===== src/BrokerWire/Chained.antt =====
-- Chains of writing steps, and the bytes between two states of a writer.
use agent_workstation_gatewa.Base.{
  ◌≡◌, refl, ap, sym, ◌∙◌, [], ◌++◌, append-nil, append_assoc, Result, ok, err,
}
use agent_workstation_gatewa.Text.{Bytes}
use agent_workstation_gatewa.BrokerWire.Types.{WireRule}
use agent_workstation_gatewa.BrokerWire.Writing.{Sent, Writing, ◌>>=◌, continue, lift}

module _ {A B : Type 0} where
  pub continue-ok :
      (x : Sent × Result WireRule A) (f : A → Writing B) {t : Sent} {b : B}
      → continue x f ≡ (t, ok b)
      → (u : Sent) × (a : A) × (x ≡ (u, ok a)) × (f a u ≡ (t, ok b))
  continue-ok (u, ok a) f h = (u, a, refl, h)
  continue-ok (u, err rule) f h = absurd (cc (ap (λ p. p.1) h))

  -- Both parts of a chain of writing steps without an error ended well.
  pub >>=-written :
      (m : Writing A) (f : A → Writing B) (s : Sent) {t : Sent} {b : B}
      → (m >>= f) s ≡ (t, ok b)
      → (u : Sent) × (a : A) × (m s ≡ (u, ok a)) × (f a u ≡ (t, ok b))
  >>=-written m f s h = continue-ok (m s) f h

pub lift-written :
    {A : Type 0} (x : Result WireRule A) (s : Sent) {t : Sent} {a : A}
    → lift x s ≡ (t, ok a)
    → (s ≡ t) × (x ≡ ok a)
lift-written x s h = (ap (λ p. p.0) h, ap (λ p. p.1) h)

-- The bytes between two states of a writer.
abbrev pub Adds : Sent → Sent → Bytes → Type 0
Adds s t d = t.delivered ≡ s.delivered ++ d

pub Adds-trans : (s t u : Sent) (d e : Bytes) → Adds s t d → Adds t u e → Adds s u (d ++ e)
Adds-trans s t u d e h k = k ∙ ap (λ x. x ++ e) h ∙ append_assoc s.delivered d e

pub Adds-none : (s t : Sent) → s ≡ t → Adds s t []
Adds-none s t h = ap (λ x. x.delivered) (sym h) ∙ sym (append-nil s.delivered)
