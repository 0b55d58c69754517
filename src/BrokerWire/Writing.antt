-- ===== src/BrokerWire/Writing.antt =====
-- A step of writing frames: from what the writer has taken so far to what it has taken, and a result.
use agent_workstation_gatewa.Base.{ℕ, Result, ok, err}
use agent_workstation_gatewa.Text.{Bytes}
use agent_workstation_gatewa.BrokerWire.Types.{WireRule}

-- The number of frames begun, and the bytes that the writer has taken
pub record Sent : Type 0 where
  pub frames : ℕ
  pub delivered : Bytes

-- A step of writing
abbrev pub Writing : Type 0 → Type 0
Writing A = Sent → Sent × Result WireRule A

infixl 5 ◌>>=◌ ◌>>◌
abbrev pub continue :
    {A B : Type 0} → Sent × Result WireRule A → (A → Writing B) → Sent × Result WireRule B
continue (sent, ok a) f = f a sent
continue (sent, err rule) f = (sent, err rule)

abbrev pub ◌>>=◌ : {A B : Type 0} → Writing A → (A → Writing B) → Writing B
(m >>= f) sent = continue (m sent) f

abbrev pub ◌>>◌ : {A B : Type 0} → Writing A → Writing B → Writing B
m >> k = m >>= λ _. k

abbrev pub lift : {A : Type 0} → Result WireRule A → Writing A
lift result sent = (sent, result)
