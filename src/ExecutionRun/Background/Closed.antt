-- ===== src/ExecutionRun/Background/Closed.antt =====
-- What a successful `Close` leaves behind.
use agent_workstation_gatewa.Base.{ℕ, ◌≡◌, true, some}
use agent_workstation_gatewa.ExecutionRun.Background.Table.{Slot, Runner, get_elem?, is_done_at}

-- There is an entry of this number.
abbrev Exists : Runner → ℕ → Type 0
Exists r id = (s : Slot) × (get_elem? r.slots id ≡ some s)

abbrev IsDoneAt : Runner → ℕ → Type 0
IsDoneAt r id = is_done_at (get_elem? r.slots id) ≡ true
