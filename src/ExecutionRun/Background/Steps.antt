-- ===== src/ExecutionRun/Background/Steps.antt =====
-- Every interleaving of a runner's requests with what its processes and goroutines do.
use agent_workstation_gatewa.Base.{ℕ, ◌≡◌, true, List, [], ◌∷◌}
use agent_workstation_gatewa.Text.{Bytes}
use agent_workstation_gatewa.ExecutionPolicy.{LaunchPlan}
use agent_workstation_gatewa.ExecutionRun.Types.{NativeLaunch, Started}
use agent_workstation_gatewa.ExecutionRun.Background.Table.{
  Runner, get_elem?, remove_background, start_background, Act, act_on, act_all, is_done_at,
}

-- One step: a start as a whole, since it holds the table's mutex, an act on an entry, or the removal
-- of an entry that is done, as a stop does it at its end.
pub data Step : Runner → Runner → Type 0 where
  starts :
      {r : Runner} (plan : LaunchPlan) (now : ℕ) (start : NativeLaunch → Started)
      → Step r (start_background r plan now start).0
  acts : {r : Runner} (id : ℕ) (a : Act) → Step r (act_on id a r)
  removes :
      {r : Runner} (key : Bytes) (id : ℕ)
      → is_done_at (get_elem? r.slots id) ≡ true
      → Step r (remove_background key id r)

pub data Reaches : Runner → Runner → Type 0 where
  here : {r : Runner} → Reaches r r
  next : {r s t : Runner} → Step r s → Reaches s t → Reaches r t

pub Reaches-trans : {r s t : Runner} → Reaches r s → Reaches s t → Reaches r t
Reaches-trans here q = q
Reaches-trans (next step p) q = next step (Reaches-trans p q)

pub act_all-Reaches : (steps : List (ℕ × Act)) (r : Runner) → Reaches r (act_all steps r)
unfolding act_all
act_all-Reaches [] r = here
act_all-Reaches (step ∷ steps) r =
    next (acts (step.0) (step.1)) (act_all-Reaches steps (act_on (step.0) (step.1) r))
