-- ===== src/WorkUnit/Retry.antt =====
-- Messages read back, and how often a unit may be retried.
use tiles_processor.Base.{ℕ, zero, suc, ◌+◌, ◌-◌, ◌≤◌, ◌≡◌, refl, some, Text, arith, if◌then◌else◌}
use tiles_processor.WorkUnit.{WorkUnit, can_retry, create_retry}
use tiles_processor.WorkUnit.Body.{to_dict, from_dict, dead_letter}

-- A unit read back from its own message, or from its dead letter, is the unit that was written,
-- whatever the clock says.
pub from_dict-to_dict :
    (now then_ message : Text) (u : WorkUnit)
    → (from_dict now (to_dict u) ≡ some u) × (from_dict now (dead_letter u message then_) ≡ some u)
unfolding from_dict to_dict dead_letter
from_dict-to_dict now then_ message u = (refl, refl)

-- The units that carry one image through its attempts, the first attempt first, as long as retries
-- are allowed.
pub attempts : ℕ → WorkUnit → ℕ
attempts zero u = 1
attempts (suc fuel) u =
    let rest = attempts fuel (create_retry u) in if can_retry u then suc rest else 1

-- A unit whose every attempt fails is tried once and then once more for each retry that is left, and
-- then never again: with at least that fuel the count is exact.
pub attempts_fuel :
    (fuel : ℕ) (u : WorkUnit)
    → u.max_retries - u.retry_count ≤ fuel
    → attempts fuel u ≡ (u.max_retries - u.retry_count) + 1
unfolding attempts can_retry create_retry
attempts_fuel zero u h = omega arith
attempts_fuel (suc fuel) u h = ground (arith, attempts_fuel fuel (create_retry u))
