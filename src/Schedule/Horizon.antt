-- ===== src/Schedule/Horizon.antt =====
-- services/incident-svc/src/lib/time.ts: clampToHorizon, beside the test withinHorizon of
-- services/schedule.service.ts.
use tactix.Common.{ℕ, ◌≡◌, String, true, Option, some, arith}
use tactix.Schedule.{clamp_to_horizon}
use tactix.Schedule.Service.{Config, within_horizon}

-- A clamped date passes the test of the horizon, and a date that passes it is not moved.
pub clamp_to_horizon-within_horizon :
    (date : String → Option ℕ) (cfg : Config) (now at : ℕ)
    → (within_horizon date cfg now (some (clamp_to_horizon at cfg.schedule_horizon_days now))
        ≡ true)
      × (within_horizon date cfg now (some at) ≡ true
          → clamp_to_horizon at cfg.schedule_horizon_days now ≡ at)
unfolding clamp_to_horizon
clamp_to_horizon-within_horizon date cfg now at = (ground arith, λ h. ground arith)
