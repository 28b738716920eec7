-- ===== src/Schedule/Service/Accepts.antt =====
-- services/schedule.service.ts: when createShift accepts a shift.
use tactix.Common.{◌≡◌}
use tactix.Action.{Result, ok}
use tactix.Schedule.{Tables}
use tactix.Schedule.Service.{Failure, Schedule}

-- The value and the tables of a call.
abbrev pub Leaves : {A : Type 0} → Result Failure A × Schedule → A → Tables → Type 0
Leaves out a t = (out.0 ≡ ok a) × (out.1.tables ≡ t)
