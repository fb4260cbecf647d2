-- ===== src/Web/Health.antt =====
-- internal/httpserver/health.go: the loop that pings the database, and the answer of /healthz. The
-- log is left out. Times are nanoseconds of a clock that does not run backwards, and the zero time
-- is none.
pub mod Record
use zorkd.Base.{
  ℕ, ◌+◌, ◌-◌, ◌*◌, ◌^◌, ◌%◌, Bool, true, false, ◌&&◌, Option, none, some, List, ltb, if◌then◌else◌,
}
use zorkd.Errors.{Error}

abbrev pub health_probe_interval : ℕ
health_probe_interval = 30 * 10 ^ 9

abbrev pub health_stale_after : ℕ
health_stale_after = 3 * health_probe_interval

pub data HealthStatus : Type 0 where
  unknown healthy failing stale : HealthStatus

pub record HealthSnapshot : Type 0 where
  pub status : HealthStatus
  pub recorded_at : Option ℕ
  pub duration : ℕ
  pub last_successful_duration : ℕ
  pub consecutive_failures : ℕ
  pub total_failures : ℕ
  pub last_failure_at : Option ℕ
  pub last_failure_duration : ℕ
  pub last_error : Option Error

pub record ProbeResult : Type 0 where
  pub finished : ℕ
  pub duration : ℕ
  pub failure : Option Error

-- NewProbe
unfoldable pub new_snapshot : HealthSnapshot
new_snapshot = record {
  status = unknown;
  recorded_at = none;
  duration = 0;
  last_successful_duration = 0;
  consecutive_failures = 0;
  total_failures = 0;
  last_failure_at = none;
  last_failure_duration = 0;
  last_error = none;
}

-- ++ of an uint64
abbrev pub increment : ℕ → ℕ
increment n = (n + 1) % 2 ^ 64

-- The snapshot that a result leaves to be stored.
unfoldable pub next_snapshot : HealthSnapshot → ProbeResult → HealthSnapshot
next_snapshot previous result = elim result.failure [
  | none ↦ record previous {
    status = healthy;
    recorded_at = some result.finished;
    duration = result.duration;
    last_successful_duration = result.duration;
    consecutive_failures = 0;
    last_error = none;
  }
  | some e ↦ record previous {
    status = failing;
    recorded_at = some result.finished;
    duration = result.duration;
    consecutive_failures = increment previous.consecutive_failures;
    total_failures = increment previous.total_failures;
    last_failure_at = some result.finished;
    last_failure_duration = result.duration;
    last_error = some e;
  }
]

-- Probe.Snapshot
unfoldable pub snapshot : ℕ → HealthSnapshot → HealthSnapshot
snapshot now x = elim x.recorded_at [
  | none ↦ x
  | some at ↦ if ltb health_stale_after (now - at) then record x { status = stale } else x
]

abbrev is_healthy : HealthStatus → Bool
is_healthy healthy = true
is_healthy _ = false

-- health, by its status
unfoldable pub health : ℕ → HealthSnapshot → ℕ
unfolding snapshot
health now x = if is_healthy (snapshot now x).status then 200 else 503

-- The variables of Probe.Run: when the ping that is under way began, and whether the loop returned.
pub record Loop : Type 0 where
  pub state : HealthSnapshot
  pub in_flight : Option ℕ
  pub ended : Bool

unfoldable pub begin : ℕ → Loop
unfolding new_snapshot
begin now = record { state = new_snapshot; in_flight = some now; ended = false }

-- case <-ticks
unfoldable pub on_tick : ℕ → Loop → Loop
on_tick now l = elim l.in_flight [ none ↦ record l { in_flight = some now } | some _ ↦ l ]

-- case result := <-results, of the ping that began at a time. `canceled` is ctx.Err() != nil.
unfoldable pub on_result : Bool → ℕ → ℕ → Option Error → Loop → Loop
unfolding next_snapshot
on_result true began now failure l = record l { in_flight = none; ended = true }
on_result false began now failure l = record l {
  in_flight = none;
  state =
      next_snapshot l.state (record { finished = now; duration = now - began; failure = failure });
}

-- case <-ctx.Done(): the ping that is under way is waited for.
unfoldable pub on_done : Loop → Loop
on_done l = record l { in_flight = none; ended = true }
