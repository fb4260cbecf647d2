-- ===== src/Web/Health/Record.antt =====
-- What the probe's loop keeps of the pings that have answered.
use zorkd.Base.{
  ℕ, suc, ◌-◌, ◌%◌, ◌^◌, ◌≤◌, ◌≡◌, ◌↔◌, refl, ap, ◌∙◌, true, false, Option, none, some, List, [],
  ◌∷◌, arith, Option-cases, inl, inr,
}
use zorkd.Errors.{Error}
use zorkd.Web.Health.{
  HealthStatus, unknown, healthy, failing, HealthSnapshot, ProbeResult, Loop, begin, on_tick,
  on_result, on_done, next_snapshot, new_snapshot, snapshot, health, health_stale_after,
}

-- The loop, with the results that it has taken, the last one first. A result comes only of a ping
-- that is under way.
pub data Run : List ProbeResult → Loop → Type 0 where
  begun : (now : ℕ) → Run [] (begin now)
  ticks :
      (rs : List ProbeResult) (l : Loop) (now : ℕ)
      → Run rs l
      → l.ended ≡ false
      → Run rs (on_tick now l)
  takes :
      (rs : List ProbeResult) (l : Loop) (began now : ℕ) (failure : Option Error)
      → Run rs l
      → l.ended ≡ false
      → l.in_flight ≡ some began
      → Run
          (record { finished = now; duration = now - began; failure = failure } ∷ rs)
          (on_result false began now failure l)
  quits :
      (rs : List ProbeResult) (l : Loop) (began now : ℕ) (failure : Option Error)
      → Run rs l
      → l.ended ≡ false
      → l.in_flight ≡ some began
      → Run rs (on_result true began now failure l)
  stops : (rs : List ProbeResult) (l : Loop) → Run rs l → l.ended ≡ false → Run rs (on_done l)

-- The failures among the results, and the ones since the last success.
abbrev pub failures : List ProbeResult → ℕ
failures [] = 0
failures (r ∷ rs) = elim r.failure [ none ↦ failures rs | some _ ↦ suc (failures rs) ]

abbrev pub streak : List ProbeResult → ℕ
streak [] = 0
streak (r ∷ rs) = elim r.failure [ none ↦ 0 | some _ ↦ suc (streak rs) ]

-- The last ping that answered was answered well, and not too long ago.
abbrev pub Sound : ℕ → List ProbeResult → Type 0
Sound now [] = ⊥
Sound now (r ∷ rs) = (r.failure ≡ none) × (now - r.finished ≤ health_stale_after)

abbrev status_after : Option Error → HealthStatus
status_after none = healthy
status_after (some e) = failing

abbrev Shows : List ProbeResult → HealthSnapshot → Type 0
Shows [] x = (x.status ≡ unknown) × (x.recorded_at ≡ none)
Shows (r ∷ rs) x = (x.status ≡ status_after r.failure) × (x.recorded_at ≡ some r.finished)

-- What a snapshot says of the results.
record Records (rs : List ProbeResult) (x : HealthSnapshot) : Type 0 where
  total : x.total_failures ≡ failures rs % 2 ^ 64
  consecutive : x.consecutive_failures ≡ streak rs % 2 ^ 64
  shows : Shows rs x

next_snapshot-Records :
    (rs : List ProbeResult) (x : HealthSnapshot) (r : ProbeResult)
    → Records rs x
    → Records (r ∷ rs) (next_snapshot x r)
unfolding next_snapshot
next_snapshot-Records rs x r h = elim (Option-cases r.failure) [
  | inl p ↦
      rw (p, next_snapshot) (record { total = h.total; consecutive = refl; shows = (refl, refl) })
  | inr (e, p) ↦
      rw (p, next_snapshot)
        (record {
          total = omega (arith, h.total);
          consecutive = omega (arith, h.consecutive);
          shows = (refl, refl);
        })
]

Run-Records : (rs : List ProbeResult) (l : Loop) → Run rs l → Records rs l.state
unfolding begin new_snapshot on_tick on_result on_done
Run-Records _ _ (begun now) = record { total = refl; consecutive = refl; shows = (refl, refl) }
Run-Records _ _ (ticks rs l now r e) = elim (Option-cases l.in_flight) [
  | inl p ↦ rw (p, on_tick) (Run-Records rs l r)
  | inr (t, p) ↦ rw (p, on_tick) (Run-Records rs l r)
]
Run-Records _ _ (takes rs l began now failure r e f) =
    next_snapshot-Records rs l.state _ (Run-Records rs l r)
Run-Records _ _ (quits rs l began now failure r e f) = Run-Records rs l r
Run-Records _ _ (stops rs l r e) = Run-Records rs l r

health-Sound :
    (rs : List ProbeResult) (x : HealthSnapshot) (now : ℕ)
    → Shows rs x
    → (health now x ≡ 200) ↔ Sound now rs
unfolding health snapshot
health-Sound [] x now h = ground (arith, h)
health-Sound (r ∷ rs) x now h = elim (Option-cases r.failure) [
  | inl p ↦
      let fine : x.status ≡ healthy = h.0 ∙ ap status_after p in
      (λ e. (p, ground (arith, fine, h.1, e)), λ s. ground (arith, fine, h.1, s.1))
  | inr (d, p) ↦
      let bad : x.status ≡ failing = h.0 ∙ ap status_after p in
      (λ e. absurd (ground (arith, bad, h.1, e)), λ s. absurd (ground (arith, p, s.0)))
]

-- However the loop of the probe goes, /healthz answers 200 exactly while the last ping that was
-- answered had no error and was answered ninety seconds ago at most; and the snapshot counts the
-- failures, and the failures since the last success, up to the width of an uint64.
pub Run-health :
    (rs : List ProbeResult) (l : Loop) (now : ℕ)
    → Run rs l
    → ((health now l.state ≡ 200) ↔ Sound now rs)
      × (l.state.total_failures ≡ failures rs % 2 ^ 64)
      × (l.state.consecutive_failures ≡ streak rs % 2 ^ 64)
Run-health rs l now r =
    let h = Run-Records rs l r in (health-Sound rs l.state now h.shows, h.total, h.consecutive)
