-- ===== src/Limiter.antt =====
-- internal/httpserver/ratelimit.go: the token buckets of the unauthenticated routes. Times and spans
-- are nanoseconds, from Go's zero time on. A bucket's tokens are a float64 that is not negative: a
-- multiple of 2 ^ -1074, counted in units of that size. The rounded operations are a parameter.
pub mod Size
pub mod Steady
pub mod Rate
use zorkd.Base.{
  ℕ, zero, suc, ◌+◌, ◌-◌, ◌*◌, ◌/◌, ◌^◌, min, Bool, true, false, ◌&&◌, Option, none, some, List, [],
  ◌∷◌, ltb, leb, if◌then◌else◌, length, take, keep_if, Text, Map, lookup, insert, delete,
}
use zorkd.Errors.{Result, ok, err}
use zorkd.Go.Space.{Unicode, trim_space, to_lower_text}
use zorkd.Account.{normalize_email, max_email_length}

abbrev pub max_tracked_keys : ℕ
max_tracked_keys = 8192

-- The arithmetic of float64: the units of one token; b.tokens + float64(elapsed)/float64(refill), as
-- it is rounded; and time.Duration((1 - b.tokens) * float64(refill)). Taking one from a number that is
-- not below it is exact.
pub record Float : Type 0 where
  pub one : ℕ
  pub gain : ℕ → ℕ → ℕ → ℕ
  pub until_one : ℕ → ℕ → ℕ

pub record Bucket : Type 0 where
  pub tokens : ℕ
  pub seen : ℕ

pub record Limiter : Type 0 where
  pub float : Float
  pub burst : ℕ
  pub refill : ℕ
  pub max_keys : ℕ
  pub buckets : Map Bucket
  pub last_sweep : ℕ

unfoldable pub new_limiter : Float → ℕ → ℕ → ℕ → Limiter
new_limiter float burst refill max_keys = record {
  float = float;
  burst = burst;
  refill = refill;
  max_keys = if ltb max_keys 1 then 1 else max_keys;
  buckets = [];
  last_sweep = 0;
}

-- The tokens of a full bucket.
abbrev pub full : Limiter → ℕ
full l = l.burst * l.float.one

-- limiter.refilled. The elapsed time is not positive where the clock has not moved on.
unfoldable pub refilled : Limiter → Bucket → ℕ → ℕ
refilled l b now =
    if ltb b.seen now
    then min (full l) (l.float.gain b.tokens (now - b.seen) l.refill)
    else b.tokens

-- The first loop of limiter.prune: the full buckets go.
unfoldable pub drop_full : Limiter → ℕ → Map Bucket → Map Bucket
drop_full l now m = keep_if (λ e. ltb (refilled l e.1 now) (full l)) m

-- The key of a bucket that is the fullest, the first of them in the order of the map.
unfoldable pub fullest : Limiter → ℕ → Text × ℕ → Map Bucket → Text
fullest l now best [] = best.0
fullest l now best ((k, b) ∷ m) =
    fullest l now (if ltb best.1 (refilled l b now) then (k, refilled l b now) else best) m

-- The second loop of limiter.prune: the fullest go until there is room. Each round drops a key, so
-- one round for each entry is enough.
unfoldable pub evict : ℕ → Limiter → ℕ → Map Bucket → Map Bucket
evict zero l now m = m
evict (suc fuel) l now [] = []
evict (suc fuel) l now ((k, b) ∷ m) =
    let smaller = delete (fullest l now (k, refilled l b now) m) ((k, b) ∷ m) in
    let rest = evict fuel l now smaller in
    if leb l.max_keys (length ((k, b) ∷ m)) then rest else (k, b) ∷ m

unfoldable pub prune : ℕ → Limiter → Limiter
prune now l =
    if ltb (length l.buckets) l.max_keys && ltb (now - l.last_sweep) (l.burst * l.refill)
    then l
    else (let m = drop_full l now l.buckets in
        record l { buckets = evict (length m) l now m; last_sweep = now })

-- What limiter.allow answers: how long to wait, or that the request may run.
pub data Verdict : Type 0 where
  wait : ℕ → Verdict
  proceed : Verdict

unfoldable pub spend : Text → ℕ → ℕ → Limiter → Verdict × Limiter
spend key now tokens l =
    if ltb tokens l.float.one
    then (
      wait (l.float.until_one tokens l.refill),
      record l { buckets = insert key (record { tokens = tokens; seen = now }) l.buckets },
    )
    else (
      proceed,
      record l {
        buckets = insert key (record { tokens = tokens - l.float.one; seen = now }) l.buckets;
      },
    )

unfoldable pub allow : Text → ℕ → Limiter → Verdict × Limiter
allow key now l = elim (lookup key l.buckets) [
  | some b ↦ spend key now (refilled l b now) l
  | none ↦ spend key now (full l) (prune now l)
]

pub record AttemptLimit : Type 0 where
  pub source : Limiter
  pub email : Limiter

-- emailKey. `parse_address` is net/mail.ParseAddress.
unfoldable pub email_key : ⦃u : Unicode⦄ → (Text → Option Text) → Text → Text
email_key parse_address email = elim (normalize_email parse_address email) [
  | ok address ↦ address
  | err e ↦ take max_email_length (to_lower_text (trim_space email))
]

-- attemptLimit.allow, for a request that is attributed to `source`.
unfoldable pub allow_attempt :
    ⦃u : Unicode⦄ → (Text → Option Text) → Text → Text → ℕ → AttemptLimit → Verdict × AttemptLimit
allow_attempt parse_address source email now a =
    let (verdict, l) = allow source now a.source in
    elim verdict [
      | wait d ↦ (wait d, record a { source = l })
      | proceed ↦
          let (answer, k) = allow (email_key parse_address email) now a.email in
          (answer, record a { source = l; email = k })
    ]
