-- ===== src/Limiter/Steady.antt =====
-- What every bucket of a limiter holds to, whatever requests it answers.
use zorkd.Base.{
  ℕ, zero, suc, ◌-◌, ◌*◌, ◌≤◌, Bool, ◌&&◌, ◌≡◌, refl, ap, ◌∙◌, some, [], ◌∷◌, arith, ltb, leb,
  length, keep_if, Text, Map, lookup, insert, delete, str_eq, Bool-cases, Option-cases, inl, inr,
  All, subst,
}
use mathlib.Core.Option.{some-injective}
use zorkd.Limiter.{Float, Bucket, Limiter, full, refilled, drop_full, evict, prune, spend, allow}

-- Every bucket holds at most a full one's tokens, and was last seen by the time t.
unfoldable pub IsSteady : ℕ → Limiter → Type 0
IsSteady t l = All (λ e. (e.1.tokens ≤ full l) × (e.1.seen ≤ t)) l.buckets

module _ (P : Text × Bucket → Type 0) where
  All-keep_if : (p : Text × Bucket → Bool) (m : Map Bucket) → All P m → All P (keep_if p m)
  All-keep_if p [] h = h
  All-keep_if p (e ∷ m) h = elim (Bool-cases (p e)) [
    | inl q ↦ rw q (h.0, All-keep_if p m h.1)
    | inr q ↦ rw q (All-keep_if p m h.1)
  ]

  All-delete : (k : Text) (m : Map Bucket) → All P m → All P (delete k m)
  unfolding delete
  All-delete k [] h = h
  All-delete k ((j, b) ∷ m) h = elim (Bool-cases (str_eq j k)) [
    | inl q ↦ rw q (All-delete k m h.1)
    | inr q ↦ rw q (h.0, All-delete k m h.1)
  ]

  All-insert : (k : Text) (b : Bucket) (m : Map Bucket) → P (k, b) → All P m → All P (insert k b m)
  unfolding insert
  All-insert k b [] p h = (p, h)
  All-insert k b ((j, c) ∷ m) p h = elim (Bool-cases (str_eq j k)) [
    | inl q ↦ rw q (p, h.1)
    | inr q ↦ rw q (h.0, All-insert k b m p h.1)
  ]

  All-evict :
      (fuel : ℕ) (l : Limiter) (now : ℕ) (m : Map Bucket) → All P m → All P (evict fuel l now m)
  unfolding evict
  All-evict zero l now m h = h
  All-evict (suc fuel) l now [] h = h
  All-evict (suc fuel) l now ((k, b) ∷ m) h =
      elim (Bool-cases (leb l.max_keys (length ((k, b) ∷ m)))) [
        | inl q ↦ rw q (All-evict fuel l now _ (All-delete _ ((k, b) ∷ m) h))
        | inr q ↦ rw q h
      ]

  All-prune : (now : ℕ) (l : Limiter) → All P l.buckets → All P (prune now l).buckets
  unfolding prune drop_full
  All-prune now l h =
      elim (Bool-cases
        (ltb (length l.buckets) l.max_keys && ltb (now - l.last_sweep) (l.burst * l.refill))) [
          | inl q ↦ rw q h
          | inr q ↦ rw q (All-evict _ l now _ (All-keep_if _ l.buckets h))
        ]

  All-spend :
      (key : Text) (now tokens : ℕ) (l : Limiter)
      → P (key, record { tokens = tokens; seen = now })
      → P (key, record { tokens = tokens - l.float.one; seen = now })
      → All P l.buckets
      → All P (spend key now tokens l).1.buckets
  unfolding spend
  All-spend key now tokens l p q h = elim (Bool-cases (ltb tokens l.float.one)) [
    | inl e ↦ rw e (All-insert key _ l.buckets p h)
    | inr e ↦ rw e (All-insert key _ l.buckets q h)
  ]

pub prune-rate :
    (t : ℕ) (l : Limiter)
    → ((prune t l).refill ≡ l.refill)
      × ((prune t l).burst ≡ l.burst)
      × ((prune t l).float ≡ l.float)
unfolding prune
prune-rate t l = (ground arith, ground arith, ground arith)

-- Before a request, a key's bucket has no more than a full one.
pub refilled-bound :
    (l : Limiter) (b : Bucket) (now : ℕ) → b.tokens ≤ full l → refilled l b now ≤ full l
unfolding refilled
refilled-bound l b now h = ground arith

pub All-lookup :
    (P : Text × Bucket → Type 0) (k : Text) (b : Bucket) (m : Map Bucket)
    → All P m
    → lookup k m ≡ some b
    → (j : Text) × P (j, b)
unfolding lookup
All-lookup P k b [] h e = absurd cc
All-lookup P k b ((j, c) ∷ m) h e = elim (Bool-cases (str_eq j k)) [
  | inl p ↦ (j, subst (λ (x : Bucket). P (j, x)) (some-injective c b (rw p at e)) h.0)
  | inr p ↦ All-lookup P k b m h.1 (rw p at e)
]

spend-full : (key : Text) (now tokens : ℕ) (l : Limiter) → full (spend key now tokens l).1 ≡ full l
unfolding spend
spend-full key now tokens l = elim (Bool-cases (ltb tokens l.float.one)) [
  | inl p ↦ rw p refl
  | inr p ↦ rw p refl
]

prune-full : (now : ℕ) (l : Limiter) → full (prune now l) ≡ full l
prune-full now l =
    let (rate, top, same) = prune-rate now l in
    ap (λ (b : ℕ). b * (prune now l).float.one) top ∙ ap (λ (f : Float). l.burst * f.one) same

module _ (f : ℕ) where
  Within : ℕ → Text × Bucket → Type 0
  Within t e = (e.1.tokens ≤ f) × (e.1.seen ≤ t)

  Within-later : (t now : ℕ) (m : Map Bucket) → t ≤ now → All (Within t) m → All (Within now) m
  unfolding Within
  Within-later t now [] h a = a
  Within-later t now (e ∷ m) h a = ((a.0.0, omega (arith, a.0.1, h)), Within-later t now m h a.1)

  spend-Within :
      (key : Text) (now tokens : ℕ) (l : Limiter)
      → tokens ≤ f
      → All (Within now) l.buckets
      → All (Within now) (spend key now tokens l).1.buckets
  unfolding Within
  spend-Within key now tokens l h a =
      All-spend (Within now) key now tokens l (h, omega arith) (omega arith, omega arith) a

-- limiter.allow keeps every bucket within a full one's tokens and within the time of the request,
-- if the buckets were so at a time that is not later.
pub allow-IsSteady :
    (key : Text) (t now : ℕ) (l : Limiter)
    → IsSteady t l
    → t ≤ now
    → IsSteady now (allow key now l).1
unfolding IsSteady Within allow
allow-IsSteady key t now l h p =
    let later = Within-later (full l) t now l.buckets p h in
    elim (Option-cases (lookup key l.buckets)) [
      | inl e ↦
          rw (e, allow)
            (rw (spend-full key now (full l) (prune now l), prune-full now l)
              (spend-Within (full l) key now (full l) (prune now l) (omega arith)
                (All-prune (Within (full l) now) now l later)))
      | inr (b, e) ↦
          let (j, within) = All-lookup _ key b l.buckets h e in
          rw (e, allow)
            (rw (spend-full key now (refilled l b now) l) (
              spend-Within (full l) key now (refilled l b now) l (refilled-bound l b now within.0)
                later))
    ]
