-- ===== src/Limiter/Rate.antt =====
-- How many requests of a key a limiter lets run.
use zorkd.Base.{
  ℕ, min, length, ◌&&◌, ◌+◌, ◌-◌, ◌*◌, ◌≤◌, ◌≡◌, refl, ap, sym, subst, none, some, List, [], ◌∷◌,
  arith, ltb, Text, Map, lookup, insert, str_eq_refl, lookup-insert, Bool-cases, Option-cases, inl,
  inr, ◌∙◌,
}
use zorkd.Limiter.Steady.{IsSteady, refilled-bound, All-lookup}
use zorkd.Limiter.{Bucket, Limiter, full, refilled, prune, Verdict, wait, proceed, spend, allow}

-- How many of the requests of one key, at the given times, are let run.
abbrev count : Verdict → ℕ
count (wait d) = 0
count proceed = 1

unfoldable pub passed : Text → List ℕ → Limiter → ℕ
passed key [] l = 0
passed key (t ∷ ts) l = let (v, l') = allow key t l in count v + passed key ts l'

abbrev pub last : ℕ → List ℕ → ℕ
last t [] = t
last t (u ∷ us) = last u us

abbrev pub InOrder : ℕ → List ℕ → Type 0
InOrder t [] = Unit
InOrder t (u ∷ us) = (t ≤ u) × InOrder u us

InOrder-last : (t : ℕ) (ts : List ℕ) → InOrder t ts → t ≤ last t ts
InOrder-last t [] s = omega arith
InOrder-last t (u ∷ us) s = omega (arith, s, InOrder-last u us s.1)

spent : (key : Text) (m : Map Bucket) (b : Bucket) → lookup key (insert key b m) ≡ some b
spent key m b = lookup-insert key key b m ∙ rw (str_eq_refl key) refl

-- The key's bucket after it asked. What it spends, it had.
spend-lookup :
    (key : Text) (now tokens : ℕ) (l : Limiter)
    → (b : Bucket) × (lookup key (spend key now tokens l).1.buckets ≡ some b)
      × (b.seen ≡ now)
      × (count (spend key now tokens l).0 * l.float.one + b.tokens ≡ tokens)
      × ((spend key now tokens l).1 ≡ record l { buckets = (spend key now tokens l).1.buckets })
unfolding spend
spend-lookup key now tokens l = elim (Bool-cases (ltb tokens l.float.one)) [
  | inl p ↦
      rw p (record { tokens = tokens; seen = now }, spent key l.buckets _, refl, omega arith, refl)
  | inr p ↦ rw p (
    record { tokens = tokens - l.float.one; seen = now },
    spent key l.buckets _,
    refl,
    ground arith,
    refl,
  )
]

-- The next request of a key that is tracked.
allow-tracked :
    (key : Text) (t : ℕ) (l : Limiter) (b : Bucket)
    → lookup key l.buckets ≡ some b
    → allow key t l ≡ spend key t (refilled l b t) l
unfolding allow
allow-tracked key t l b e = rw (e, allow) refl

share : (a b c : ℕ) → (a + b) * c ≡ a * c + b * c
share a b c = omega arith

-- How far the rounded refill of a bucket may be above the exact one, up to a full bucket.
abbrev pub Rounds : ℕ → Limiter → Type 0
Rounds error l =
    (tokens elapsed : ℕ)
    → min (full l) (l.float.gain tokens elapsed l.refill) * l.refill
      ≤ tokens * l.refill + (elapsed * l.float.one + error * l.refill)

refilled-Rounds :
    (error : ℕ) (l : Limiter) (b : Bucket) (now : ℕ)
    → Rounds error l
    → refilled l b now * l.refill
      ≤ b.tokens * l.refill + ((now - b.seen) * l.float.one + error * l.refill)
unfolding refilled
refilled-Rounds error l b now h = elim (Bool-cases (ltb b.seen now)) [
  | inl p ↦ rw p (h b.tokens (now - b.seen))
  | inr p ↦ rw p (omega arith)
]

-- The time between three moments.
between : (a b c n : ℕ) → a ≤ b → b ≤ c → (c - a) * n ≡ (b - a) * n + (c - b) * n
between a b c n p q =
    let parts : c - a ≡ (b - a) + (c - b) = omega (arith, p, q) in
    ap (λ (d : ℕ). d * n) parts ∙ share (b - a) (c - b) n

-- What a spending costs, over what is left for the requests after it.
times_assoc : (a b c : ℕ) → a * b * c ≡ a * (b * c)
times_assoc a b c = omega arith

times_le : (a b c : ℕ) → a ≤ b → a * c ≤ b * c
times_le a b c h =
    let more : b ≡ a + (b - a) = omega (arith, h) in
    omega (arith, ap (λ (d : ℕ). d * c) more, share a (b - a) c)

spend-cost :
    (n r c rest one rate : ℕ)
    → n * one + c ≡ r
    → (n + rest) * (one * rate) + c * rate ≡ r * rate + rest * (one * rate)
spend-cost n r c rest one rate e =
    let whole : (n * one + c) * rate ≡ r * rate = ap (λ (x : ℕ). x * rate) e in
    omega (arith, whole, share (n * one) c rate, share n rest (one * rate), times_assoc n one rate)

prune-kept :
    (now : ℕ) (l : Limiter)
    → prune now l
      ≡ record l { buckets = (prune now l).buckets; last_sweep = (prune now l).last_sweep }
unfolding prune
prune-kept now l =
    elim (Bool-cases
      (ltb (length l.buckets) l.max_keys && ltb (now - l.last_sweep) (l.burst * l.refill))) [
        | inl p ↦ rw p refl
        | inr p ↦ rw p refl
      ]

-- What the requests of a key cost at most, of the tokens that it had at a moment.
abbrev Afforded : ℕ → Limiter → Text → ℕ → ℕ → List ℕ → Limiter → Type 0
Afforded error l key tokens seen ts l' =
    passed key ts l' * (l.float.one * l.refill)
    ≤ tokens * l.refill + ((last seen ts - seen) * l.float.one + length ts * (error * l.refill))

-- A request that finds tokens, and the requests after it.
afforded :
    (error : ℕ) (key : Text) (t tokens : ℕ) (ts : List ℕ) (l : Limiter)
    → ((b : Bucket) (m : Map Bucket)
        → lookup key m ≡ some b
        → b.seen ≡ t
        → b.tokens ≤ tokens
        → Afforded error l key b.tokens b.seen ts (record l { buckets = m }))
    → (count (spend key t tokens l).0 + passed key ts (spend key t tokens l).1)
        * (l.float.one * l.refill)
      ≤ tokens * l.refill + ((last t ts - t) * l.float.one + length ts * (error * l.refill))
afforded error key t tokens ts l later =
    let (c, look, seen, had, same) = spend-lookup key t tokens l in
    let l' = (spend key t tokens l).1 in
    let rest =
      subst (λ (n : ℕ). Afforded error l key c.tokens n ts l') seen
        (subst (Afforded error l key c.tokens c.seen ts) (sym same)
          (later c l'.buckets look seen (omega (arith, had)))) in
    let cost =
      spend-cost (count (spend key t tokens l).0) tokens c.tokens (passed key ts l') l.float.one
        l.refill had in
    omega (arith, rest, cost)

passed-tracked :
    (error : ℕ) (key : Text) (ts : List ℕ) (l : Limiter) (b : Bucket)
    → Rounds error l
    → lookup key l.buckets ≡ some b
    → b.tokens ≤ full l
    → InOrder b.seen ts
    → Afforded error l key b.tokens b.seen ts l
unfolding passed
passed-tracked error key [] l b round e h s = omega arith
passed-tracked error key (t ∷ ts) l b round e h s =
    let more = refilled-bound l b t h in
    let rounded = refilled-Rounds error l b t round in
    let bound = afforded error key t (refilled l b t) ts l (λ c m look seen had.
      passed-tracked error key ts (record l { buckets = m }) c round look (omega (arith, had, more))
        (subst (λ (n : ℕ). InOrder n ts) (sym seen) s.1)) in
    rw (allow-tracked key t l b e) (
      omega (
        arith,
        bound,
        rounded,
        between b.seen t (last t ts) l.float.one s.0 (InOrder-last t ts s.1),
        share 1 (length ts) (error * l.refill),
      ))

-- The bucket of a key that was not tracked: as full as it gets.
allow-fresh :
    (key : Text) (t : ℕ) (l : Limiter)
    → lookup key l.buckets ≡ none
    → allow key t l ≡ spend key t (full l) (prune t l)
unfolding allow
allow-fresh key t l e = rw (e, allow) refl

-- A request of a key whose bucket holds at most a full one, and the requests after it.
passed-spend :
    (error : ℕ) (key : Text) (t tokens : ℕ) (ts : List ℕ) (l : Limiter)
    → Rounds error l
    → tokens ≤ full l
    → InOrder t ts
    → (count (spend key t tokens l).0 + passed key ts (spend key t tokens l).1)
        * (l.float.one * l.refill)
      ≤ full l * l.refill + ((last t ts - t) * l.float.one + length ts * (error * l.refill))
passed-spend error key t tokens ts l round h s =
    let bound = afforded error key t tokens ts l (λ c m look seen had.
      passed-tracked error key ts (record l { buckets = m }) c round look (omega (arith, had, h))
        (subst (λ (n : ℕ). InOrder n ts) (sym seen) s)) in
    omega (arith, bound, times_le tokens (full l) l.refill h)

-- The requests of one key that a limiter lets run, at times in order and without another key's
-- between them, are never more than the burst, and what the time from the first to the last of
-- them refills, and the error of rounding once for each request after the first: where no refill up
-- to a full bucket is rounded up by more than that error. The limiter may be any whose buckets are
-- steady at the first of the times. Tokens are counted in units of `one` to a token, and both sides
-- are multiplied by the time that a token takes.
pub passed-bound :
    (error : ℕ) (key : Text) (t : ℕ) (ts : List ℕ) (l : Limiter)
    → Rounds error l
    → IsSteady t l
    → InOrder t ts
    → passed key (t ∷ ts) l * (l.float.one * l.refill)
      ≤ l.burst * l.float.one * l.refill
        + ((last t ts - t) * l.float.one + length ts * (error * l.refill))
unfolding passed IsSteady
passed-bound error key t ts l round h s = elim (Option-cases (lookup key l.buckets)) [
  | inl e ↦
      let kept = prune-kept t l in
      let bound =
        subst
          (λ (k : Limiter).
            (count (spend key t (full l) k).0 + passed key ts (spend key t (full l) k).1)
              * (l.float.one * l.refill)
            ≤ full l * l.refill + ((last t ts - t) * l.float.one + length ts * (error * l.refill)))
          (sym kept)
          (passed-spend error key t (full l) ts
            (record l { buckets = (prune t l).buckets; last_sweep = (prune t l).last_sweep }) round
            (omega arith) s) in
      rw (allow-fresh key t l e) bound
  | inr (b, e) ↦
      let (j, within) = All-lookup _ key b l.buckets h e in
      rw (allow-tracked key t l b e)
        (passed-spend error key t (refilled l b t) ts l round (refilled-bound l b t within.0) s)
]
