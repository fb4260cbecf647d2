-- ===== src/Limiter/Size.antt =====
-- How many keys a limiter tracks.
use zorkd.Base.{
  ℕ, zero, suc, ◌≤◌, ◌<◌, true, false, ◌≡◌, ◌≢◌, refl, none, some, [], ◌∷◌, arith, ltb, length,
  Text, Map, lookup, insert, delete, str_eq, str_eq_refl, Bool-cases, Option-cases, inl, inr,
}
use zorkd.Limiter.{Bucket, Limiter, full, refilled, drop_full, fullest, evict, prune, spend, allow}

length-insert : (k : Text) (v : Bucket) (m : Map Bucket) → length (insert k v m) ≤ suc (length m)
unfolding insert
length-insert k v [] = omega arith
length-insert k v ((j, w) ∷ m) = ground (arith, length-insert k v m)

length-insert_found :
    (k : Text) (v b : Bucket) (m : Map Bucket)
    → lookup k m ≡ some b
    → length (insert k v m) ≡ length m
unfolding insert lookup
length-insert_found k v b [] e = cc
length-insert_found k v b ((j, w) ∷ m) e = ground (arith, length-insert_found k v b m)

length-delete : (k : Text) (m : Map Bucket) → length (delete k m) ≤ length m
unfolding delete
length-delete k [] = omega arith
length-delete k ((j, w) ∷ m) = ground (arith, length-delete k m)

length-delete_found :
    (k : Text) (m : Map Bucket) → lookup k m ≢ none → length (delete k m) < length m
unfolding delete lookup
length-delete_found k [] e = absurd (e refl)
length-delete_found k ((j, w) ∷ m) e = elim (Bool-cases (str_eq j k)) [
  | inl p ↦ rw p (omega (arith, length-delete k m))
  | inr p ↦ rw p (omega (arith, length-delete_found k m (rw p at e)))
]

-- A key that two entries and the rest lack.
lookup-missing :
    (f i k : Text) (b c : Bucket) (m : Map Bucket)
    → lookup f ((i, b) ∷ (k, c) ∷ m) ≡ none
    → (lookup f ((k, c) ∷ m) ≡ none) × (lookup f ((i, b) ∷ m) ≡ none)
unfolding lookup
lookup-missing f i k b c m e = ground arith

fullest-more :
    (l : Limiter) (now : ℕ) (best : Text × ℕ) (k : Text) (c : Bucket) (m : Map Bucket)
    → ltb best.1 (refilled l c now) ≡ true
    → fullest l now best ((k, c) ∷ m) ≡ fullest l now (k, refilled l c now) m
unfolding fullest
fullest-more l now best k c m p = rw p refl

fullest-less :
    (l : Limiter) (now : ℕ) (best : Text × ℕ) (k : Text) (c : Bucket) (m : Map Bucket)
    → ltb best.1 (refilled l c now) ≡ false
    → fullest l now best ((k, c) ∷ m) ≡ fullest l now best m
unfolding fullest
fullest-less l now best k c m p = rw p refl

lookup_here : (k : Text) (b : Bucket) (m : Map Bucket) → lookup k ((k, b) ∷ m) ≢ none
unfolding lookup
lookup_here k b m e = absurd (ground (arith, str_eq_refl k))

-- The fullest key is a key.
lookup-fullest :
    (l : Limiter) (now : ℕ) (best : Text × ℕ) (b : Bucket) (m : Map Bucket)
    → lookup (fullest l now best m) ((best.0, b) ∷ m) ≢ none
lookup-fullest l now best b [] e = lookup_here best.0 b [] (unfold fullest in e)
lookup-fullest l now best b ((k, c) ∷ m) e =
    let (x, y) = lookup-missing (fullest l now best ((k, c) ∷ m)) best.0 k b c m e in
    elim (Bool-cases (ltb best.1 (refilled l c now))) [
      | inl p ↦
          lookup-fullest l now (k, refilled l c now) c m (rw (fullest-more l now best k c m p) at x)
      | inr p ↦ lookup-fullest l now best b m (rw (fullest-less l now best k c m p) at y)
    ]

length-evict :
    (fuel : ℕ) (l : Limiter) (now : ℕ) (m : Map Bucket)
    → length m ≤ fuel
    → 0 < l.max_keys
    → length (evict fuel l now m) < l.max_keys
unfolding evict
length-evict zero l now [] h p = omega arith
length-evict zero l now (x ∷ m) h p = absurd (omega arith)
length-evict (suc fuel) l now [] h p = omega arith
length-evict (suc fuel) l now ((k, b) ∷ m) h p =
    let shorter =
      length-delete_found (fullest l now (k, refilled l b now) m) ((k, b) ∷ m)
        (lookup-fullest l now (k, refilled l b now) b m) in
    let rest =
      length-evict fuel l now (delete (fullest l now (k, refilled l b now) m) ((k, b) ∷ m))
        (omega arith) p in
    ground (arith, rest)

length-prune : (now : ℕ) (l : Limiter) → 0 < l.max_keys → length (prune now l).buckets < l.max_keys
unfolding prune
length-prune now l p =
    ground
      (arith, length-evict (length (drop_full l now l.buckets)) l now (drop_full l now l.buckets))

length-spend :
    (key : Text) (now tokens : ℕ) (l : Limiter)
    → length (spend key now tokens l).1.buckets ≤ suc (length l.buckets)
unfolding spend
length-spend key now tokens l = elim (Bool-cases (ltb tokens l.float.one)) [
  | inl p ↦ rw p (length-insert key _ l.buckets)
  | inr p ↦ rw p (length-insert key _ l.buckets)
]

length-spend_found :
    (key : Text) (now tokens : ℕ) (l : Limiter) (b : Bucket)
    → lookup key l.buckets ≡ some b
    → length (spend key now tokens l).1.buckets ≡ length l.buckets
unfolding spend
length-spend_found key now tokens l b e = elim (Bool-cases (ltb tokens l.float.one)) [
  | inl p ↦ rw p (length-insert_found key _ b l.buckets e)
  | inr p ↦ rw p (length-insert_found key _ b l.buckets e)
]

-- Whatever key asks and whenever, limiter.allow leaves no more keys than max tracked, if there
-- were no more before and max is not zero.
pub allow-bounded :
    (key : Text) (now : ℕ) (l : Limiter)
    → 0 < l.max_keys
    → length l.buckets ≤ l.max_keys
    → length (allow key now l).1.buckets ≤ l.max_keys
unfolding allow
allow-bounded key now l p h = elim (Option-cases (lookup key l.buckets)) [
  | inr (b, e) ↦ rw (e, allow) (omega (arith, length-spend_found key now (refilled l b now) l b e))
  | inl e ↦
      rw (e, allow)
        (omega (arith, length-spend key now (full l) (prune now l), length-prune now l p))
]
