-- ===== src/Game/Lock/Exclusion.antt =====
-- Two goroutines are never between lock and unlock of one key.
use zorkd.Base.{
  subst, ℕ, suc, ◌-◌, ◌<◌, ◌≤◌, ◌≡◌, sym, false, none, some, List, [], ◌∷◌, ◌++◌, All, ◌==◌, Text,
  lookup, arith, Option-cases, Bool-cases, inl, inr, ◌⊎◌,
}
use zorkd.Game.Lock.{
  KeyedMutex, enter, leave, Phase, outside, waiting, leaving, Run, enters, locks, unlocks, leaves,
  AllOutside, Reach, start, step,
}
use zorkd.Game.Lock.Counts.{uses, holds, total, At, as_number, IsLocked, All-at}
use zorkd.Game.Lock.Entries.{total-absent}
use zorkd.Game.Lock.Moves.{
  locks-IsLocked, unlocks-IsLocked, fresh-IsLocked, found-IsLocked, last-IsLocked, others-IsLocked,
}

enter-IsLocked :
    (k : KeyedMutex) (xs ys : List Phase) (key : Text)
    → IsLocked k (xs ++ outside ∷ ys)
    → IsLocked (enter key k).1 (xs ++ waiting key (enter key k).0 ∷ ys)
unfolding enter
enter-IsLocked k xs ys key h = elim (Option-cases (lookup key k.locks)) [
  | inl p ↦ rw (p, enter) (fresh-IsLocked k xs ys key p h)
  | inr (a, p) ↦ rw (p, enter) (found-IsLocked k xs ys key a p h)
]

leave-IsLocked :
    (k : KeyedMutex) (xs ys : List Phase) (key : Text) (a : ℕ)
    → IsLocked k (xs ++ leaving key a ∷ ys)
    → IsLocked (leave key a k) (xs ++ outside ∷ ys)
unfolding leave
leave-IsLocked k xs ys key a h =
    let here = All-at (At k.locks) (leaving key a) xs ys h.at in
    elim (Bool-cases ((k.heap a).holders == 1)) [
      | inl p ↦
          let o : (k.heap a).holders ≡ 1 = ground (arith, p) in
          rw (o, leave) (last-IsLocked k xs ys key a o h)
      | inr p ↦
          let o : (k.heap a).holders ≡ suc (suc ((k.heap a).holders - 2)) =
            ground (arith, p, h.used key a here) in
          let less : (k.heap a).holders - 1 ≡ suc ((k.heap a).holders - 2) =
            ground (arith, p, h.used key a here) in
          let stays : (suc ((k.heap a).holders - 2) == 0) ≡ false = ground arith in
          rw (less, leave) (rw stays (others-IsLocked k xs ys key a ((k.heap a).holders - 2) o h))
    ]

Run-IsLocked :
    (k k' : KeyedMutex) (ts ts' : List Phase) → Run k ts k' ts' → IsLocked k ts → IsLocked k' ts'
Run-IsLocked _ _ _ _ (enters k xs ys key) h = enter-IsLocked k xs ys key h
Run-IsLocked _ _ _ _ (locks k xs ys key a f) h = locks-IsLocked k xs ys key a f h
Run-IsLocked _ _ _ _ (unlocks k xs ys key a) h = unlocks-IsLocked k xs ys key a h
Run-IsLocked _ _ _ _ (leaves k xs ys key a) h = leave-IsLocked k xs ys key a h

outside-At : (ts : List Phase) → AllOutside ts → All (At []) ts
outside-At [] h = tt
outside-At (p ∷ ts) h = (subst (At []) (sym h.0) tt, outside-At ts h.1)

Reach-IsLocked : (k : KeyedMutex) (ts : List Phase) → Reach k ts → IsLocked k ts
unfolding lookup
Reach-IsLocked _ _ (start heap ts o) = record {
  at = outside-At ts o;
  users = λ key a e. absurd cc;
  used = λ key a e. absurd cc;
  inner = λ key a e. absurd cc;
  own = λ key key' a e e'. absurd cc;
  below = λ key a e. absurd cc;
}
Reach-IsLocked _ _ (step k k' ts ts' r x) = Run-IsLocked k k' ts ts' x (Reach-IsLocked k ts r)

-- However the goroutines interleave, one at most is between lock and unlock of a key; the map has an
-- entry for the key just while somebody uses it, and the mutex of the entry is held just while
-- somebody is inside.
pub one_inside :
    (k : KeyedMutex) (ts : List Phase) (key : Text)
    → Reach k ts
    → (total (holds key) ts ≤ 1)
      × (((lookup key k.locks ≡ none) × (total (uses key) ts ≡ 0))
          ⊎ ((a : ℕ) × (lookup key k.locks ≡ some a)
              × (0 < total (uses key) ts)
              × (as_number (k.heap a).held ≡ total (holds key) ts)))
one_inside k ts key r =
    let h = Reach-IsLocked k ts r in
    elim (Option-cases (lookup key k.locks)) [
      | inl p ↦ let (u, v) = total-absent k.locks key ts p h.at in (ground (arith, v), inl (p, u))
      | inr (a, p) ↦ (
        elim (Bool-cases (k.heap a).held) [
          | inl b ↦ ground (arith, b, h.inner key a p)
          | inr b ↦ ground (arith, b, h.inner key a p)
        ],
        inr (a, p, ground (arith, h.users key a p, h.used key a p), h.inner key a p),
      )
    ]
