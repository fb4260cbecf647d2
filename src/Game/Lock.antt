-- ===== src/Game/Lock.antt =====
-- keyedMutex of internal/game/session.go: one mutex for each game, kept while somebody uses it.
pub mod Counts
pub mod Entries
pub mod Moves
pub mod Exclusion
use zorkd.Base.{
  ℕ, suc, ◌-◌, ◌≡◌, Bool, true, false, Option, none, some, List, [], ◌∷◌, ◌++◌, All, ◌==◌,
  if◌then◌else◌, Text, Map, lookup, insert, delete,
}

-- keyedLock: whether its mutex is held, and how many hold it or wait for it.
pub record KeyedLock : Type 0 where
  pub held : Bool
  pub holders : ℕ

-- The map of locks by their addresses, and what is stored there.
pub record KeyedMutex : Type 0 where
  pub locks : Map ℕ
  pub heap : ℕ → KeyedLock
  pub next : ℕ

abbrev pub write : ℕ → KeyedLock → (ℕ → KeyedLock) → ℕ → KeyedLock
write a l heap b = if a == b then l else heap b

-- The first part of lock, under the mutex of the map: the entry of a key, which one more now uses.
unfoldable pub enter : Text → KeyedMutex → ℕ × KeyedMutex
enter key k = elim (lookup key k.locks) [
  | some a ↦ (
    a,
    record k {
      heap = write a (record { held = (k.heap a).held; holders = suc (k.heap a).holders }) k.heap;
    },
  )
  | none ↦ (
    k.next,
    record {
      locks = insert key k.next k.locks;
      heap = write k.next (record { held = false; holders = 1 }) k.heap;
      next = suc k.next;
    },
  )
]

-- entry.mu.Lock() and entry.mu.Unlock()
unfoldable pub set_held : Bool → ℕ → KeyedMutex → KeyedMutex
set_held held a k = record k {
  heap = write a (record { held = held; holders = (k.heap a).holders }) k.heap;
}

-- The last part of what lock returns, under the mutex of the map again.
unfoldable pub leave : Text → ℕ → KeyedMutex → KeyedMutex
leave key a k =
    let holders = (k.heap a).holders - 1 in
    record k {
      locks = if holders == 0 then delete key k.locks else k.locks;
      heap = write a (record { held = (k.heap a).held; holders = holders }) k.heap;
    }

-- Where a goroutine is: outside, before entry.mu.Lock(), between lock and unlock, and after
-- entry.mu.Unlock().
pub data Phase : Type 0 where
  outside : Phase
  waiting inside leaving : Text → ℕ → Phase

-- The interleavings of the goroutines of a server: every part that a mutex guards is one step, and
-- an operation between lock and unlock takes as long as it will.
pub data Run : KeyedMutex → List Phase → KeyedMutex → List Phase → Type 0 where
  enters :
      (k : KeyedMutex) (xs ys : List Phase) (key : Text)
      → Run k (xs ++ outside ∷ ys) (enter key k).1 (xs ++ waiting key (enter key k).0 ∷ ys)
  locks :
      (k : KeyedMutex) (xs ys : List Phase) (key : Text) (a : ℕ)
      → (k.heap a).held ≡ false
      → Run k (xs ++ waiting key a ∷ ys) (set_held true a k) (xs ++ inside key a ∷ ys)
  unlocks :
      (k : KeyedMutex) (xs ys : List Phase) (key : Text) (a : ℕ)
      → Run k (xs ++ inside key a ∷ ys) (set_held false a k) (xs ++ leaving key a ∷ ys)
  leaves :
      (k : KeyedMutex) (xs ys : List Phase) (key : Text) (a : ℕ)
      → Run k (xs ++ leaving key a ∷ ys) (leave key a k) (xs ++ outside ∷ ys)

abbrev pub AllOutside : List Phase → Type 0
AllOutside ts = All (λ p. p ≡ outside) ts

-- From a server that has locked nothing yet, with any number of goroutines.
pub data Reach : KeyedMutex → List Phase → Type 0 where
  start :
      (heap : ℕ → KeyedLock) (ts : List Phase)
      → AllOutside ts
      → Reach (record { locks = []; heap = heap; next = 0 }) ts
  step : (k k' : KeyedMutex) (ts ts' : List Phase) → Reach k ts → Run k ts k' ts' → Reach k' ts'
