-- ===== src/Game/Lock/Counts.antt =====
-- Who uses a key, who is inside, and what the locks then look like.
use zorkd.Base.{
  ℕ, ◌+◌, ◌<◌, ◌≡◌, Bool, true, false, some, List, [], ◌∷◌, ◌++◌, All, if◌then◌else◌, Text, Map,
  lookup, str_eq, arith,
}
use zorkd.Game.Lock.{KeyedMutex, Phase, outside, waiting, inside, leaving}

-- Whether a goroutine uses the entry of a key, and whether it is between lock and unlock.
abbrev pub uses : Text → Phase → ℕ
uses key outside = 0
uses key (waiting k a) = if str_eq k key then 1 else 0
uses key (inside k a) = if str_eq k key then 1 else 0
uses key (leaving k a) = if str_eq k key then 1 else 0

abbrev pub holds : Text → Phase → ℕ
holds key outside = 0
holds key (waiting k a) = 0
holds key (inside k a) = if str_eq k key then 1 else 0
holds key (leaving k a) = 0

unfoldable pub total : (Phase → ℕ) → List Phase → ℕ
total f [] = 0
total f (p ∷ ts) = f p + total f ts

-- One goroutine that moves on.
pub total-swap :
    (f : Phase → ℕ) (p q : Phase) (xs ys : List Phase)
    → total f (xs ++ p ∷ ys) + f q ≡ total f (xs ++ q ∷ ys) + f p
unfolding total
total-swap f p q [] ys = omega arith
total-swap f p q (x ∷ xs) ys = ground (arith, total-swap f p q xs ys)

abbrev pub At : Map ℕ → Phase → Type 0
At m outside = Unit
At m (waiting k a) = lookup k m ≡ some a
At m (inside k a) = lookup k m ≡ some a
At m (leaving k a) = lookup k m ≡ some a

abbrev pub as_number : Bool → ℕ
as_number true = 1
as_number false = 0

-- Every goroutine uses the entry that the map has for its key, an entry counts those that use it,
-- and its mutex is held by the one that is inside.
pub record IsLocked (k : KeyedMutex) (ts : List Phase) : Type 0 where
  pub at : All (At k.locks) ts
  pub users :
      (key : Text) (a : ℕ) → lookup key k.locks ≡ some a → (k.heap a).holders ≡ total (uses key) ts
  pub used : (key : Text) (a : ℕ) → lookup key k.locks ≡ some a → 0 < (k.heap a).holders
  pub inner :
      (key : Text) (a : ℕ)
      → lookup key k.locks ≡ some a
      → as_number (k.heap a).held ≡ total (holds key) ts
  pub own :
      (key key' : Text) (a : ℕ)
      → lookup key k.locks ≡ some a
      → lookup key' k.locks ≡ some a
      → key ≡ key'
  pub below : (key : Text) (a : ℕ) → lookup key k.locks ≡ some a → a < k.next

pub All-swap :
    (P : Phase → Type 0) (p q : Phase) (xs ys : List Phase)
    → P q
    → All P (xs ++ p ∷ ys)
    → All P (xs ++ q ∷ ys)
All-swap P p q [] ys h a = (h, a.1)
All-swap P p q (x ∷ xs) ys h a = (a.0, All-swap P p q xs ys h a.1)

pub All-at : (P : Phase → Type 0) (p : Phase) (xs ys : List Phase) → All P (xs ++ p ∷ ys) → P p
All-at P p [] ys a = a.0
All-at P p (x ∷ xs) ys a = All-at P p xs ys a.1
