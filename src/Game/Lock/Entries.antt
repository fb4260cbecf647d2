-- ===== src/Game/Lock/Entries.antt =====
-- The map of locks after an entry was added or dropped.
use zorkd.Base.{
  ℕ, ◌≡◌, refl, ap, ◌∙◌, true, false, none, some, List, [], ◌∷◌, All, Text, Map, lookup, insert,
  delete, lookup-insert, lookup-delete, str_eq, str_eq_iff, eq_of_str_eq, arith, Bool-cases, inl,
  inr, ◌⊎◌,
}
use zorkd.Game.Lock.{Phase, outside, waiting, inside, leaving}
use zorkd.Game.Lock.Counts.{uses, holds, total, At}

pub unlike :
    (m : Map ℕ) (key j : Text) (a : ℕ)
    → lookup key m ≡ none
    → lookup j m ≡ some a
    → str_eq j key ≡ false
unlike m key j a e h = elim (Bool-cases (str_eq j key)) [
  | inr p ↦ p
  | inl p ↦ absurd (cc (e, h, ap (λ (x : Text). lookup x m) (eq_of_str_eq j key p)))
]

-- A key without an entry is used by nobody.
pub uses-absent :
    (m : Map ℕ) (key : Text) (p : Phase)
    → lookup key m ≡ none
    → At m p
    → (uses key p ≡ 0) × (holds key p ≡ 0)
uses-absent m key outside e h = (refl, refl)
uses-absent m key (waiting j a) e h = (rw (unlike m key j a e h) refl, refl)
uses-absent m key (inside j a) e h =
    (rw (unlike m key j a e h) refl, rw (unlike m key j a e h) refl)
uses-absent m key (leaving j a) e h = (rw (unlike m key j a e h) refl, refl)

pub total-absent :
    (m : Map ℕ) (key : Text) (ts : List Phase)
    → lookup key m ≡ none
    → All (At m) ts
    → (total (uses key) ts ≡ 0) × (total (holds key) ts ≡ 0)
unfolding total
total-absent m key [] e h = (refl, refl)
total-absent m key (p ∷ ts) e h =
    let (a, b) = uses-absent m key p e h.0 in
    let (x, y) = total-absent m key ts e h.1 in (ground (arith, a, x), ground (arith, b, y))

pub other_key :
    (m : Map ℕ) (key j : Text) (a : ℕ)
    → lookup key m ≡ none
    → lookup j m ≡ some a
    → str_eq key j ≡ false
other_key m key j a e h = ground (arith, unlike m key j a e h, str_eq_iff key j, str_eq_iff j key)

pub lookup-insert_cases :
    (m : Map ℕ) (key j : Text) (n b : ℕ)
    → lookup j (insert key n m) ≡ some b
    → ((str_eq key j ≡ true) × (n ≡ b)) ⊎ ((str_eq key j ≡ false) × (lookup j m ≡ some b))
lookup-insert_cases m key j n b e = elim (Bool-cases (str_eq key j)) [
  | inl p ↦ inl (p, ground (arith, p, e, lookup-insert key j n m))
  | inr p ↦ inr (p, ground (arith, p, e, lookup-insert key j n m))
]

At-insert :
    (m : Map ℕ) (key : Text) (n : ℕ) (p : Phase)
    → lookup key m ≡ none
    → At m p
    → At (insert key n m) p
At-insert m key n outside e h = tt
At-insert m key n (waiting j a) e h = lookup-insert key j n m ∙ rw (other_key m key j a e h) h
At-insert m key n (inside j a) e h = lookup-insert key j n m ∙ rw (other_key m key j a e h) h
At-insert m key n (leaving j a) e h = lookup-insert key j n m ∙ rw (other_key m key j a e h) h

pub All-insert :
    (m : Map ℕ) (key : Text) (n : ℕ) (ts : List Phase)
    → lookup key m ≡ none
    → All (At m) ts
    → All (At (insert key n m)) ts
All-insert m key n [] e h = tt
All-insert m key n (p ∷ ts) e h = (At-insert m key n p e h.0, All-insert m key n ts e h.1)

pub lookup-delete_cases :
    (m : Map ℕ) (key j : Text) (b : ℕ)
    → lookup j (delete key m) ≡ some b
    → (str_eq key j ≡ false) × (lookup j m ≡ some b)
lookup-delete_cases m key j b e = elim (Bool-cases (str_eq key j)) [
  | inl p ↦ absurd (ground (arith, p, e, lookup-delete key j m))
  | inr p ↦ (p, ground (arith, p, e, lookup-delete key j m))
]

At-delete : (m : Map ℕ) (key : Text) (p : Phase) → uses key p ≡ 0 → At m p → At (delete key m) p
At-delete m key outside u h = tt
At-delete m key (waiting j a) u h =
    lookup-delete key j m ∙ ground (arith, u, h, str_eq_iff key j, str_eq_iff j key)
At-delete m key (inside j a) u h =
    lookup-delete key j m ∙ ground (arith, u, h, str_eq_iff key j, str_eq_iff j key)
At-delete m key (leaving j a) u h =
    lookup-delete key j m ∙ ground (arith, u, h, str_eq_iff key j, str_eq_iff j key)

pub All-delete :
    (m : Map ℕ) (key : Text) (ts : List Phase)
    → total (uses key) ts ≡ 0
    → All (At m) ts
    → All (At (delete key m)) ts
unfolding total
All-delete m key [] u h = tt
All-delete m key (p ∷ ts) u h =
    (At-delete m key p (ground (arith, u)) h.0, All-delete m key ts (ground (arith, u)) h.1)
