-- ===== src/Game/Lock/Moves.antt =====
-- Every step keeps the locks in order.
use zorkd.Base.{
  ℕ, suc, ◌≡◌, refl, ap, sym, ◌∙◌, true, false, none, some, List, ◌∷◌, ◌++◌, ◌==◌, ==_refl, Text,
  lookup, insert, delete, lookup-insert, str_eq, str_eq_refl, str_eq_iff, eq_of_str_eq, arith,
  Bool-cases, inl, inr,
}
use mathlib.Core.Option.{some-injective}
use zorkd.Game.Lock.{KeyedMutex, write, set_held, Phase, outside, waiting, inside, leaving}
use zorkd.Game.Lock.Counts.{uses, holds, total, At, IsLocked, total-swap, All-swap, All-at}
use zorkd.Game.Lock.Entries.{
  total-absent, All-insert, lookup-insert_cases, lookup-delete_cases, All-delete,
}

-- Two keys have one entry just where they are one key.
same_entry :
    (k : KeyedMutex) (ts : List Phase) (key j : Text) (a b : ℕ)
    → IsLocked k ts
    → lookup key k.locks ≡ some a
    → lookup j k.locks ≡ some b
    → (a == b) ≡ str_eq key j
same_entry k ts key j a b h p q = elim (Bool-cases (str_eq key j)) [
  | inl e ↦
      let same =
        some-injective a b
          (sym p ∙ ap (λ (x : Text). lookup x k.locks) (eq_of_str_eq key j e) ∙ q) in
      rw (e, same) (==_refl b)
  | inr e ↦ elim (Bool-cases (a == b)) [
    | inr d ↦ d ∙ sym e
    | inl d ↦
        let one : a ≡ b = ground (arith, d) in
        let both = h.own key j a p (q ∙ ap (λ (n : ℕ). some n) (sym one)) in
        absurd (ground (arith, e, str_eq_iff key j, both))
  ]
]

pub locks-IsLocked :
    (k : KeyedMutex) (xs ys : List Phase) (key : Text) (a : ℕ)
    → (k.heap a).held ≡ false
    → IsLocked k (xs ++ waiting key a ∷ ys)
    → IsLocked (set_held true a k) (xs ++ inside key a ∷ ys)
unfolding set_held
locks-IsLocked k xs ys key a f h =
    let here = All-at (At k.locks) (waiting key a) xs ys h.at in
    record {
      at = All-swap (At k.locks) (waiting key a) (inside key a) xs ys here h.at;
      users = λ j b e.
          ground (arith, h.users j b e, total-swap (uses j) (waiting key a) (inside key a) xs ys);
      used = λ j b e. ground (arith, h.used j b e);
      inner = λ j b e. ground (
        arith,
        f,
        same_entry k _ key j a b h here e,
        h.inner j b e,
        total-swap (holds j) (waiting key a) (inside key a) xs ys,
      );
      own = h.own;
      below = h.below;
    }

pub unlocks-IsLocked :
    (k : KeyedMutex) (xs ys : List Phase) (key : Text) (a : ℕ)
    → IsLocked k (xs ++ inside key a ∷ ys)
    → IsLocked (set_held false a k) (xs ++ leaving key a ∷ ys)
unfolding set_held
unlocks-IsLocked k xs ys key a h =
    let here = All-at (At k.locks) (inside key a) xs ys h.at in
    record {
      at = All-swap (At k.locks) (inside key a) (leaving key a) xs ys here h.at;
      users = λ j b e.
          ground (arith, h.users j b e, total-swap (uses j) (inside key a) (leaving key a) xs ys);
      used = λ j b e. ground (arith, h.used j b e);
      inner = λ j b e. elim (Bool-cases (k.heap b).held) [
        | inl g ↦ ground (
          arith,
          g,
          same_entry k _ key j a b h here e,
          h.inner j b e,
          total-swap (holds j) (inside key a) (leaving key a) xs ys,
        )
        | inr g ↦ ground (
          arith,
          g,
          same_entry k _ key j a b h here e,
          h.inner j b e,
          total-swap (holds j) (inside key a) (leaving key a) xs ys,
        )
      ];
      own = h.own;
      below = h.below;
    }

-- A new entry.
pub fresh-IsLocked :
    (k : KeyedMutex) (xs ys : List Phase) (key : Text)
    → lookup key k.locks ≡ none
    → IsLocked k (xs ++ outside ∷ ys)
    → IsLocked
        (record {
          locks = insert key k.next k.locks;
          heap = write k.next (record { held = false; holders = 1 }) k.heap;
          next = suc k.next;
        })
        (xs ++ waiting key k.next ∷ ys)
fresh-IsLocked k xs ys key f h =
    let (u, v) = total-absent k.locks key (xs ++ outside ∷ ys) f h.at in
    record {
      at =
          All-swap (At (insert key k.next k.locks)) outside (waiting key k.next) xs ys
            (lookup-insert key key k.next k.locks ∙ rw (str_eq_refl key) refl)
            (All-insert k.locks key k.next (xs ++ outside ∷ ys) f h.at);
      users = λ j b e. elim (lookup-insert_cases k.locks key j k.next b e) [
        | inl (p, q) ↦ ground (
          arith,
          p,
          q,
          ap (λ (x : Text). total (uses x) (xs ++ outside ∷ ys)) (eq_of_str_eq key j p),
          u,
          total-swap (uses j) outside (waiting key k.next) xs ys,
        )
        | inr (p, q) ↦ ground (
          arith,
          p,
          h.below j b q,
          h.users j b q,
          total-swap (uses j) outside (waiting key k.next) xs ys,
        )
      ];
      used = λ j b e. elim (lookup-insert_cases k.locks key j k.next b e) [
        | inl (p, q) ↦ ground (arith, q)
        | inr (p, q) ↦ ground (arith, h.below j b q, h.used j b q)
      ];
      inner = λ j b e. elim (lookup-insert_cases k.locks key j k.next b e) [
        | inl (p, q) ↦ ground (
          arith,
          p,
          q,
          ap (λ (x : Text). total (holds x) (xs ++ outside ∷ ys)) (eq_of_str_eq key j p),
          v,
          total-swap (holds j) outside (waiting key k.next) xs ys,
        )
        | inr (p, q) ↦ ground (
          arith,
          p,
          h.below j b q,
          h.inner j b q,
          total-swap (holds j) outside (waiting key k.next) xs ys,
        )
      ];
      own = λ j j' b e e'. elim (lookup-insert_cases k.locks key j k.next b e) [
        | inl (p, q) ↦ elim (lookup-insert_cases k.locks key j' k.next b e') [
          | inl (p', q') ↦ sym (eq_of_str_eq key j p) ∙ eq_of_str_eq key j' p'
          | inr (p', q') ↦ absurd (ground (arith, q, h.below j' b q'))
        ]
        | inr (p, q) ↦ elim (lookup-insert_cases k.locks key j' k.next b e') [
          | inl (p', q') ↦ absurd (ground (arith, q', h.below j b q))
          | inr (p', q') ↦ h.own j j' b q q'
        ]
      ];
      below = λ j b e. elim (lookup-insert_cases k.locks key j k.next b e) [
        | inl (p, q) ↦ omega arith
        | inr (p, q) ↦ ground (arith, h.below j b q)
      ];
    }

-- An entry that was there.
pub found-IsLocked :
    (k : KeyedMutex) (xs ys : List Phase) (key : Text) (a : ℕ)
    → lookup key k.locks ≡ some a
    → IsLocked k (xs ++ outside ∷ ys)
    → IsLocked
        (record k {
          heap =
              write a (record { held = (k.heap a).held; holders = suc (k.heap a).holders }) k.heap;
        })
        (xs ++ waiting key a ∷ ys)
found-IsLocked k xs ys key a f h = record {
  at = All-swap (At k.locks) outside (waiting key a) xs ys f h.at;
  users = λ j b e. ground (
    arith,
    same_entry k _ key j a b h f e,
    h.users j b e,
    total-swap (uses j) outside (waiting key a) xs ys,
  );
  used = λ j b e. ground (arith, h.used j b e);
  inner =
      λ j b e. ground (arith, h.inner j b e, total-swap (holds j) outside (waiting key a) xs ys);
  own = h.own;
  below = h.below;
}

-- The last one leaves: its entry goes.
pub last-IsLocked :
    (k : KeyedMutex) (xs ys : List Phase) (key : Text) (a : ℕ)
    → (k.heap a).holders ≡ 1
    → IsLocked k (xs ++ leaving key a ∷ ys)
    → IsLocked
        (record k {
          locks = delete key k.locks;
          heap = write a (record { held = (k.heap a).held; holders = 0 }) k.heap;
        })
        (xs ++ outside ∷ ys)
last-IsLocked k xs ys key a o h =
    let here = All-at (At k.locks) (leaving key a) xs ys h.at in
    let none_left : total (uses key) (xs ++ outside ∷ ys) ≡ 0 = ground (
      arith,
      o,
      str_eq_refl key,
      h.users key a here,
      total-swap (uses key) (leaving key a) outside xs ys,
    ) in
    record {
      at =
          All-delete k.locks key (xs ++ outside ∷ ys) none_left
            (All-swap (At k.locks) (leaving key a) outside xs ys tt h.at);
      users = λ j b e.
          let (p, q) = lookup-delete_cases k.locks key j b e in
          ground (
            arith,
            p,
            same_entry k _ key j a b h here q,
            h.users j b q,
            total-swap (uses j) (leaving key a) outside xs ys,
          );
      used = λ j b e.
          let (p, q) = lookup-delete_cases k.locks key j b e in
          ground (arith, p, same_entry k _ key j a b h here q, h.used j b q);
      inner = λ j b e.
          let (p, q) = lookup-delete_cases k.locks key j b e in
          ground (
            arith,
            p,
            same_entry k _ key j a b h here q,
            h.inner j b q,
            total-swap (holds j) (leaving key a) outside xs ys,
          );
      own = λ j j' b e e'.
          h.own j j' b (lookup-delete_cases k.locks key j b e).1
            (lookup-delete_cases k.locks key j' b e').1;
      below = λ j b e. h.below j b (lookup-delete_cases k.locks key j b e).1;
    }

-- One of several leaves.
pub others-IsLocked :
    (k : KeyedMutex) (xs ys : List Phase) (key : Text) (a n : ℕ)
    → (k.heap a).holders ≡ suc (suc n)
    → IsLocked k (xs ++ leaving key a ∷ ys)
    → IsLocked
        (record k { heap = write a (record { held = (k.heap a).held; holders = suc n }) k.heap })
        (xs ++ outside ∷ ys)
others-IsLocked k xs ys key a n o h =
    let here = All-at (At k.locks) (leaving key a) xs ys h.at in
    record {
      at = All-swap (At k.locks) (leaving key a) outside xs ys tt h.at;
      users = λ j b e. ground (
        arith,
        o,
        same_entry k _ key j a b h here e,
        h.users j b e,
        total-swap (uses j) (leaving key a) outside xs ys,
      );
      used = λ j b e. ground (arith, h.used j b e);
      inner = λ j b e. ground (
        arith,
        same_entry k _ key j a b h here e,
        h.inner j b e,
        total-swap (holds j) (leaving key a) outside xs ys,
      );
      own = h.own;
      below = h.below;
    }
