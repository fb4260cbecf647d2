-- ===== src/Go/Sort.antt =====
-- slices.SortFunc by a test that says which of two items comes first, and strings.Compare.
use mathlib.Core.List.{Perm, Mem}
use mathlib.Core.List.Perm
use zorkd.Base.{
  ℕ, ◌≤◌, ◌≡◌, All, arith, Bool, true, false, inl, inr, List, [], ◌∷◌, ltb, ◌==◌, if◌then◌else◌,
  Text, Bool-cases,
}

-- strings.Compare(s, t) > 0
unfoldable pub text_after : Text → Text → Bool
text_after [] t = false
text_after (a ∷ s) [] = true
text_after (a ∷ s) (b ∷ t) = let rest = text_after s t in if a == b then rest else ltb b a

module _ {A : Type 0} (first : A → A → Bool) where
  insert_sorted : A → List A → List A
  insert_sorted a [] = a ∷ []
  insert_sorted a (b ∷ l) =
      let rest = insert_sorted a l in if first b a then b ∷ rest else a ∷ b ∷ l

  unfoldable pub sort_func : List A → List A
  unfolding insert_sorted
  sort_func [] = []
  sort_func (a ∷ l) = insert_sorted a (sort_func l)

  insert_sorted-perm : (a : A) (l : List A) → Perm (insert_sorted a l) (a ∷ l)
  unfolding insert_sorted
  insert_sorted-perm a [] = Perm.refl (a ∷ [])
  insert_sorted-perm a (b ∷ l) = elim (Bool-cases (first b a)) [
    | inl e ↦ rw e (Perm.trans (Perm.cons b (insert_sorted-perm a l)) (Perm.swap a b l))
    | inr e ↦ rw e (Perm.refl (a ∷ b ∷ l))
  ]

  -- Sorting loses nothing and makes nothing up.
  pub sort_func-perm : (l : List A) → Perm (sort_func l) l
  unfolding sort_func
  sort_func-perm [] = Perm.refl []
  sort_func-perm (a ∷ l) =
      Perm.trans (insert_sorted-perm a (sort_func l)) (Perm.cons a (sort_func-perm l))

  pub mem-sort_func : (a : A) (l : List A) → Mem a l → Mem a (sort_func l)
  mem-sort_func a l h = (Perm.mem_iff (sort_func-perm l)).1 h

-- A list whose keys do not grow.
module _ {A : Type 0} (key : A → ℕ) where
  abbrev pub Falling : List A → Type 0
  Falling [] = Unit {0}
  Falling (a ∷ l) = All (λ b. key b ≤ key a) l × Falling l

  module _ (first : A → A → Bool) (yes : (a b : A) → first a b ≡ true → key b ≤ key a)
      (no : (a b : A) → first a b ≡ false → key a ≤ key b) where
    All-insert_sorted :
        (n : ℕ) (a : A) (l : List A)
        → key a ≤ n
        → All (λ b. key b ≤ n) l
        → All (λ b. key b ≤ n) (insert_sorted first a l)
    unfolding insert_sorted
    All-insert_sorted n a [] h t = (h, tt)
    All-insert_sorted n a (b ∷ l) h t = elim (Bool-cases (first b a)) [
      | inl e ↦ rw e (t.0, All-insert_sorted n a l h t.1)
      | inr e ↦ rw e (h, t)
    ]

    All-below : (m n : ℕ) (l : List A) → m ≤ n → All (λ b. key b ≤ m) l → All (λ b. key b ≤ n) l
    All-below m n [] h t = tt
    All-below m n (b ∷ l) h t = (omega (arith, h, t.0), All-below m n l h t.1)

    insert_sorted-Falling : (a : A) (l : List A) → Falling l → Falling (insert_sorted first a l)
    unfolding insert_sorted
    insert_sorted-Falling a [] t = (tt, tt)
    insert_sorted-Falling a (b ∷ l) t = elim (Bool-cases (first b a)) [
      | inl e ↦ rw e (All-insert_sorted (key b) a l (yes b a e) t.0, insert_sorted-Falling a l t.1)
      | inr e ↦ let h = no b a e in rw e ((h, All-below (key b) (key a) l h t.0), t)
    ]

    -- Sorting by a test that goes by the keys, the larger first, makes the keys fall.
    pub sort_func-Falling : (l : List A) → Falling (sort_func first l)
    unfolding sort_func
    sort_func-Falling [] = tt
    sort_func-Falling (a ∷ l) = insert_sorted-Falling a (sort_func first l) (sort_func-Falling l)
