-- ===== src/Go/Split.antt =====
-- strings.Split and strings.Join with a separator of one ASCII byte.
use zorkd.Base.{
  ℕ, ◌≡◌, refl, ap, sym, List, [], ◌∷◌, ◌++◌, if◌then◌else◌, ◌==◌, Text, ==_iff, Bool-cases, inl,
  inr, ◌∙◌,
}

-- A byte before the first piece.
unfoldable pub extend : ℕ → List Text → List Text
extend b [] = (b ∷ []) ∷ []
extend b (s ∷ ss) = (b ∷ s) ∷ ss

unfoldable pub split : ℕ → Text → List Text
unfolding extend
split c [] = [] ∷ []
split c (b ∷ s) = let rest = split c s in if b == c then [] ∷ rest else extend b rest

unfoldable pub join : ℕ → List Text → Text
join c [] = []
join c (s ∷ []) = s
join c (s ∷ t ∷ ss) = s ++ c ∷ join c (t ∷ ss)

join-extend : (c b : ℕ) (ss : List Text) → join c (extend b ss) ≡ b ∷ join c ss
unfolding join extend
join-extend c b [] = refl
join-extend c b (s ∷ []) = refl
join-extend c b (s ∷ t ∷ ss) = refl

split-head : (c : ℕ) (s : Text) → (t : Text) × (ts : List Text) × (split c s ≡ t ∷ ts)
unfolding split
split-head c [] = ([], [], refl)
split-head c (b ∷ s) =
    let (t, ts, e) = split-head c s in
    elim (Bool-cases (b == c)) [
      | inl p ↦ ([], split c s, rw p refl)
      | inr p ↦ (b ∷ t, ts, rw p (rw (e, extend) refl))
    ]

join-break : (c : ℕ) (s : Text) → join c ([] ∷ split c s) ≡ c ∷ join c (split c s)
unfolding join
join-break c s = let (t, ts, e) = split-head c s in rw e refl

-- Joining what was split gives the text back.
pub join-split : (c : ℕ) (s : Text) → join c (split c s) ≡ s
unfolding split
join-split c [] = unfold join in refl
join-split c (b ∷ s) = elim (Bool-cases (b == c)) [
  | inl p ↦ rw p (
      join-break c s
      ∙ ap (◌∷◌ c) (join-split c s)
      ∙ ap (λ (x : ℕ). x ∷ s) (sym (((==_iff b c).0) p)))
  | inr p ↦ rw p (join-extend c b (split c s) ∙ ap (◌∷◌ b) (join-split c s))
]
