-- ===== src/Go/Space/Words.antt =====
-- Fields of a text, joined again by single spaces.
use mathlib.Core.List.{append-nil}
use zorkd.Base.{
  subst, ◌<◌, Bool, true, false, ◌≡◌, refl, ap, ◌∙◌, List, [], ◌∷◌, ◌++◌, arith, length, Text, All,
  All-append, Bool-cases, inl, inr,
}
use zorkd.Go.Utf8.{Rune, runes, text_of, valid_string, is_bad, any_rune}
use zorkd.Go.Utf8.Segments.{
  IsRune, ascii-IsRune, any_rune-All, All-any_rune, runes-IsRune, runes-text_of,
}
use zorkd.Go.Space.{
  is_space, blank, starts_word, join_word, fields, space, join_space, single_spaced,
}

abbrev pub Solid : Rune → Type 0
Solid r = blank r ≡ false

-- A word has a rune, and none of its runes is white space.
pub record IsWord (w : List Rune) : Type 0 where
  pub some_rune : 0 < length w
  pub solid : All Solid w

join_word-IsWord :
    (b : Bool) (r : Rune) (ws : List (List Rune))
    → blank r ≡ false
    → All IsWord ws
    → All IsWord (join_word b r ws)
unfolding join_word
join_word-IsWord true r (w ∷ ws) h a =
    (record { some_rune = omega arith; solid = (h, a.0.solid) }, a.1)
join_word-IsWord true r [] h a = (record { some_rune = omega arith; solid = (h, tt) }, tt)
join_word-IsWord false r ws h a = (record { some_rune = omega arith; solid = (h, tt) }, a)

-- Every field is a word.
pub fields-IsWord : (rs : List Rune) → All IsWord (fields rs)
unfolding fields
fields-IsWord [] = tt
fields-IsWord (r ∷ rs) = elim (Bool-cases (blank r)) [
  | inl b ↦ rw b (fields-IsWord rs)
  | inr b ↦ rw b (join_word-IsWord (starts_word rs) r (fields rs) b (fields-IsWord rs))
]

-- Fields hold runes of the text only.
module _ {ℓ} (P : Rune → Type ℓ) where
  join_word-All :
      (b : Bool) (r : Rune) (ws : List (List Rune))
      → P r
      → All (All P) ws
      → All (All P) (join_word b r ws)
  unfolding join_word
  join_word-All true r (w ∷ ws) h a = ((h, a.0), a.1)
  join_word-All true r [] h a = ((h, tt), tt)
  join_word-All false r ws h a = ((h, tt), a)

  pub fields-All : (rs : List Rune) → All P rs → All (All P) (fields rs)
  unfolding fields
  fields-All [] a = tt
  fields-All (r ∷ rs) a = elim (Bool-cases (blank r)) [
    | inl b ↦ rw b (fields-All rs a.1)
    | inr b ↦ rw b (join_word-All (starts_word rs) r (fields rs) a.0 (fields-All rs a.1))
  ]

  pub join_space-All : (ws : List (List Rune)) → P space → All (All P) ws → All P (join_space ws)
  unfolding join_space
  join_space-All [] s a = tt
  join_space-All (w ∷ []) s a = a.0
  join_space-All (w ∷ v ∷ ws) s a =
      All-append P w (space ∷ join_space (v ∷ ws)) a.0 (s, join_space-All (v ∷ ws) s a.1)

fields-blank : (r : Rune) (rs : List Rune) → blank r ≡ true → fields (r ∷ rs) ≡ fields rs
unfolding fields
fields-blank r rs b = rw b

fields-solid :
    (r : Rune) (rs : List Rune)
    → blank r ≡ false
    → fields (r ∷ rs) ≡ join_word (starts_word rs) r (fields rs)
unfolding fields
fields-solid r rs b = rw b

starts_word-cons : (r : Rune) (rs : List Rune) → blank r ≡ false → starts_word (r ∷ rs) ≡ true
unfolding starts_word
starts_word-cons r rs b = rw b

-- A word in front of a space, or at the end, is the first field.
fields-word :
    (w rs : List Rune)
    → All Solid w
    → 0 < length w
    → starts_word rs ≡ false
    → fields (w ++ rs) ≡ w ∷ fields rs
unfolding join_word
fields-word [] rs h n e = absurd (omega (arith, n))
fields-word (r ∷ []) rs h n e = rw (fields-solid r rs h.0, e) refl
fields-word (r ∷ q ∷ w) rs h n e =
    rw
      (
        fields-solid r (q ∷ w ++ rs) h.0,
        starts_word-cons q (w ++ rs) h.1.0,
        fields-word (q ∷ w) rs h.1 (omega arith) e,
      )
      refl

-- Words joined by single spaces are found again.
pub fields-join_space : (ws : List (List Rune)) → All IsWord ws → fields (join_space ws) ≡ ws
unfolding join_space
fields-join_space [] a = unfold fields in refl
fields-join_space (w ∷ []) a =
    subst (λ v. fields v ≡ w ∷ []) (append-nil w)
      (fields-word w [] a.0.solid a.0.some_rune (unfold starts_word in refl)
        ∙ unfold fields in refl)
fields-join_space (w ∷ v ∷ ws) a =
    fields-word w (space ∷ join_space (v ∷ ws)) a.0.solid a.0.some_rune
      (unfold starts_word is_space in refl)
    ∙ ap (◌∷◌ w) (
        fields-blank space (join_space (v ∷ ws)) (unfold is_space in refl)
        ∙ fields-join_space (v ∷ ws) a.1)

space-IsRune : IsRune space
space-IsRune = ascii-IsRune 0x20 (omega arith)

-- The words of a valid text, joined, are well-formed runes.
pub join_space-IsRune :
    (s : Text) → valid_string s ≡ true → All IsRune (join_space (fields (runes s)))
join_space-IsRune s v =
    join_space-All IsRune (fields (runes s)) space-IsRune
      (fields-All IsRune (runes s) (runes-IsRune s v))

pub runes-single_spaced :
    (s : Text) → valid_string s ≡ true → runes (single_spaced s) ≡ join_space (fields (runes s))
unfolding single_spaced
runes-single_spaced s v = runes-text_of _ (join_space-IsRune s v)

-- Joining once is enough.
pub single_spaced_idem :
    (s : Text) → valid_string s ≡ true → single_spaced (single_spaced s) ≡ single_spaced s
unfolding single_spaced
single_spaced_idem s v =
    ap (λ rs. text_of (join_space (fields rs))) (runes-single_spaced s v)
    ∙ ap (λ ws. text_of (join_space ws))
        (fields-join_space (fields (runes s)) (fields-IsWord (runes s)))

-- What no rune of a valid text is, no rune of the joined text is, if the space is not.
pub any_rune-single_spaced :
    (p : Rune → Bool) (s : Text)
    → valid_string s ≡ true
    → p space ≡ false
    → any_rune p (runes s) ≡ false
    → any_rune p (runes (single_spaced s)) ≡ false
any_rune-single_spaced p s v h none_p = rw (runes-single_spaced s v) (
    All-any_rune p _ (
      join_space-All (λ r. p r ≡ false) (fields (runes s)) h
        (fields-All (λ r. p r ≡ false) (runes s) (any_rune-All p (runes s) none_p))))

pub single_spaced-valid : (s : Text) → valid_string s ≡ true → valid_string (single_spaced s) ≡ true
unfolding valid_string
single_spaced-valid s v = rw (any_rune-single_spaced is_bad s v refl (ground arith)) refl
