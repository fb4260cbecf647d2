-- ===== src/Terminal/Rounds.antt =====
-- The rounds of the loop of wrapLine: it ends by itself, with the text used up.
use zorkd.Base.{
  ℕ, zero, suc, ◌+◌, ◌≤◌, ◌<◌, ◌≡◌, refl, some, false, ◌||◌, ◌&&◌, [], ◌∷◌, ◌++◌, leb, ◌==◌, length,
  Text, arith, Bool-cases, inl, inr, str_eq,
}
use zorkd.Go.Utf8.{rune_count}
use zorkd.Game.SaveName.{is_empty}
use zorkd.Terminal.{is_gap, cut_gap, cut_word, wrap_words}

length-cut_word : (s : Text) → length (cut_word s).1 ≤ length s
unfolding cut_word
length-cut_word [] = omega arith
length-cut_word (b ∷ s) = elim (Bool-cases (is_gap b)) [
  | inl g ↦ rw g (omega arith)
  | inr g ↦ rw g (omega (arith, length-cut_word s))
]

-- A word that starts with a byte that is no gap takes that byte.
length-cut_solid :
    (b : ℕ) (s : Text) → is_gap b ≡ false → length (cut_word (b ∷ s)).1 < length (b ∷ s)
unfolding cut_word
length-cut_solid b s g = rw g (omega (arith, length-cut_word s))

-- A round that finds a word leaves less than it had.
length-round :
    (s : Text) → is_empty (cut_gap s).1 ≡ false → length (cut_word (cut_gap s).1).1 < length s
unfolding cut_gap
length-round [] e = absurd (unfold is_empty in cc)
length-round (b ∷ s) e = elim (Bool-cases (is_gap b)) [
  | inl g ↦ rw g (omega (arith, length-round s (rw g at e)))
  | inr g ↦ rw g (length-cut_solid b s g)
]

-- With more rounds than there are bytes of text, the loop ends: it answers a text. Every round that
-- goes on has taken a byte at least.
pub wrap_words-ends :
    (fuel width : ℕ) (indent cur : Text) (n : ℕ) (rest : Text)
    → length rest < fuel
    → (out : Text) × (wrap_words fuel width indent cur n rest ≡ some out)
unfolding wrap_words
wrap_words-ends zero width indent cur n rest h = absurd (omega arith)
wrap_words-ends (suc fuel) width indent cur n [] h = (cur, refl)
wrap_words-ends (suc fuel) width indent cur n (b ∷ s) h =
    let gap = (cut_gap (b ∷ s)).0 in
    let word = (cut_word (cut_gap (b ∷ s)).1).0 in
    let rest = (cut_word (cut_gap (b ∷ s)).1).1 in
    let next = n + rune_count gap + rune_count word in
    elim (Bool-cases (is_empty (cut_gap (b ∷ s)).1)) [
      | inl e ↦ rw e (cur ++ gap, refl)
      | inr e ↦
          let less : length rest < fuel = omega (arith, length-round (b ∷ s) e, h) in
          rw e
            (elim (Bool-cases ((n == rune_count indent && str_eq cur indent) || leb next width)) [
              | inl g ↦ rw g (wrap_words-ends fuel width indent (cur ++ gap ++ word) next rest less)
              | inr g ↦
                  let (out, p) =
                    wrap_words-ends fuel width indent (indent ++ word)
                      (rune_count indent + rune_count word) rest less in
                  rw g (cur ++ 0x0A ∷ out, rw p refl)
            ])
    ]
