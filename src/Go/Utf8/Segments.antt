-- ===== src/Go/Utf8/Segments.antt =====
-- A text is cut into its runes, and a row of well-formed runes reads back as itself.
use zorkd.Base.{
  Bool, false, ℕ, zero, suc, ◌≤◌, ◌<◌, Bool, true, false, ◌≡◌, refl, ap, ◌∙◌, List, [], ◌∷◌, ◌++◌,
  arith, length, take, drop, Text, take-append-drop, length-drop, length-append, length-take, All,
  take-append_length, drop-append_length,
}
use zorkd.Go.Utf8.{decode_rune, runes_fuel, runes, Rune, text_of, is_bad, any_rune, valid_string}

-- A decoded rune of a text that is not empty has a byte.
decode_rune-pos : (a : ℕ) (s : Text) → 0 < (decode_rune (a ∷ s)).1
unfolding decode_rune
decode_rune-pos a [] = ground arith
decode_rune-pos a (b ∷ []) = ground arith
decode_rune-pos a (b ∷ c ∷ []) = ground arith
decode_rune-pos a (b ∷ c ∷ d ∷ s) = ground arith

text_of-runes_fuel : (f : ℕ) (s : Text) → length s ≤ f → text_of (runes_fuel f s) ≡ s
unfolding runes_fuel
text_of-runes_fuel zero [] h = refl
text_of-runes_fuel zero (b ∷ s) h = absurd (omega arith)
text_of-runes_fuel (suc f) [] h = refl
text_of-runes_fuel (suc f) (b ∷ s) h =
    let n = (decode_rune (b ∷ s)).1 in
    ap (◌++◌ (take n (b ∷ s))) (
      text_of-runes_fuel f (drop n (b ∷ s))
        (omega (arith, length-drop n (b ∷ s), decode_rune-pos b s)))
    ∙ take-append-drop n (b ∷ s)

-- Cutting a text into runes loses no byte.
pub text_of-runes : (s : Text) → text_of (runes s) ≡ s
unfolding runes
text_of-runes s = text_of-runes_fuel (length s) s (omega arith)

-- A rune that decodes as itself, whatever follows it.
pub record IsRune (r : Rune) : Type 0 where
  pub at : (t : Text) → decode_rune (r.bytes ++ t) ≡ (r.value, length r.bytes)
  pub pos : 0 < length r.bytes

first_rune : Text → Rune
first_rune s = record { value = (decode_rune s).0; bytes = take (decode_rune s).1 s }

first_rune-at :
    (a : ℕ) (s t : Text)
    → is_bad (first_rune (a ∷ s)) ≡ false
    → decode_rune ((first_rune (a ∷ s)).bytes ++ t)
      ≡ ((first_rune (a ∷ s)).value, length (first_rune (a ∷ s)).bytes)
unfolding decode_rune first_rune
first_rune-at a [] t h = ground arith
first_rune-at a (b ∷ []) t h = ground arith
first_rune-at a (b ∷ c ∷ []) t h = ground arith
first_rune-at a (b ∷ c ∷ d ∷ s) t h = ground arith

first_rune-IsRune :
    (b : ℕ) (s : Text) → is_bad (first_rune (b ∷ s)) ≡ false → IsRune (first_rune (b ∷ s))
unfolding first_rune
first_rune-IsRune b s h = record {
  at = λ t. first_rune-at b s t h;
  pos = omega (arith, length-take (decode_rune (b ∷ s)).1 (b ∷ s), decode_rune-pos b s);
}

runes_fuel-cons :
    (f : ℕ) (s : Text)
    → 0 < length s
    → runes_fuel (suc f) s ≡ first_rune s ∷ runes_fuel f (drop (decode_rune s).1 s)
unfolding runes_fuel first_rune
runes_fuel-cons f [] h = absurd (omega arith)
runes_fuel-cons f (b ∷ s) h = refl

-- The first rune of a text, by its value.
pub runes-first :
    (b : ℕ) (s : Text)
    → (r : Rune) × (rs : List Rune) × (runes (b ∷ s) ≡ r ∷ rs) × (r.value ≡ (decode_rune (b ∷ s)).0)
unfolding runes first_rune
runes-first b s = (
  first_rune (b ∷ s),
  runes_fuel (length s) (drop (decode_rune (b ∷ s)).1 (b ∷ s)),
  runes_fuel-cons (length s) (b ∷ s) (omega arith),
  refl,
)

runes_fuel-IsRune :
    (f : ℕ) (s : Text) → any_rune is_bad (runes_fuel f s) ≡ false → All IsRune (runes_fuel f s)
unfolding runes_fuel first_rune
runes_fuel-IsRune zero s h = tt
runes_fuel-IsRune (suc f) [] h = tt
runes_fuel-IsRune (suc f) (b ∷ s) h =
    let n = (decode_rune (b ∷ s)).1 in
    (first_rune-IsRune b s (ground arith), runes_fuel-IsRune f (drop n (b ∷ s)) (ground arith))

-- The runes of a valid string are well formed.
pub runes-IsRune : (s : Text) → valid_string s ≡ true → All IsRune (runes s)
unfolding valid_string
runes-IsRune s h = runes_fuel-IsRune (length s) s (ground arith)

runes_fuel-text_of :
    (f : ℕ) (rs : List Rune)
    → All IsRune rs
    → length (text_of rs) ≤ f
    → runes_fuel f (text_of rs) ≡ rs
unfolding runes_fuel first_rune
runes_fuel-text_of zero [] w h = refl
runes_fuel-text_of zero (r ∷ rs) w h =
    absurd (omega (arith, length-append r.bytes (text_of rs), w.0.pos))
runes_fuel-text_of (suc f) [] w h = refl
runes_fuel-text_of (suc f) (r ∷ rs) w h =
    let s = r.bytes ++ text_of rs in
    runes_fuel-cons f s (omega (arith, length-append r.bytes (text_of rs), w.0.pos))
    ∙ rw (first_rune, w.0.at (text_of rs), take-append_length, drop-append_length)
        (ap (◌∷◌ r) (
          runes_fuel-text_of f rs w.1 (omega (arith, length-append r.bytes (text_of rs), w.0.pos))))

-- A row of well-formed runes, written out, is read back as the same row.
pub runes-text_of : (rs : List Rune) → All IsRune rs → runes (text_of rs) ≡ rs
unfolding runes
runes-text_of rs w = runes_fuel-text_of (length (text_of rs)) rs w (omega arith)

pub ascii-IsRune : (b : ℕ) → b < 128 → IsRune (record { value = b; bytes = b ∷ [] })
unfolding decode_rune
ascii-IsRune b h = record { at = λ t. ground arith; pos = omega arith }

-- A Boolean test that no rune passes, rune by rune, and back.
module _ (p : Rune → Bool) where
  pub any_rune-All : (rs : List Rune) → any_rune p rs ≡ false → All (λ r. p r ≡ false) rs
  any_rune-All [] h = tt
  any_rune-All (r ∷ rs) h = (ground arith, any_rune-All rs (ground arith))

  pub All-any_rune : (rs : List Rune) → All (λ r. p r ≡ false) rs → any_rune p rs ≡ false
  All-any_rune [] h = refl
  All-any_rune (r ∷ rs) h = rw (h.0) (All-any_rune rs h.1)
