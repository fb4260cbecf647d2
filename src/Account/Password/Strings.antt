-- ===== src/Account/Password/Strings.antt =====
-- Reading back what Sprintf and Join wrote: numbers after literals, and fields between separators.
use zorkd.Base.{
  ℕ, ◌<◌, ◌≡◌, ◌≢◌, ◌^◌, ◌||◌, refl, ap, sym, ◌∙◌, true, false, ◌&&◌, not, some, List, [], ◌∷◌,
  ◌++◌, All, ◌==◌, ==_refl, length, Text, arith,
}
use mathlib.Core.List.{append-nil}
use zorkd.Go.Utf8.{Rune, runes, text_of}
use zorkd.Go.Utf8.Segments.{text_of-runes, ascii-IsRune, runes-first}
use zorkd.Go.Space.{blank, is_space}
use zorkd.Go.Split.{split, join, extend}
use zorkd.Go.Decimal.{
  format_int, digits_value, is_digit, digits_value-format_int, format_int-digits,
}
use zorkd.Game.SaveName.{is_empty}
use zorkd.Account.Password.{
  skip_blanks, span_digits, number_of, scan_number, scan_literal, signed, field,
}

-- A text that does not go on with a digit.
abbrev pub Ends : Text → Type 0
Ends [] = Unit
Ends (c ∷ s) = is_digit c ≡ false

span_digits-append :
    (ds rest : Text)
    → All (λ c. is_digit c ≡ true) ds
    → Ends rest
    → span_digits (ds ++ rest) ≡ (ds, rest)
unfolding span_digits
span_digits-append [] [] h e = refl
span_digits-append [] (c ∷ s) h e = rw e refl
span_digits-append (d ∷ ds) rest h e = rw (h.0) (rw (span_digits-append ds rest h.1 e) refl)

digit-solid :
    (r : Rune) (c : ℕ)
    → is_digit c ≡ true
    → r.value ≡ c
    → (blank r && not (r.value == 0x0A)) ≡ false
unfolding is_space
digit-solid r c h e = ground arith

-- A digit is not passed over.
skip_blanks-digit :
    (c : ℕ) (s : Text) → is_digit c ≡ true → text_of (skip_blanks (runes (c ∷ s))) ≡ c ∷ s
unfolding skip_blanks
skip_blanks-digit c s h =
    let (r, rs, e, v) = runes-first c s in
    let one = ap (λ (p : ℕ × ℕ). p.0) ((ascii-IsRune c (ground arith)).at s) in
    let solid : (blank r && not (r.value == 0x0A)) ≡ false = digit-solid r c h (v ∙ one) in
    rw e (rw solid (sym (ap text_of e) ∙ text_of-runes (c ∷ s)))

number_of-digits :
    (bound n c : ℕ) (ds rest : Text)
    → digits_value 0 (c ∷ ds) ≡ some n
    → n < bound
    → number_of bound (c ∷ ds, rest) ≡ some (n, rest)
unfolding number_of is_empty
number_of-digits bound n c ds rest v b = ground (arith, v, b)

scan_number-digits :
    (bound n : ℕ) (ds rest : Text)
    → All (λ c. is_digit c ≡ true) ds
    → 0 < length ds
    → digits_value 0 ds ≡ some n
    → n < bound
    → Ends rest
    → scan_number bound (ds ++ rest) ≡ some (n, rest)
unfolding scan_number
scan_number-digits bound n [] rest h e v b t = absurd (omega arith)
scan_number-digits bound n (c ∷ ds) rest h e v b t =
    ap (number_of bound)
      (ap span_digits (skip_blanks-digit c (ds ++ rest) h.0) ∙ span_digits-append (c ∷ ds) rest h t)
    ∙ number_of-digits bound n c ds rest v b

pub scan_number-format_int :
    (bound n : ℕ) (rest : Text)
    → n < bound
    → Ends rest
    → scan_number bound (format_int n ++ rest) ≡ some (n, rest)
scan_number-format_int bound n rest b t =
    let (digits, full) = format_int-digits n in
    scan_number-digits bound n (format_int n) rest digits full (digits_value-format_int n) b t

pub scan_literal-append : (l s : Text) → scan_literal l (l ++ s) ≡ some s
unfolding scan_literal
scan_literal-append [] s = refl
scan_literal-append (c ∷ l) s = rw (==_refl c) (scan_literal-append l s)

-- A literal and a number of the format are read back, with what follows them.
pub field-format_int :
    (l : Text) (bound n : ℕ) (rest : Text)
    → n < bound
    → Ends rest
    → field l bound (l ++ (format_int n ++ rest)) ≡ some (n, rest)
unfolding field
field-format_int l bound n rest b t =
    rw (scan_literal-append l (format_int n ++ rest), field)
      (scan_number-format_int bound n rest b t)

abbrev pub Plain : ℕ → Text → Type 0
Plain c s = All (λ b. b ≢ c) s

split-Plain : (c : ℕ) (s : Text) → Plain c s → split c s ≡ s ∷ []
unfolding split extend
split-Plain c [] h = refl
split-Plain c (b ∷ s) h = ground (arith, h.0, split-Plain c s h.1)

split-append : (c : ℕ) (s t : Text) → Plain c s → split c (s ++ c ∷ t) ≡ s ∷ split c t
unfolding split extend
split-append c [] t h = rw (==_refl c) refl
split-append c (b ∷ s) t h = ground (arith, h.0, split-append c s t h.1)

-- Fields that do not hold the separator are read back.
pub split-join :
    (c : ℕ) (s : Text) (ss : List Text)
    → All (Plain c) (s ∷ ss)
    → split c (join c (s ∷ ss)) ≡ s ∷ ss
unfolding join
split-join c s [] h = split-Plain c s h.0
split-join c s (t ∷ ss) h = split-append c s _ h.0 ∙ ap (◌∷◌ s) (split-join c t ss h.1)

signed-digits :
    (n : ℕ) (ds : Text)
    → All (λ c. is_digit c ≡ true) ds
    → 0 < length ds
    → digits_value 0 ds ≡ some n
    → n < 2 ^ 63
    → signed (text_of (skip_blanks (runes ds))) ≡ some n
unfolding signed
signed-digits n [] h e v b = absurd (omega arith)
signed-digits n (c ∷ ds) h e v b =
    let plain : (c == b'+' || c == b'-') ≡ false = ground (arith, h.0) in
    let spans : span_digits (c ∷ ds) ≡ (c ∷ ds, []) =
      ap span_digits (sym (append-nil (c ∷ ds))) ∙ span_digits-append (c ∷ ds) [] h tt in
    ap signed (skip_blanks-digit c ds h.0)
    ∙ rw plain (rw spans (rw (number_of-digits (2 ^ 63) n c ds [] v b) refl))

-- A version is read back.
pub signed-format_int :
    (n : ℕ) → n < 2 ^ 63 → signed (text_of (skip_blanks (runes (format_int n)))) ≡ some n
signed-format_int n b =
    let (digits, full) = format_int-digits n in
    signed-digits n (format_int n) digits full (digits_value-format_int n) b
