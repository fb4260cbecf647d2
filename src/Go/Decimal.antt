-- ===== src/Go/Decimal.antt =====
-- Package strconv: decimal numerals.
use zorkd.Base.{
  ℕ, zero, suc, ◌+◌, ◌-◌, ◌*◌, ◌/◌, ◌%◌, ◌<◌, Bool, ◌&&◌, ◌≡◌, refl, ap, ◌∙◌, Option, none, some,
  [], ◌∷◌, ◌++◌, arith, ltb, leb, ◌==◌, if◌then◌else◌, Text, Bool-cases, inl, inr, ◌≢◌, ◌^◌, All,
  All-append, length, true,
}

-- Every round divides by ten, so a fuel above the number is enough.
format_fuel : ℕ → ℕ → Text
format_fuel zero n = []
format_fuel (suc f) n =
    let rest = format_fuel f (n / 10) in
    if ltb n 10 then (b'0' + n) ∷ [] else rest ++ (b'0' + n % 10) ∷ []

-- strconv.FormatInt(n, 10), for a number that is not negative.
unfoldable pub format_int : ℕ → Text
unfolding format_fuel
format_int n = format_fuel (suc n) n

abbrev pub is_digit : ℕ → Bool
is_digit c = leb b'0' c && leb c b'9'

-- The value of a row of digits, and none at the first byte that is no digit.
pub digits_value : ℕ → Text → Option ℕ
digits_value acc [] = some acc
digits_value acc (c ∷ s) =
    let rest = digits_value (acc * 10 + (c - b'0')) s in if is_digit c then rest else none

-- strconv.ParseInt(s, 10, 64) for the positive results, which are all that the callers accept: one
-- plus sign is allowed, at least one digit is wanted, and the value fits an int64.
unsigned : Text → Option ℕ
unfolding digits_value
unsigned [] = none
unsigned (c ∷ s) = elim (digits_value 0 (c ∷ s)) [
  | none ↦ none
  | some n ↦ if ltb 0 n && ltb n (2 ^ 63) then some n else none
]

unfoldable pub parse_positive : Text → Option ℕ
unfolding unsigned
parse_positive [] = none
parse_positive (c ∷ s) = if c == b'+' then unsigned s else unsigned (c ∷ s)

digits_value-append :
    (s : Text) (acc d m : ℕ)
    → d < 10
    → digits_value acc s ≡ some m
    → digits_value acc (s ++ (b'0' + d) ∷ []) ≡ some (m * 10 + d)
unfolding digits_value
digits_value-append [] acc d m h e = ground arith
digits_value-append (c ∷ s) acc d m h e =
    ground (arith, digits_value-append s (acc * 10 + (c - b'0')) d m h)

format_fuel-value : (f n : ℕ) → n < f → digits_value 0 (format_fuel f n) ≡ some n
unfolding format_fuel
format_fuel-value zero n h = absurd (omega arith)
format_fuel-value (suc f) n h = elim (Bool-cases (ltb n 10)) [
  | inl small ↦ rw small (unfold digits_value in ground arith)
  | inr large ↦ rw large (
      digits_value-append (format_fuel f (n / 10)) 0 (n % 10) (n / 10) (omega arith)
        (format_fuel-value f (n / 10) (ground arith))
      ∙ ap some (omega arith))
]

-- Reading a written number gives it back.
pub digits_value-format_int : (n : ℕ) → digits_value 0 (format_int n) ≡ some n
unfolding format_int
digits_value-format_int n = format_fuel-value (suc n) n (omega arith)

-- Two numbers are not written alike.
pub format_int-injective : (m n : ℕ) → format_int m ≡ format_int n → m ≡ n
format_int-injective m n e =
    ground (arith, digits_value-format_int m, digits_value-format_int n, ap (digits_value 0) e)

-- What is written starts with a digit.
format_fuel-head : (f n : ℕ) → n < f → (c : ℕ) × (s : Text) × (format_fuel f n ≡ c ∷ s) × (c ≢ b'+')
unfolding format_fuel
format_fuel-head zero n h = absurd (omega arith)
format_fuel-head (suc f) n h = elim (Bool-cases (ltb n 10)) [
  | inl small ↦ rw small (b'0' + n, [], refl, omega arith)
  | inr large ↦ rw large (
      let (c, s, e, d) = format_fuel-head f (n / 10) (ground arith) in
      (c, s ++ (b'0' + n % 10) ∷ [], ap (λ t. t ++ (b'0' + n % 10) ∷ []) e, d))
]

-- A row number of the database survives the way out and back.
pub parse_positive-format_int :
    (n : ℕ) → 0 < n → n < 2 ^ 63 → parse_positive (format_int n) ≡ some n
unfolding parse_positive format_int
parse_positive-format_int n p q =
    let (c, s, e, d) = format_fuel-head (suc n) n (omega arith) in
    let v = format_fuel-value (suc n) n (omega arith) in
    rw e (ground (arith, ap (digits_value 0) e))

unsigned-range : (s : Text) (n : ℕ) → unsigned s ≡ some n → (0 < n) × (n < 2 ^ 63)
unfolding unsigned
unsigned-range [] n e = absurd cc
unsigned-range (c ∷ s) n e = (ground arith, ground arith)

-- What is read is a positive int64.
pub parse_positive-range : (s : Text) (n : ℕ) → parse_positive s ≡ some n → (0 < n) × (n < 2 ^ 63)
unfolding parse_positive
parse_positive-range [] n e = absurd cc
parse_positive-range (c ∷ s) n e = (
  ground (arith, unsigned-range s n, unsigned-range (c ∷ s) n),
  ground (arith, unsigned-range s n, unsigned-range (c ∷ s) n),
)

format_fuel-digits : (f n : ℕ) → n < f → All (λ c. is_digit c ≡ true) (format_fuel f n)
unfolding format_fuel
format_fuel-digits zero n h = absurd (omega arith)
format_fuel-digits (suc f) n h = elim (Bool-cases (ltb n 10)) [
  | inl small ↦ rw small (ground arith, tt)
  | inr large ↦ rw large (
      All-append (λ c. is_digit c ≡ true) (format_fuel f (n / 10)) ((b'0' + n % 10) ∷ [])
        (format_fuel-digits f (n / 10) (ground arith)) (ground arith, tt))
]

-- What is written is digits, one at least.
pub format_int-digits :
    (n : ℕ) → All (λ c. is_digit c ≡ true) (format_int n) × (0 < length (format_int n))
unfolding format_int
format_int-digits n =
    let (c, s, e, d) = format_fuel-head (suc n) n (omega arith) in
    (format_fuel-digits (suc n) n (omega arith), rw e (omega arith))
