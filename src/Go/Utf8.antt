-- ===== src/Go/Utf8.antt =====
-- Package unicode/utf8, and the runes that a `range` over a string meets.
pub mod Segments
use zorkd.Base.{
  ℕ, zero, suc, ◌+◌, ◌-◌, ◌*◌, ◌/◌, ◌%◌, Bool, true, false, ◌&&◌, ◌||◌, not, List, [], ◌∷◌, ◌++◌,
  map, ltb, leb, ◌==◌, if◌then◌else◌, length, take, drop, Text,
}

-- utf8.RuneError
abbrev pub rune_error : ℕ
rune_error = 0xFFFD

abbrev pub is_cont : ℕ → Bool
is_cont b = leb 0x80 b && leb b 0xBF

-- The range of a second byte depends on the first: no overlong forms, no surrogates, no value
-- past U+10FFFF.
abbrev pub is_second : ℕ → ℕ → Bool
is_second a b =
    leb (if a == 0xE0 then 0xA0 else if a == 0xF0 then 0x90 else 0x80) b
    && leb b (if a == 0xED then 0x9F else if a == 0xF4 then 0x8F else 0xBF)

decode_two : ℕ → Text → ℕ × ℕ
decode_two a (b ∷ s) = if is_cont b then ((a - 0xC0) * 64 + (b - 0x80), 2) else (rune_error, 1)
decode_two a _ = (rune_error, 1)

decode_three : ℕ → Text → ℕ × ℕ
decode_three a (b ∷ c ∷ s) =
    if is_second a b && is_cont c
    then (((a - 0xE0) * 64 + (b - 0x80)) * 64 + (c - 0x80), 3)
    else (rune_error, 1)
decode_three a _ = (rune_error, 1)

decode_four : ℕ → Text → ℕ × ℕ
decode_four a (b ∷ c ∷ d ∷ s) =
    if is_second a b && (is_cont c && is_cont d)
    then ((((a - 0xF0) * 64 + (b - 0x80)) * 64 + (c - 0x80)) * 64 + (d - 0x80), 4)
    else (rune_error, 1)
decode_four a _ = (rune_error, 1)

-- utf8.DecodeRuneInString: the first rune and the number of its bytes.
pub decode_rune : Text → ℕ × ℕ
unfolding decode_two decode_three decode_four
decode_rune [] = (rune_error, 0)
decode_rune (a ∷ s) =
    if ltb a 0x80
    then (a, 1)
    else if ltb a 0xC2
    then (rune_error, 1)
    else if ltb a 0xE0
    then decode_two a s
    else if ltb a 0xF0
    then decode_three a s
    else if ltb a 0xF5
    then decode_four a s
    else (rune_error, 1)

-- utf8.AppendRune, from nothing.
unfoldable pub encode_rune : ℕ → Text
encode_rune r =
    if ltb r 0x80
    then r ∷ []
    else if ltb r 0x800
    then (0xC0 + r / 64) ∷ (0x80 + r % 64) ∷ []
    else if (leb 0xD800 r && leb r 0xDFFF) || ltb 0x10FFFF r
    then 0xEF ∷ 0xBF ∷ 0xBD ∷ []
    else if ltb r 0x10000
    then (0xE0 + r / 4096) ∷ (0x80 + r / 64 % 64) ∷ (0x80 + r % 64) ∷ []
    else (0xF0 + r / 262144) ∷ (0x80 + r / 4096 % 64) ∷ (0x80 + r / 64 % 64) ∷ (0x80 + r % 64) ∷ []

-- One step of a `range` over a string.
pub record Rune : Type 0 where
  pub value : ℕ
  pub bytes : Text

-- Every round takes a byte at least, so the length of the text is fuel enough.
runes_fuel : ℕ → Text → List Rune
runes_fuel zero s = []
runes_fuel (suc f) [] = []
runes_fuel (suc f) (b ∷ s) =
    let (v, n) = decode_rune (b ∷ s) in
    record { value = v; bytes = take n (b ∷ s) } ∷ runes_fuel f (drop n (b ∷ s))

unfoldable pub runes : Text → List Rune
unfolding runes_fuel decode_rune
runes s = runes_fuel (length s) s

unfoldable pub values : Text → List ℕ
unfolding runes
values s = map (λ r. r.value) (runes s)

-- The bytes of a row of runes.
abbrev pub text_of : List Rune → Text
text_of [] = []
text_of (r ∷ rs) = r.bytes ++ text_of rs

-- A byte that starts no rune.
abbrev pub is_bad : Rune → Bool
is_bad r = r.value == rune_error && length r.bytes == 1

abbrev pub any_rune : (Rune → Bool) → List Rune → Bool
any_rune p [] = false
any_rune p (r ∷ rs) = p r || any_rune p rs

-- utf8.ValidString
unfoldable pub valid_string : Text → Bool
unfolding runes
valid_string s = not (any_rune is_bad (runes s))

-- utf8.RuneCountInString
unfoldable pub rune_count : Text → ℕ
unfolding runes
rune_count s = length (runes s)
