-- ===== src/Go/Space.antt =====
-- Packages unicode and strings: white space, control characters, trimming, fields, folding case.
pub mod Words
use zorkd.Base.{
  ℕ, zero, suc, ◌+◌, ◌-◌, ◌≤◌, ◌<◌, Bool, true, false, ◌&&◌, ◌||◌, not, ◌≡◌, ◌≢◌, List, [], ◌∷◌,
  ◌++◌, map, reverse, Option, none, some, ltb, leb, ◌==◌, if◌then◌else◌, length, take, drop, Text,
  codes, str_eq,
}
use zorkd.Go.Utf8.{Rune, runes, values, text_of, encode_rune}

-- unicode.IsSpace
unfoldable pub is_space : ℕ → Bool
is_space r =
    (leb 0x09 r && leb r 0x0D)
    || r == 0x20
    || r == 0x85
    || r == 0xA0
    || r == 0x1680
    || (leb 0x2000 r && leb r 0x200A)
    || r == 0x2028
    || r == 0x2029
    || r == 0x202F
    || r == 0x205F
    || r == 0x3000

-- unicode.IsControl
unfoldable pub is_control : ℕ → Bool
is_control r = ltb r 0x20 || (leb 0x7F r && ltb r 0xA0)

abbrev pub blank : Rune → Bool
blank r = is_space r.value

-- strings.TrimLeftFunc by white space, on the runes.
unfoldable pub skip_spaces : List Rune → List Rune
unfolding is_space
skip_spaces [] = []
skip_spaces (r ∷ rs) = let rest = skip_spaces rs in if blank r then rest else r ∷ rs

-- strings.TrimSpace
unfoldable pub trim_space : Text → Text
unfolding skip_spaces runes
trim_space s = text_of (reverse (skip_spaces (reverse (skip_spaces (runes s)))))

-- strings.IndexFunc by white space: the byte offset of the first such rune.
unfoldable pub index_space : List Rune → Option ℕ
unfolding is_space
index_space [] = none
index_space (r ∷ rs) =
    if blank r
    then some 0
    else elim (index_space rs) [ none ↦ none | some i ↦ some (length r.bytes + i) ]

-- Whether the row starts inside a word.
starts_word : List Rune → Bool
unfolding is_space
starts_word [] = false
starts_word (r ∷ rs) = not (blank r)

-- Puts a rune in front of the first word, or makes it a word of its own.
join_word : Bool → Rune → List (List Rune) → List (List Rune)
join_word true r (w ∷ ws) = (r ∷ w) ∷ ws
join_word _ r ws = (r ∷ []) ∷ ws

-- strings.Fields, on the runes: the longest runs without white space.
unfoldable pub fields : List Rune → List (List Rune)
unfolding is_space starts_word join_word
fields [] = []
fields (r ∷ rs) =
    let rest = fields rs in if blank r then rest else join_word (starts_word rs) r rest

abbrev pub space : Rune
space = record { value = 0x20; bytes = 0x20 ∷ [] }

-- strings.Join(words, " "), on the runes.
unfoldable pub join_space : List (List Rune) → List Rune
join_space [] = []
join_space (w ∷ []) = w
join_space (w ∷ v ∷ ws) = w ++ space ∷ join_space (v ∷ ws)

-- strings.Join(strings.Fields(s), " ")
unfoldable pub single_spaced : Text → Text
unfolding fields join_space runes
single_spaced s = text_of (join_space (fields (runes s)))

abbrev pub ascii_lower : ℕ → ℕ
ascii_lower r = if leb b'A' r && leb r b'Z' then r + 32 else r

-- The tables of package unicode. `fold` picks one rune of each orbit of SimpleFold: the lower-case
-- letter where the orbit holds an ASCII letter.
pub record Unicode : Type 0 where
  pub to_lower : ℕ → ℕ
  pub fold : ℕ → ℕ
  pub is_print : ℕ → Bool
  pub to_lower-ascii : (r : ℕ) → r < 128 → to_lower r ≡ ascii_lower r
  -- Only U+0130 and U+212A have an ASCII letter, `i` and `k`, for their lower case.
  pub to_lower-other : (r : ℕ) → 128 ≤ r → r ≢ 0x130 → r ≢ 0x212A → 128 ≤ to_lower r
  pub to_lower-dotted : to_lower 0x130 ≡ b'i'
  pub to_lower-kelvin : to_lower 0x212A ≡ b'k'
  pub fold-ascii : (r : ℕ) → r < 128 → fold r ≡ ascii_lower r

unfoldable pub encode_all : List ℕ → Text
unfolding encode_rune
encode_all [] = []
encode_all (r ∷ rs) = encode_rune r ++ encode_all rs

module _ ⦃u : Unicode⦄ where
  -- strings.ToLower
  unfoldable pub to_lower_text : Text → Text
  unfolding values encode_all
  to_lower_text s = encode_all (map u.to_lower (values s))

  -- strings.EqualFold
  unfoldable pub equal_fold : Text → Text → Bool
  unfolding values
  equal_fold s t = str_eq (map u.fold (values s)) (map u.fold (values t))
