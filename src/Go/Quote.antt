-- ===== src/Go/Quote.antt =====
-- strconv.Quote, which fmt writes for %q.
use zorkd.Base.{ℕ, ◌+◌, ◌-◌, ◌/◌, ◌%◌, ◌||◌, List, [], ◌∷◌, ◌++◌, ltb, ◌==◌, if◌then◌else◌, Text}
use zorkd.Go.Utf8.{Rune, runes, is_bad}
use zorkd.Go.Space.{Unicode}

hex : ℕ → ℕ
hex d = if ltb d 10 then b'0' + d else b'a' + (d - 10)

hex_four : ℕ → Text
unfolding hex
hex_four r = hex (r / 4096 % 16) ∷ hex (r / 256 % 16) ∷ hex (r / 16 % 16) ∷ hex (r % 16) ∷ []

-- The escapes of runes that are not printed as they are.
escape : ℕ → Text
unfolding hex_four
escape r =
    if r == 7
    then b'\\' ∷ b'a' ∷ []
    else if r == 8
    then b'\\' ∷ b'b' ∷ []
    else if r == 12
    then b'\\' ∷ b'f' ∷ []
    else if r == 10
    then b'\\' ∷ b'n' ∷ []
    else if r == 13
    then b'\\' ∷ b'r' ∷ []
    else if r == 9
    then b'\\' ∷ b't' ∷ []
    else if r == 11
    then b'\\' ∷ b'v' ∷ []
    else if ltb r 32 || r == 127
    then b'\\' ∷ b'x' ∷ hex (r / 16) ∷ hex (r % 16) ∷ []
    else if ltb r 0x10000
    then b'\\' ∷ b'u' ∷ hex_four r
    else b'\\' ∷ b'U' ∷ (hex_four (r / 65536) ++ hex_four (r % 65536))

module _ ⦃u : Unicode⦄ where
  quote_rune : Rune → Text
  unfolding escape
  quote_rune r =
      if is_bad r
      then (elim r.bytes [ [] ↦ [] | b ∷ _ ↦ b'\\' ∷ b'x' ∷ hex (b / 16) ∷ hex (b % 16) ∷ [] ])
      else if r.value == b'"' || r.value == b'\\'
      then b'\\' ∷ r.bytes
      else if u.is_print r.value
      then r.bytes
      else escape r.value

  quote_all : List Rune → Text
  unfolding quote_rune
  quote_all [] = []
  quote_all (r ∷ rs) = quote_rune r ++ quote_all rs

  unfoldable pub quote : Text → Text
  unfolding quote_all runes
  quote s = b'"' ∷ (quote_all (runes s) ++ b'"' ∷ [])
