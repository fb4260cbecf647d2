-- ===== src/Terminal.antt =====
-- internal/terminal/terminal.go: a turn as it is printed on a character terminal. A width of zero
-- or less is 0.
pub mod Wrapping
pub mod Rounds
use zorkd.Base.{
  ℕ, Option, none, some, zero, suc, ◌+◌, ◌-◌, ◌%◌, max, Bool, true, false, ◌&&◌, ◌||◌, ℤ, pos,
  negsuc, List, [], ◌∷◌, ◌++◌, map, ltb, leb, ◌==◌, if◌then◌else◌, length, take, replicate, Text,
  codes, str_eq,
}
use zorkd.Go.Utf8.{values, rune_count}
use zorkd.Go.Space.{encode_all}
use zorkd.Go.Decimal.{format_int}
use zorkd.Go.Split.{split, join}
use zorkd.Game.SaveName.{is_empty}
use zorkd.Game.Types.{EngineStatus, EngineResult}

pub record Turn : Type 0 where
  pub command : Text
  pub output : Text
  pub upper_window : Text
  pub status : EngineStatus

unfoldable pub new_turn : Text → EngineResult → Turn
new_turn command result = record {
  command = command;
  output = result.output;
  upper_window = result.upper_window;
  status = result.status_line;
}

-- U+2026
abbrev ellipsis : Text
ellipsis = 0xE2 ∷ 0x80 ∷ 0xA6 ∷ []

unfoldable pub truncate : Text → ℕ → Text
truncate s n =
    if n == 0
    then []
    else if leb (rune_count s) n
    then s
    else if n == 1
    then encode_all (take 1 (values s))
    else encode_all (take (n - 1) (values s)) ++ ellipsis

-- The verb %d, of an int.
unfoldable pub format_z : ℤ → Text
format_z (pos n) = format_int n
format_z (negsuc n) = b'-' ∷ format_int (suc n)

-- The verb %02d, of a count.
unfoldable pub two_digits : ℕ → Text
two_digits n = if ltb n 10 then b'0' ∷ format_int n else format_int n

unfoldable pub clock : EngineStatus → Text
unfolding two_digits
clock s =
    let hour = s.hours % 12 in
    let suffix = if leb 12 s.hours then codes "pm" else codes "am" in
    format_int (if hour == 0 then 12 else hour) ++ b':' ∷ two_digits s.minutes ++ b' ' ∷ suffix

unfoldable pub score_and_moves : EngineStatus → Text
unfolding clock format_z
score_and_moves s =
    if s.time_game
    then codes "Time: " ++ clock s
    else codes "Score: " ++ format_z s.score ++ codes "   Moves: " ++ format_z s.turns

unfoldable pub status_bar : EngineStatus → ℕ → Text
unfolding truncate score_and_moves
status_bar s width =
    if s.available
    then (let right = score_and_moves s in
        if width == 0
        then s.name ++ codes "   " ++ right
        else (let scored = rune_count right in
            let name =
              if ltb width (rune_count s.name + scored + 3)
              then truncate s.name (width - scored - 3)
              else s.name in
            name ++ replicate (max (width - rune_count name - scored) 1) b' ' ++ right))
    else []

-- The bytes of the cutset of strings.TrimLeft and strings.IndexAny.
abbrev pub is_gap : ℕ → Bool
is_gap b = b == b' ' || b == 0x09

-- A text, cut before its first byte that is not in the cutset, and before its first that is.
unfoldable pub cut_gap : Text → Text × Text
cut_gap [] = ([], [])
cut_gap (b ∷ s) = let (gap, rest) = cut_gap s in if is_gap b then (b ∷ gap, rest) else ([], b ∷ s)

unfoldable pub cut_word : Text → Text × Text
cut_word [] = ([], [])
cut_word (b ∷ s) =
    let (word, rest) = cut_word s in if is_gap b then ([], b ∷ s) else (b ∷ word, rest)

-- The loop of wrapLine, from the line so far and its runes on. Each round takes a word from the
-- rest, so one round for each byte of it and one more are enough; it is none if the rounds run out.
unfoldable pub wrap_words : ℕ → ℕ → Text → Text → ℕ → Text → Option Text
wrap_words zero width indent cur cur_n rest = none
wrap_words (suc fuel) width indent cur cur_n [] = some cur
wrap_words (suc fuel) width indent cur cur_n (b ∷ s) =
    let gap = (cut_gap (b ∷ s)).0 in
    let word = (cut_word (cut_gap (b ∷ s)).1).0 in
    let rest = (cut_word (cut_gap (b ∷ s)).1).1 in
    let next = cur_n + rune_count gap + rune_count word in
    let joined = wrap_words fuel width indent (cur ++ gap ++ word) next rest in
    let broken =
      wrap_words fuel width indent (indent ++ word) (rune_count indent + rune_count word) rest in
    if is_empty (cut_gap (b ∷ s)).1
    then some (cur ++ gap)
    else if (cur_n == rune_count indent && str_eq cur indent) || leb next width
    then joined
    else elim broken [ none ↦ none | some out ↦ some (cur ++ 0x0A ∷ out) ]

unfoldable pub wrap_line : ℕ → Text → Text
unfolding wrap_words
wrap_line width line =
    if leb (rune_count line) width
    then line
    else (let (indent, rest) = cut_gap line in
        if leb width (rune_count indent)
        then line
        else elim (wrap_words (suc (length rest)) width indent indent (rune_count indent) rest) [
          | none ↦ line
          | some out ↦ out
        ])

unfoldable pub wrap : Text → ℕ → Text
unfolding wrap_line split join
wrap text width =
    if width == 0 || is_empty text
    then text
    else join 0x0A (map (wrap_line width) (split 0x0A text))

-- Turn.Text
unfoldable pub text : Turn → ℕ → Text
text t width =
    let bar = status_bar t.status width in
    (if is_empty bar then [] else 0x0A ∷ bar ++ 0x0A ∷ [])
    ++ (if is_empty t.upper_window then [] else t.upper_window ++ 0x0A ∷ [])
    ++ wrap t.output width
