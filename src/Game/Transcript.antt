-- ===== src/Game/Transcript.antt =====
-- transcript.go: the bounded scrollback.
pub mod Bounds
use zorkd.Base.{
  ℕ, suc, ◌+◌, ◌-◌, ◌*◌, Bool, true, false, Option, none, some, List, [], ◌∷◌, ◌++◌, leb, ◌==◌,
  if◌then◌else◌, length, drop, Text, codes,
}

abbrev pub max_transcript_bytes : ℕ
max_transcript_bytes = 64 * 1024

-- strings.IndexByte(s, '\n'), and what follows that byte.
pub after_newline : Text → Option Text
after_newline [] = none
after_newline (b ∷ s) = let rest = after_newline s in if b == 10 then some s else rest

unfoldable pub trim_transcript : Text → ℕ → Text
unfolding after_newline
trim_transcript transcript limit =
    if leb (length transcript) limit
    then transcript
    else let cut = drop (length transcript - limit) transcript in
      elim (after_newline cut) [ none ↦ cut | some rest ↦ rest ]

unfoldable pub append_transcript : Text → Text → Text → Text
unfolding trim_transcript
append_transcript transcript command output =
    trim_transcript (transcript ++ (command ++ (10 ∷ output))) max_transcript_bytes

unfoldable pub append_notice : Text → Text → Text → Text
unfolding trim_transcript
append_notice transcript echo message =
    trim_transcript
      (transcript ++ (echo ++ (10 ∷ b'[' ∷ (message ++ (b']' ∷ 10 ∷ 10 ∷ b'>' ∷ [])))))
      max_transcript_bytes
