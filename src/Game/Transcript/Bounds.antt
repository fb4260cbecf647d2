-- ===== src/Game/Transcript/Bounds.antt =====
-- What is kept of a transcript: an end of it, within the limit, from the start of a line.
use mathlib.Core.List.{append_assoc}
use zorkd.Base.{
  ◌≢◌, ℕ, ◌-◌, ◌≤◌, ◌<◌, ◌≡◌, refl, ap, sym, ◌∙◌, ◌⊎◌, inl, inr, Option, none, some, [], ◌∷◌, ◌++◌,
  arith, leb, ◌==◌, length, take, drop, Text, take-append-drop, length-drop, length-append,
  Bool-cases,
}
use zorkd.Game.Transcript.{
  max_transcript_bytes, after_newline, trim_transcript, append_transcript, append_notice,
}

after_newline-some :
    (s rest : Text) → after_newline s ≡ some rest → (line : Text) × (s ≡ line ++ (10 ∷ rest))
unfolding after_newline
after_newline-some [] rest e = cc
after_newline-some (b ∷ s) rest e = elim (Bool-cases (b == 10)) [
  | inl nl ↦ ([], ground arith)
  | inr other ↦ let (line, p) = after_newline-some s rest (ground arith) in (b ∷ line, ap (◌∷◌ b) p)
]

-- Whole, or cut at the start of a line, or (where the kept tail is one line) cut anywhere.
abbrev pub KeptEnd : Text → ℕ → Text → Type 0
KeptEnd transcript limit kept =
    ((length transcript ≤ limit) × (kept ≡ transcript))
    ⊎ ((limit < length transcript)
        × (((before : Text) × (transcript ≡ before ++ (10 ∷ kept)))
            ⊎ ((before : Text) × (transcript ≡ before ++ kept)
                × (length kept ≡ limit)
                × (after_newline kept ≡ none))))

trim_transcript-cut :
    (t : Text) (limit : ℕ) (o : Option Text)
    → limit < length t
    → after_newline (drop (length t - limit) t) ≡ o
    → KeptEnd t limit (elim o [ none ↦ drop (length t - limit) t | some rest ↦ rest ])
trim_transcript-cut t limit none h e = inr (
  h,
  inr (
    take (length t - limit) t,
    sym (take-append-drop (length t - limit) t),
    omega (arith, length-drop (length t - limit) t),
    e,
  ),
)
trim_transcript-cut t limit (some rest) h e =
    let n = length t - limit in
    let (line, p) = after_newline-some (drop n t) rest e in
    inr (
      h,
      inl (
        take n t ++ line,
        sym (take-append-drop n t)
            ∙ ap (◌++◌ (take n t)) p
            ∙ sym (append_assoc (take n t) line (10 ∷ rest)),
      ),
    )

trim_transcript-KeptEnd : (t : Text) (limit : ℕ) → KeptEnd t limit (trim_transcript t limit)
unfolding trim_transcript
trim_transcript-KeptEnd t limit = elim (Bool-cases (leb (length t) limit)) [
  | inl fits ↦ rw fits (inl (ground arith, refl))
  | inr long ↦ rw long (trim_transcript-cut t limit _ (ground arith) refl)
]

length-after_newline : (s rest : Text) → after_newline s ≡ some rest → length rest < length s
length-after_newline s rest e =
    let (line, p) = after_newline-some s rest e in
    omega (arith, ap length p, length-append line (10 ∷ rest))

length-trim_transcript : (t : Text) (limit : ℕ) → length (trim_transcript t limit) ≤ limit
unfolding trim_transcript
length-trim_transcript t limit = elim (Bool-cases (leb (length t) limit)) [
  | inl fits ↦ rw fits (ground arith)
  | inr long ↦ rw long (
      cut_length (drop (length t - limit) t) _ refl
        (omega (arith, length-drop (length t - limit) t)))
]
  where
    cut_length :
        (cut : Text) (o : Option Text)
        → after_newline cut ≡ o
        → length cut ≤ limit
        → length (elim o [ none ↦ cut | some rest ↦ rest ]) ≤ limit
    cut_length cut none e h = h
    cut_length cut (some rest) e h = omega (arith, length-after_newline cut rest e)

-- What a turn leaves of the transcript fits the limit and is an end of the old transcript, the
-- command, a newline and the story's answer: all of it where that fits; else from the start of a
-- line, or the last bytes where those hold no newline.
pub append_transcript-KeptEnd :
    (t command output : Text)
    → (length (append_transcript t command output) ≤ max_transcript_bytes)
      × KeptEnd
          (t ++ (command ++ (10 ∷ output)))
          max_transcript_bytes
          (append_transcript t command output)
unfolding append_transcript
append_transcript-KeptEnd t command output = (
  length-trim_transcript (t ++ (command ++ (10 ∷ output))) max_transcript_bytes,
  trim_transcript-KeptEnd (t ++ (command ++ (10 ∷ output))) max_transcript_bytes,
)

-- What ends a text ends each end of it that is not empty.
snoc-end :
    (xs ys zs : Text) (x : ℕ)
    → xs ++ x ∷ [] ≡ ys ++ zs
    → 0 < length zs
    → (ws : Text) × (zs ≡ ws ++ x ∷ [])
snoc-end xs [] zs x e h = (xs, sym e)
snoc-end [] (y ∷ ys) zs x e h = absurd (omega (arith, ap length e, length-append ys zs))
snoc-end (w ∷ xs) (y ∷ ys) zs x e h = snoc-end xs ys zs x (cc) h

snoc-last : (xs ys : Text) (x y : ℕ) → xs ++ x ∷ [] ≡ ys ++ y ∷ [] → x ≡ y
snoc-last xs ys x y e = let (ws, p) = snoc-end xs ys (y ∷ []) x e (omega arith) in last_one ws p
  where
    last_one : (ws : Text) → y ∷ [] ≡ ws ++ x ∷ [] → x ≡ y
    last_one [] p = cc
    last_one (w ∷ ws) p = absurd (omega (arith, ap length p, length-append ws (x ∷ [])))

trim_transcript-end :
    (xs : Text) (x limit : ℕ)
    → 0 < limit
    → x ≢ 10
    → (ws : Text) × (trim_transcript (xs ++ x ∷ []) limit ≡ ws ++ x ∷ [])
trim_transcript-end xs x limit h other = elim (trim_transcript-KeptEnd (xs ++ x ∷ []) limit) [
  | inl (_, e) ↦ (xs, e)
  | inr (_, inl (before, e)) ↦ kept_end (trim_transcript (xs ++ x ∷ []) limit) before e
  | inr (_, inr (before, e, n, _)) ↦ snoc-end xs before _ x e (omega (arith, n))
]
  where
    kept_end :
        (kept before : Text)
        → xs ++ x ∷ [] ≡ before ++ (10 ∷ kept)
        → (ws : Text) × (kept ≡ ws ++ x ∷ [])
    kept_end [] before e = absurd (other (snoc-last xs before x 10 e))
    kept_end (k ∷ kept) before e =
        snoc-end xs (before ++ 10 ∷ []) (k ∷ kept) x
          (e ∙ sym (append_assoc before (10 ∷ []) (k ∷ kept))) (omega arith)

module _ (t echo message : Text) where
  before_prompt : Text
  before_prompt = t ++ (echo ++ (10 ∷ b'[' ∷ (message ++ (b']' ∷ 10 ∷ 10 ∷ []))))

  append_notice-trim :
      append_notice t echo message
      ≡ trim_transcript (before_prompt ++ b'>' ∷ []) max_transcript_bytes
  unfolding append_notice before_prompt
  append_notice-trim =
      let regroup : t ++ (echo ++ (10 ∷ b'[' ∷ (message ++ (b']' ∷ 10 ∷ 10 ∷ b'>' ∷ []))))
          ≡ before_prompt ++ b'>' ∷ [] =
        simp append_assoc in
      ap (λ s. trim_transcript s max_transcript_bytes) regroup

  -- A notice leaves the transcript within the limit, and ending in a prompt.
  append_notice-prompt :
      (length (append_notice t echo message) ≤ max_transcript_bytes)
      × ((ws : Text) × (append_notice t echo message ≡ ws ++ b'>' ∷ []))
  append_notice-prompt = rw append_notice-trim (
    length-trim_transcript (before_prompt ++ b'>' ∷ []) max_transcript_bytes,
    trim_transcript-end before_prompt b'>' max_transcript_bytes (omega arith) (omega arith),
  )
