-- ===== src/Terminal/Wrapping.antt =====
-- Folding a text to a width changes its white space only.
use zorkd.Base.{
  some, Option-cases, arith, ℕ, ◌+◌, zero, suc, ◌≡◌, refl, ap, sym, ◌∙◌, true, ◌||◌, ◌&&◌, List, [],
  ◌∷◌, ◌++◌, map, leb, ◌==◌, if◌then◌else◌, length, Text, Bool-cases, inl, inr, str_eq,
}
use mathlib.Core.List.{append_assoc, append-nil}
use zorkd.Go.Utf8.{rune_count}
use zorkd.Go.Split.{split, join, join-split}
use zorkd.Game.SaveName.{is_empty}
use mathlib.Core.Option.{some-injective}
use zorkd.Terminal.Rounds.{wrap_words-ends}
use zorkd.Terminal.{is_gap, cut_gap, cut_word, wrap_words, wrap_line, wrap}

-- What a reader sees of a text: its bytes, less the spaces, tabs and newlines.
unfoldable pub ink : Text → Text
ink [] = []
ink (b ∷ s) = let rest = ink s in if is_gap b || b == 0x0A then rest else b ∷ rest

ink-append : (s t : Text) → ink (s ++ t) ≡ ink s ++ ink t
unfolding ink
ink-append [] t = refl
ink-append (b ∷ s) t = elim (Bool-cases (is_gap b || b == 0x0A)) [
  | inl p ↦ rw p (ink-append s t)
  | inr p ↦ rw p (ap (◌∷◌ b) (ink-append s t))
]

ink_gap : (b : ℕ) (s : Text) → is_gap b ≡ true → ink (b ∷ s) ≡ ink s
unfolding ink
ink_gap b s g = rw g refl

ink_newline : (s : Text) → ink (0x0A ∷ s) ≡ ink s
unfolding ink
ink_newline s = refl

ink-cut_gap : (s : Text) → (ink (cut_gap s).0 ≡ []) × (ink (cut_gap s).1 ≡ ink s)
unfolding cut_gap
ink-cut_gap [] = unfold ink in (refl, refl)
ink-cut_gap (b ∷ s) =
    let (p, q) = ink-cut_gap s in
    elim (Bool-cases (is_gap b)) [
      | inl g ↦ (
        rw (g, cut_gap) (ink_gap b (cut_gap s).0 g ∙ p),
        rw (g, cut_gap) (q ∙ sym (ink_gap b s g)),
      )
      | inr g ↦ (rw (g, cut_gap) (unfold ink in refl), rw (g, cut_gap) refl)
    ]

append-cut_word : (s : Text) → (cut_word s).0 ++ (cut_word s).1 ≡ s
unfolding cut_word
append-cut_word [] = refl
append-cut_word (b ∷ s) = elim (Bool-cases (is_gap b)) [
  | inl g ↦ rw g refl
  | inr g ↦ rw g (ap (◌∷◌ b) (append-cut_word s))
]

ink-cut_word : (s : Text) → ink (cut_word s).0 ++ ink (cut_word s).1 ≡ ink s
ink-cut_word s = sym (ink-append (cut_word s).0 (cut_word s).1) ∙ ap ink (append-cut_word s)

no_bytes : (s : Text) → is_empty s ≡ true → s ≡ []
unfolding is_empty
no_bytes [] e = refl
no_bytes (b ∷ s) e = cc

-- A text that ends in a gap.
ink-trailing : (s : Text) → is_empty (cut_gap s).1 ≡ true → ink (cut_gap s).0 ≡ ink s
unfolding ink
ink-trailing s e = let (p, q) = ink-cut_gap s in p ∙ sym (ap ink (no_bytes (cut_gap s).1 e)) ∙ q

-- A gap, a word and what follows, of a text.
ink-word : (s : Text) → ink (cut_word (cut_gap s).1).0 ++ ink (cut_word (cut_gap s).1).1 ≡ ink s
ink-word s = ink-cut_word (cut_gap s).1 ∙ (ink-cut_gap s).1

ink-before : (a g w : Text) → ink g ≡ [] → ink (a ++ g ++ w) ≡ ink a ++ ink w
ink-before a g w h =
    ink-append (a ++ g) w
    ∙ ap (λ (x : Text). x ++ ink w)
        (ink-append a g ∙ ap (λ (x : Text). ink a ++ x) h ∙ append-nil (ink a))

-- What the loop answers has the ink of its text.
ink-wrap_words :
    (fuel width : ℕ) (indent cur : Text) (n : ℕ) (rest out : Text)
    → ink indent ≡ []
    → wrap_words fuel width indent cur n rest ≡ some out
    → ink out ≡ ink cur ++ ink rest
unfolding wrap_words
ink-wrap_words zero width indent cur n rest out h r = absurd cc
ink-wrap_words (suc fuel) width indent cur n [] out h r =
    ap ink (sym (some-injective cur out r)) ∙ unfold ink in sym (append-nil (ink cur))
ink-wrap_words (suc fuel) width indent cur n (b ∷ s) out h r =
    let gap = (cut_gap (b ∷ s)).0 in
    let word = (cut_word (cut_gap (b ∷ s)).1).0 in
    let rest = (cut_word (cut_gap (b ∷ s)).1).1 in
    let next = n + rune_count gap + rune_count word in
    let whole = ink-word (b ∷ s) in
    elim (Bool-cases (is_empty (cut_gap (b ∷ s)).1)) [
      | inl e ↦
          ap ink (sym (some-injective (cur ++ gap) out (rw e at r)))
          ∙ ink-append cur gap
          ∙ ap (λ (x : Text). ink cur ++ x) (ink-trailing (b ∷ s) e)
      | inr e ↦
          elim (Bool-cases ((n == rune_count indent && str_eq cur indent) || leb next width)) [
            | inl g ↦
                ink-wrap_words fuel width indent (cur ++ gap ++ word) next rest out h
                  (rw g at (rw e at r))
                ∙ ap (λ (x : Text). x ++ ink rest) (ink-before cur gap word (ink-cut_gap (b ∷ s)).0)
                ∙ append_assoc (ink cur) (ink word) (ink rest)
                ∙ ap (λ (x : Text). ink cur ++ x) whole
            | inr g ↦
                elim (Option-cases (
                  wrap_words fuel width indent (indent ++ word)
                    (rune_count indent + rune_count word) rest)) [
                      | inl q ↦ absurd (ground (arith, rw g at (rw e at r), q))
                      | inr (line, q) ↦
                          ap ink (
                            sym (
                              some-injective (cur ++ 0x0A ∷ line) out
                                (rw q at (rw g at (rw e at r)))))
                          ∙ ink-append cur _
                          ∙ ap (λ (x : Text). ink cur ++ x)
                              (ink_newline _
                                ∙ ink-wrap_words fuel width indent (indent ++ word) _ rest line h q
                                ∙ ap (λ (x : Text). x ++ ink rest)
                                    (ink-append indent word ∙ ap (λ (x : Text). x ++ ink word) h)
                                ∙ whole)
                    ]
          ]
    ]

ink-wrap_line : (width : ℕ) (line : Text) → ink (wrap_line width line) ≡ ink line
unfolding wrap_line
ink-wrap_line width line = elim (Bool-cases (leb (rune_count line) width)) [
  | inl p ↦ rw p refl
  | inr p ↦ rw p (elim (Bool-cases (leb width (rune_count (cut_gap line).0))) [
    | inl q ↦ rw q refl
    | inr q ↦
        let (gap, rest) = ink-cut_gap line in
        let (out, ends) =
          wrap_words-ends (suc (length (cut_gap line).1)) width (cut_gap line).0 (cut_gap line).0
            (rune_count (cut_gap line).0) (cut_gap line).1 (omega arith) in
        rw q (
          rw ends (
            ink-wrap_words (suc (length (cut_gap line).1)) width (cut_gap line).0 (cut_gap line).0
              (rune_count (cut_gap line).0) (cut_gap line).1 out gap ends
            ∙ ap (λ (x : Text). x ++ ink (cut_gap line).1) gap
            ∙ rest))
  ])
]

ink-join :
    (width : ℕ) (lines : List Text)
    → ink (join 0x0A (map (wrap_line width) lines)) ≡ ink (join 0x0A lines)
unfolding join
ink-join width [] = refl
ink-join width (s ∷ []) = ink-wrap_line width s
ink-join width (s ∷ t ∷ ss) =
    ink-append (wrap_line width s) _
    ∙ ap (λ (x : Text). x ++ ink (0x0A ∷ join 0x0A (map (wrap_line width) (t ∷ ss))))
        (ink-wrap_line width s)
    ∙ ap (λ (x : Text). ink s ++ x) (ink_newline _ ∙ ink-join width (t ∷ ss) ∙ sym (ink_newline _))
    ∙ sym (ink-append s (0x0A ∷ join 0x0A (t ∷ ss)))

-- Folding a text to any width changes its spaces, tabs and newlines only: what is left without
-- them is the same, byte for byte and in the same order.
pub wrap-ink : (text : Text) (width : ℕ) → ink (wrap text width) ≡ ink text
unfolding wrap
wrap-ink text width = elim (Bool-cases (width == 0 || is_empty text)) [
  | inl p ↦ rw p refl
  | inr p ↦ rw p (ink-join width (split 0x0A text) ∙ ap ink (join-split 0x0A text))
]
