-- ===== src/Database/Privacy/Filters.antt =====
-- The rows of one user and of one game, under keys that are unique.
use zorkd.Base.{
  ℕ, ◌≡◌, ◌≢◌, refl, false, none, some, [], ◌∷◌, ◌==◌, sym, Bool-cases, inl, inr, arith, All,
}
use zorkd.Database.{Rows, GameRow, SaveRow, find, put, remove, keys, has_key}
use zorkd.Database.Games.{games_of, owned_row, cascade}
use zorkd.Database.Saves.{saves_of, remove_save, of_game}
use zorkd.Database.Integrity.Replaced.{keys-put}

-- No two rows have one key.
abbrev pub IsKeyed : {V : Type 0} → Rows V → Type 0
IsKeyed [] = Unit {0}
IsKeyed ((k, v) ∷ rows) = (has_key k.number (keys rows) ≡ false) × IsKeyed rows

-- Every row under a key is as P says.
abbrev pub Under : {V : Type 0} → ℕ → (V → Type 0) → Rows V → Type 0
Under n P rows = All (λ e. e.0.number ≡ n → P e.1) rows

module _ {V : Type 0} where
  has_key-Under :
      (P : V → Type 0) (n : ℕ) (rows : Rows V) → has_key n (keys rows) ≡ false → Under n P rows
  unfolding has_key
  has_key-Under P n [] h = tt
  has_key-Under P n ((k, v) ∷ rows) h =
      (λ e. absurd (ground (arith, h, e)), has_key-Under P n rows (ground arith))

  pub find-Under :
      (P : V → Type 0) (n : ℕ) (v : V) (rows : Rows V)
      → IsKeyed rows
      → find n rows ≡ some v
      → P v
      → Under n P rows
  unfolding find
  find-Under P n v [] h e p = tt
  find-Under P n v ((k, w) ∷ rows) h e p = elim (Bool-cases (k.number == n)) [
    | inl q ↦
        let same : v ≡ w = ground (arith, q, e) in
        let number : k.number ≡ n = ground (arith, q) in
        (λ _. rw (sym same) p, has_key-Under P n rows (rw (sym number) h.0))
    | inr q ↦ (λ d. absurd (ground (arith, q, d)), find-Under P n v rows h.1 (ground arith) p)
  ]

  pub has_key-find : (n : ℕ) (rows : Rows V) → has_key n (keys rows) ≡ false → find n rows ≡ none
  unfolding has_key find
  has_key-find n [] h = refl
  has_key-find n ((k, v) ∷ rows) h = ground (arith, has_key-find n rows)

-- The rows of an owner.
pub owned_row-games_of :
    (owner n : ℕ) (rows : Rows GameRow)
    → IsKeyed rows
    → owned_row owner (find n rows) ≡ find n (games_of owner rows)
unfolding games_of owned_row find
owned_row-games_of owner n [] h = refl
owned_row-games_of owner n ((k, r) ∷ rows) h =
    ground (arith, owned_row-games_of owner n rows h.1, has_key-find n rows, h.0)

pub games_of-put :
    (owner n : ℕ) (r : GameRow) (rows : Rows GameRow)
    → r.user_id ≢ owner
    → Under n (λ x. x.user_id ≢ owner) rows
    → games_of owner (put n r rows) ≡ games_of owner rows
unfolding games_of put
games_of-put owner n r [] p h = refl
games_of-put owner n r ((k, w) ∷ rows) p h = ground (arith, games_of-put owner n r rows p h.1, h.0)

pub games_of-remove :
    (owner n : ℕ) (rows : Rows GameRow)
    → Under n (λ x. x.user_id ≢ owner) rows
    → games_of owner (remove n rows) ≡ games_of owner rows
unfolding games_of remove
games_of-remove owner n [] h = refl
games_of-remove owner n ((k, w) ∷ rows) h = ground (arith, games_of-remove owner n rows h.1, h.0)

-- The rows of a game.
pub of_game-saves_of :
    (game n : ℕ) (rows : Rows SaveRow)
    → IsKeyed rows
    → of_game game (find n rows) ≡ find n (saves_of game rows)
unfolding saves_of find
of_game-saves_of game n [] h = refl
of_game-saves_of game n ((k, r) ∷ rows) h =
    ground (arith, of_game-saves_of game n rows h.1, has_key-find n rows, h.0)

pub saves_of-put :
    (game n : ℕ) (r : SaveRow) (rows : Rows SaveRow)
    → r.game_id ≢ game
    → Under n (λ x. x.game_id ≢ game) rows
    → saves_of game (put n r rows) ≡ saves_of game rows
unfolding saves_of put
saves_of-put game n r [] p h = refl
saves_of-put game n r ((k, w) ∷ rows) p h = ground (arith, saves_of-put game n r rows p h.1, h.0)

pub saves_of-remove_save :
    (game n other : ℕ) (rows : Rows SaveRow)
    → other ≢ game
    → saves_of game (remove_save n other rows) ≡ saves_of game rows
unfolding saves_of remove_save
saves_of-remove_save game n other [] p = refl
saves_of-remove_save game n other ((k, w) ∷ rows) p =
    ground (arith, saves_of-remove_save game n other rows p)

pub saves_of-cascade :
    (game n : ℕ) (rows : Rows SaveRow)
    → n ≢ game
    → saves_of game (cascade n rows) ≡ saves_of game rows
unfolding saves_of cascade
saves_of-cascade game n [] p = refl
saves_of-cascade game n ((k, w) ∷ rows) p = ground (arith, saves_of-cascade game n rows p)

-- What the statements make of the keys.
pub IsKeyed-put :
    {V : Type 0} (n : ℕ) (v : V) (rows : Rows V) → IsKeyed rows → IsKeyed (put n v rows)
unfolding put
IsKeyed-put n v [] h = tt
IsKeyed-put n v ((k, w) ∷ rows) h = elim (Bool-cases (k.number == n)) [
  | inl q ↦ rw q (rw (keys-put n v rows) h.0, IsKeyed-put n v rows h.1)
  | inr q ↦ rw q (rw (keys-put n v rows) h.0, IsKeyed-put n v rows h.1)
]

pub has_key-remove :
    {V : Type 0} (n i : ℕ) (rows : Rows V)
    → has_key i (keys rows) ≡ false
    → has_key i (keys (remove n rows)) ≡ false
unfolding has_key remove
has_key-remove n i [] h = refl
has_key-remove n i ((k, w) ∷ rows) h = ground (arith, has_key-remove n i rows)

pub IsKeyed-remove : {V : Type 0} (n : ℕ) (rows : Rows V) → IsKeyed rows → IsKeyed (remove n rows)
unfolding remove
IsKeyed-remove n [] h = tt
IsKeyed-remove n ((k, w) ∷ rows) h = elim (Bool-cases (k.number == n)) [
  | inl q ↦ rw q (IsKeyed-remove n rows h.1)
  | inr q ↦ rw q (has_key-remove n k.number rows h.0, IsKeyed-remove n rows h.1)
]
