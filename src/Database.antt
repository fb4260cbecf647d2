-- ===== src/Database.antt =====
-- internal/database, over SQLite: tables are rows under their INTEGER PRIMARY KEY. A statement that
-- a constraint of the schema refuses is an error that wraps no sentinel.
pub mod Games
pub mod Saves
pub mod Contract
pub mod Integrity
pub mod Privacy
pub mod Opening
use zorkd.Base.{
  ℕ, ◌<◌, ◌^◌, Bool, true, false, ◌&&◌, ◌≡◌, Option, none, some, List, [], ◌∷◌, map, if◌then◌else◌,
  ltb, ◌==◌, Text, str_eq,
}
use zorkd.Go.Space.{ascii_lower}
use zorkd.Game.Types.{StoryKey, StatusLine}

-- The key of a row: a positive int64.
pub record RowId : Type 0 where
  pub number : ℕ
  pub positive : 0 < number
  pub fits : number < 2 ^ 63

abbrev pub Rows : Type 0 → Type 0
Rows V = List (RowId × V)

module _ {V : Type 0} where
  -- The row under a key: WHERE id = ?
  unfoldable pub find : ℕ → Rows V → Option V
  find n [] = none
  find n ((k, v) ∷ rows) = let rest = find n rows in if k.number == n then some v else rest

  -- UPDATE ... WHERE id = ?
  unfoldable pub put : ℕ → V → Rows V → Rows V
  put n v [] = []
  put n v ((k, w) ∷ rows) =
      let rest = put n v rows in if k.number == n then (k, v) ∷ rest else (k, w) ∷ rest

  -- DELETE ... WHERE id = ?
  unfoldable pub remove : ℕ → Rows V → Rows V
  remove n [] = []
  remove n ((k, v) ∷ rows) =
      let rest = remove n rows in if k.number == n then rest else (k, v) ∷ rest

  abbrev pub keys : Rows V → List RowId
  keys rows = map (λ r. r.0) rows

unfoldable pub has_key : ℕ → List RowId → Bool
has_key n [] = false
has_key n (k ∷ ks) = let rest = has_key n ks in if k.number == n then true else rest

-- SQLite, as far as the statements do not say: the key that an inserted row is given, which no row
-- of the table has, and none where every key is taken.
pub record Sqlite : Type 0 where
  pub next_row : List RowId → Option RowId
  pub next_row-fresh :
      (ks : List RowId) (k : RowId) → next_row ks ≡ some k → has_key k.number ks ≡ false

-- COLLATE NOCASE folds the letters of ASCII.
unfoldable pub same_nocase : Text → Text → Bool
same_nocase s t = str_eq (map ascii_lower s) (map ascii_lower t)

-- A row of the table games. The schema keeps story keys at 32 bytes.
pub record GameRow : Type 0 where
  pub user_id : ℕ
  pub story_key : StoryKey
  pub state : List ℕ
  pub transcript : Text
  pub turn : ℕ
  pub version : ℕ
  pub halted : Bool
  pub status : StatusLine
  pub updated_at : ℕ

-- A row of the table saves.
pub record SaveRow : Type 0 where
  pub game_id : ℕ
  pub name : Text
  pub story_key : StoryKey
  pub state : List ℕ
  pub transcript : Text
  pub turn : ℕ
  pub status : StatusLine
  pub created_at : ℕ

-- The tables of games, with the keys of the users that they can name.
pub record Db : Type 0 where
  pub games : Rows GameRow
  pub saves : Rows SaveRow
  pub users : List ℕ
