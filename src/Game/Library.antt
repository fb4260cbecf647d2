-- ===== src/Game/Library.antt =====
-- library.go: the stories that the server can run, validated once at startup.
pub mod Catalog
use zorkd.Base.{
  ℕ, Bool, true, false, ◌≡◌, Option, none, some, List, [], ◌∷◌, ◌++◌, if◌then◌else◌, length, Text,
  str_eq, Map, lookup, insert, Option-cases,
}
use zorkd.Errors.{Result, ok, err, refuse, ◌>>=◌}
use zorkd.Game.Types.{StoryKey}
use zorkd.Game.Runner.{Engine, Entry}
use zorkd.Game.SaveName.{is_empty}

-- games.Story: an embedded story file.
pub record Source : Type 0 where
  pub id : Text
  pub title : Text
  pub file : Text
  pub image : List ℕ

pub record Library (Story : Type 0) : Type 0 where
  pub by_key : Map (Entry Story)
  pub by_id : Map (Entry Story)
  pub order : List (Entry Story)

module _ {Story : Type 0} where
  unfoldable pub find_id : Library Story → Text → Option (Entry Story)
  find_id lib id = lookup id lib.by_id

  unfoldable pub find_key : Library Story → StoryKey → Option (Entry Story)
  find_key lib key = lookup key lib.by_key

  -- Library.All: a fresh slice of the same entries.
  unfoldable pub all : Library Story → List (Entry Story)
  all lib = lib.order

  unfoldable pub len : Library Story → ℕ
  len lib = length lib.order

  unfoldable pub empty : Library Story
  empty = record { by_key = []; by_id = []; order = [] }

  -- The writes of one round of the loading loop.
  unfoldable pub register : Library Story → Entry Story → Library Story
  register lib entry = record {
    by_key = insert entry.key entry lib.by_key;
    by_id = insert entry.id entry lib.by_id;
    order = lib.order ++ entry ∷ [];
  }

abbrev pub absent {ℓ} : {A : Type ℓ} → Option A → Bool
absent none = true
absent (some a) = false

-- `sha256` is crypto/sha256, and `engine.load_story` validates an image.
module _ {Story Machine : Type 0} (engine : Engine Story Machine) (sha256 : List ℕ → StoryKey) where
  abbrev entry_of : Source → Story → Entry Story
  entry_of src story = record {
    id = src.id;
    title = src.title;
    file = src.file;
    key = sha256 src.image;
    story = story;
  }

  -- One round of the loop of NewLibrary.
  unfoldable pub add : Library Story → Source → Result (Library Story)
  add lib src =
      if is_empty src.id
      then refuse
      else if absent (lookup src.id lib.by_id)
      then (do
        story ← engine.load_story src.image
        if absent (lookup (sha256 src.image) lib.by_key)
            then ok (register lib (entry_of src story))
            else refuse)
      else refuse

  unfoldable pub load_all : Library Story → List Source → Result (Library Story)
  load_all lib [] = ok lib
  load_all lib (src ∷ rest) = elim (add lib src) [ ok lib' ↦ load_all lib' rest | err e ↦ err e ]

  unfoldable pub new_library : List Source → Result (Library Story)
  new_library [] = refuse
  new_library (src ∷ rest) = load_all empty (src ∷ rest)
