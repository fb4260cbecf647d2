-- ===== src/Game/SaveName/Clean.antt =====
-- What an accepted save name looks like.
use zorkd.Base.{◌≤◌, true, false, ◌≡◌, arith, length, Text}
use zorkd.Errors.{ok}
use zorkd.Go.Utf8.{runes, any_rune, valid_string}
use zorkd.Go.Space.{single_spaced}
use zorkd.Go.Space.Words.{single_spaced_idem, single_spaced-valid}
use zorkd.Game.SaveName.{max_save_name_bytes, control, is_empty, clean_save_name}

-- A name that can be stored as it is.
pub record IsSaveName (name : Text) : Type 0 where
  pub valid : valid_string name ≡ true
  pub spaced : single_spaced name ≡ name
  pub not_empty : is_empty name ≡ false
  pub short : length name ≤ max_save_name_bytes
  pub printable : any_rune control (runes name) ≡ false

-- An accepted name has the form of a stored one, and is the typed name with its spaces made single.
pub clean_save_name-IsSaveName :
    (name clean : Text)
    → clean_save_name name ≡ ok clean
    → IsSaveName clean × (clean ≡ single_spaced name)
unfolding clean_save_name
clean_save_name-IsSaveName name clean e =
    ground (arith, single_spaced_idem name, single_spaced-valid name)

-- A name in stored form is accepted unchanged.
IsSaveName-clean_save_name : (name : Text) → IsSaveName name → clean_save_name name ≡ ok name
unfolding clean_save_name
IsSaveName-clean_save_name name h = ground arith
