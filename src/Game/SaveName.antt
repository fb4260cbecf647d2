-- ===== src/Game/SaveName.antt =====
-- saves.go: the names of saves.
pub mod Clean
use zorkd.Base.{
  ℕ, Bool, true, false, List, [], ◌∷◌, ltb, if◌then◌else◌, length, Text, Option, none, some,
}
use zorkd.Errors.{Result, ok, err, fail, invalid_save_name}
use zorkd.Go.Utf8.{Rune, runes, any_rune, valid_string}
use zorkd.Go.Space.{Unicode, is_control, single_spaced, equal_fold}
use zorkd.Game.Types.{Save}

abbrev pub max_save_name_bytes : ℕ
max_save_name_bytes = 48

abbrev pub control : Rune → Bool
control r = is_control r.value

unfoldable pub is_empty : Text → Bool
is_empty [] = true
is_empty (b ∷ s) = false

unfoldable pub clean_save_name : Text → Result Text
unfolding is_empty
clean_save_name name =
    if valid_string name
    then (let clean = single_spaced name in
        if is_empty clean
        then fail invalid_save_name
        else if ltb max_save_name_bytes (length clean)
        then fail invalid_save_name
        else if any_rune control (runes clean)
        then fail invalid_save_name
        else ok clean)
    else fail invalid_save_name

module _ ⦃u : Unicode⦄ where
  unfoldable pub same_save_name : Text → Text → Bool
  unfolding equal_fold
  same_save_name a b = equal_fold a b

  -- The save that the player named.
  unfoldable pub find_save : List Save → Text → Option Save
  unfolding same_save_name
  find_save [] name = none
  find_save (save ∷ saves) name =
      if same_save_name save.name name then some save else find_save saves name
