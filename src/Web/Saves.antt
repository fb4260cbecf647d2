-- ===== src/Web/Saves.antt =====
-- internal/httpserver/saves.go: the forms that name a save, restore one and delete one.
use zorkd.Base.{Option, none, some, [], ◌++◌, if◌then◌else◌, Text, codes}
use zorkd.Errors.{
  Error, Result, ok, err, errors_is, session_not_found, save_not_found, invalid_save_name,
  too_many_saves, game_over, version_conflict, save_mismatch,
}
use zorkd.Go.Space.{Unicode}
use zorkd.Go.Quote.{quote}
use zorkd.Game.Types.{Save}
use zorkd.Game.Service
use zorkd.Game.Service.{Service, Call}
use zorkd.Web.{Reply, not_found, broken, send_to, game_path, to_saves}
use zorkd.Go.Decimal.{format_int}
use zorkd.Game.SaveName.{max_save_name_bytes}
use zorkd.Game.Memory.{max_saves_per_game}

-- saveFailed
unfoldable pub save_failed : Text → Text → Error → Reply
unfolding to_saves format_int
save_failed id mode e =
    if errors_is e session_not_found
    then not_found
    else if errors_is e save_not_found
    then to_saves id mode (codes "There is no save by that name.")
    else if errors_is e invalid_save_name
    then to_saves id mode (
        codes "A save name has to be something readable, and no longer than "
        ++ (format_int max_save_name_bytes ++ codes " characters."))
    else if errors_is e too_many_saves
    then to_saves id mode (
        codes "This game already holds "
        ++ (format_int max_saves_per_game ++ codes " saves. Delete one first."))
    else if errors_is e game_over
    then to_saves id mode (codes "The story has ended; there is nothing to save.")
    else if errors_is e version_conflict
    then to_saves id mode (codes "This game moved on somewhere else. Reload to catch up.")
    else if errors_is e save_mismatch
    then to_saves id mode (codes "That save does not belong to this story.")
    else broken

-- redrawGame
abbrev pub redraw_game : Text → Reply
redraw_game id = send_to (game_path id) []

-- The answers of createSave and of restoreSave.
unfoldable pub redrawn : {S A : Type 0} → Text → Text → Result A × S → Reply × S
unfolding save_failed
redrawn id mode (ok _, s) = (redraw_game id, s)
redrawn id mode (err e, s) = (save_failed id mode e, s)

module _ ⦃u : Unicode⦄ {S Story Machine : Type 0} (service : Service S Story Machine)
    (call : Call) where
  -- createSave, of the field of the form, if it can be read
  unfoldable pub create_save : Text → Text → Option Text → S → Reply × S
  unfolding redrawn save_failed
  create_save user id none s = (save_failed id (codes "save") [], s)
  create_save user id (some name) s =
      redrawn id (codes "save") (Service.save_named service call user id name s)

  -- restoreSave
  unfoldable pub restore_save : Text → Text → Text → S → Reply × S
  unfolding redrawn
  restore_save user id save s =
      redrawn id (codes "restore") (Service.restore_save service call user id save s)

  unfoldable pub save_deleted : Text → Result Save × S → Reply × S
  unfolding save_failed to_saves quote
  save_deleted id (ok save, s) =
      (to_saves id (codes "restore") (codes "Deleted " ++ (quote save.name ++ codes ".")), s)
  save_deleted id (err e, s) = (save_failed id (codes "restore") e, s)

  -- deleteSave
  unfoldable pub delete_save : Text → Text → Text → S → Reply × S
  unfolding save_deleted
  delete_save user id save s = save_deleted id (Service.delete_save service call user id save s)
