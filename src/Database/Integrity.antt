-- ===== src/Database/Integrity.antt =====
-- What the tables of games and saves keep to, whatever is written to them: twenty saves in a game
-- at most, each under a name of its own, and no save without its game.
pub mod Shelves
pub mod Replaced
pub mod Whole
use zorkd.Base.{
  ℕ, suc, ◌<◌, ◌≤◌, ◌≡◌, ◌≢◌, refl, ap, sym, ◌∙◌, Bool, true, false, ◌&&◌, Option, none, some, List,
  [], ◌∷◌, ◌==◌, ==_refl, ==_iff, leb, if◌then◌else◌, Text, arith, Option-cases, Bool-cases, inl,
  inr, All, ◌⊎◌,
}
use zorkd.Errors.{Error, Result, ok, err, Result-cases}
use zorkd.Go.Decimal.{parse_positive}
use zorkd.Game.Store.{is_resumable}
use zorkd.Login.Rows.{is_user}
use zorkd.Game.Types.{Session, Snapshot, Save}
use zorkd.Game.Memory.{max_saves_per_game}
use zorkd.Game.SaveName.{is_empty}
use zorkd.Database.{RowId, Rows, Sqlite, GameRow, SaveRow, Db, find, put, remove, keys, has_key}
use zorkd.Database.Games.{
  matching, load_session, create, update, delete, delete_row, insert_game, update_row, write_game,
  owned_row, cascade,
}
use zorkd.Database.Saves.{
  reachable, create_save, delete_save, drop_save, write_save, insert_save, replace_save, save_row,
  save_id_by_name, count_saves, owns_game, remove_save,
}
use Whole.{
  IsWhole, delete_row-IsWhole, drop_save-IsWhole, update_row-IsWhole, owns_game-has_key,
  insert_game-IsWhole, write_save-IsWhole,
}

-- The writes of the store.
module _ ⦃sql : Sqlite⦄ where
  pub data Write : Db → Db → Type 0 where
    created : (now : ℕ) (x : Session) (db : Db) → Write db (create now x db).1
    updated : (now : ℕ) (x : Session) (db : Db) → Write db (update now x db).1
    deleted : (user id : Text) (db : Db) → Write db (delete user id db).1
    shelved : (now : ℕ) (x : Snapshot) (db : Db) → Write db (create_save now x db).1
    removed : (user id save : Text) (db : Db) → Write db (delete_save user id save db).1

  -- Every write of the store keeps the tables whole: no game holds more than twenty saves, no two of
  -- its saves share a name, and every save belongs to a game that is there.
  pub Write-IsWhole : (a b : Db) → Write a b → IsWhole a → IsWhole b
  unfolding create update delete create_save delete_save
  Write-IsWhole _ _ (created now x db) h = elim (Option-cases (parse_positive x.user_id)) [
    | inl p ↦ rw (p, create) h
    | inr (owner, p) ↦ elim (Bool-cases (is_user owner db.users && is_resumable x)) [
      | inl q ↦
          rw (p, create)
            (rw q (insert_game-IsWhole now x owner (sql.next_row (keys db.games)) db h))
      | inr q ↦ rw (p, create) (rw q h)
    ]
  ]
  Write-IsWhole _ _ (updated now x db) h = elim (Option-cases (parse_positive x.user_id)) [
    | inl p ↦ rw (p, update) h
    | inr (owner, p) ↦ elim (Option-cases (parse_positive x.id)) [
      | inl q ↦ rw (p, update) (rw q h)
      | inr (n, q) ↦ rw (p, update) (rw q (update_row-IsWhole now x owner n db h))
    ]
  ]
  Write-IsWhole _ _ (deleted user id db) h = elim (Option-cases (parse_positive user)) [
    | inl p ↦ rw (p, delete) h
    | inr (owner, p) ↦ elim (Option-cases (parse_positive id)) [
      | inl q ↦ rw (p, delete) (rw q h)
      | inr (n, q) ↦ rw (p, delete) (rw q (delete_row-IsWhole owner n db h))
    ]
  ]
  Write-IsWhole _ _ (shelved now x db) h = elim (Option-cases (parse_positive x.user_id)) [
    | inl p ↦ rw (p, create_save) h
    | inr (owner, p) ↦ elim (Option-cases (parse_positive x.game_id)) [
      | inl q ↦ rw (p, create_save) (rw q h)
      | inr (game, q) ↦ elim (Bool-cases (is_empty x.state)) [
        | inl v ↦ rw (p, create_save) (rw q (rw v h))
        | inr v ↦ elim (Bool-cases (owns_game owner game db)) [
          | inr w ↦ rw (p, create_save) (rw q (rw v (rw w h)))
          | inl w ↦
              rw (p, create_save)
                (rw q (
                  rw v (
                    rw w (
                      write_save-IsWhole now game x _ db refl (owns_game-has_key owner game db w)
                        h))))
        ]
      ]
    ]
  ]
  Write-IsWhole _ _ (removed user id save db) h = elim (Result-cases (reachable user id save db)) [
    | inr (e, p) ↦ rw (p, delete_save) h
    | inl (x, p) ↦ rw (p, delete_save) (drop_save-IsWhole save id x db h)
  ]
