-- ===== src/Database/Contract/Reached.antt =====
-- Saves of the database are reached through games that the user can see.
use zorkd.Base.{ℕ, ◌≡◌, ◌≢◌, Bool, false, none, some, arith, Text, Option-cases, inl, inr}
use zorkd.Errors.{ok, Result-cases}
use zorkd.Go.Decimal.{parse_positive}
use zorkd.Game.Types.{Session, Save, Snapshot}
use zorkd.Database.{Sqlite, Db}
use zorkd.Database.Games.{load_session, visible}
use zorkd.Database.Saves.{owns_game, reachable, load_save, delete_save, create_save}

not_owned :
    (user id : Text) (db : Db) (owner game : ℕ)
    → visible db user id ≡ none
    → parse_positive user ≡ some owner
    → parse_positive id ≡ some game
    → owns_game owner game db ≡ false
unfolding visible load_session owns_game
not_owned user id db owner game e p q = ground (arith, e, p, q)

unreachable :
    (user id save : Text) (db : Db) (v : Snapshot)
    → visible db user id ≡ none
    → reachable user id save db ≢ ok v
unfolding reachable
unreachable user id save db v e f = elim (Option-cases (parse_positive user)) [
  | inl p ↦ absurd (ground (arith, p, f))
  | inr (owner, p) ↦ elim (Option-cases (parse_positive id)) [
    | inl q ↦ absurd (ground (arith, p, q, f))
    | inr (game, q) ↦ absurd (ground (arith, p, q, not_owned user id db owner game e p q, f))
  ]
]

pub load_save_scoped :
    (user id save : Text) (db : Db) (v : Snapshot)
    → (load_save user id save db).0 ≡ ok v
    → (x : Session) × (visible db user id ≡ some x)
unfolding load_save
load_save_scoped user id save db v e = elim (Option-cases (visible db user id)) [
  | inl p ↦ absurd (unreachable user id save db v p e)
  | inr seen ↦ seen
]

pub create_save_scoped :
    ⦃sql : Sqlite⦄ (now : ℕ) (x : Snapshot) (db : Db) (v : Save × Bool)
    → (create_save now x db).0 ≡ ok v
    → (y : Session) × (visible db x.user_id x.game_id ≡ some y)
unfolding create_save
create_save_scoped now x db v e = elim (Option-cases (visible db x.user_id x.game_id)) [
  | inr seen ↦ seen
  | inl n ↦ elim (Option-cases (parse_positive x.user_id)) [
    | inl p ↦ absurd (ground (arith, p, e))
    | inr (owner, p) ↦ elim (Option-cases (parse_positive x.game_id)) [
      | inl q ↦ absurd (ground (arith, p, q, e))
      | inr (game, q) ↦
          absurd (ground (arith, p, q, not_owned x.user_id x.game_id db owner game n p q, e))
    ]
  ]
]

pub delete_save_scoped :
    (user id save : Text) (db : Db) (v : Save)
    → (delete_save user id save db).0 ≡ ok v
    → (x : Session) × (visible db user id ≡ some x)
unfolding delete_save
delete_save_scoped user id save db v e = elim (Result-cases (reachable user id save db)) [
  | inr (f, w) ↦ absurd (ground (arith, w, e))
  | inl (x, w) ↦ load_save_scoped user id save db x (unfold load_save in w)
]
