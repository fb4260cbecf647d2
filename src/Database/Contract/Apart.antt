-- ===== src/Database/Contract/Apart.antt =====
-- Games and saves are written apart: neither write is seen by the reads of the other.
use zorkd.Base.{ℕ, suc, ◌≡◌, refl, ap, ◌∙◌, Text, arith, ◌==◌, Option-cases, Bool-cases, inl, inr}
use zorkd.Errors.{Result-cases}
use zorkd.Go.Decimal.{parse_positive}
use zorkd.Game.Types.{Session}
use zorkd.Database.{Db}
use zorkd.Database.Games.{
  visible, load, update, owned_row, load_session, row_of, update_row, write_game,
}
use zorkd.Database.Saves.{owns_game, select_save, reachable, load_save}
use zorkd.Database.Contract.Atomic.{update-fails}
use zorkd.Database.Contract.Written.{find-put_self, find-put_other, update-Written}

pub visible-games :
    (user id : Text) (db db' : Db) → db'.games ≡ db.games → visible db' user id ≡ visible db user id
unfolding visible load_session
visible-games user id db db' e = rw e refl

pub load-games :
    (user id : Text) (db db' : Db)
    → db'.games ≡ db.games
    → (load user id db').0 ≡ (load user id db).0
unfolding load
load-games user id db db' e = elim (Option-cases (visible db user id)) [
  | inl p ↦ rw (visible-games user id db db' e ∙ p, p, load) refl
  | inr (x, p) ↦ rw (visible-games user id db db' e ∙ p, p, load) refl
]

-- Update neither moves a game to another owner nor removes one.
update-owns_game :
    (now : ℕ) (x : Session) (db : Db) (owner game : ℕ)
    → owns_game owner game (update now x db).1 ≡ owns_game owner game db
unfolding owns_game owned_row row_of
update-owns_game now x db owner game = elim (Result-cases (update now x db).0) [
  | inr (e, p) ↦ unfold owns_game in ap (owns_game owner game) (update-fails now x db e p)
  | inl (y, p) ↦
      let w = update-Written now x y db p in
      elim (Bool-cases (w.seen.number == game)) [
        | inl g ↦ ground (
          arith,
          w.games,
          w.seen.found,
          find-put_self w.seen.number
              (record (row_of w.seen.row.user_id (suc w.seen.row.version) now x) {
                story_key = w.seen.row.story_key;
              })
              w.seen.row db.games,
        )
        | inr g ↦ ground (
          arith,
          w.games,
          find-put_other w.seen.number game
              (record (row_of w.seen.row.user_id (suc w.seen.row.version) now x) {
                story_key = w.seen.row.story_key;
              })
              db.games,
        )
      ]
]

pub update-saves : (now : ℕ) (x : Session) (db : Db) → (update now x db).1.saves ≡ db.saves
unfolding update update_row write_game
update-saves now x db = ground arith

pub reachable-eq :
    (user id save : Text) (db db' : Db)
    → ((owner game : ℕ) → owns_game owner game db' ≡ owns_game owner game db)
    → db'.saves ≡ db.saves
    → reachable user id save db' ≡ reachable user id save db
unfolding reachable select_save
reachable-eq user id save db db' h e = elim (Option-cases (parse_positive user)) [
  | inl p ↦ rw (p, reachable) refl
  | inr (owner, p) ↦ elim (Option-cases (parse_positive id)) [
    | inl q ↦ rw (p, q, reachable) refl
    | inr (game, q) ↦ elim (Option-cases (parse_positive save)) [
      | inl r ↦ rw (p, q, r, reachable) refl
      | inr (n, r) ↦ rw (p, q, r, reachable) (rw (h owner game, e) refl)
    ]
  ]
]

pub update_keeps_saves :
    (now : ℕ) (x : Session) (db : Db) (user id save : Text)
    → (load_save user id save (update now x db).1).0 ≡ (load_save user id save db).0
unfolding load_save
update_keeps_saves now x db user id save =
    reachable-eq user id save db (update now x db).1 (update-owns_game now x db)
      (update-saves now x db)
