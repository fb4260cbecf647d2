-- ===== src/Database/Contract/Scoped.antt =====
-- The database makes, lists and deletes games, and shows them to their owner only.
use zorkd.Base.{
  subst, ℕ, ◌≡◌, ◌≢◌, refl, ap, sym, ◌∙◌, ◌&&◌, Option, none, some, [], ◌∷◌, arith, ==_refl, Text,
  Option-cases, Bool-cases, inl, inr,
}
use zorkd.Errors.{ok, fail, session_not_found, Result-cases}
use zorkd.Go.Decimal.{format_int, parse_positive, parse_positive-format_int}
use zorkd.Game.Types.{Session, Save, Snapshot}
use zorkd.Game.Store.{IsScoped, is_resumable}
use zorkd.Login.Rows.{is_user}
use zorkd.Database.{RowId, Rows, Sqlite, Db, SaveRow, find, remove}
use zorkd.Database.Games.{
  row_of, session_of, owned_row, load_session, visible, delete, delete_row, cascade, create,
  insert_game,
}
use zorkd.Database.Saves.{
  sql_store, owns_game, select_save, reachable, load_save, remove_save, delete_save, drop_save,
  of_game,
}
use zorkd.Database.Contract.Written.{Seen, visible-Seen, visible-row}
use zorkd.Database.Contract.Durable.{names}
use zorkd.Database.Contract.Reached.{load_save_scoped, create_save_scoped, delete_save_scoped}
use zorkd.Database.Contract.Listed.{listed, listed_all}

find-remove : {V : Type 0} (n : ℕ) (rows : Rows V) → find n (remove n rows) ≡ none
unfolding find remove
find-remove n [] = refl
find-remove n ((k, v) ∷ rows) = ground (arith, find-remove n rows)

deleted_answer :
    (user id : Text) (db : Db) (x : Session) (s : Seen db user id x)
    → delete user id db
      ≡ (ok tt, record db { games = remove s.number db.games; saves = cascade s.number db.saves })
unfolding delete delete_row owned_row
deleted_answer user id db x s = ground (arith, s.of_user, s.of_id, s.found, s.owned)

gone :
    (user id : Text) (db : Db) (owner n : ℕ)
    → parse_positive user ≡ some owner
    → parse_positive id ≡ some n
    → find n db.games ≡ none
    → (visible db user id ≡ none) × ((g : Text) (v : Snapshot) → (load_save user id g db).0 ≢ ok v)
unfolding visible load_session load_save reachable owns_game owned_row
gone user id db owner n p q e =
    (ground (arith, p, q, e), λ g v h. absurd (ground (arith, p, q, e, h)))

deleted :
    (user id : Text) (db : Db) (x : Session)
    → visible db user id ≡ some x
    → ((delete user id db).0 ≡ ok tt)
      × (visible (delete user id db).1 user id ≡ none)
      × ((g : Text) (v : Snapshot) → (load_save user id g (delete user id db).1).0 ≢ ok v)
deleted user id db x e =
    let s = visible-Seen db user id x e in
    let out = deleted_answer user id db x s in
    let after : Db = record db {
      games = remove s.number db.games;
      saves = cascade s.number db.saves;
    } in
    let (unseen, unread) =
      gone user id after s.owner s.number s.of_user s.of_id (find-remove s.number db.games) in
    rw out (refl, unseen, unread)

delete_missing :
    (user id : Text) (db : Db)
    → visible db user id ≡ none
    → (delete user id db).0 ≡ fail session_not_found
unfolding delete delete_row visible load_session owned_row
delete_missing user id db e = ground (arith, e)

of_game-removed :
    (n game : ℕ) (rows : Rows SaveRow) → of_game game (find n (remove_save n game rows)) ≡ none
unfolding find remove_save
of_game-removed n game [] = refl
of_game-removed n game ((k, r) ∷ rows) = ground (arith, of_game-removed n game rows)

-- A save that was deleted was a row of a game that the user has.
deleted_row :
    (user id save : Text) (db : Db) (v : Save) (owner game n : ℕ)
    → parse_positive user ≡ some owner
    → parse_positive id ≡ some game
    → parse_positive save ≡ some n
    → (delete_save user id save db).0 ≡ ok v
    → (delete_save user id save db).1 ≡ record db { saves = remove_save n game db.saves }
unfolding delete_save drop_save
deleted_row user id save db v owner game n p q r e =
    elim (Result-cases (reachable user id save db)) [
      | inr (x, w) ↦ absurd (ground (arith, w, e))
      | inl (x, w) ↦ rw (w, delete_save) (rw (r, drop_save) (rw (q, drop_save) refl))
    ]

unreadable :
    (user id save : Text) (db : Db) (owner game n : ℕ) (x : Snapshot)
    → parse_positive user ≡ some owner
    → parse_positive id ≡ some game
    → parse_positive save ≡ some n
    → of_game game (find n db.saves) ≡ none
    → (load_save user id save db).0 ≢ ok x
unfolding load_save reachable select_save
unreadable user id save db owner game n x p q r e f = absurd (ground (arith, p, q, r, e, f))

deleted_save :
    (user id save : Text) (db : Db) (v : Save) (x : Snapshot)
    → (delete_save user id save db).0 ≡ ok v
    → (load_save user id save (delete_save user id save db).1).0 ≢ ok x
unfolding delete_save reachable
deleted_save user id save db v x e f = elim (Option-cases (parse_positive user)) [
  | inl p ↦ absurd (ground (arith, p, e))
  | inr (owner, p) ↦ elim (Option-cases (parse_positive id)) [
    | inl q ↦ absurd (ground (arith, p, q, e))
    | inr (game, q) ↦ elim (Option-cases (parse_positive save)) [
      | inl r ↦ absurd (ground (arith, p, q, r, e))
      | inr (n, r) ↦
          unreadable user id save _ owner game n x p q r (of_game-removed n game db.saves) (
            sym (
              ap (λ (d : Db). (load_save user id save d).0)
                (deleted_row user id save db v owner game n p q r e))
            ∙ f)
    ]
  ]
]

ok-injective {ℓ} : {A : Type ℓ} → (a b : A) → ok a ≡ ok b → a ≡ b
ok-injective a b e = cc

-- What a creation left, of the game that it answered.
abbrev Created : Session → Db → Session → Type 0
Created x db y =
    (y ≡ record x { id = y.id; version = 1 })
    × ((w : Text) × (visible db y.user_id y.id ≡ some (record y { user_id = w })))

inserted :
    ⦃sql : Sqlite⦄ (now owner : ℕ) (x y : Session) (o : Option RowId) (db : Db)
    → parse_positive x.user_id ≡ some owner
    → (insert_game now x owner o db).0 ≡ ok y
    → Created x (insert_game now x owner o db).1 y
unfolding insert_game row_of session_of
inserted now owner x y none db p e = absurd cc
inserted now owner x y (some k) db p e =
    let z : Session = record x { id = format_int k.number; version = 1 } in
    let after : Db = record db { games = (k, row_of owner 1 now x) ∷ db.games } in
    let found : find k.number after.games ≡ some (row_of owner 1 now x) =
      unfold find in rw (==_refl k.number) refl in
    subst (Created x after) (ok-injective z y e) (
      refl,
      (
        format_int owner,
        visible-row after x.user_id z.id owner k.number (row_of owner 1 now x) p
              (parse_positive-format_int k.number k.positive k.fits) found refl
            ∙ refl,
      ),
    )

created :
    ⦃sql : Sqlite⦄ (now : ℕ) (x y : Session) (db : Db)
    → (create now x db).0 ≡ ok y
    → Created x (create now x db).1 y
unfolding create
created now x y db e = elim (Option-cases (parse_positive x.user_id)) [
  | inl p ↦ absurd (ground (arith, p, e))
  | inr (owner, p) ↦ elim (Bool-cases (is_user owner db.users && is_resumable x)) [
    | inl q ↦ rw (p, create) (rw q (inserted now owner x y _ db p (ground (arith, p, q, e))))
    | inr q ↦ absurd (ground (arith, p, q, e))
  ]
]

pub sql_store-IsScoped : ⦃sql : Sqlite⦄ → IsScoped sql_store visible
sql_store-IsScoped = record {
  owner_only = λ user id db x e.
      let s = visible-Seen db user id x e in inr (s.owner, s.of_user, (names db user id x s).1);
  created = created;
  deleted = deleted;
  delete_missing = delete_missing;
  deleted_save = deleted_save;
  listed = listed;
  listed_all = listed_all;
  load_save_scoped = load_save_scoped;
  create_save_scoped = create_save_scoped;
  delete_save_scoped = delete_save_scoped;
}
