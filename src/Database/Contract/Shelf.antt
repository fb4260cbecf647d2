-- ===== src/Database/Contract/Shelf.antt =====
-- A save that CreateSave of the database wrote is read back, and games and saves are written apart.
use zorkd.Base.{
  ℕ, ◌≡◌, ◌≢◌, refl, ap, sym, ◌∙◌, Bool, true, Option, none, some, [], ◌∷◌, Text, arith, leb, ◌==◌,
  ==_refl, Option-cases, Bool-cases, inl, inr,
}
use zorkd.Errors.{ok, Result-cases}
use zorkd.Go.Decimal.{format_int, parse_positive, parse_positive-format_int}
use zorkd.Game.Types.{Save, Snapshot}
use zorkd.Game.SaveName.{is_empty}
use zorkd.Game.Memory.{max_saves_per_game}
use zorkd.Game.Store.{IsShelf}
use zorkd.Database.{Sqlite, Rows, RowId, Db, SaveRow, find, put, keys}
use zorkd.Database.Saves.{
  owns_game, save_id_by_name, count_saves, save_row, saved_as, insert_save, replace_save,
  write_save, create_save, snapshot_of, select_save, reachable, load_save, sql_store,
}
use zorkd.Database.Contract.Atomic.{create_save-fails}
use zorkd.Database.Contract.Written.{find-put_self}
use zorkd.Database.Contract.Apart.{load-games, update_keeps_saves}

-- A save that was taken from its game's shelf by its row.
on_shelf :
    (x : Snapshot) (save : Text) (owner game n : ℕ) (r : SaveRow) (db : Db)
    → parse_positive x.user_id ≡ some owner
    → parse_positive x.game_id ≡ some game
    → parse_positive save ≡ some n
    → owns_game owner game db ≡ true
    → find n db.saves ≡ some r
    → r.game_id ≡ game
    → reachable x.user_id x.game_id save db ≡ ok (snapshot_of x.user_id x.game_id n r)
unfolding reachable select_save
on_shelf x save owner game n r db a b c d e f = ground arith

saved_number : (k : RowId) → parse_positive (format_int k.number) ≡ some k.number
saved_number k = parse_positive-format_int k.number k.positive k.fits

-- The name that a row was found by stands for a row of that game.
find-save_id :
    (game : ℕ) (name : Text) (rows : Rows SaveRow) (k : RowId)
    → save_id_by_name game name rows ≡ some k
    → find k.number rows ≢ none
unfolding save_id_by_name find
find-save_id game name [] k e f = absurd cc
find-save_id game name ((j, r) ∷ rows) k e f = elim (Bool-cases (j.number == k.number)) [
  | inl p ↦ absurd (ground arith)
  | inr p ↦ find-save_id game name rows k (ground (arith, ==_refl k.number)) (ground arith)
]

replaced :
    (now game : ℕ) (x : Snapshot) (k : RowId) (db : Db)
    → find k.number db.saves ≢ none
    → find k.number (put k.number (save_row now game x) db.saves) ≡ some (save_row now game x)
replaced now game x k db h = elim (Option-cases (find k.number db.saves)) [
  | inl e ↦ absurd (h e)
  | inr (w, e) ↦ find-put_self k.number (save_row now game x) w db.saves e
]

-- What the writes of CreateSave leave, by the row that they wrote.
record Shelved (now game : ℕ) (x : Snapshot) (db db' : Db) (v : Save) : Type 0 where
  key : RowId
  found : find key.number db'.saves ≡ some (save_row now game x)
  games : db'.games ≡ db.games
  answer : v ≡ saved_as now x key

inserted :
    (now game : ℕ) (x : Snapshot) (o : Option RowId) (db : Db) (v : Save) (b : Bool)
    → (insert_save now game x o db).0 ≡ ok (v, b)
    → Shelved now game x db (insert_save now game x o db).1 v
unfolding insert_save
inserted now game x none db v b h = absurd cc
inserted now game x (some k) db v b h = record {
  key = k;
  found = unfold find in rw (==_refl k.number) refl;
  games = refl;
  answer = ground arith;
}

module _ ⦃sql : Sqlite⦄ where
  write_save-Shelved :
      (now game : ℕ) (x : Snapshot) (o : Option RowId) (db : Db) (v : Save) (b : Bool)
      → o ≡ save_id_by_name game x.name db.saves
      → (write_save now game x o db).0 ≡ ok (v, b)
      → Shelved now game x db (write_save now game x o db).1 v
  unfolding write_save replace_save insert_save
  write_save-Shelved now game x none db v b p h =
      elim (Bool-cases (leb max_saves_per_game (count_saves game db.saves))) [
        | inl full ↦ absurd (ground arith)
        | inr room ↦ elim (Bool-cases (is_empty x.name)) [
          | inl nameless ↦ absurd (ground arith)
          | inr named ↦
              rw (room, named)
                (inserted now game x (sql.next_row (keys db.saves)) db v b (rw (room, named) at h))
        ]
      ]
  write_save-Shelved now game x (some k) db v b p h = elim (Bool-cases (is_empty x.name)) [
    | inl nameless ↦ absurd (ground arith)
    | inr named ↦ rw named (record {
      key = k;
      found = replaced now game x k db (find-save_id game x.name db.saves k (sym p));
      games = refl;
      answer = ground arith;
    })
  ]

  -- What CreateSave needs before it writes.
  record Saving (now : ℕ) (x : Snapshot) (db : Db) (v : Save) : Type 0 where
    owner : ℕ
    game : ℕ
    of_user : parse_positive x.user_id ≡ some owner
    of_id : parse_positive x.game_id ≡ some game
    owned : owns_game owner game db ≡ true
    written : Shelved now game x db (create_save now x db).1 v

  create_save-Saving :
      (now : ℕ) (x : Snapshot) (db : Db) (v : Save) (b : Bool)
      → (create_save now x db).0 ≡ ok (v, b)
      → Saving now x db v
  unfolding create_save
  create_save-Saving now x db v b h = elim (Option-cases (parse_positive x.user_id)) [
    | inl p ↦ absurd (ground arith)
    | inr (owner, p) ↦ elim (Option-cases (parse_positive x.game_id)) [
      | inl q ↦ absurd (ground arith)
      | inr (game, q) ↦ elim (Bool-cases (is_empty x.state)) [
        | inl empty ↦ absurd (ground arith)
        | inr full ↦ elim (Bool-cases (owns_game owner game db)) [
          | inr other ↦ absurd (ground arith)
          | inl mine ↦
              let step : create_save now x db
                  ≡ write_save now game x (save_id_by_name game x.name db.saves) db =
                ground arith in
              record {
                owner = owner;
                game = game;
                of_user = p;
                of_id = q;
                owned = mine;
                written = rw step (write_save-Shelved now game x _ db v b refl (rw step at h));
              }
        ]
      ]
    ]
  ]

  owns_game-games :
      (owner game : ℕ) (db db' : Db)
      → db'.games ≡ db.games
      → owns_game owner game db' ≡ owns_game owner game db
  unfolding owns_game
  owns_game-games owner game db db' e = rw e refl

  saved :
      (now : ℕ) (x : Snapshot) (db : Db) (v : Save) (b : Bool)
      → (create_save now x db).0 ≡ ok (v, b)
      → (load_save x.user_id x.game_id v.id (create_save now x db).1).0
        ≡ ok (record x { id = v.id; created_at = now })
  unfolding load_save save_row snapshot_of
  saved now x db v b h =
      let s = create_save-Saving now x db v b h in
      let w = s.written in
      let key : v.id ≡ format_int w.key.number = ap (λ (y : Save). y.id) w.answer in
      on_shelf x v.id s.owner s.game w.key.number _ (create_save now x db).1 s.of_user s.of_id
        (ap parse_positive key ∙ saved_number w.key)
        (owns_game-games s.owner s.game db (create_save now x db).1 w.games ∙ s.owned) w.found refl
      ∙ ap (λ i. ok (record x { id = i; created_at = now })) (sym key)

  -- CreateSave writes no game.
  create_save-games : (now : ℕ) (x : Snapshot) (db : Db) → (create_save now x db).1.games ≡ db.games
  create_save-games now x db = elim (Result-cases (create_save now x db).0) [
    | inl (a, e) ↦ (create_save-Saving now x db a.0 a.1 e).written.games
    | inr (e, p) ↦ ap (λ (d : Db). d.games) (create_save-fails now x db e p)
  ]

pub sql_store-IsShelf : ⦃sql : Sqlite⦄ → IsShelf sql_store
sql_store-IsShelf = record {
  saved = saved;
  save_keeps_sessions = λ now x db user id.
      load-games user id db (create_save now x db).1 (create_save-games now x db);
  update_keeps_saves = update_keeps_saves;
}
