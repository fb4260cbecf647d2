-- ===== src/Database/Privacy/Writes.antt =====
-- A statement of one owner leaves alone what another sees.
use zorkd.Base.{
  ℕ, ◌≡◌, ◌≢◌, refl, sym, ap, ◌∙◌, true, false, ◌&&◌, Option, none, some, Text, arith, leb, ◌==◌,
  ==_refl, Option-cases, Bool-cases, inl, inr, [], ◌∷◌,
}
use zorkd.Game.Types.{Session, Snapshot}
use zorkd.Game.SaveName.{is_empty}
use zorkd.Game.Memory.{max_saves_per_game}
use zorkd.Game.Store.{is_resumable}
use zorkd.Database.{RowId, Rows, Db, GameRow, SaveRow, Sqlite, find, keys, has_key, same_nocase}
use zorkd.Database.Games.{
  games_of, owned_row, row_of, matching, write_game, update_row, load_session, delete_row,
  insert_game,
}
use zorkd.Database.Saves.{
  saves_of, owns_game, save_row, save_id_by_name, insert_save, replace_save, write_save,
  count_saves, remove_save,
}
use zorkd.Database.Privacy.Filters.{
  IsKeyed, find-Under, has_key-find, games_of-put, games_of-remove, saves_of-put,
  saves_of-remove_save, saves_of-cascade, IsKeyed-put, IsKeyed-remove,
}
use zorkd.Database.Privacy.Views.{View}

-- The keys of the games are still unique, and the owner sees no change.
pub record Left (owner : ℕ) (a b : Db) : Type 0 where
  pub keyed : IsKeyed b.games
  pub view : View owner a b

pub unchanged : (owner : ℕ) (db : Db) → IsKeyed db.games → Left owner db db
unchanged owner db h = record { keyed = h; view = record { games = refl; saves = λ g e. refl } }

owned_row-some :
    (owner : ℕ) (o : Option GameRow) (r : GameRow)
    → owned_row owner o ≡ some r
    → (o ≡ some r) × (r.user_id ≡ owner)
unfolding owned_row
owned_row-some owner none r e = absurd cc
owned_row-some owner (some w) r e = (ground arith, ground arith)

owns_game-row :
    (owner g : ℕ) (db : Db)
    → owns_game owner g db ≡ true
    → (r : GameRow) × (find g db.games ≡ some r) × (r.user_id ≡ owner)
unfolding owns_game
owns_game-row owner g db e = elim (Option-cases (owned_row owner (find g db.games))) [
  | inl p ↦ absurd (ground (arith, p, e))
  | inr (r, p) ↦ let (f, o) = owned_row-some owner _ r p in (r, f, o)
]

-- A game has one owner.
rows_apart :
    (owner other g n : ℕ) (r : GameRow) (db : Db)
    → other ≢ owner
    → owns_game owner g db ≡ true
    → find n db.games ≡ some r
    → r.user_id ≡ other
    → n ≢ g
rows_apart owner other g n r db d p f o e =
    let (w, f', o') = owns_game-row owner g db p in
    let found : find g db.games ≡ some r = ap (λ i. find i db.games) (sym e) ∙ f in
    let same : r ≡ w = ground (arith, found, f') in
    d (sym o ∙ ap (λ (y : GameRow). y.user_id) same ∙ o')

module _ (owner other : ℕ) (apart : other ≢ owner) where
  matched :
      (n version : ℕ) (db : Db) (r : GameRow)
      → matching other n version db ≡ some r
      → (find n db.games ≡ some r) × (r.user_id ≡ other)
  unfolding matching
  matched n version db r e = (ground arith, ground arith)

  write_game-Left :
      (now : ℕ) (x : Session) (n : ℕ) (r : GameRow) (db : Db)
      → IsKeyed db.games
      → find n db.games ≡ some r
      → r.user_id ≡ other
      → Left owner db (write_game now x n r db).1
  unfolding write_game row_of
  write_game-Left now x n r db h f o = elim (Bool-cases (is_resumable x)) [
    | inr p ↦ rw (p, write_game) (unchanged owner db h)
    | inl p ↦
        let mine : r.user_id ≢ owner = λ e. apart (sym o ∙ e) in
        rw (p, write_game)
          (record {
            keyed = IsKeyed-put n _ db.games h;
            view = record {
              games =
                  games_of-put owner n _ db.games mine
                    (find-Under (λ (y : GameRow). y.user_id ≢ owner) n r db.games h f mine);
              saves = λ g e. refl;
            };
          })
  ]

  pub update_row-Left :
      (now : ℕ) (x : Session) (n : ℕ) (db : Db)
      → IsKeyed db.games
      → Left owner db (update_row now x other n db).1
  unfolding update_row
  update_row-Left now x n db h = elim (Option-cases (matching other n x.version db)) [
    | inr (r, p) ↦
        let (f, o) = matched n x.version db r p in
        rw (p, update_row) (write_game-Left now x n r db h f o)
    | inl p ↦ elim (Option-cases (load_session other n db)) [
      | inl q ↦ rw (p, update_row) (rw q (unchanged owner db h))
      | inr (_, q) ↦ rw (p, update_row) (rw q (unchanged owner db h))
    ]
  ]

  pub delete_row-Left :
      (n : ℕ) (db : Db) → IsKeyed db.games → Left owner db (delete_row other n db).1
  unfolding delete_row
  delete_row-Left n db h = elim (Option-cases (owned_row other (find n db.games))) [
    | inl p ↦ rw (p, delete_row) (unchanged owner db h)
    | inr (r, p) ↦
        let (f, o) = owned_row-some other (find n db.games) r p in
        let mine : r.user_id ≢ owner = λ e. apart (sym o ∙ e) in
        rw (p, delete_row)
          (record {
            keyed = IsKeyed-remove n db.games h;
            view = record {
              games =
                  games_of-remove owner n db.games
                    (find-Under (λ (y : GameRow). y.user_id ≢ owner) n r db.games h f mine);
              saves = λ g e.
                  saves_of-cascade g n db.saves (rows_apart owner other g n r db apart e f o);
            };
          })
  ]

  -- A save of the other's game is no save of the owner's.
  module _ (game : ℕ) (db : Db) (mine : owns_game other game db ≡ true) where
    other_game : (g : ℕ) → owns_game owner g db ≡ true → game ≢ g
    other_game g e =
        let (r, f, o) = owns_game-row other game db mine in
        rows_apart owner other g game r db apart e f o

    shelved :
        (rows : Rows SaveRow)
        → ((g : ℕ) → game ≢ g → saves_of g rows ≡ saves_of g db.saves)
        → IsKeyed db.games
        → Left owner db (record db { saves = rows })
    shelved rows f h = record {
      keyed = h;
      view = record { games = refl; saves = λ g e. f g (other_game g e) };
    }

    save_id-found :
        (name : Text) (rows : Rows SaveRow) (k : RowId)
        → IsKeyed rows
        → save_id_by_name game name rows ≡ some k
        → (r : SaveRow) × (find k.number rows ≡ some r) × (r.game_id ≡ game)
    unfolding save_id_by_name find
    save_id-found name [] k h e = absurd cc
    save_id-found name ((j, w) ∷ rows) k h e =
        elim (Bool-cases (w.game_id == game && same_nocase w.name name)) [
          | inl p ↦ (w, ground (arith, p, e, ==_refl k.number), ground (arith, p))
          | inr p ↦
              let (r, f, o) = save_id-found name rows k h.1 (ground (arith, p, e)) in
              (r, ground (arith, f, h.0, has_key-find k.number rows), o)
        ]

    replace_save-Left :
        (now : ℕ) (x : Snapshot) (k : RowId)
        → IsKeyed db.games
        → IsKeyed db.saves
        → save_id_by_name game x.name db.saves ≡ some k
        → Left owner db (replace_save now game x k db).1
    unfolding replace_save save_row
    replace_save-Left now x k h hs e =
        let (r, f, o) = save_id-found x.name db.saves k hs e in
        shelved _
          (λ g d. saves_of-put g k.number (save_row now game x) db.saves d (
            find-Under (λ (y : SaveRow). y.game_id ≢ g) k.number r db.saves hs f
              (λ w. d (sym o ∙ w))))
          h

    insert_save-Left :
        (now : ℕ) (x : Snapshot) (o : Option RowId)
        → IsKeyed db.games
        → Left owner db (insert_save now game x o db).1
    unfolding insert_save save_row saves_of
    insert_save-Left now x none h = unchanged owner db h
    insert_save-Left now x (some k) h = shelved _ (λ g d. ground (arith, d)) h

    pub write_save-Left :
        ⦃sql : Sqlite⦄ (now : ℕ) (x : Snapshot) (o : Option RowId)
        → save_id_by_name game x.name db.saves ≡ o
        → IsKeyed db.games
        → IsKeyed db.saves
        → Left owner db (write_save now game x o db).1
    unfolding write_save
    write_save-Left now x (some k) e h hs = elim (Bool-cases (is_empty x.name)) [
      | inl p ↦ rw (p, write_save) (unchanged owner db h)
      | inr p ↦ rw (p, write_save) (replace_save-Left now x k h hs e)
    ]
    write_save-Left ⦃sql⦄ now x none e h hs =
        elim (Bool-cases (leb max_saves_per_game (count_saves game db.saves))) [
          | inl p ↦ rw (p, write_save) (unchanged owner db h)
          | inr p ↦ elim (Bool-cases (is_empty x.name)) [
            | inl q ↦ rw (p, write_save) (rw q (unchanged owner db h))
            | inr q ↦
                rw (p, write_save) (rw q (insert_save-Left now x (sql.next_row (keys db.saves)) h))
          ]
        ]

    pub remove_save-Left :
        (n : ℕ)
        → IsKeyed db.games
        → Left owner db (record db { saves = remove_save n game db.saves })
    remove_save-Left n h = shelved _ (λ g d. saves_of-remove_save g n game db.saves d) h

  pub insert_game-Left :
      ⦃sql : Sqlite⦄ (now : ℕ) (x : Session) (o : Option RowId) (db : Db)
      → ((k : RowId) → o ≡ some k → has_key k.number (keys db.games) ≡ false)
      → IsKeyed db.games
      → Left owner db (insert_game now x other o db).1
  unfolding insert_game row_of games_of
  insert_game-Left now x none db fresh h = unchanged owner db h
  insert_game-Left now x (some k) db fresh h = record {
    keyed = (fresh k refl, h);
    view = record { games = ground (arith, apart); saves = λ g e. refl };
  }
