-- ===== src/Database/Integrity/Whole.antt =====
-- The statements that write the tables of games and saves keep them whole.
use zorkd.Base.{
  ℕ, ◌<◌, ◌≤◌, ◌≡◌, ◌≢◌, refl, ap, ◌∙◌, true, Option, none, some, [], ◌∷◌, ◌==◌, leb, Text, arith,
  Option-cases, Bool-cases, inl, inr, All,
}
use zorkd.Go.Decimal.{parse_positive}
use zorkd.Game.Store.{is_resumable}
use zorkd.Game.Types.{Session, Snapshot}
use zorkd.Game.Memory.{max_saves_per_game}
use zorkd.Game.SaveName.{is_empty}
use zorkd.Database.{RowId, Rows, Sqlite, GameRow, SaveRow, Db, find, remove, keys, has_key}
use zorkd.Database.Games.{
  matching, load_session, delete_row, insert_game, update_row, write_game, owned_row, cascade,
}
use zorkd.Database.Saves.{
  drop_save, write_save, insert_save, replace_save, save_row, save_id_by_name, count_saves,
  owns_game, remove_save,
}
use zorkd.Database.Integrity.Shelves.{
  IsTable, Sublist, cascade-Sublist, remove_save-Sublist, IsTable-Sublist, count_saves-Sublist,
  All-Sublist,
}
use zorkd.Database.Integrity.Replaced.{keys-put, All-put, put-IsTable, count_saves-put}

abbrev pub HasGame : Db → RowId × SaveRow → Type 0
HasGame db e = has_key e.1.game_id (keys db.games) ≡ true

pub record IsWhole (db : Db) : Type 0 where
  pub table : IsTable db.saves
  pub bounded : (game : ℕ) → count_saves game db.saves ≤ max_saves_per_game
  pub owned : All (HasGame db) db.saves

All-weaken :
    (P Q : RowId × SaveRow → Type 0)
    → ((e : RowId × SaveRow) → P e → Q e)
    → (rows : Rows SaveRow) → All P rows
    → All Q rows
All-weaken P Q f [] h = tt
All-weaken P Q f (e ∷ rows) h = (f e h.0, All-weaken P Q f rows h.1)

-- Saves that are left, with the games they had.
Sublist-IsWhole :
    (db : Db) (rows : Rows SaveRow)
    → Sublist rows db.saves
    → IsWhole db
    → IsWhole (record db { saves = rows })
Sublist-IsWhole db rows s h = record {
  table = IsTable-Sublist rows db.saves s h.table;
  bounded = λ game. ground (arith, count_saves-Sublist game rows db.saves s, h.bounded game);
  owned = All-Sublist (HasGame db) rows db.saves s h.owned;
}

-- Games that are still there, with the saves as they were.
games-IsWhole :
    (db : Db) (games : Rows GameRow)
    → ((n : ℕ) → has_key n (keys db.games) ≡ true → has_key n (keys games) ≡ true)
    → IsWhole db
    → IsWhole (record db { games = games })
games-IsWhole db games f h = record {
  table = h.table;
  bounded = h.bounded;
  owned =
      All-weaken (HasGame db) (HasGame (record db { games = games })) (λ e. f e.1.game_id) db.saves
        h.owned;
}

has_key-remove :
    (g n : ℕ) (rows : Rows GameRow)
    → g ≢ n
    → has_key g (keys rows) ≡ true
    → has_key g (keys (remove n rows)) ≡ true
unfolding has_key remove
has_key-remove g n [] d h = h
has_key-remove g n ((k, r) ∷ rows) d h = ground (arith, has_key-remove g n rows d, d)

cascade-owned :
    (n : ℕ) (games : Rows GameRow) (rows : Rows SaveRow)
    → All (λ e. has_key e.1.game_id (keys games) ≡ true) rows
    → All (λ e. has_key e.1.game_id (keys (remove n games)) ≡ true) (cascade n rows)
unfolding cascade
cascade-owned n games [] h = tt
cascade-owned n games ((k, r) ∷ rows) h = elim (Bool-cases (r.game_id == n)) [
  | inl p ↦ rw p (cascade-owned n games rows h.1)
  | inr p ↦ rw p (
    has_key-remove r.game_id n games (λ e. absurd (ground (arith, p, e))) h.0,
    cascade-owned n games rows h.1,
  )
]

find-has_key : (n : ℕ) (rows : Rows GameRow) → find n rows ≢ none → has_key n (keys rows) ≡ true
unfolding find has_key
find-has_key n [] h = absurd (h refl)
find-has_key n ((k, r) ∷ rows) h = elim (Bool-cases (k.number == n)) [
  | inl p ↦ rw p refl
  | inr p ↦ rw p (find-has_key n rows (λ e. h (rw p e)))
]

pub owns_game-has_key :
    (owner n : ℕ) (db : Db) → owns_game owner n db ≡ true → has_key n (keys db.games) ≡ true
unfolding owns_game owned_row
owns_game-has_key owner n db h = find-has_key n db.games (λ e. absurd (ground (arith, e, h)))

pub delete_row-IsWhole : (owner n : ℕ) (db : Db) → IsWhole db → IsWhole (delete_row owner n db).1
unfolding delete_row
delete_row-IsWhole owner n db h = elim (Option-cases (owned_row owner (find n db.games))) [
  | inl p ↦ rw (p, delete_row) h
  | inr (r, p) ↦
      let left = Sublist-IsWhole db (cascade n db.saves) (cascade-Sublist n db.saves) h in
      rw (p, delete_row)
        (record {
          table = left.table;
          bounded = left.bounded;
          owned = cascade-owned n db.games db.saves h.owned;
        })
]

pub drop_save-IsWhole :
    (save id : Text) (x : Snapshot) (db : Db) → IsWhole db → IsWhole (drop_save save id x db).1
unfolding drop_save
drop_save-IsWhole save id x db h = elim (Option-cases (parse_positive save)) [
  | inl p ↦ rw (p, drop_save) h
  | inr (n, p) ↦ elim (Option-cases (parse_positive id)) [
    | inl q ↦ rw (p, drop_save) (rw q h)
    | inr (game, q) ↦
        rw (p, drop_save)
          (rw q (
            Sublist-IsWhole db (remove_save n game db.saves) (remove_save-Sublist n game db.saves)
              h))
  ]
]

write_game-IsWhole :
    (now : ℕ) (x : Session) (n : ℕ) (r : GameRow) (db : Db)
    → IsWhole db
    → IsWhole (write_game now x n r db).1
unfolding write_game
write_game-IsWhole now x n r db h = elim (Bool-cases (is_resumable x)) [
  | inr p ↦ rw (p, write_game) h
  | inl p ↦
      rw (p, write_game) (games-IsWhole db _ (λ g e. ap (has_key g) (keys-put n _ db.games) ∙ e) h)
]

pub update_row-IsWhole :
    (now : ℕ) (x : Session) (owner n : ℕ) (db : Db)
    → IsWhole db
    → IsWhole (update_row now x owner n db).1
unfolding update_row
update_row-IsWhole now x owner n db h = elim (Option-cases (matching owner n x.version db)) [
  | inr (r, p) ↦ rw (p, update_row) (write_game-IsWhole now x n r db h)
  | inl p ↦ elim (Option-cases (load_session owner n db)) [
    | inl q ↦ rw (p, update_row) (rw q h)
    | inr (y, q) ↦ rw (p, update_row) (rw q h)
  ]
]

module _ ⦃sql : Sqlite⦄ where
  pub insert_game-IsWhole :
      (now : ℕ) (x : Session) (owner : ℕ) (o : Option RowId) (db : Db)
      → IsWhole db
      → IsWhole (insert_game now x owner o db).1
  unfolding insert_game has_key
  insert_game-IsWhole now x owner none db h = h
  insert_game-IsWhole now x owner (some k) db h = games-IsWhole db _ (λ g e. ground (arith, e)) h

  insert_save-IsWhole :
      (now game : ℕ) (x : Snapshot) (db : Db)
      → count_saves game db.saves < max_saves_per_game
      → has_key game (keys db.games) ≡ true
      → save_id_by_name game x.name db.saves ≡ none
      → IsWhole db
      → IsWhole (insert_save now game x (sql.next_row (keys db.saves)) db).1
  unfolding insert_save
  insert_save-IsWhole now game x db c g e h = elim (Option-cases (sql.next_row (keys db.saves))) [
    | inl p ↦ rw (p, insert_save) h
    | inr (k, p) ↦
        rw (p, insert_save)
          (record {
            table = (sql.next_row-fresh (keys db.saves) k p, e, h.table);
            bounded = λ other. unfold count_saves in ground (arith, h.bounded other, c);
            owned = (g, h.owned);
          })
  ]

  pub write_save-IsWhole :
      (now game : ℕ) (x : Snapshot) (o : Option RowId) (db : Db)
      → save_id_by_name game x.name db.saves ≡ o
      → has_key game (keys db.games) ≡ true
      → IsWhole db
      → IsWhole (write_save now game x o db).1
  unfolding write_save replace_save
  write_save-IsWhole now game x (some k) db e g h = elim (Bool-cases (is_empty x.name)) [
    | inl p ↦ rw (p, write_save) h
    | inr p ↦
        let v = save_row now game x in
        rw (p, write_save)
          (record {
            table = put-IsTable v db.saves k h.table e;
            bounded = λ other.
                ground (arith, count_saves-put other v db.saves k h.table e, h.bounded other);
            owned = All-put (HasGame db) k.number v db.saves (λ j. g) h.owned;
          })
  ]
  write_save-IsWhole now game x none db e g h =
      elim (Bool-cases (leb max_saves_per_game (count_saves game db.saves))) [
        | inl p ↦ rw (p, write_save) h
        | inr p ↦ elim (Bool-cases (is_empty x.name)) [
          | inl q ↦ rw (p, write_save) (rw q h)
          | inr q ↦
              rw (p, write_save)
                (rw q (insert_save-IsWhole now game x db (ground (arith, p)) g e h))
        ]
      ]
