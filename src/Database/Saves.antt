-- ===== src/Database/Saves.antt =====
-- saves.go: named saves, reached by way of the game that they belong to.
use zorkd.Base.{
  ℕ, suc, Bool, true, false, ◌&&◌, Option, none, some, List, [], ◌∷◌, map, if◌then◌else◌, ltb, leb,
  ◌==◌, Text,
}
use zorkd.Errors.{Result, ok, err, fail, refuse, session_not_found, save_not_found, too_many_saves}
use zorkd.Go.Decimal.{format_int, parse_positive}
use zorkd.Go.Sort.{sort_func}
use zorkd.Game.Types.{Save, Snapshot}
use zorkd.Game.SaveName.{is_empty}
use zorkd.Game.Memory.{max_saves_per_game}
use zorkd.Game.Store.{Store}
use zorkd.Game.Store.Calls.{Action}
use zorkd.Database.{RowId, Rows, find, put, keys, Sqlite, same_nocase, SaveRow, Db}
use zorkd.Database.Games
use zorkd.Database.Games.{owned_row}

-- ownsGame
unfoldable pub owns_game : ℕ → ℕ → Db → Bool
unfolding owned_row
owns_game owner n db = elim (owned_row owner (find n db.games)) [ none ↦ false | some r ↦ true ]

-- saveIDByName
unfoldable pub save_id_by_name : ℕ → Text → Rows SaveRow → Option RowId
unfolding same_nocase
save_id_by_name game name [] = none
save_id_by_name game name ((k, r) ∷ rows) =
    let rest = save_id_by_name game name rows in
    if r.game_id == game && same_nocase r.name name then some k else rest

unfoldable pub count_saves : ℕ → Rows SaveRow → ℕ
count_saves game [] = 0
count_saves game ((k, r) ∷ rows) =
    let rest = count_saves game rows in if r.game_id == game then suc rest else rest

-- The columns of a snapshot, which insertSave and replaceSave write.
unfoldable pub save_row : ℕ → ℕ → Snapshot → SaveRow
save_row now game x = record {
  game_id = game;
  name = x.name;
  story_key = x.story_key;
  state = x.state;
  transcript = x.transcript;
  turn = x.turn;
  status = x.status;
  created_at = now;
}

abbrev pub saved_as : ℕ → Snapshot → RowId → Save
saved_as now x k = record {
  id = format_int k.number;
  name = x.name;
  turn = x.turn;
  created_at = now;
}

-- insertSave
unfoldable pub insert_save : ℕ → ℕ → Snapshot → Option RowId → Db → Result (Save × Bool) × Db
unfolding save_row
insert_save now game x none db = (refuse, db)
insert_save now game x (some k) db =
    (ok (saved_as now x k, false), record db { saves = (k, save_row now game x) ∷ db.saves })

-- replaceSave
unfoldable pub replace_save : ℕ → ℕ → Snapshot → RowId → Db → Result (Save × Bool) × Db
unfolding save_row
replace_save now game x k db =
    (ok (saved_as now x k, true), record db { saves = put k.number (save_row now game x) db.saves })

module _ ⦃sql : Sqlite⦄ where
  -- The writes of CreateSave. The schema refuses a name without a byte.
  unfoldable pub write_save : ℕ → ℕ → Snapshot → Option RowId → Db → Result (Save × Bool) × Db
  unfolding insert_save replace_save
  write_save now game x (some k) db =
      if is_empty x.name then (refuse, db) else replace_save now game x k db
  write_save now game x none db =
      if leb max_saves_per_game (count_saves game db.saves)
      then (fail too_many_saves, db)
      else if is_empty x.name
      then (refuse, db)
      else insert_save now game x (sql.next_row (keys db.saves)) db

  unfoldable pub create_save : ℕ → Snapshot → Action Db (Save × Bool)
  unfolding write_save owns_game
  create_save now x db = elim (parse_positive x.user_id) [
    | none ↦ (fail session_not_found, db)
    | some owner ↦ elim (parse_positive x.game_id) [
      | none ↦ (fail session_not_found, db)
      | some game ↦
          if is_empty x.state
          then (refuse, db)
          else if owns_game owner game db
          then write_save now game x (save_id_by_name game x.name db.saves) db
          else (fail session_not_found, db)
    ]
  ]

-- The row of a game that is the user's.
unfoldable pub game_row : Text → Text → Db → Option ℕ
unfolding owns_game
game_row user id db = elim (parse_positive user) [
  | none ↦ none
  | some owner ↦ elim (parse_positive id) [
    | none ↦ none
    | some game ↦ if owns_game owner game db then some game else none
  ]
]

unfoldable pub saves_of : ℕ → Rows SaveRow → Rows SaveRow
saves_of game [] = []
saves_of game ((k, r) ∷ rows) =
    let rest = saves_of game rows in if r.game_id == game then (k, r) ∷ rest else rest

-- ORDER BY created_at DESC, id DESC
abbrev pub newer_row : RowId × SaveRow → RowId × SaveRow → Bool
newer_row a b =
    if a.1.created_at == b.1.created_at
    then ltb b.0.number a.0.number
    else ltb b.1.created_at a.1.created_at

unfoldable pub save_of : RowId × SaveRow → Save
save_of e = record {
  id = format_int e.0.number;
  name = e.1.name;
  turn = e.1.turn;
  created_at = e.1.created_at;
}

unfoldable pub saves : Text → Text → Action Db (List Save)
unfolding game_row saves_of save_of
saves user id db = elim (game_row user id db) [
  | none ↦ (fail session_not_found, db)
  | some game ↦ (ok (map save_of (sort_func newer_row (saves_of game db.saves))), db)
]

abbrev pub of_game : ℕ → Option SaveRow → Option SaveRow
of_game game none = none
of_game game (some r) = if r.game_id == game then some r else none

-- The answer of LoadSave, under the identifiers that it was asked by.
unfoldable pub snapshot_of : Text → Text → ℕ → SaveRow → Snapshot
snapshot_of user game n r = record {
  id = format_int n;
  user_id = user;
  game_id = game;
  name = r.name;
  story_key = r.story_key;
  state = r.state;
  transcript = r.transcript;
  status = r.status;
  turn = r.turn;
  created_at = r.created_at;
}

-- The last statement of LoadSave.
unfoldable pub select_save : Text → Text → ℕ → ℕ → Db → Result Snapshot
unfolding snapshot_of
select_save user id game n db = elim (of_game game (find n db.saves)) [
  | none ↦ fail save_not_found
  | some r ↦ ok (snapshot_of user id n r)
]

unfoldable pub reachable : Text → Text → Text → Db → Result Snapshot
unfolding select_save owns_game
reachable user id save db = elim (parse_positive user) [
  | none ↦ fail session_not_found
  | some owner ↦ elim (parse_positive id) [
    | none ↦ fail session_not_found
    | some game ↦ elim (parse_positive save) [
      | none ↦ fail save_not_found
      | some n ↦
          if owns_game owner game db then select_save user id game n db else fail session_not_found
    ]
  ]
]

unfoldable pub load_save : Text → Text → Text → Action Db Snapshot
unfolding reachable
load_save user id save db = (reachable user id save db, db)

-- The last statement of DeleteSave: the rows but the one under a key, if it is of that game.
unfoldable pub remove_save : ℕ → ℕ → Rows SaveRow → Rows SaveRow
remove_save n game [] = []
remove_save n game ((k, r) ∷ rows) =
    let rest = remove_save n game rows in
    if k.number == n && r.game_id == game then rest else (k, r) ∷ rest

unfoldable pub drop_save : Text → Text → Snapshot → Db → Result Save × Db
unfolding remove_save
drop_save save id x db = elim (parse_positive save) [
  | none ↦ (fail save_not_found, db)
  | some n ↦ elim (parse_positive id) [
    | none ↦ (fail session_not_found, db)
    | some game ↦ (
      ok (record { id = x.id; name = x.name; turn = x.turn; created_at = x.created_at }),
      record db { saves = remove_save n game db.saves },
    )
  ]
]

unfoldable pub delete_save : Text → Text → Text → Action Db Save
unfolding reachable drop_save
delete_save user id save db = elim (reachable user id save db) [
  | err e ↦ (err e, db)
  | ok x ↦ drop_save save id x db
]

abbrev pub sql_store : ⦃sql : Sqlite⦄ → Store Db
sql_store = record {
  create = Games.create;
  load = Games.load;
  update = Games.update;
  list = Games.list;
  delete = Games.delete;
  create_save = create_save;
  saves = saves;
  load_save = load_save;
  delete_save = delete_save;
}
