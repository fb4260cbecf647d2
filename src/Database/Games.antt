-- ===== src/Database/Games.antt =====
-- sessions.go: games in progress, as rows that their owner's statements alone can reach. What
-- userRowID and rowID refuse reads as a game that is missing.
use zorkd.Base.{
  ℕ, suc, Bool, ◌&&◌, Option, none, some, List, [], ◌∷◌, map, if◌then◌else◌, ltb, ◌==◌, Text,
}
use zorkd.Errors.{Result, ok, fail, refuse, session_not_found, version_conflict, user_not_found}
use zorkd.Go.Decimal.{format_int, parse_positive}
use zorkd.Go.Sort.{sort_func}
use zorkd.Game.Types.{Session, Summary}
use zorkd.Game.Store.{is_resumable}
use zorkd.Game.Store.Calls.{Action}
use zorkd.Login.Rows.{is_user}
use zorkd.Database.{RowId, Rows, find, put, remove, keys, Sqlite, GameRow, SaveRow, Db}

-- The columns of a session, which bindState, bindStatus and the other binds write.
unfoldable pub row_of : ℕ → ℕ → ℕ → Session → GameRow
row_of owner version now x = record {
  user_id = owner;
  story_key = x.story_key;
  state = x.state;
  transcript = x.transcript;
  turn = x.turn;
  version = version;
  halted = x.halted;
  status = x.status;
  updated_at = now;
}

unfoldable pub session_of : ℕ → GameRow → Session
session_of n r = record {
  id = format_int n;
  user_id = format_int r.user_id;
  story_key = r.story_key;
  state = r.state;
  transcript = r.transcript;
  status = r.status;
  turn = r.turn;
  version = r.version;
  halted = r.halted;
}

-- A row, if it is the owner's.
unfoldable pub owned_row : ℕ → Option GameRow → Option GameRow
owned_row owner none = none
owned_row owner (some r) = if r.user_id == owner then some r else none

-- loadSession
unfoldable pub load_session : ℕ → ℕ → Db → Option Session
unfolding owned_row session_of
load_session owner n db = elim (owned_row owner (find n db.games)) [
  | none ↦ none
  | some r ↦ some (session_of n r)
]

unfoldable pub visible : Db → Text → Text → Option Session
unfolding load_session
visible db user id = elim (parse_positive user) [
  | none ↦ none
  | some owner ↦ elim (parse_positive id) [ none ↦ none | some n ↦ load_session owner n db ]
]

unfoldable pub load : Text → Text → Action Db Session
unfolding visible
load user id db = elim (visible db user id) [
  | none ↦ (fail session_not_found, db)
  | some x ↦ (ok x, db)
]

-- The row that the statement of Update matches.
unfoldable pub matching : ℕ → ℕ → ℕ → Db → Option GameRow
matching owner n version db = elim (find n db.games) [
  | none ↦ none
  | some r ↦ if r.user_id == owner && r.version == version then some r else none
]

-- The schema keeps a state in every game that is not over. The story is not written again.
unfoldable pub write_game : ℕ → Session → ℕ → GameRow → Db → Result Session × Db
unfolding row_of
write_game now x n r db =
    if is_resumable x
    then (
      ok (record x { version = suc x.version }),
      record db {
        games =
            put n (record (row_of r.user_id (suc r.version) now x) { story_key = r.story_key })
              db.games;
      },
    )
    else (refuse, db)

unfoldable pub update_row : ℕ → Session → ℕ → ℕ → Db → Result Session × Db
unfolding write_game matching load_session
update_row now x owner n db = elim (matching owner n x.version db) [
  | some r ↦ write_game now x n r db
  | none ↦ elim (load_session owner n db) [
    | none ↦ (fail session_not_found, db)
    | some _ ↦ (fail version_conflict, db)
  ]
]

unfoldable pub update : ℕ → Session → Action Db Session
unfolding update_row
update now x db = elim (parse_positive x.user_id) [
  | none ↦ (fail session_not_found, db)
  | some owner ↦ elim (parse_positive x.id) [
    | none ↦ (fail session_not_found, db)
    | some n ↦ update_row now x owner n db
  ]
]

-- The rows of a user.
unfoldable pub games_of : ℕ → Rows GameRow → Rows GameRow
games_of owner [] = []
games_of owner ((k, r) ∷ rows) =
    let rest = games_of owner rows in if r.user_id == owner then (k, r) ∷ rest else rest

-- ORDER BY updated_at DESC, id DESC
abbrev pub newer_row : RowId × GameRow → RowId × GameRow → Bool
newer_row a b =
    if a.1.updated_at == b.1.updated_at
    then ltb b.0.number a.0.number
    else ltb b.1.updated_at a.1.updated_at

unfoldable pub summary_of : RowId × GameRow → Summary
summary_of e = record {
  id = format_int e.0.number;
  story_key = e.1.story_key;
  turn = e.1.turn;
  halted = e.1.halted;
  updated_at = e.1.updated_at;
}

unfoldable pub list : Text → Action Db (List Summary)
unfolding games_of summary_of
list user db = elim (parse_positive user) [
  | none ↦ (ok [], db)
  | some owner ↦ (ok (map summary_of (sort_func newer_row (games_of owner db.games))), db)
]

-- ON DELETE CASCADE: the saves of the other games.
unfoldable pub cascade : ℕ → Rows SaveRow → Rows SaveRow
cascade game [] = []
cascade game ((k, r) ∷ rows) =
    let rest = cascade game rows in if r.game_id == game then rest else (k, r) ∷ rest

unfoldable pub delete_row : ℕ → ℕ → Db → Result (Unit {0}) × Db
unfolding owned_row cascade
delete_row owner n db = elim (owned_row owner (find n db.games)) [
  | none ↦ (fail session_not_found, db)
  | some r ↦ (ok tt, record db { games = remove n db.games; saves = cascade n db.saves })
]

unfoldable pub delete : Text → Text → Action Db (Unit {0})
unfolding delete_row
delete user id db = elim (parse_positive user) [
  | none ↦ (fail session_not_found, db)
  | some owner ↦ elim (parse_positive id) [
    | none ↦ (fail session_not_found, db)
    | some n ↦ delete_row owner n db
  ]
]

module _ ⦃sql : Sqlite⦄ where
  unfoldable pub insert_game : ℕ → Session → ℕ → Option RowId → Db → Result Session × Db
  unfolding row_of
  insert_game now x owner none db = (refuse, db)
  insert_game now x owner (some k) db = (
    ok (record x { id = format_int k.number; version = 1 }),
    record db { games = (k, row_of owner 1 now x) ∷ db.games },
  )

  -- INSERT, under the schema: the user exists, and a game that is not over has a state.
  unfoldable pub create : ℕ → Session → Action Db Session
  unfolding insert_game
  create now x db = elim (parse_positive x.user_id) [
    | none ↦ (fail user_not_found, db)
    | some owner ↦
        if is_user owner db.users && is_resumable x
        then insert_game now x owner (sql.next_row (keys db.games)) db
        else (refuse, db)
  ]
