-- ===== src/Game/Memory.antt =====
-- memstore.go: sessions and saves in maps. A value of the model cannot be changed through another
-- name, so the copies that `clone` and `cloneSnapshot` make are the values themselves.
pub mod Laws
pub mod Shelf
pub mod Scoped
pub mod Contract
pub mod Race
use zorkd.Base.{
  ℕ, suc, ◌+◌, Bool, true, false, ◌&&◌, not, Option, none, some, List, [], ◌∷◌, if◌then◌else◌, ltb,
  leb, ◌==◌, length, Text, str_eq, Map, lookup, insert, delete,
}
use zorkd.Errors.{
  Result, ok, err, fail, refuse, session_not_found, version_conflict, save_not_found,
  too_many_saves,
}
use zorkd.Go.Space.{Unicode}
use zorkd.Go.Decimal.{format_int}
use zorkd.Go.Sort.{text_after, sort_func}
use zorkd.Game.Types.{Session, Save, Snapshot, Summary}
use zorkd.Game.SaveName.{is_empty, same_save_name}
use zorkd.Game.Store.{Store}
use zorkd.Game.Store.Calls.{Action, return, throw}

abbrev pub max_saves_per_game : ℕ
max_saves_per_game = 20

pub record MemoryStore : Type 0 where
  pub sessions : Map Session
  pub updated : Map ℕ
  pub saves : Map Snapshot
  pub next_id : ℕ
  pub next_save : ℕ

abbrev pub new_memory_store : MemoryStore
new_memory_store = record { sessions = []; updated = []; saves = []; next_id = 0; next_save = 0 }

unfoldable pub owned_by : Text → Option Session → Option Session
owned_by user none = none
owned_by user (some x) = if str_eq x.user_id user then some x else none

-- The session under an identifier, if it is the user's.
unfoldable pub visible : MemoryStore → Text → Text → Option Session
unfolding owned_by
visible m user id = owned_by user (lookup id m.sessions)

unfoldable pub create : ℕ → Session → Action MemoryStore Session
unfolding is_empty
create now x m =
    if is_empty x.user_id
    then (refuse, m)
    else let n = suc m.next_id in
      let y : Session = record x { id = format_int n; version = 1 } in
      (
        ok y,
        record m {
          next_id = n;
          sessions = insert y.id y m.sessions;
          updated = insert y.id now m.updated;
        },
      )

unfoldable pub load : Text → Text → Action MemoryStore Session
unfolding visible
load user id m = elim (visible m user id) [
  | none ↦ (fail session_not_found, m)
  | some x ↦ (ok x, m)
]

unfoldable pub update : ℕ → Session → Action MemoryStore Session
unfolding visible
update now x m = elim (visible m x.user_id x.id) [
  | none ↦ (fail session_not_found, m)
  | some stored ↦
      if stored.version == x.version
      then (let y : Session = record x { version = suc x.version } in
          (
            ok y,
            record m { sessions = insert y.id y m.sessions; updated = insert y.id now m.updated },
          ))
      else (fail version_conflict, m)
]

abbrev pub time_of : Option ℕ → ℕ
time_of none = 0
time_of (some t) = t

unfoldable pub summaries : Map ℕ → Text → Map Session → List Summary
summaries updated user [] = []
summaries updated user ((id, x) ∷ m) =
    let rest = summaries updated user m in
    if str_eq x.user_id user
    then record {
      id = id;
      story_key = x.story_key;
      turn = x.turn;
      halted = x.halted;
      updated_at = time_of (lookup id updated);
    }
      ∷ rest
    else rest

-- Most recently played first, and the larger identifier first at one reading of the clock.
abbrev pub newer_game : Summary → Summary → Bool
newer_game a b =
    if a.updated_at == b.updated_at then text_after a.id b.id else ltb b.updated_at a.updated_at

unfoldable pub list : Text → Action MemoryStore (List Summary)
list user m = (ok (sort_func newer_game (summaries m.updated user m.sessions)), m)

-- The saves of the other games.
unfoldable pub drop_game : Text → Map Snapshot → Map Snapshot
drop_game game [] = []
drop_game game ((i, x) ∷ m) =
    let rest = drop_game game m in if str_eq x.game_id game then rest else (i, x) ∷ rest

unfoldable pub delete_session : Text → Text → Action MemoryStore (Unit {0})
unfolding visible
delete_session user id m = elim (visible m user id) [
  | none ↦ (fail session_not_found, m)
  | some x ↦ (
    ok tt,
    record m {
      sessions = delete id m.sessions;
      updated = delete id m.updated;
      saves = drop_game id m.saves;
    },
  )
]

unfoldable pub summarize : Snapshot → Save
summarize x = record { id = x.id; name = x.name; turn = x.turn; created_at = x.created_at }

-- How many saves a game holds.
unfoldable pub held : Text → Map Snapshot → ℕ
held game [] = 0
held game ((i, x) ∷ m) = let rest = held game m in if str_eq x.game_id game then suc rest else rest

module _ ⦃u : Unicode⦄ where
  -- The identifier of the save that a game holds under a name.
  unfoldable pub slot : Text → Text → Map Snapshot → Option Text
  unfolding same_save_name
  slot game name [] = none
  slot game name ((i, x) ∷ m) =
      if str_eq x.game_id game && same_save_name x.name name then some i else slot game name m

  unfoldable pub store_save :
      MemoryStore → Snapshot → Option Text → Result (Save × Bool) × MemoryStore
  unfolding summarize
  store_save m x (some i) =
      let y : Snapshot = record x { id = i } in
      (ok (summarize y, true), record m { saves = insert i y m.saves })
  store_save m x none =
      if leb max_saves_per_game (held x.game_id m.saves)
      then (fail too_many_saves, m)
      else let n = suc m.next_save in
        let y : Snapshot = record x { id = format_int n } in
        (ok (summarize y, false), record m { next_save = n; saves = insert y.id y m.saves })

  unfoldable pub create_save : ℕ → Snapshot → Action MemoryStore (Save × Bool)
  unfolding visible
  create_save now x m = elim (visible m x.user_id x.game_id) [
    | none ↦ (fail session_not_found, m)
    | some _ ↦ store_save m (record x { created_at = now }) (slot x.game_id x.name m.saves)
  ]

unfoldable pub saves_of : Text → Map Snapshot → List Save
unfolding summarize
saves_of game [] = []
saves_of game ((i, x) ∷ m) =
    let rest = saves_of game m in if str_eq x.game_id game then summarize x ∷ rest else rest

abbrev pub newer_save : Save → Save → Bool
newer_save a b =
    if a.created_at == b.created_at then text_after a.id b.id else ltb b.created_at a.created_at

unfoldable pub saves : Text → Text → Action MemoryStore (List Save)
unfolding visible
saves user game m = elim (visible m user game) [
  | none ↦ (fail session_not_found, m)
  | some _ ↦ (ok (sort_func newer_save (saves_of game m.saves)), m)
]

abbrev of_game : Text → Option Snapshot → Option Snapshot
of_game game none = none
of_game game (some x) = if str_eq x.game_id game then some x else none

-- The save under an identifier, if it is a save of that game and the game is the user's.
unfoldable pub reachable : MemoryStore → Text → Text → Text → Result Snapshot
unfolding visible
reachable m user game id = elim (visible m user game) [
  | none ↦ fail session_not_found
  | some _ ↦ elim (of_game game (lookup id m.saves)) [ none ↦ fail save_not_found | some x ↦ ok x ]
]

unfoldable pub load_save : Text → Text → Text → Action MemoryStore Snapshot
unfolding reachable
load_save user game id m = (reachable m user game id, m)

unfoldable pub delete_save : Text → Text → Text → Action MemoryStore Save
unfolding reachable summarize
delete_save user game id m = elim (reachable m user game id) [
  | err e ↦ (err e, m)
  | ok x ↦ (ok (summarize x), record m { saves = delete id m.saves })
]

-- MemoryStore.Len
unfoldable pub len : MemoryStore → ℕ
len m = length m.sessions

abbrev pub memory_store : ⦃u : Unicode⦄ → Store MemoryStore
memory_store = record {
  create = create;
  load = load;
  update = update;
  list = list;
  delete = delete_session;
  create_save = create_save;
  saves = saves;
  load_save = load_save;
  delete_save = delete_save;
}
