-- ===== src/Database/Contract/Written.antt =====
-- The rows that reads and Update of the database meet.
use zorkd.Base.{
  ℕ, suc, ◌≡◌, ◌≢◌, refl, ap, true, none, some, [], ◌∷◌, Text, arith, ◌==◌, if◌then◌else◌,
  Option-cases, inl, inr,
}
use zorkd.Errors.{ok, fail, session_not_found, version_conflict}
use zorkd.Go.Decimal.{parse_positive}
use zorkd.Game.Types.{Session}
use zorkd.Game.Store.{is_resumable}
use zorkd.Database.{Rows, Db, GameRow, find, put}
use zorkd.Database.Games.{
  row_of, session_of, owned_row, load_session, visible, load, matching, write_game, update_row,
  update,
}

-- A game that a user can see, by the row that it is read from.
pub record Seen (db : Db) (user id : Text) (x : Session) : Type 0 where
  pub owner : ℕ
  pub number : ℕ
  pub row : GameRow
  pub of_user : parse_positive user ≡ some owner
  pub of_id : parse_positive id ≡ some number
  pub found : find number db.games ≡ some row
  pub owned : row.user_id ≡ owner
  pub reads : x ≡ session_of number row

load_session-row :
    (owner n : ℕ) (db : Db) (x : Session)
    → load_session owner n db ≡ some x
    → (r : GameRow) × (find n db.games ≡ some r) × (r.user_id ≡ owner) × (x ≡ session_of n r)
unfolding load_session owned_row
load_session-row owner n db x e = elim (Option-cases (find n db.games)) [
  | inl p ↦ absurd (ground arith)
  | inr (r, p) ↦ (r, p, ground arith, ground arith)
]

pub visible-Seen :
    (db : Db) (user id : Text) (x : Session) → visible db user id ≡ some x → Seen db user id x
unfolding visible
visible-Seen db user id x e = elim (Option-cases (parse_positive user)) [
  | inl p ↦ absurd (ground arith)
  | inr (owner, p) ↦ elim (Option-cases (parse_positive id)) [
    | inl q ↦ absurd (ground arith)
    | inr (n, q) ↦
        let (r, f, o, w) = load_session-row owner n db x (ground arith) in
        record {
          owner = owner;
          number = n;
          row = r;
          of_user = p;
          of_id = q;
          found = f;
          owned = o;
          reads = w;
        }
  ]
]

-- The reading of a row under its names.
pub visible-row :
    (db : Db) (user id : Text) (owner n : ℕ) (r : GameRow)
    → parse_positive user ≡ some owner
    → parse_positive id ≡ some n
    → find n db.games ≡ some r
    → r.user_id ≡ owner
    → visible db user id ≡ some (session_of n r)
unfolding visible load_session owned_row
visible-row db user id owner n r p q f o = ground arith

-- Update of a game that the user can see.
pub update-Seen :
    (now : ℕ) (x y : Session) (db : Db) (s : Seen db x.user_id x.id y)
    → update now x db ≡ (
        if s.row.version == x.version
        then write_game now x s.number s.row db
        else (fail version_conflict, db))
unfolding update update_row matching load_session owned_row
update-Seen now x y db s = ground (arith, s.of_user, s.of_id, s.found, s.owned)

pub update-unseen :
    (now : ℕ) (x : Session) (db : Db)
    → visible db x.user_id x.id ≡ none
    → (update now x db).0 ≡ fail session_not_found
unfolding update update_row matching load_session owned_row visible
update-unseen now x db e = ground arith

-- The row that UPDATE wrote, and the others.
pub find-put_other :
    {V : Type 0} (n i : ℕ) (v : V) (rows : Rows V) → n ≢ i → find i (put n v rows) ≡ find i rows
unfolding find put
find-put_other n i v [] h = refl
find-put_other n i v ((k, u) ∷ rows) h = ground (arith, find-put_other n i v rows, h)

pub find-put_self :
    {V : Type 0} (n : ℕ) (v w : V) (rows : Rows V)
    → find n rows ≡ some w
    → find n (put n v rows) ≡ some v
unfolding find put
find-put_self n v w [] e = absurd cc
find-put_self n v w ((k, u) ∷ rows) e = ground (arith, find-put_self n v w rows)

pub load_found :
    (user id : Text) (db : Db) (x : Session)
    → visible db user id ≡ some x
    → (load user id db).0 ≡ ok x
unfolding load
load_found user id db x e = rw (e, load) refl

pub load_missing :
    (user id : Text) (db : Db)
    → visible db user id ≡ none
    → (load user id db).0 ≡ fail session_not_found
unfolding load
load_missing user id db e = rw (e, load) refl

pub update_stale :
    (now : ℕ) (x y : Session) (db : Db)
    → visible db x.user_id x.id ≡ some y
    → y.version ≢ x.version
    → (update now x db).0 ≡ fail version_conflict
unfolding session_of
update_stale now x y db e h =
    let s = visible-Seen db x.user_id x.id y e in
    rw (update-Seen now x y db s) (ground (arith, ap (λ (z : Session). z.version) s.reads, h))

pub update_fresh :
    (now : ℕ) (x y : Session) (db : Db)
    → visible db x.user_id x.id ≡ some y
    → y.version ≡ x.version
    → is_resumable x ≡ true
    → (update now x db).0 ≡ ok (record x { version = suc x.version })
unfolding session_of write_game
update_fresh now x y db e h r =
    let s = visible-Seen db x.user_id x.id y e in
    rw (update-Seen now x y db s) (ground (arith, ap (λ (z : Session). z.version) s.reads, h, r))

-- What an update that went through did.
pub record Written (now : ℕ) (x y : Session) (db : Db) : Type 0 where
  pub before : Session
  pub seen : Seen db x.user_id x.id before
  pub version : seen.row.version ≡ x.version
  pub answer : y ≡ record x { version = suc x.version }
  pub games :
      (update now x db).1.games
      ≡ put seen.number
          (record (row_of seen.row.user_id (suc seen.row.version) now x) {
            story_key = seen.row.story_key;
          })
          db.games

pub update-Written :
    (now : ℕ) (x y : Session) (db : Db) → (update now x db).0 ≡ ok y → Written now x y db
unfolding write_game
update-Written now x y db e = elim (Option-cases (visible db x.user_id x.id)) [
  | inl p ↦ cc (update-unseen now x db p)
  | inr (z, p) ↦
      let s = visible-Seen db x.user_id x.id z p in
      let u = update-Seen now x z db s in
      record {
        before = z;
        seen = s;
        version = ground (arith, rw u at e);
        answer = ground (arith, rw u at e);
        games = rw u (ground (arith, rw u at e));
      }
]
