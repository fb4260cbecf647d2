-- ===== src/Database/Contract/Durable.antt =====
-- What Update of the database writes, its owner reads back.
use zorkd.Base.{ℕ, suc, ◌≡◌, ◌≢◌, ap, sym, ◌∙◌, some, Text, inl, inr}
use mathlib.Core.Option.{some-injective}
use zorkd.Errors.{ok, Result-cases}
use zorkd.Go.Decimal.{format_int, parse_positive, parse_positive-format_int, parse_positive-range}
use zorkd.Game.Types.{Session}
use zorkd.Game.Store.{IsDurable}
use zorkd.Database.{Sqlite, Db, GameRow, find}
use zorkd.Database.Contract.Atomic.{update-fails}
use zorkd.Database.Games.{row_of, session_of, visible, update}
use zorkd.Database.Saves.{sql_store}
use zorkd.Database.Contract.Written.{
  Seen, visible-Seen, visible-row, update-unseen, find-put_other, find-put_self, load_found,
  load_missing, update_stale, update_fresh, Written, update-Written,
}

pub update_ok :
    (now : ℕ) (x y : Session) (db : Db)
    → (update now x db).0 ≡ ok y
    → y ≡ record x { version = suc x.version }
update_ok now x y db e = (update-Written now x y db e).answer

-- The row of a game after an update of it.
rewritten :
    (now : ℕ) (x y : Session) (db : Db) (w : Written now x y db)
    → find w.seen.number (update now x db).1.games
      ≡ some (record (row_of w.seen.row.user_id (suc w.seen.row.version) now x) {
        story_key = w.seen.row.story_key;
      })
rewritten now x y db w =
    ap (find w.seen.number) w.games ∙ find-put_self w.seen.number _ w.seen.row db.games w.seen.found

pub update_moved :
    (now : ℕ) (x y : Session) (db : Db)
    → (update now x db).0 ≡ ok y
    → (z : Session) × (visible (update now x db).1 x.user_id x.id ≡ some z)
      × (z.version ≡ suc x.version)
unfolding session_of row_of
update_moved now x y db e =
    let w = update-Written now x y db e in
    (
      _,
      visible-row (update now x db).1 x.user_id x.id w.seen.owner w.seen.number _ w.seen.of_user
          w.seen.of_id (rewritten now x y db w) w.seen.owned,
      ap suc w.version,
    )

-- A session under the names that it was read with, as its row is read after the update.
same_session :
    (now n : ℕ) (x : Session) (r : GameRow)
    → x.id ≡ format_int n
    → x.user_id ≡ format_int r.user_id
    → x.story_key ≡ r.story_key
    → r.version ≡ x.version
    → session_of n (record (row_of r.user_id (suc r.version) now x) { story_key = r.story_key })
      ≡ record x { version = suc x.version }
unfolding session_of row_of
same_session now n x r a b c d = cc

-- The names that a session is read with are the names of its row.
pub names :
    (db : Db) (user id : Text) (z : Session) (s : Seen db user id z)
    → (parse_positive z.id ≡ some s.number) × (parse_positive z.user_id ≡ some s.owner)
unfolding session_of
names db user id z s =
    let (p, q) = parse_positive-range id s.number s.of_id in
    let (p', q') = parse_positive-range user s.owner s.of_user in
    (
      ap (λ (t : Session). parse_positive t.id) s.reads ∙ parse_positive-format_int s.number p q,
      ap (λ (t : Session). parse_positive t.user_id) s.reads
          ∙ ap (λ (o : ℕ). parse_positive (format_int o)) s.owned
          ∙ parse_positive-format_int s.owner p' q',
    )

pub update_stored :
    (now : ℕ) (user id : Text) (x y z : Session) (db : Db)
    → visible db user id ≡ some z
    → x.user_id ≡ z.user_id
    → x.id ≡ z.id
    → x.story_key ≡ z.story_key
    → (update now x db).0 ≡ ok y
    → visible (update now x db).1 y.user_id y.id ≡ some y
unfolding session_of row_of
update_stored now user id x y z db e pu pi pk h =
    let s = visible-Seen db user id z e in
    let w = update-Written now x y db h in
    let (named, _) = names db user id z s in
    let number : s.number ≡ w.seen.number =
      some-injective s.number w.seen.number
        (sym named ∙ sym (ap parse_positive pi) ∙ w.seen.of_id) in
    let row : s.row ≡ w.seen.row =
      some-injective s.row w.seen.row
        (sym s.found ∙ ap (λ n. find n db.games) number ∙ w.seen.found) in
    let same =
      same_session now w.seen.number x w.seen.row
        (pi ∙ ap (λ (t : Session). t.id) s.reads ∙ ap format_int number)
        (pu
          ∙ ap (λ (t : Session). t.user_id) s.reads
          ∙ ap (λ (r : GameRow). format_int r.user_id) row)
        (pk ∙ ap (λ (t : Session). t.story_key) s.reads ∙ ap (λ (r : GameRow). r.story_key) row)
        w.version in
    ap (λ (t : Session). visible (update now x db).1 t.user_id t.id) w.answer
    ∙ visible-row (update now x db).1 x.user_id x.id w.seen.owner w.seen.number _ w.seen.of_user
        w.seen.of_id (rewritten now x y db w) w.seen.owned
    ∙ ap some (same ∙ sym w.answer)

pub update_others :
    (now : ℕ) (user id : Text) (x w z : Session) (db : Db)
    → visible db x.user_id x.id ≡ some w
    → visible db user id ≡ some z
    → z.id ≢ w.id
    → visible (update now x db).1 user id ≡ some z
unfolding session_of
update_others now user id x w z db p q h = elim (Result-cases (update now x db).0) [
  | inr (e, f) ↦ ap (λ d. visible d user id) (update-fails now x db e f) ∙ q
  | inl (y, f) ↦
      let s = visible-Seen db user id z q in
      let o = visible-Seen db x.user_id x.id w p in
      let v = update-Written now x y db f in
      let same : o.number ≡ v.seen.number =
        some-injective o.number v.seen.number (sym o.of_id ∙ v.seen.of_id) in
      let moved : v.seen.number ≢ s.number = λ k. h (
        ap (λ (t : Session). t.id) s.reads
        ∙ sym (ap format_int (same ∙ k))
        ∙ sym (ap (λ (t : Session). t.id) o.reads)) in
      visible-row (update now x db).1 user id s.owner s.number s.row s.of_user s.of_id
        (ap (find s.number) v.games
          ∙ find-put_other v.seen.number s.number _ db.games moved
          ∙ s.found)
        s.owned
      ∙ ap some (sym s.reads)
]

abbrev pub sql_store-IsDurable : ⦃sql : Sqlite⦄ → IsDurable sql_store
sql_store-IsDurable = record {
  session = visible;
  load_found = load_found;
  load_missing = load_missing;
  update_missing = update-unseen;
  update_stale = update_stale;
  update_fresh = update_fresh;
  update_ok = update_ok;
  update_moved = update_moved;
  update_stored = update_stored;
  update_others = update_others;
}
