-- ===== src/Game/Memory/Laws.antt =====
-- The memory store keeps what the interface promises.
use zorkd.Base.{
  ℕ, suc, ◌≡◌, ◌≢◌, true, refl, ap, sym, ◌∙◌, Option, none, some, arith, if◌then◌else◌, ◌==◌, Text,
  str_eq_iff, lookup, insert, lookup-insert, Option-cases, inl, inr,
}
use mathlib.Core.Option.{some-injective}
use zorkd.Errors.{Error, ok, err, fail, session_not_found, version_conflict}
use zorkd.Go.Space.{Unicode}
use zorkd.Game.Types.{Session, Snapshot}
use zorkd.Game.Store.{IsAtomic, IsDurable, is_resumable}
use zorkd.Game.Memory.{
  MemoryStore, memory_store, visible, owned_by, create, load, update, list, delete_session,
  create_save, store_save, slot, saves, load_save, delete_save,
}

store_save-fails :
    ⦃u : Unicode⦄ (m : MemoryStore) (x : Snapshot) (o : Option Text) (e : Error)
    → (store_save m x o).0 ≡ err e
    → (store_save m x o).1 ≡ m
unfolding store_save
store_save-fails m x none e h = ground arith
store_save-fails m x (some i) e h = cc

pub create_save_missing :
    ⦃u : Unicode⦄ (now : ℕ) (x : Snapshot) (m : MemoryStore)
    → visible m x.user_id x.game_id ≡ none
    → create_save now x m ≡ (fail session_not_found, m)
unfolding create_save
create_save_missing now x m p = rw (p, create_save) refl

pub create_save_found :
    ⦃u : Unicode⦄ (now : ℕ) (x : Snapshot) (y : Session) (m : MemoryStore)
    → visible m x.user_id x.game_id ≡ some y
    → create_save now x m
      ≡ store_save m (record x { created_at = now }) (slot x.game_id x.name m.saves)
unfolding create_save
create_save_found now x y m p = rw (p, create_save) refl

create_save-fails :
    ⦃u : Unicode⦄ (now : ℕ) (x : Snapshot) (m : MemoryStore) (e : Error)
    → (create_save now x m).0 ≡ err e
    → (create_save now x m).1 ≡ m
create_save-fails now x m e h = elim (Option-cases (visible m x.user_id x.game_id)) [
  | inl p ↦ rw (create_save_missing now x m p) refl
  | inr (y, p) ↦
      rw (create_save_found now x y m p)
        (store_save-fails m _ _ e (rw (create_save_found now x y m p) at h))
]

update-fails :
    (now : ℕ) (x : Session) (m : MemoryStore) (e : Error)
    → (update now x m).0 ≡ err e
    → (update now x m).1 ≡ m
unfolding update
update-fails now x m e h = ground arith

delete_session-fails :
    (user id : Text) (m : MemoryStore) (e : Error)
    → (delete_session user id m).0 ≡ err e
    → (delete_session user id m).1 ≡ m
unfolding delete_session
delete_session-fails user id m e h = ground arith

delete_save-fails :
    (user game id : Text) (m : MemoryStore) (e : Error)
    → (delete_save user game id m).0 ≡ err e
    → (delete_save user game id m).1 ≡ m
unfolding delete_save
delete_save-fails user game id m e h = ground arith

create-fails :
    (now : ℕ) (x : Session) (m : MemoryStore) (e : Error)
    → (create now x m).0 ≡ err e
    → (create now x m).1 ≡ m
unfolding create
create-fails now x m e h = ground arith

load-keeps : (user id : Text) (m : MemoryStore) → (load user id m).1 ≡ m
unfolding load
load-keeps user id m = ground arith

saves-keeps : (user id : Text) (m : MemoryStore) → (saves user id m).1 ≡ m
unfolding saves
saves-keeps user id m = ground arith

pub update_missing :
    (now : ℕ) (x : Session) (m : MemoryStore)
    → visible m x.user_id x.id ≡ none
    → (update now x m).0 ≡ fail session_not_found
unfolding update
update_missing now x m e = rw (e, update) refl

pub update_found :
    (now : ℕ) (x y : Session) (m : MemoryStore)
    → visible m x.user_id x.id ≡ some y
    → (update now x m).0 ≡ (
        if y.version == x.version
        then ok (record x { version = suc x.version })
        else fail version_conflict)
unfolding update
update_found now x y m e = rw (e, update) (ground arith)

-- What an update leaves, by the session that its owner could see.
pub update_writes :
    (now : ℕ) (x y : Session) (m : MemoryStore)
    → (update now x m).0 ≡ ok y
    → (y ≡ record x { version = suc x.version })
      × ((update now x m).1.sessions ≡ insert x.id y m.sessions)
unfolding update
update_writes now x y m e = ground arith

pub update_read_back :
    (now : ℕ) (x y : Session) (m : MemoryStore)
    → (update now x m).0 ≡ ok y
    → visible (update now x m).1 y.user_id y.id ≡ some y
unfolding visible
update_read_back now x y m e =
    let (p, q) = update_writes now x y m e in
    rw (q, lookup-insert x.id y.id y m.sessions)
      (ground (arith, str_eq_iff x.id y.id, str_eq_iff y.user_id y.user_id))

pub update_moved :
    (now : ℕ) (x y : Session) (m : MemoryStore)
    → (update now x m).0 ≡ ok y
    → (w : Session) × (visible (update now x m).1 x.user_id x.id ≡ some w)
      × (w.version ≡ suc x.version)
update_moved now x y m e =
    let p = (update_writes now x y m e).0 in
    (
      y,
      ap (λ (z : Session). visible (update now x m).1 z.user_id z.id) (sym p)
          ∙ update_read_back now x y m e,
      ap (λ (z : Session). z.version) p,
    )

update-sessions :
    (now : ℕ) (x : Session) (m : MemoryStore) (i : Text)
    → i ≢ x.id
    → lookup i (update now x m).1.sessions ≡ lookup i m.sessions
unfolding update
update-sessions now x m i h = ground (
  arith,
  str_eq_iff x.id i,
  lookup-insert x.id i (record x { version = suc x.version }) m.sessions,
)

visible-lookup :
    (m : MemoryStore) (user i : Text) (z : Session)
    → visible m user i ≡ some z
    → lookup i m.sessions ≡ some z
unfolding visible owned_by
visible-lookup m user i z e = ground arith

-- Two names of sessions with different identifiers are different.
apart :
    (m : MemoryStore) (user i user' i' : Text) (w z : Session)
    → visible m user i ≡ some w
    → visible m user' i' ≡ some z
    → z.id ≢ w.id
    → i' ≢ i
apart m user i user' i' w z p q h e = h (
    ap (λ (x : Session). x.id)
      (some-injective z w (
        sym (visible-lookup m user' i' z q)
        ∙ ap (λ j. lookup j m.sessions) e
        ∙ visible-lookup m user i w p)))

pub update_others :
    (now : ℕ) (user i : Text) (x w z : Session) (m : MemoryStore)
    → visible m x.user_id x.id ≡ some w
    → visible m user i ≡ some z
    → z.id ≢ w.id
    → visible (update now x m).1 user i ≡ some z
unfolding visible
update_others now user i x w z m p q h =
    ap (owned_by user) (update-sessions now x m i (apart m x.user_id x.id user i w z p q h)) ∙ q

-- Whatever the store holds, its reads and its failed writes change nothing.
pub memory_store-IsAtomic : ⦃u : Unicode⦄ → IsAtomic memory_store
unfolding list load_save
memory_store-IsAtomic = record {
  load_keeps = load-keeps;
  list_keeps = λ user m. refl;
  saves_keeps = saves-keeps;
  load_save_keeps = λ user game id m. refl;
  create_fails = create-fails;
  update_fails = update-fails;
  delete_fails = delete_session-fails;
  create_save_fails = create_save-fails;
  delete_save_fails = delete_save-fails;
}

pub load_found :
    (user id : Text) (m : MemoryStore) (x : Session)
    → visible m user id ≡ some x
    → (load user id m).0 ≡ ok x
unfolding load
load_found user id m x e = rw (e, load) refl

pub load_missing :
    (user id : Text) (m : MemoryStore)
    → visible m user id ≡ none
    → (load user id m).0 ≡ fail session_not_found
unfolding load
load_missing user id m e = rw (e, load) refl

pub update_stale :
    (now : ℕ) (x y : Session) (m : MemoryStore)
    → visible m x.user_id x.id ≡ some y
    → y.version ≢ x.version
    → (update now x m).0 ≡ fail version_conflict
update_stale now x y m e h = update_found now x y m e ∙ ground (arith, h)

pub update_fresh :
    (now : ℕ) (x y : Session) (m : MemoryStore)
    → visible m x.user_id x.id ≡ some y
    → y.version ≡ x.version
    → is_resumable x ≡ true
    → (update now x m).0 ≡ ok (record x { version = suc x.version })
update_fresh now x y m e h r = update_found now x y m e ∙ ground (arith, h)

-- What is written is read back, and a write against another version is refused.
abbrev pub memory_store-IsDurable : ⦃u : Unicode⦄ → IsDurable memory_store
memory_store-IsDurable = record {
  session = visible;
  load_found = load_found;
  load_missing = load_missing;
  update_missing = update_missing;
  update_stale = update_stale;
  update_fresh = update_fresh;
  update_ok = λ now x y m e. (update_writes now x y m e).0;
  update_moved = update_moved;
  update_stored = λ now user i x y z m p q r k e. update_read_back now x y m e;
  update_others = update_others;
}
