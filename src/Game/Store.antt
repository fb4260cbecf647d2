-- ===== src/Game/Store.antt =====
-- The interface Store of session.go: what holds sessions durably, and what it promises.
pub mod Calls
pub mod Atomic
pub mod Private
use mathlib.Core.List.{Mem}
use zorkd.Base.{
  ◌⊎◌, ◌≤◌, All, [], ◌∷◌, ℕ, suc, Bool, true, false, ◌≡◌, ◌≢◌, ◌&&◌, ◌||◌, ltb, length, Option,
  none, some, List, Text, str_eq, if◌then◌else◌,
}
use zorkd.Go.Decimal.{parse_positive}
use zorkd.Go.Sort.{Falling}
use zorkd.Errors.{Result, ok, err, fail, session_not_found, version_conflict, Error}
use zorkd.Game.Types.{Session, Save, Snapshot, Summary}
use Calls.{Action}

-- A number in front is the reading of the clock that the call makes.
pub record Store (S : Type 0) : Type 0 where
  pub create : ℕ → Session → Action S Session
  pub load : Text → Text → Action S Session
  pub update : ℕ → Session → Action S Session
  pub list : Text → Action S (List Summary)
  pub delete : Text → Text → Action S (Unit {0})
  pub create_save : ℕ → Snapshot → Action S (Save × Bool)
  pub saves : Text → Text → Action S (List Save)
  pub load_save : Text → Text → Text → Action S Snapshot
  pub delete_save : Text → Text → Text → Action S Save

-- Reads change nothing, and neither does a write that fails.
pub record IsAtomic {S : Type 0} (store : Store S) : Type 0 where
  pub load_keeps : (u i : Text) (s : S) → (store.load u i s).1 ≡ s
  pub list_keeps : (u : Text) (s : S) → (store.list u s).1 ≡ s
  pub saves_keeps : (u g : Text) (s : S) → (store.saves u g s).1 ≡ s
  pub load_save_keeps : (u g i : Text) (s : S) → (store.load_save u g i s).1 ≡ s
  pub create_fails :
      (at : ℕ) (x : Session) (s : S) (e : Error)
      → (store.create at x s).0 ≡ err e
      → (store.create at x s).1 ≡ s
  pub update_fails :
      (at : ℕ) (x : Session) (s : S) (e : Error)
      → (store.update at x s).0 ≡ err e
      → (store.update at x s).1 ≡ s
  pub delete_fails :
      (u i : Text) (s : S) (e : Error) → (store.delete u i s).0 ≡ err e → (store.delete u i s).1 ≡ s
  pub create_save_fails :
      (at : ℕ) (x : Snapshot) (s : S) (e : Error)
      → (store.create_save at x s).0 ≡ err e
      → (store.create_save at x s).1 ≡ s
  pub delete_save_fails :
      (u g i : Text) (s : S) (e : Error)
      → (store.delete_save u g i s).0 ≡ err e
      → (store.delete_save u g i s).1 ≡ s

-- A session that a store must be able to keep: it is over, or it has a state to go on from.
abbrev pub is_resumable : Session → Bool
is_resumable x = x.halted || ltb 0 (length x.state)

-- Written sessions are read back. `session` is what a user can see under an identifier.
pub record IsDurable {S : Type 0} (store : Store S) : Type 0 where
  pub session : S → Text → Text → Option Session
  pub load_found :
      (u i : Text) (s : S) (x : Session) → session s u i ≡ some x → (store.load u i s).0 ≡ ok x
  pub load_missing :
      (u i : Text) (s : S) → session s u i ≡ none → (store.load u i s).0 ≡ fail session_not_found
  pub update_missing :
      (at : ℕ) (x : Session) (s : S)
      → session s x.user_id x.id ≡ none
      → (store.update at x s).0 ≡ fail session_not_found
  pub update_stale :
      (at : ℕ) (x y : Session) (s : S)
      → session s x.user_id x.id ≡ some y
      → y.version ≢ x.version
      → (store.update at x s).0 ≡ fail version_conflict
  pub update_fresh :
      (at : ℕ) (x y : Session) (s : S)
      → session s x.user_id x.id ≡ some y
      → y.version ≡ x.version
      → is_resumable x ≡ true
      → (store.update at x s).0 ≡ ok (record x { version = suc x.version })
  pub update_ok :
      (at : ℕ) (x y : Session) (s : S)
      → (store.update at x s).0 ≡ ok y
      → y ≡ record x { version = suc x.version }
  pub update_moved :
      (at : ℕ) (x y : Session) (s : S)
      → (store.update at x s).0 ≡ ok y
      → (w : Session) × (session (store.update at x s).1 x.user_id x.id ≡ some w)
        × (w.version ≡ suc x.version)
  -- What is written over a session that was read is read back.
  pub update_stored :
      (at : ℕ) (u i : Text) (x y z : Session) (s : S)
      → session s u i ≡ some z
      → x.user_id ≡ z.user_id
      → x.id ≡ z.id
      → x.story_key ≡ z.story_key
      → (store.update at x s).0 ≡ ok y
      → session (store.update at x s).1 y.user_id y.id ≡ some y
  pub update_others :
      (at : ℕ) (u i : Text) (x w z : Session) (s : S)
      → session s x.user_id x.id ≡ some w
      → session s u i ≡ some z
      → z.id ≢ w.id
      → session (store.update at x s).1 u i ≡ some z

-- Written saves are read back, and writes of sessions leave them alone.
pub record IsShelf {S : Type 0} (store : Store S) : Type 0 where
  pub saved :
      (at : ℕ) (x : Snapshot) (s : S) (v : Save) (r : Bool)
      → (store.create_save at x s).0 ≡ ok (v, r)
      → (store.load_save x.user_id x.game_id v.id (store.create_save at x s).1).0
        ≡ ok (record x { id = v.id; created_at = at })
  pub save_keeps_sessions :
      (at : ℕ) (x : Snapshot) (s : S) (u i : Text)
      → (store.load u i (store.create_save at x s).1).0 ≡ (store.load u i s).0
  pub update_keeps_saves :
      (at : ℕ) (x : Session) (s : S) (u g i : Text)
      → (store.load_save u g i (store.update at x s).1).0 ≡ (store.load_save u g i s).0

-- One name of a user or a game for another: the same text, or two spellings of one number.
abbrev pub SameName : Text → Text → Type 0
SameName u v = (u ≡ v) ⊎ ((n : ℕ) × (parse_positive u ≡ some n) × (parse_positive v ≡ some n))

-- Each game of a list was played no earlier than the ones that follow.
abbrev pub NewestFirst : List Summary → Type 0
NewestFirst = Falling (λ (x : Summary). x.updated_at)

-- The summary of a game, under an identifier and last played at a time.
abbrev pub summary_at : Text → ℕ → Session → Summary
summary_at j t x = record {
  id = j;
  story_key = x.story_key;
  turn = x.turn;
  halted = x.halted;
  updated_at = t;
}

-- Games are made and deleted, and looked up by their owner only. `session` is what a user can see
-- under an identifier.
pub record IsScoped {S : Type 0} (store : Store S) (session : S → Text → Text → Option Session)
    : Type 0 where
  -- A lookup is scoped to the owning user.
  pub owner_only :
      (u i : Text) (s : S) (x : Session) → session s u i ≡ some x → SameName u x.user_id
  -- What is created is there for its owner, at the first version.
  pub created :
      (at : ℕ) (x y : Session) (s : S)
      → (store.create at x s).0 ≡ ok y
      → (y ≡ record x { id = y.id; version = 1 })
        × ((w : Text) × (session (store.create at x s).1 y.user_id y.id
              ≡ some (record y { user_id = w })))
  -- What is visible can be deleted, and is then gone, with the saves that it held.
  pub deleted :
      (u i : Text) (s : S) (x : Session)
      → session s u i ≡ some x
      → ((store.delete u i s).0 ≡ ok tt)
        × (session (store.delete u i s).1 u i ≡ none)
        × ((g : Text) → (v : Snapshot) → (store.load_save u i g (store.delete u i s).1).0 ≢ ok v)
  pub delete_missing :
      (u i : Text) (s : S) → session s u i ≡ none → (store.delete u i s).0 ≡ fail session_not_found
  pub deleted_save :
      (u i g : Text) (s : S) (v : Save) (x : Snapshot)
      → (store.delete_save u i g s).0 ≡ ok v
      → (store.load_save u i g (store.delete_save u i g s).1).0 ≢ ok x
  pub listed : (u : Text) (s : S) (xs : List Summary) → (store.list u s).0 ≡ ok xs → NewestFirst xs
  -- A game that the user can see is on the user's list.
  pub listed_all :
      (u i : Text) (s : S) (x : Session) (xs : List Summary)
      → session s u i ≡ some x
      → (store.list u s).0 ≡ ok xs
      → (j : Text) × (t : ℕ) × SameName i j × Mem (summary_at j t x) xs
  -- A save is read, written and deleted only through a game that the user can see.
  pub load_save_scoped :
      (u g i : Text) (s : S) (v : Snapshot)
      → (store.load_save u g i s).0 ≡ ok v
      → (x : Session) × (session s u g ≡ some x)
  pub create_save_scoped :
      (at : ℕ) (x : Snapshot) (s : S) (v : Save × Bool)
      → (store.create_save at x s).0 ≡ ok v
      → (y : Session) × (session s x.user_id x.game_id ≡ some y)
  pub delete_save_scoped :
      (u g i : Text) (s : S) (v : Save)
      → (store.delete_save u g i s).0 ≡ ok v
      → (x : Session) × (session s u g ≡ some x)
