-- ===== src/Game/Service.antt =====
-- session.go and saves.go: the read-run-write cycle of every operation on a game. Each operation
-- runs whole under the session's lock, so it is one step here; what other processes write between
-- two steps is met by the conditional update.
pub mod History
pub mod Failure
pub mod Isolation
pub mod Turns
mod Saving
pub mod Snapshots
use zorkd.Base.{
  ℕ, suc, ◌+◌, Bool, true, false, Option, none, some, List, [], ◌∷◌, ◌++◌, if◌then◌else◌, ◌==◌,
  length, Text, codes, str_eq,
}
use zorkd.Errors.{
  Result, ok, err, fail, refuse, Error, game_over, story_unavailable, save_not_found, save_mismatch,
}
use zorkd.Go.Space.{Unicode, single_spaced}
use zorkd.Go.Quote.{quote}
use zorkd.Game.Types.{
  Session, Save, Snapshot, Summary, StatusLine, EngineResult, status_of, is_halted, StoryKey,
}
use zorkd.Game.Command
use zorkd.Game.Command.{Command, Intent, interpret}
use zorkd.Game.Transcript.{append_transcript, append_notice}
use zorkd.Game.SaveName.{is_empty, clean_save_name, find_save}
use zorkd.Game.Runner
use zorkd.Game.Runner.{Runner, Engine, Entry, Context}
use zorkd.Game.Library.{Library, find_id, find_key}
use zorkd.Game.Screen.{
  Turn, question, after_turn, after_restart, opening, snapshot_of, after_restore, saved_notice,
}
use zorkd.Game.Store.{Store}
use zorkd.Game.Store.Calls.{Action, return, lift, throw, or_else, ◌>>=◌}

pub record Service (S Story Machine : Type 0) : Type 0 where
  pub library : Library Story
  pub runner : Runner
  pub store : Store S
  pub engine : Engine Story Machine

-- What a call meets from outside: its context, and the readings of the clock, in order.
pub record Call : Type 0 where
  pub context : Context
  pub clock : ℕ → ℕ

module _ ⦃u : Unicode⦄ {S Story Machine : Type 0} (service : Service S Story Machine)
    (call : Call) where
  open service use {store, runner, library, engine}

  now : ℕ → ℕ
  now n = call.clock n

  unfoldable pub new_game : Text → Text → Action S (Session × EngineResult)
  unfolding ◌>>=◌ now is_empty opening
  new_game user story = if is_empty user then throw [] else do
    entry ← lift (or_else (find_id library story) story_unavailable)
    result ← lift (Runner.start engine runner (now 0) call.context entry)
    session ← store.create (now 1) (opening user entry.key result)
    return (session, result)

  -- The update that records a save on the screen. Its failure is passed over.
  record_notice : Session → Action S Session
  unfolding now
  record_notice x s =
      let (r, s') = store.update (now 1) x s in
      (ok (elim r [ ok updated ↦ updated | err e ↦ x ]), s')

  write_save : Text → Text → Text → Text → Session → Action S (Session × Save × Bool)
  unfolding ◌>>=◌ now snapshot_of record_notice
  write_save user game name echo x = if length x.state == 0 then throw (game_over ∷ []) else do
    (save, replaced) ← store.create_save (now 0) (snapshot_of user game name x)
    session ← record_notice (record x {
      transcript = append_notice x.transcript echo (saved_notice save.name replaced);
    })
    return (session, save, replaced)

  -- Service.save, with the lock held.
  unfoldable pub save : Text → Text → Text → Text → Action S (Session × Save × Bool)
  unfolding ◌>>=◌ write_save
  save user game name echo = do x ← store.load user game; write_save user game name echo x

  promote : Session → Snapshot → Text → Action S (Session × Save)
  unfolding ◌>>=◌ now
  promote x snapshot echo =
      if str_eq snapshot.story_key x.story_key
      then (do
        session ← store.update (now 0) (after_restore x snapshot echo)
        return (
          session,
          record {
            id = snapshot.id;
            name = snapshot.name;
            turn = snapshot.turn;
            created_at = snapshot.created_at;
          },
        ))
      else throw (save_mismatch ∷ [])

  -- Service.restore, with the lock held.
  unfoldable pub restore : Text → Text → Text → Text → Action S (Session × Save)
  unfolding ◌>>=◌ promote
  restore user game id echo = do
    x ← store.load user game
    snapshot ← store.load_save user game id
    promote x snapshot echo

  play_save : Text → Text → Command → Action S Turn
  unfolding ◌>>=◌ save is_empty clean_save_name
  play_save user id line = if is_empty line.name then return (question Intent.save) else do
    clean ← lift (clean_save_name line.name)
    (session, save, replaced) ← save user id clean line.text
    return (record {
      intent = Intent.save;
      session = some session;
      result = none;
      save = some save;
      replaced = replaced;
      asked = false;
    })

  play_restore : Text → Text → Command → Action S Turn
  unfolding ◌>>=◌ restore is_empty find_save
  play_restore user id line = if is_empty line.name then return (question Intent.restore) else do
    saves ← store.saves user id
    wanted ← lift (or_else (find_save saves (single_spaced line.name)) save_not_found)
    (session, save) ← restore user id wanted.id line.text
    return (record {
      intent = Intent.restore;
      session = some session;
      result = none;
      save = some save;
      replaced = false;
      asked = false;
    })

  run_turn : Text → Session → Action S Turn
  unfolding ◌>>=◌ now
  run_turn command x = if x.halted then throw (game_over ∷ []) else do
    entry ← lift (or_else (find_key library x.story_key) story_unavailable)
    result ← lift (Runner.run engine runner (now 0) call.context entry x.state command)
    session ← store.update (now 1) (after_turn x command result)
    return (record {
      intent = Intent.play;
      session = some session;
      result = some result;
      save = none;
      replaced = false;
      asked = false;
    })

  -- An ordinary line: a turn of the story.
  unfoldable pub play_story : Text → Text → Text → Action S Turn
  unfolding ◌>>=◌ run_turn
  play_story user id command = do x ← store.load user id; run_turn command x

  answer : Text → Text → Text → Command → Action S Turn
  unfolding play_save play_restore play_story
  answer user id command line = elim line.intent [
    | Intent.save ↦ play_save user id line
    | Intent.restore ↦ play_restore user id line
    | Intent.restart ↦ return (question Intent.restart)
    | Intent.play ↦ play_story user id command
  ]

  unfoldable pub play : Text → Text → Text → Action S Turn
  unfolding answer interpret is_empty
  play user id command =
      if is_empty user then throw [] else answer user id command (interpret command)

  begin_again : Session → Action S Turn
  unfolding ◌>>=◌ now
  begin_again x = do
    entry ← lift (or_else (find_key library x.story_key) story_unavailable)
    result ← lift (Runner.start engine runner (now 0) call.context entry)
    session ← store.update (now 1) (after_restart x result)
    return (record {
      intent = Intent.restart;
      session = some session;
      result = some result;
      save = none;
      replaced = false;
      asked = false;
    })

  -- Service.Restart, once the player has confirmed.
  unfoldable pub restart : Text → Text → Action S Turn
  unfolding ◌>>=◌ begin_again is_empty
  restart user id = if is_empty user then throw [] else do x ← store.load user id; begin_again x

  -- Service.Save and Service.Restore: the player answered in a field.
  unfoldable pub save_named : Text → Text → Text → Action S (Save × Bool)
  unfolding ◌>>=◌ save is_empty clean_save_name
  save_named user game name = if is_empty user then throw [] else do
    clean ← lift (clean_save_name name)
    (session, save, replaced) ← save user game clean (codes "save")
    return (save, replaced)

  unfoldable pub restore_save : Text → Text → Text → Action S (Session × Save)
  unfolding restore is_empty
  restore_save user game id =
      if is_empty user then throw [] else restore user game id (codes "restore")

  unfoldable pub games : Text → Action S (List Summary)
  unfolding is_empty
  games user = if is_empty user then throw [] else store.list user

  unfoldable pub saves : Text → Text → Action S (List Save)
  unfolding is_empty
  saves user game = if is_empty user then throw [] else store.saves user game

  unfoldable pub delete_save : Text → Text → Text → Action S Save
  unfolding is_empty
  delete_save user game id = if is_empty user then throw [] else store.delete_save user game id

  unfoldable pub delete : Text → Text → Action S (Unit {0})
  unfolding is_empty
  delete user id = if is_empty user then throw [] else store.delete user id

  unfoldable pub session : Text → Text → Action S Session
  unfolding is_empty
  session user id = if is_empty user then throw [] else store.load user id
