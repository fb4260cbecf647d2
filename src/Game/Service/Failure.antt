-- ===== src/Game/Service/Failure.antt =====
-- An operation that fails has written nothing.
use zorkd.Base.{ℕ, ◌≡◌, refl, [], Text}
use zorkd.Errors.{Error, err}
use zorkd.Go.Space.{Unicode}
use zorkd.Game.Types.{Session, Snapshot}
use zorkd.Game.Command.{Command, Intent, interpret}
use zorkd.Game.Store.{IsAtomic}
use zorkd.Game.Store.Calls.{Action, return, ◌>>=◌}
use zorkd.Game.Store.Atomic.{
  Quiet, Atomic, Succeeds, Atomic-Quiet, Atomic-if, Atomic-throw, Atomic-write, Succeeds-return,
  atomic_rules,
}
use zorkd.Game.Service.{
  Service, Call, new_game, record_notice, write_save, save, promote, restore, play_save,
  play_restore, run_turn, play_story, answer, play, begin_again, restart, save_named, restore_save,
  games, saves, delete_save, delete, session,
}
use zorkd.Game.Service.History.{Operation, perform}

module _ ⦃u : Unicode⦄ {S Story Machine : Type 0} (service : Service S Story Machine)
    (law : IsAtomic service.store) (c : Call) where
  open service use {store}

  load-Quiet : (user id : Text) → Quiet (store.load user id)
  load-Quiet user id = record { at = law.load_keeps user id }

  load_save-Quiet : (user game id : Text) → Quiet (store.load_save user game id)
  load_save-Quiet user game id = record { at = law.load_save_keeps user game id }

  saves-Quiet : (user game : Text) → Quiet (store.saves user game)
  saves-Quiet user game = record { at = law.saves_keeps user game }

  list-Quiet : (user : Text) → Quiet (store.list user)
  list-Quiet user = record { at = law.list_keeps user }

  update-Atomic : (at : ℕ) (x : Session) → Atomic (store.update at x)
  update-Atomic at x = record { at = law.update_fails at x }

  create-Atomic : (at : ℕ) (x : Session) → Atomic (store.create at x)
  create-Atomic at x = record { at = law.create_fails at x }

  create_save-Atomic : (at : ℕ) (x : Snapshot) → Atomic (store.create_save at x)
  create_save-Atomic at x = record { at = law.create_save_fails at x }

  delete_save-Atomic : (user game id : Text) → Atomic (store.delete_save user game id)
  delete_save-Atomic user game id = record { at = law.delete_save_fails user game id }

  delete-Atomic : (user id : Text) → Atomic (store.delete user id)
  delete-Atomic user id = record { at = law.delete_fails user id }

  record_notice-Succeeds : (x : Session) → Succeeds (record_notice service c x)
  unfolding record_notice
  record_notice-Succeeds x = record { at = λ s e h. cc }

  ruleset service_rules = (
    atomic_rules, load-Quiet, load_save-Quiet, saves-Quiet, list-Quiet, update-Atomic,
    create-Atomic, create_save-Atomic, delete_save-Atomic, delete-Atomic, record_notice-Succeeds,
  )

  new_game-Atomic : (user story : Text) → Atomic (new_game service c user story)
  unfolding new_game
  new_game-Atomic user story = search service_rules depth 8

  write_save-Atomic :
      (user game name echo : Text) (x : Session)
      → Atomic (write_save service c user game name echo x)
  unfolding write_save
  write_save-Atomic user game name echo x = search service_rules depth 8

  save-Atomic : (user game name echo : Text) → Atomic (save service c user game name echo)
  unfolding save
  save-Atomic user game name echo = search (service_rules, write_save-Atomic)

  promote-Atomic : (x : Session) (y : Snapshot) (echo : Text) → Atomic (promote service c x y echo)
  unfolding promote
  promote-Atomic x y echo = search service_rules depth 8

  restore-Atomic : (user game id echo : Text) → Atomic (restore service c user game id echo)
  unfolding restore
  restore-Atomic user game id echo = search (service_rules, promote-Atomic)

  play_save-Atomic : (user id : Text) (line : Command) → Atomic (play_save service c user id line)
  unfolding play_save
  play_save-Atomic user id line = search (service_rules, save-Atomic) depth 8

  play_restore-Atomic :
      (user id : Text) (line : Command) → Atomic (play_restore service c user id line)
  unfolding play_restore
  play_restore-Atomic user id line = search (service_rules, restore-Atomic) depth 8

  run_turn-Atomic : (command : Text) (x : Session) → Atomic (run_turn service c command x)
  unfolding run_turn
  run_turn-Atomic command x = search service_rules depth 8

  play_story-Atomic : (user id command : Text) → Atomic (play_story service c user id command)
  unfolding play_story
  play_story-Atomic user id command = search (service_rules, run_turn-Atomic)

  by_intent :
      (user id command : Text) (line : Command) (i : Intent)
      → line.intent ≡ i
      → Atomic (answer service c user id command line)
  unfolding answer
  by_intent user id command line Intent.save e = rw (e, answer) (play_save-Atomic user id line)
  by_intent user id command line Intent.restore e =
      rw (e, answer) (play_restore-Atomic user id line)
  by_intent user id command line Intent.restart e = rw (e, answer) (search service_rules)
  by_intent user id command line Intent.play e = rw (e, answer) (play_story-Atomic user id command)

  pub play-Atomic : (user id command : Text) → Atomic (play service c user id command)
  unfolding play
  play-Atomic user id command =
      Atomic-if _ _ _ (Atomic-throw []) (by_intent user id command (interpret command) _ refl)

  begin_again-Atomic : (x : Session) → Atomic (begin_again service c x)
  unfolding begin_again
  begin_again-Atomic x = search service_rules depth 8

  restart-Atomic : (user id : Text) → Atomic (restart service c user id)
  unfolding restart
  restart-Atomic user id = search (service_rules, begin_again-Atomic)

  save_named-Atomic : (user game name : Text) → Atomic (save_named service c user game name)
  unfolding save_named
  save_named-Atomic user game name = search (service_rules, save-Atomic) depth 8

  discarded : {A : Type 0} (m : Action S A) → Atomic m → Atomic (m >>= λ _. return tt)
  discarded m a = Atomic-write m (λ _. return tt) a (λ _. Succeeds-return tt)

  perform-Atomic : (o : Operation) → Atomic (perform service c o)
  unfolding perform games saves delete_save delete session restore_save
  perform-Atomic (Operation.new_games user story) = discarded _ (new_game-Atomic user story)
  perform-Atomic (Operation.plays user id line) = discarded _ (play-Atomic user id line)
  perform-Atomic (Operation.restarts user id) = discarded _ (restart-Atomic user id)
  perform-Atomic (Operation.names_save user id name) = discarded _ (save_named-Atomic user id name)
  perform-Atomic (Operation.restores user id save) =
      discarded _ (Atomic-if _ _ _ (Atomic-throw []) (restore-Atomic user id save _))
  perform-Atomic (Operation.deletes_save user id save) =
      discarded _ (Atomic-if _ _ _ (Atomic-throw []) (delete_save-Atomic user id save))
  perform-Atomic (Operation.deletes user id) =
      discarded _ (Atomic-if _ _ _ (Atomic-throw []) (delete-Atomic user id))
  perform-Atomic (Operation.lists_games user) =
      discarded _ (Atomic-if _ _ _ (Atomic-throw []) (Atomic-Quiet _ (list-Quiet user)))
  perform-Atomic (Operation.lists_saves user id) =
      discarded _ (Atomic-if _ _ _ (Atomic-throw []) (Atomic-Quiet _ (saves-Quiet user id)))
  perform-Atomic (Operation.reads user id) =
      discarded _ (Atomic-if _ _ _ (Atomic-throw []) (Atomic-Quiet _ (load-Quiet user id)))

  -- Over a store whose reads and failed writes change nothing, every operation of the service
  -- that answers with an error leaves the store as it was.
  pub failed_operation_keeps :
      (o : Operation) (s : S) (e : Error)
      → (perform service c o s).0 ≡ err e
      → (perform service c o s).1 ≡ s
  failed_operation_keeps o = (perform-Atomic o).at
