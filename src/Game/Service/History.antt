-- ===== src/Game/Service/History.antt =====
-- Every operation of the service as a value, and histories of calls.
use zorkd.Base.{Text, List, [], ◌∷◌}
use zorkd.Go.Space.{Unicode}
use zorkd.Game.Store.Calls.{Action, return, ◌>>=◌}
use zorkd.Game.Service.{
  Service, Call, new_game, play, restart, save_named, restore_save, games, saves, delete_save,
  delete, session,
}

pub data Operation : Type 0 where
  new_games : (user story : Text) → Operation
  plays : (user id line : Text) → Operation
  restarts : (user id : Text) → Operation
  names_save : (user id name : Text) → Operation
  restores : (user id save : Text) → Operation
  deletes_save : (user id save : Text) → Operation
  deletes : (user id : Text) → Operation
  lists_games : (user : Text) → Operation
  lists_saves : (user id : Text) → Operation
  reads : (user id : Text) → Operation

abbrev discard : {S A : Type 0} → Action S A → Action S (Unit {0})
discard m = m >>= λ _. return tt

module _ ⦃u : Unicode⦄ {S Story Machine : Type 0} (service : Service S Story Machine) where
  -- An operation for its effect and its error.
  unfoldable pub perform : Call → Operation → Action S (Unit {0})
  perform c (new_games user story) = discard (new_game service c user story)
  perform c (plays user id line) = discard (play service c user id line)
  perform c (restarts user id) = discard (restart service c user id)
  perform c (names_save user id name) = discard (save_named service c user id name)
  perform c (restores user id save) = discard (restore_save service c user id save)
  perform c (deletes_save user id save) = discard (delete_save service c user id save)
  perform c (deletes user id) = discard (delete service c user id)
  perform c (lists_games user) = discard (games service c user)
  perform c (lists_saves user id) = discard (saves service c user id)
  perform c (reads user id) = discard (session service c user id)

  -- The state after a row of calls, whatever they answered.
  unfoldable pub after_calls : S → List (Call × Operation) → S
  after_calls s [] = s
  after_calls s ((c, o) ∷ rest) = after_calls (perform c o s).1 rest
