-- ===== src/Game/Service/Isolation.antt =====
-- What a user does to games is not seen by another.
use zorkd.Base.{ℕ, ◌≡◌, refl, [], Text}
use zorkd.Go.Space.{Unicode}
use zorkd.Game.Types.{Session, Snapshot}
use zorkd.Game.Command.{Command, Intent, interpret}
use zorkd.Game.SaveName.{is_empty}
use zorkd.Game.Screen.{after_turn, after_restart, after_restore, opening, snapshot_of}
use zorkd.Game.Store.{IsAtomic}
use zorkd.Game.Store.Calls.{Action}
use zorkd.Game.Store.Private.{
  IsPrivate, Private, Private-keeps, Private-lift, Private-throw, Private-return, Private-if,
  Private-bind, Private-load,
}
use zorkd.Game.Service.{
  Service, Call, new_game, record_notice, write_save, save, promote, restore, play_save,
  play_restore, run_turn, play_story, answer, play, begin_again, restart, save_named, restore_save,
  delete_save, delete,
}

module _ ⦃u : Unicode⦄ {S Story Machine : Type 0} (service : Service S Story Machine)
    (atomic : IsAtomic service.store) (Apart : Text → Text → Type 0) (IsValid : S → Type 0)
    (law : IsPrivate service.store Apart IsValid) (c : Call) (v : Text) where
  open service use {store}

  abbrev Hidden : {A : Type 0} → Action S A → Type 0
  Hidden m = Private store Apart IsValid law v m

  update-Hidden : (at : ℕ) (x : Session) → Apart v x.user_id → Hidden (store.update at x)
  update-Hidden at x a = record { at = λ s w. law.update_keeps at x v s a w }

  create_save-Hidden : (at : ℕ) (x : Snapshot) → Apart v x.user_id → Hidden (store.create_save at x)
  create_save-Hidden at x a = record { at = λ s w. law.create_save_keeps at x v s a w }

  create-Hidden : (at : ℕ) (x : Session) → Apart v x.user_id → Hidden (store.create at x)
  create-Hidden at x a = record { at = λ s w. law.create_keeps at x v s a w }

  saves-Hidden : (user game : Text) → Hidden (store.saves user game)
  saves-Hidden user game = Private-keeps store Apart IsValid law v _ (atomic.saves_keeps user game)

  load_save-Hidden : (user game id : Text) → Hidden (store.load_save user game id)
  load_save-Hidden user game id =
      Private-keeps store Apart IsValid law v _ (atomic.load_save_keeps user game id)

  record_notice-Hidden : (x : Session) → Apart v x.user_id → Hidden (record_notice service c x)
  unfolding record_notice
  record_notice-Hidden x a = record { at = λ s w. law.update_keeps (c.clock 1) x v s a w }

  ruleset hidden_rules = (
    Private-lift, Private-throw, Private-return, Private-if, Private-bind, update-Hidden,
    create_save-Hidden, create-Hidden, saves-Hidden, load_save-Hidden, record_notice-Hidden,
  )

  module _ (user : Text) (apart : Apart v user) where
    pub new_game-Hidden : (story : Text) → Hidden (new_game service c user story)
    unfolding new_game opening
    new_game-Hidden story = search hidden_rules depth 9

    write_save-Hidden :
        (game name echo : Text) (x : Session)
        → Apart v x.user_id
        → Hidden (write_save service c user game name echo x)
    unfolding write_save snapshot_of
    write_save-Hidden game name echo x a = search hidden_rules depth 9

    save-Hidden : (game name echo : Text) → Hidden (save service c user game name echo)
    unfolding save
    save-Hidden game name echo =
        Private-load store Apart IsValid law v user game _ (atomic.load_keeps user game) apart
          (λ x a. write_save-Hidden game name echo x a)

    promote-Hidden :
        (x : Session) (y : Snapshot) (echo : Text)
        → Apart v x.user_id
        → Hidden (promote service c x y echo)
    unfolding promote after_restore
    promote-Hidden x y echo a = search hidden_rules depth 9

    restore-Hidden : (game id echo : Text) → Hidden (restore service c user game id echo)
    unfolding restore
    restore-Hidden game id echo =
        Private-load store Apart IsValid law v user game _ (atomic.load_keeps user game) apart
          (λ x a.
            Private-bind store Apart IsValid law v _ _ (load_save-Hidden user game id)
              (λ y. promote-Hidden x y echo a))

    play_save-Hidden : (id : Text) (line : Command) → Hidden (play_save service c user id line)
    unfolding play_save
    play_save-Hidden id line = search (hidden_rules, save-Hidden) depth 9

    play_restore-Hidden :
        (id : Text) (line : Command) → Hidden (play_restore service c user id line)
    unfolding play_restore
    play_restore-Hidden id line = search (hidden_rules, restore-Hidden) depth 9

    run_turn-Hidden :
        (command : Text) (x : Session) → Apart v x.user_id → Hidden (run_turn service c command x)
    unfolding run_turn after_turn
    run_turn-Hidden command x a = search hidden_rules depth 9

    play_story-Hidden : (id command : Text) → Hidden (play_story service c user id command)
    unfolding play_story
    play_story-Hidden id command =
        Private-load store Apart IsValid law v user id _ (atomic.load_keeps user id) apart
          (λ x a. run_turn-Hidden command x a)

    by_intent :
        (id command : Text) (line : Command) (i : Intent)
        → line.intent ≡ i
        → Hidden (answer service c user id command line)
    unfolding answer
    by_intent id command line Intent.save e = rw (e, answer) (play_save-Hidden id line)
    by_intent id command line Intent.restore e = rw (e, answer) (play_restore-Hidden id line)
    by_intent id command line Intent.restart e =
        rw (e, answer) (Private-return store Apart IsValid law v _)
    by_intent id command line Intent.play e = rw (e, answer) (play_story-Hidden id command)

    pub play-Hidden : (id command : Text) → Hidden (play service c user id command)
    unfolding play
    play-Hidden id command =
        Private-if store Apart IsValid law v _ _ _ (Private-throw store Apart IsValid law v [])
          (by_intent id command (interpret command) _ refl)

    begin_again-Hidden : (x : Session) → Apart v x.user_id → Hidden (begin_again service c x)
    unfolding begin_again after_restart
    begin_again-Hidden x a = search hidden_rules depth 9

    pub restart-Hidden : (id : Text) → Hidden (restart service c user id)
    unfolding restart
    restart-Hidden id =
        Private-if store Apart IsValid law v _ _ _ (Private-throw store Apart IsValid law v []) (
          Private-load store Apart IsValid law v user id _ (atomic.load_keeps user id) apart
            (λ x a. begin_again-Hidden x a))

    pub save_named-Hidden : (game name : Text) → Hidden (save_named service c user game name)
    unfolding save_named
    save_named-Hidden game name = search (hidden_rules, save-Hidden) depth 9

    pub restore_save-Hidden : (game id : Text) → Hidden (restore_save service c user game id)
    unfolding restore_save
    restore_save-Hidden game id = search (hidden_rules, restore-Hidden)

    pub delete_save-Hidden : (game id : Text) → Hidden (delete_save service c user game id)
    unfolding delete_save
    delete_save-Hidden game id =
        Private-if store Apart IsValid law v (is_empty user) _ (store.delete_save user game id)
          (Private-throw store Apart IsValid law v [])
          (record { at = λ s w. law.delete_save_keeps user game id v s apart w })

    pub delete-Hidden : (id : Text) → Hidden (delete service c user id)
    unfolding delete
    delete-Hidden id =
        Private-if store Apart IsValid law v (is_empty user) _ (store.delete user id)
          (Private-throw store Apart IsValid law v [])
          (record { at = λ s w. law.delete_keeps user id v s apart w })
