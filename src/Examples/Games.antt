-- ===== src/Examples/Games.antt =====
-- The theorems on games, at one game of one user.
use zorkd.Base.{
  true, Text, length, ℕ, ◌≤◌, ◌<◌, ◌⊎◌, lookup, suc, ◌≡◌, refl, false, none, some, [], ◌∷◌, codes,
}
use zorkd.Errors.{ok, fail, version_conflict, save_not_found}
use zorkd.Examples.{unicode, answer_of, game, stored, server, call}
use zorkd.Web.{Request, play_turn, first_line}
use zorkd.Web.Turns.{play_turn-accepted}
use zorkd.Game.Lock.{KeyedMutex, enter, outside, waiting, enters, start, step}
use zorkd.Game.Lock.Counts.{uses, holds, total, as_number}
use zorkd.Game.Lock.Exclusion.{one_inside}
use zorkd.Game.Types.{Session, Save}
use zorkd.Game.Memory.{
  MemoryStore, load, load_save, update, visible, owned_by, reachable, create_save,
}
use zorkd.Game.Memory.Laws.{memory_store-IsAtomic, memory_store-IsDurable}
use zorkd.Game.Memory.Shelf.{memory_store-IsShelf}
use zorkd.Game.Memory.Contract.{memory_store-contract}
use zorkd.Base.{str_eq, lookup, insert}
use zorkd.Game.Memory.Race.{update-update}
use zorkd.Game.Store.Calls.{◌>>=◌}
use zorkd.Game.Command.{Intent}
use zorkd.Game.Screen.{Turn, after_turn}
use zorkd.Game.Runner
use zorkd.Game.Runner.{bound}
use zorkd.Game.Library.{find_key}
use zorkd.Game.SaveName.{is_empty, find_save, clean_save_name}
use zorkd.Game.Service.History.{Operation, perform}
use zorkd.Game.Service.Failure.{failed_operation_keeps}
use zorkd.Game.Service.Turns.{play_story-Played, Played}
use zorkd.Game.Service.Snapshots.{restore_brings_back}
use zorkd.Game.Service.{play_story, save_named, restore_save, restore, save}
use zorkd.Game.Service
use zorkd.Go.Space.{trim_space}
use zorkd.Game.Runner.{max_command_bytes}

-- A restore of a save that is not there.
failed_operation_keeps_example :
    (perform ⦃u = unicode⦄ server call
      (Operation.restores (codes "7") (codes "1") (codes "9"))
      stored).1
    ≡ stored
unfolding perform restore_save restore load load_save visible owned_by lookup str_eq ◌>>=◌ is_empty
    reachable find_save
failed_operation_keeps_example =
    failed_operation_keeps ⦃u = unicode⦄ server (memory_store-IsAtomic ⦃u = unicode⦄) call
      (Operation.restores (codes "7") (codes "1") (codes "9")) stored (save_not_found ∷ []) refl

abbrev twice : Session
twice = record game { turn = 5 }

abbrev once : Session
once = record game { version = 2 }

update-update_example : (update 9 twice (update 8 game stored).1).0 ≡ fail version_conflict
unfolding update visible owned_by lookup insert str_eq
update-update_example = update-update ⦃u = unicode⦄ 8 9 game twice once stored refl refl refl refl

-- A turn that the story answers.
abbrev after : Session
after = record (after_turn game (codes "look") (answer_of (codes "0look"))) { version = 2 }

abbrev answered : Turn
answered = record {
  intent = Intent.play;
  session = some after;
  result = some (answer_of (codes "0look"));
  save = none;
  replaced = false;
  asked = false;
}

play_story-Played_example :
    Played ⦃u = unicode⦄ server call
      (memory_store-IsAtomic ⦃u = unicode⦄)
      (memory_store-IsDurable ⦃u = unicode⦄)
      (codes "7")
      (codes "1")
      (codes "look")
      stored
      (play_story ⦃u = unicode⦄ server call (codes "7") (codes "1") (codes "look") stored).1
      answered
unfolding play_story load update visible owned_by lookup insert str_eq ◌>>=◌ is_empty Runner.run
    bound find_key after_turn
play_story-Played_example =
    play_story-Played ⦃u = unicode⦄ server call (memory_store-IsAtomic ⦃u = unicode⦄)
      (memory_store-IsDurable ⦃u = unicode⦄) (codes "7") (codes "1") (codes "look") stored answered
      refl

-- A save of the game, and the store after it.
abbrev shelved : Save
shelved = record { id = codes "1"; name = codes "troll"; turn = 0; created_at = 0 }

-- What was played after the save: one turn.
abbrev later : MemoryStore
later =
    record (save_named ⦃u = unicode⦄ server call (codes "7") (codes "1") (codes "troll") stored).1 {
      sessions = (codes "1", after) ∷ [];
    }

same_story :
    (x : Session) → (load (codes "7") (codes "1") stored).0 ≡ ok x → after.story_key ≡ x.story_key
unfolding load visible owned_by lookup str_eq after_turn
same_story x e = cc

restore_brings_back_example :
    (x y : Session) × (w : Save) × ((load (codes "7") (codes "1") stored).0 ≡ ok x)
    × ((restore_save ⦃u = unicode⦄ server call (codes "7") (codes "1") (codes "1") later).0
        ≡ ok (y, w))
    × (visible
          (restore_save ⦃u = unicode⦄ server call (codes "7") (codes "1") (codes "1") later).1
          (codes "7")
          (codes "1")
        ≡ some y)
    × (y.state ≡ x.state)
    × (y.status ≡ x.status)
    × (y.turn ≡ x.turn)
    × (y.halted ≡ false)
    × (y.version ≡ suc after.version)
unfolding load visible owned_by lookup str_eq load_save reachable save_named restore save ◌>>=◌
    is_empty clean_save_name create_save update insert after_turn zorkd.Go.Utf8.valid_string
    zorkd.Go.Space.single_spaced zorkd.Go.Space.is_control zorkd.Game.Memory.store_save
    zorkd.Game.Memory.slot zorkd.Game.Memory.held zorkd.Go.Decimal.format_int
restore_brings_back_example =
    restore_brings_back ⦃u = unicode⦄ server (memory_store-IsAtomic ⦃u = unicode⦄)
      (memory_store-IsShelf ⦃u = unicode⦄) (memory_store-IsDurable ⦃u = unicode⦄) call call
      (codes "7") (codes "1") (codes "troll") stored later shelved false after refl refl refl refl
      refl (λ x e. same_story x e)

abbrev unlocked : KeyedMutex
unlocked = record { locks = []; heap = λ a. record { held = false; holders = 0 }; next = 0 }

one_inside_example :
    (total (holds (codes "1")) (waiting (codes "1") 0 ∷ outside ∷ []) ≤ 1)
    × (((lookup (codes "1") (enter (codes "1") unlocked).1.locks ≡ none)
          × (total (uses (codes "1")) (waiting (codes "1") 0 ∷ outside ∷ []) ≡ 0))
        ⊎ ((a : ℕ) × (lookup (codes "1") (enter (codes "1") unlocked).1.locks ≡ some a)
            × (0 < total (uses (codes "1")) (waiting (codes "1") 0 ∷ outside ∷ []))
            × (as_number ((enter (codes "1") unlocked).1.heap a).held
                ≡ total (holds (codes "1")) (waiting (codes "1") 0 ∷ outside ∷ []))))
unfolding enter lookup
one_inside_example =
    one_inside (enter (codes "1") unlocked).1 (waiting (codes "1") 0 ∷ outside ∷ []) (codes "1") (
      step unlocked (enter (codes "1") unlocked).1 (outside ∷ outside ∷ []) _
        (start (λ a. record { held = false; holders = 0 }) _ (refl, (refl, tt)))
        (enters unlocked [] (outside ∷ []) (codes "1")))

abbrev request : Request
request = record { htmx = true; command = some (codes "take lamp") }

play_turn-accepted_example :
    ((play_turn ⦃u = unicode⦄ server call request (codes "7") (codes "1") stored).1 ≡ stored)
    ⊎ ((field : Text) × (t : Turn) × (request.command ≡ some field)
        × (length (trim_space (first_line field)) ≤ max_command_bytes)
        × ((Service.play ⦃u = unicode⦄ server call
              (codes "7")
              (codes "1")
              (trim_space (first_line field))
              stored).0
            ≡ ok t)
        × ((play_turn ⦃u = unicode⦄ server call request (codes "7") (codes "1") stored).1
            ≡ (Service.play ⦃u = unicode⦄ server call
                (codes "7")
                (codes "1")
                (trim_space (first_line field))
                stored).1))
play_turn-accepted_example =
    play_turn-accepted ⦃u = unicode⦄ server (memory_store-contract ⦃u = unicode⦄).0 call request
      (codes "7") (codes "1") stored
