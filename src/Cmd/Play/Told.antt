-- ===== src/Cmd/Play/Told.antt =====
-- The story that zorkplay tells is one story.
use zorkd.Base.{ℕ, Option, ◌≡◌, ◌⊎◌, true, false, List, [], ◌∷◌, Text, length, ◌<◌, none, some}
use zorkd.Errors.{Error, ok, err}
use zorkd.Game.Types.{EngineResult, is_halted}
use zorkd.Game.Fault.{classify, retryable}
use zorkd.Game.Runner
use zorkd.Game.Runner.{Runner, Engine, Entry, max_command_bytes}
use zorkd.Terminal.{new_turn, text}
use zorkd.Cmd.Play.{turn, prompt, end_of_input, Outcome, print, attempt}

module _ {Story Machine : Type 0} (engine : Engine Story Machine) (runner : Runner)
    (entry : Entry Story) (width : ℕ) (stopped : Option Error) where
  -- An output that goes on from a result: each turn is the engine's answer to a line, in the order
  -- of the lines, run on the state of the turn before; a line may be passed over with a prompt; and
  -- nothing follows an ending of the story, or an error that is not worth another try.
  pub data Tells : List (ℕ × Text) → EngineResult → Outcome → Type 0 where
    ended :
        (lines : List (ℕ × Text)) (last : EngineResult)
        → is_halted last.status ≡ true
        → Tells lines last ([], ok tt)
    left_off :
        (last : EngineResult)
        → is_halted last.status ≡ false
        → stopped ≡ none
        → Tells [] last (end_of_input ∷ [], ok tt)
    cut_off :
        (last : EngineResult) (e : Error)
        → is_halted last.status ≡ false
        → stopped ≡ some e
        → Tells [] last (end_of_input ∷ [], err e)
    answered :
        (now : ℕ) (command : Text) (lines : List (ℕ × Text)) (last result : EngineResult)
        (out : Outcome)
        → is_halted last.status ≡ false
        → attempt engine runner entry width last now command ≡ ok result
        → Tells lines result out
        → Tells
            ((now, command) ∷ lines)
            last
            (print (turn (text (new_turn command result) width)) out)
    passed_over :
        (now : ℕ) (command : Text) (lines : List (ℕ × Text)) (last : EngineResult) (out : Outcome)
        → is_halted last.status ≡ false
        → (e : Error) → attempt engine runner entry width last now command ≡ err e
        → (max_command_bytes < length command)
          ⊎ (retryable (classify {A = Unit {0}} (err e)) ≡ true)
        → Tells lines last out
        → Tells ((now, command) ∷ lines) last (print prompt out)
    broke_off :
        (now : ℕ) (command : Text) (lines : List (ℕ × Text)) (last : EngineResult) (e : Error)
        → is_halted last.status ≡ false
        → attempt engine runner entry width last now command ≡ err e
        → retryable (classify {A = Unit {0}} (err e)) ≡ false
        → Tells ((now, command) ∷ lines) last ([], err e)
