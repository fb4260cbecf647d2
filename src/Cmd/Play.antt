-- ===== src/Cmd/Play.antt =====
-- cmd/zorkplay/main.go: a story played on a character terminal. The flags, the log and what goes to
-- the standard error are left out. bufio.Scanner is a parameter: the lines that it answers, with the
-- times at which they are run, and the error that it stops with, if any (a line too long for its
-- buffer, or what the reader answered), which is its Err once Scan has answered false. A failed Run
-- leaves the empty zmachine.Result in the loop; its status is taken to be that of a machine that
-- waits, so that the loop goes on with the state that it had.
pub mod Told
use zorkd.Base.{
  ℕ, Bool, true, false, List, [], ◌∷◌, if◌then◌else◌, ltb, length, Text, Option, none, some,
}
use zorkd.Errors.{Error, Result, ok, err}
use zorkd.Game.Types.{EngineResult, EngineState, is_halted}
use zorkd.Game.Fault.{classify, retryable}
use zorkd.Game.Library.{Library, find_id, all}
use zorkd.Game.Runner
use zorkd.Game.Runner.{Runner, Engine, Entry, Context, max_command_bytes}
use zorkd.Game.SaveName.{is_empty}
use zorkd.Terminal.{new_turn, text}

-- Scanner.Err, as the error that play returns.
abbrev pub input_err : Option Error → Result (Unit {0})
input_err none = ok tt
input_err (some e) = err e

-- What is printed on the standard output.
pub data Printed : Type 0 where
  -- a turn, rendered
  turn : Text → Printed
  -- reprompt
  prompt : Printed
  -- the newline after the last line of the input
  end_of_input : Printed

-- The output, and whether play returned an error.
abbrev pub Outcome : Type 0
Outcome = List Printed × Result (Unit {0})

abbrev pub print : Printed → Outcome → Outcome
print p (out, r) = (p ∷ out, r)

-- context.Background
abbrev pub background : Context
background = record { deadline = none }

module _ {Story Machine : Type 0} (engine : Engine Story Machine) (runner : Runner)
    (entry : Entry Story) (width : ℕ) where
  -- The command of a line, run on the state that the last turn left.
  unfoldable pub attempt : EngineResult → ℕ → Text → Result EngineResult
  attempt last now command = Runner.run engine runner now background entry last.state command

  -- The loop of play, after the turn whose result is the last one.
  unfoldable pub play_loop : Option Error → List (ℕ × Text) → EngineResult → Outcome
  unfolding attempt
  play_loop stopped [] last =
      if is_halted last.status then ([], ok tt) else (end_of_input ∷ [], input_err stopped)
  play_loop stopped ((now, command) ∷ lines) last = elim (is_halted last.status) [
    | true ↦ ([], ok tt)
    | false ↦ elim (ltb max_command_bytes (length command)) [
      | true ↦ print prompt (play_loop stopped lines last)
      | false ↦ elim (attempt last now command) [
        | ok result ↦
            print (turn (text (new_turn command result) width)) (play_loop stopped lines result)
        | err e ↦
            let rest = print prompt (play_loop stopped lines last) in
            if retryable (classify {A = Unit {0}} (err e)) then rest else ([], err e)
      ]
    ]
  ]

  -- play
  unfoldable pub play : ℕ → Option Error → List (ℕ × Text) → Outcome
  unfolding play_loop
  play now stopped lines = elim (Runner.start engine runner now background entry) [
    | err e ↦ ([], err e)
    | ok result ↦ print (turn (text (new_turn [] result) width)) (play_loop stopped lines result)
  ]
