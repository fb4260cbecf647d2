-- ===== src/Game/Runner.antt =====
-- turn.go: one turn of a story on a fresh machine, under a deadline and an instruction limit.
pub mod Limits
use zorkd.Base.{
  ℕ, ◌+◌, ◌*◌, ◌^◌, ◌≤◌, ◌<◌, Bool, true, false, ◌≡◌, Option, none, some, List, [], ◌∷◌, arith, ltb,
  leb, ◌==◌, if◌then◌else◌, length, min, Text,
}
use zorkd.Errors.{Result, ok, err, refuse, ◌>>=◌}
use zorkd.Game.Types.{EngineResult, StoryKey}

abbrev pub default_turn_timeout : ℕ
default_turn_timeout = 5 * 10 ^ 9

abbrev pub default_instruction_limit : ℕ
default_instruction_limit = 5_000_000

abbrev pub max_command_bytes : ℕ
max_command_bytes = 256

-- A duration of zero or less is zero here. The logger is left out.
pub record Runner : Type 0 where
  pub turn_timeout : ℕ
  pub instruction_limit : ℕ
  pub seed : Option ℕ

abbrev pub RunnerOption : Type 0
RunnerOption = Runner → Runner

unfoldable pub with_turn_timeout : ℕ → RunnerOption
with_turn_timeout d r = record r { turn_timeout = d }

unfoldable pub with_instruction_limit : ℕ → RunnerOption
with_instruction_limit limit r = if ltb 0 limit then record r { instruction_limit = limit } else r

unfoldable pub with_random_seed : ℕ → RunnerOption
with_random_seed seed r = record r { seed = some seed }

apply_options : List RunnerOption → Runner → Runner
apply_options [] r = r
apply_options (opt ∷ opts) r = apply_options opts (opt r)

unfoldable pub new_runner : List RunnerOption → Runner
unfolding apply_options
new_runner opts = apply_options opts (record {
  turn_timeout = default_turn_timeout;
  instruction_limit = default_instruction_limit;
  seed = none;
})

-- A context, as far as this package makes one: the time at which it expires, if it does.
pub record Context : Type 0 where
  pub deadline : Option ℕ

-- context.WithTimeout: the nearer deadline holds.
abbrev sooner : Option ℕ → ℕ → ℕ
sooner none d = d
sooner (some c) d = min c d

unfoldable pub bound : Runner → ℕ → Context → Context
bound r now ctx =
    if r.turn_timeout == 0
    then ctx
    else record { deadline = some (sooner ctx.deadline (now + r.turn_timeout)) }

-- The engine, package zmachine: a story is loaded from its image, a machine is made for it, and the
-- machine runs until the story next asks for input.
pub record Engine (Story Machine : Type 0) : Type 0 where
  pub load_story : List ℕ → Result Story
  pub new : Story → ℕ → Option ℕ → Result Machine
  pub start : Machine → Context → Result EngineResult
  pub restore : Machine → List ℕ → Result Machine
  pub run : Machine → Context → Text → Result EngineResult

pub record Entry (Story : Type 0) : Type 0 where
  pub id : Text
  pub title : Text
  pub file : Text
  pub key : StoryKey
  pub story : Story

module _ {Story Machine : Type 0} (engine : Engine Story Machine) (r : Runner) where
  new_machine : Entry Story → Result Machine
  new_machine entry = engine.new entry.story r.instruction_limit r.seed

  -- Runner.Start. A nil entry is a programming error that the callers exclude.
  unfoldable pub start : ℕ → Context → Entry Story → Result EngineResult
  unfolding bound new_machine
  start now ctx entry = do machine ← new_machine entry; engine.start machine (bound r now ctx)

  -- Runner.Run
  unfoldable pub run : ℕ → Context → Entry Story → List ℕ → Text → Result EngineResult
  unfolding bound new_machine
  run now ctx entry saved command =
      if length saved == 0
      then refuse
      else if ltb max_command_bytes (length command)
      then refuse
      else do
        machine ← new_machine entry
        restored ← engine.restore machine saved
        engine.run restored (bound r now ctx) command
