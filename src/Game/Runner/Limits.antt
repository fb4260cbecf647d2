-- ===== src/Game/Runner/Limits.antt =====
-- The two bounds of a turn cannot be taken away.
use zorkd.Base.{ℕ, ◌+◌, ◌≤◌, ◌<◌, ◌≡◌, Option, none, some, List, [], ◌∷◌, map, arith}
use zorkd.Game.Runner.{
  Runner, RunnerOption, with_turn_timeout, with_instruction_limit, with_random_seed, apply_options,
  new_runner, Context, sooner, bound,
}

-- The options that the package offers.
data Setting : Type 0 where
  timeout limit seed : ℕ → Setting

abbrev option_of : Setting → RunnerOption
option_of (timeout d) = with_turn_timeout d
option_of (limit n) = with_instruction_limit n
option_of (seed n) = with_random_seed n

option_of-limit :
    (o : Setting) (r : Runner) → 0 < r.instruction_limit → 0 < (option_of o r).instruction_limit
unfolding with_turn_timeout with_instruction_limit with_random_seed
option_of-limit (timeout d) r h = h
option_of-limit (limit n) r h = ground arith
option_of-limit (seed n) r h = h

apply_options-limit :
    (os : List Setting) (r : Runner)
    → 0 < r.instruction_limit
    → 0 < (apply_options (map option_of os) r).instruction_limit
unfolding apply_options
apply_options-limit [] r h = h
apply_options-limit (o ∷ os) r h = apply_options-limit os (option_of o r) (option_of-limit o r h)

-- However a runner is configured with the options of the package, its machines have an
-- instruction limit above zero.
new_runner-limit : (os : List Setting) → 0 < (new_runner (map option_of os)).instruction_limit
unfolding new_runner
new_runner-limit os = apply_options-limit os _ (omega arith)

-- A deadline that a context has.
abbrev Expires : Context → ℕ → Type 0
Expires ctx d = ctx.deadline ≡ some d

sooner-le : (o : Option ℕ) (d : ℕ) → sooner o d ≤ d
sooner-le none d = omega arith
sooner-le (some c) d = omega arith

sooner-caller : (o : Option ℕ) (d c : ℕ) → o ≡ some c → sooner o d ≤ c
sooner-caller none d c e = cc
sooner-caller (some b) d c e = ground arith

-- A runner with a timeout gives a turn a deadline, no later than its own and no later than the
-- caller's.
bound-nearer :
    (r : Runner) (now : ℕ) (ctx : Context)
    → 0 < r.turn_timeout
    → (d : ℕ) × Expires (bound r now ctx) d
      × (d ≤ now + r.turn_timeout)
      × ((c : ℕ) → Expires ctx c → d ≤ c)
unfolding bound
bound-nearer r now ctx h = (
  sooner ctx.deadline (now + r.turn_timeout),
  ground arith,
  sooner-le ctx.deadline (now + r.turn_timeout),
  λ c e. sooner-caller ctx.deadline (now + r.turn_timeout) c e,
)
