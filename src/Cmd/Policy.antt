-- ===== src/Cmd/Policy.antt =====
-- cmd/zorkd/main.go: the settings that serve reads, and the cookie policy that it checks before it
-- opens anything. The environment, net and the parsers of strconv and time are parameters.
pub mod Cookies
use zorkd.Base.{
  ℕ, Bool, true, false, ◌||◌, not, Option, none, some, List, [], ◌∷◌, if◌then◌else◌, Text, codes,
  str_eq, ◌==◌,
}
use zorkd.Errors.{Result, ok, err, refuse, ◌>>=◌}
use zorkd.Game.SaveName.{is_empty}
use zorkd.Login.{Manager, ManagerOption, new_manager, with_insecure_cookies}

module _ (lookup_env : Text → Option Text) where
  unfoldable pub env : Text → Text → Text
  env name fallback = elim (lookup_env name) [
    | none ↦ fallback
    | some value ↦ if is_empty value then fallback else value
  ]

  -- envDuration and envUint, by their parser
  unfoldable pub env_parsed : (Text → Result ℕ) → Text → ℕ → Result ℕ
  env_parsed parse name fallback = elim (lookup_env name) [
    | none ↦ ok fallback
    | some value ↦ if is_empty value then ok fallback else parse value
  ]

-- net.SplitHostPort, for its host, and net.ParseIP with IsLoopback.
pub record Net : Type 0 where
  pub split_host_port : Text → Result Text
  pub parse_loopback : Text → Option Bool

unfoldable pub is_loopback_addr : Net → Text → Bool
is_loopback_addr net addr = elim (net.split_host_port addr) [
  | err e ↦ false
  | ok host ↦
      if str_eq host (codes "localhost")
      then true
      else elim (net.parse_loopback host) [ none ↦ false | some loopback ↦ loopback ]
]

unfoldable pub check_cookie_policy : Net → Bool → Text → Result (Unit {0})
unfolding is_loopback_addr
check_cookie_policy net insecure addr =
    if not insecure || is_loopback_addr net addr then ok tt else refuse

-- The options that serve gives to session.NewManager.
unfoldable pub session_options : Bool → List ManagerOption
session_options insecure = if insecure then with_insecure_cookies ∷ [] else []

-- The manager that serve comes to, if it gets that far.
unfoldable pub serve_manager : Net → Bool → Text → Result Manager
unfolding check_cookie_policy session_options
serve_manager net insecure addr = do
  checked ← check_cookie_policy net insecure addr
  new_manager (session_options insecure)

-- run: what the first argument asks for.
pub data Subcommand : Type 0 where
  serve invite init : Subcommand

unfoldable pub run : List Text → Result (Subcommand × List Text)
run [] = ok (serve, [])
run ([] ∷ args) = refuse
run ((b ∷ name) ∷ args) =
    if b == b'-'
    then ok (serve, (b ∷ name) ∷ args)
    else if str_eq (b ∷ name) (codes "invite")
    then ok (invite, args)
    else if str_eq (b ∷ name) (codes "init")
    then ok (init, args)
    else refuse
