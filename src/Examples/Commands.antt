-- ===== src/Examples/Commands.antt =====
-- The theorems on the probe and the commands, at small inputs.
use zorkd.Base.{
  ℕ, ◌+◌, ◌-◌, ◌%◌, ◌^◌, ◌<◌, ◌≤◌, ◌≡◌, ◌≢◌, ◌↔◌, refl, ap, ◌∙◌, ◌/◌, Bool, false, Option, none,
  some, List, [], ◌∷◌, ◌++◌, arith, Text, codes, replicate, All,
}
use zorkd.Errors.{ok}
use zorkd.Login.{Cookie, Manager, default_ttl}
use zorkd.Login.Rows.{Table}
use zorkd.Web.Health.{begin, on_result, health}
use zorkd.Web.Health.Record.{begun, takes, Sound, Run-health, failures, streak}
use zorkd.Cmd.Policy.{Net}

-- A hash of 32 bytes for the tokens of one byte.
abbrev hash : Text → Text
hash token = token ++ replicate 31 1

abbrev encode : List ℕ → Text
encode bytes = b'c' ∷ []

Run-health_example :
    ((health 9 (on_result false 3 7 none (begin 3)).state ≡ 200)
      ↔ Sound 9 (record { finished = 7; duration = 4; failure = none } ∷ []))
    × ((on_result false 3 7 none (begin 3)).state.total_failures
        ≡ failures (record { finished = 7; duration = 4; failure = none } ∷ []) % 2 ^ 64)
    × ((on_result false 3 7 none (begin 3)).state.consecutive_failures
        ≡ streak (record { finished = 7; duration = 4; failure = none } ∷ []) % 2 ^ 64)
unfolding begin
Run-health_example =
    Run-health (record { finished = 7; duration = 4; failure = none } ∷ [])
      (on_result false 3 7 none (begin 3)) 9 (takes [] (begin 3) 3 7 none (begun 3) refl refl)

-- An address is its host.
abbrev net : Net
net = record { split_host_port = λ a. ok a; parse_loopback = λ h. none }

abbrev in_the_clear : Manager
in_the_clear = record { ttl = default_ttl; secure = false }

abbrev clear_cookie : Cookie
clear_cookie = record {
  value = codes "c";
  expires = 5 + default_ttl;
  max_age = some (default_ttl / 10 ^ 9);
  secure = false;
}
