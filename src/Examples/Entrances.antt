-- ===== src/Examples/Entrances.antt =====
-- The theorem on the login form, at small inputs.
use zorkd.Base.{
  ◌+◌, ◌-◌, ℕ, ◌≡◌, refl, Bool, true, false, Option, none, some, List, [], ◌∷◌, arith, Text, codes,
  replicate,
}
use zorkd.Errors.{ok}
use zorkd.Account.Users.{User}
use zorkd.Account.Service.{authenticate}
use zorkd.Limiter.{Float, AttemptLimit, new_limiter, allow_attempt}
use zorkd.Login.{Manager, Cookie}
use zorkd.Login.Rows.{Table}
use zorkd.Web.Session.{Front, welcome, admitted, log_in, require_user}
use zorkd.Web.Session.Entrance.{log_in-require_user}
use zorkd.Examples.{unicode}
use zorkd.Examples.Parts.{sqlite, crypto, parse}
use zorkd.Examples.Tables.{users, users-IsAccounts, logs_in}

abbrev pub manager : Manager
manager = record { ttl = 10; secure = true }

-- A hash of 32 bytes, and an encoding that is not empty.
abbrev pub hash : Text → Text
hash token = replicate 32 1

abbrev pub encode : List ℕ → Text
encode bytes = b'a' ∷ bytes

abbrev float : Float
float = record { one = 5; gain = λ t e r. t + e; until_one = λ t r. 5 - t }

abbrev pub logins : AttemptLimit
logins = record { source = new_limiter float 3 5 100; email = new_limiter float 3 5 100 }

abbrev front : Front
front = record {
  users = users;
  invites = [];
  sessions = record { sessions = []; users = 1 ∷ [] };
  logins = logins;
  registrations = logins;
}

abbrev cookie : Cookie
cookie = record { value = codes "a"; expires = 15; max_age = some 0; secure = true }

abbrev greeted : Front
greeted = record {
  users = users;
  invites = [];
  registrations = logins;
  sessions = record {
    sessions = (hash [], record { user_id = 1; expires_at = 15 }) ∷ [];
    users = 1 ∷ [];
  };
  logins = (allow_attempt ⦃u = unicode⦄ parse (codes "10.0.0.1") (codes "a@b") 5 logins).1;
}

welcomes :
    log_in ⦃u = unicode⦄ ⦃crypto = crypto⦄ parse hash encode manager
      (some (codes "a@b", codes "xyzzy123"))
      (codes "10.0.0.1")
      (ok [])
      5
      front
    ≡ (welcome cookie, greeted)
unfolding log_in allow_attempt new_limiter zorkd.Limiter.allow zorkd.Base.lookup zorkd.Limiter.spend
    zorkd.Limiter.prune zorkd.Login.start zorkd.Login.Rows.create_session
    zorkd.Go.Decimal.parse_positive zorkd.Game.SaveName.is_empty zorkd.Login.Rows.is_user
welcomes = rw logs_in refl

log_in-require_user_example :
    (a : User) × (authenticate ⦃u = unicode⦄ ⦃crypto = crypto⦄ parse
        (codes "a@b")
        (codes "xyzzy123")
        users
      ≡ ok a)
    × (require_user ⦃u = unicode⦄ ⦃crypto = crypto⦄ parse hash encode manager 14
          (some (codes "a"))
          greeted
        ≡ (admitted a, greeted))
log_in-require_user_example =
    log_in-require_user ⦃u = unicode⦄ ⦃crypto = crypto⦄ ⦃sql = sqlite⦄ parse hash encode manager
      (codes "a@b") (codes "xyzzy123") (codes "10.0.0.1") (ok []) 5 14 front greeted cookie
      users-IsAccounts (unfold zorkd.Game.SaveName.is_empty in refl) welcomes (omega arith)
