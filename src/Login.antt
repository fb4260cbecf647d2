-- ===== src/Login.antt =====
-- internal/session, over the table of internal/database/authsessions.go: which user a request comes
-- from. Times are nanoseconds; the table's text stamps have a fixed width, so they compare as numbers.
pub mod Rows
pub mod Lifetime
use zorkd.Base.{
  ◌∷◌, ◌*◌, ◌^◌, ◌/◌, ℕ, ◌+◌, Bool, true, false, Option, none, some, List, [], if◌then◌else◌, ltb,
  Text,
}
use zorkd.Errors.{Result, ok, err, fail, refuse, no_session, ◌>>=◌}
use zorkd.Go.Decimal.{format_int}
use zorkd.Game.SaveName.{is_empty}
use Rows.{Table, Row, create_session, session_by_token, delete_session, delete_expired}

abbrev pub default_ttl : ℕ
default_ttl = 14 * 24 * 3600 * 10 ^ 9

pub record Manager : Type 0 where
  pub ttl : ℕ
  pub secure : Bool

abbrev pub ManagerOption : Type 0
ManagerOption = Manager → Manager

unfoldable pub with_ttl : ℕ → ManagerOption
with_ttl ttl m = record m { ttl = ttl }

unfoldable pub with_insecure_cookies : ManagerOption
with_insecure_cookies m = record m { secure = false }

configure : List ManagerOption → Manager → Manager
configure [] m = m
configure (opt ∷ opts) m = configure opts (opt m)

-- NewManager. A lifetime of zero or less is zero here.
unfoldable pub new_manager : List ManagerOption → Result Manager
unfolding configure
new_manager opts =
    let m : Manager = configure opts (record { ttl = default_ttl; secure = true }) in
    if ltb 0 m.ttl then ok m else refuse

-- The Set-Cookie header of a response. The path, HttpOnly and SameSite are the same for both.
pub record Cookie : Type 0 where
  pub value : Text
  pub expires : ℕ
  -- none asks the browser to drop the cookie now
  pub max_age : Option ℕ
  pub secure : Bool

-- `sha256` is crypto/sha256, and `encode` is base64.RawURLEncoding.
module _ (sha256 : Text → Text) (encode : List ℕ → Text) (m : Manager) where
  -- Manager.Start. `raw` is what crypto/rand answered, and `now` the reading of the clock.
  unfoldable pub start : Result (List ℕ) → ℕ → Text → Table → Result Cookie × Table
  unfolding is_empty
  start raw now user t = if is_empty user then (refuse, t) else elim raw [
    | err e ↦ (err e, t)
    | ok bytes ↦
        let expires = now + m.ttl in
        let token = encode bytes in
        elim (create_session (sha256 token) user expires t) [
          | err e ↦ (err e, t)
          | ok t' ↦ (
            ok (record {
              value = token;
              expires = expires;
              max_age = some (m.ttl / 10 ^ 9);
              secure = m.secure;
            }),
            t',
          )
        ]
  ]

  unfoldable pub look_up : ℕ → Text → Table → Option Row → Result Text × Table
  look_up now hash t none = (fail no_session, t)
  look_up now hash t (some row) =
      if ltb now row.expires_at
      then (ok (format_int row.user_id), t)
      else (fail no_session, delete_session hash t)

  -- Manager.UserID, of the cookie that the request carries.
  unfoldable pub user_id : ℕ → Option Text → Table → Result Text × Table
  unfolding look_up is_empty
  user_id now none t = (fail no_session, t)
  user_id now (some token) t =
      if is_empty token
      then (fail no_session, t)
      else look_up now (sha256 token) t (session_by_token (sha256 token) t)

  -- The cookie that Manager.clear sets.
  unfoldable pub clear : Cookie
  clear = record { value = []; expires = 0; max_age = none; secure = m.secure }

  -- Manager.End: the cookie is cleared on every path.
  unfoldable pub end_session : Option Text → Table → Cookie × Table
  unfolding clear is_empty
  end_session none t = (clear, t)
  end_session (some token) t =
      (clear, if is_empty token then t else delete_session (sha256 token) t)

-- Manager.Sweep
unfoldable pub sweep : ℕ → Table → ℕ × Table
sweep now t = delete_expired now t
