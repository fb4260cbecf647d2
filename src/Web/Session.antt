-- ===== src/Web/Session.antt =====
-- internal/httpserver/auth.go and requireUser of server.go: who is let through to the games. The
-- log is left out, and a form is none where it cannot be read.
pub mod Entrance
pub mod Registration
pub mod Leaving
use zorkd.Base.{
  ℕ, ◌+◌, ◌-◌, ◌*◌, ◌/◌, ◌^◌, Bool, true, false, Option, none, some, List, [], ◌∷◌, if◌then◌else◌,
  ltb, Text, codes, map,
}
use zorkd.Errors.{Error, Result, ok, err, errors_is, not_invited, email_taken, weak_password}
use zorkd.Go.Space.{Unicode}
use zorkd.Database.{Sqlite, RowId, keys}
use zorkd.Account.Password.{Crypto, min_password_length}
use zorkd.Account.Users.{User, Users}
use zorkd.Account.Service
use zorkd.Account.Service.{authenticate}
use zorkd.Invite
use zorkd.Invite.{Inviter, invited}
use zorkd.Invite.Rows.{Invitation, Invites, Tables}
use zorkd.Limiter.{Verdict, AttemptLimit, allow_attempt}
use zorkd.Login
use zorkd.Login.{Manager, Cookie, user_id, end_session}
use zorkd.Login.Rows.{Table}

-- What the handlers of a server share, but the games.
pub record Front : Type 0 where
  pub users : Users
  pub invites : Invites
  pub sessions : Table
  pub logins : AttemptLimit
  pub registrations : AttemptLimit

-- What the login and registration pages draw.
pub record CredentialsView : Type 0 where
  pub email : Text
  pub error : Text
  pub min_password : ℕ
  pub invite : Text
  pub invited : Bool

pub data Answer : Type 0 where
  -- a page of its template and its status
  login register : ℕ → CredentialsView → Answer
  -- one of them, with the status 429 and the header Retry-After
  wait_for : ℕ → Answer → Answer
  broken : Answer
  -- redirects: to the games, with a cookie or with the one that there is, and to the login page
  welcome : Cookie → Answer
  home : Answer
  goodbye : Cookie → Answer

abbrev pub blank : CredentialsView
blank = record { email = []; error = []; min_password = 0; invite = []; invited = false }

abbrev unread : Text
unread = codes "That request could not be read."

-- notInvited
abbrev not_invited_text : Text
not_invited_text =
    codes
      "That invitation cannot be used. It may have expired or already been used, or it may have been issued for a different address."

abbrev pub refusal : CredentialsView
refusal = record blank { min_password = min_password_length; error = not_invited_text }

-- retryAfterSeconds
unfoldable pub retry_after_seconds : ℕ → ℕ
retry_after_seconds retry =
    let seconds = (retry + (10 ^ 9 - 1)) / 10 ^ 9 in if ltb seconds 1 then 1 else seconds

-- tooManyAttempts, of a page
unfoldable pub too_many_attempts : (ℕ → CredentialsView → Answer) → ℕ → CredentialsView → Answer
unfolding retry_after_seconds
too_many_attempts page retry v =
    wait_for (retry_after_seconds retry) (
      page 429
        (record v { error = codes "Too many attempts. Please wait a moment and try again." }))

unfoldable pub welcomed : Front → Result Cookie × Table → Answer × Front
welcomed f (ok c, t) = (welcome c, record f { sessions = t })
welcomed f (err e, t) = (broken, record f { sessions = t })

-- What register answers to a redemption that failed.
unfoldable pub register_failed : CredentialsView → Error → Answer
register_failed v e =
    if errors_is e not_invited
    then register 403 refusal
    else if errors_is e email_taken
    then register 400 (record v { error = codes "There is already an account for that address." })
    else if errors_is e weak_password
    then register 400 (record v { error = codes "That password is not long enough." })
    else broken

-- The registration form, with the invitation that it came with.
abbrev pub filled : Text → Text → CredentialsView
filled token email = record {
  email = email;
  error = [];
  min_password = min_password_length;
  invite = token;
  invited = true;
}

unfoldable pub register_view : Text → Result Invitation → Answer
register_view token (err e) = register 403 refusal
register_view token (ok v) = register 200 (filled token v.email)

-- The tables of accounts and invitations after a registration. Sessions name rows of the same users.
abbrev pub enrolled : Front → Tables → Front
enrolled f t = record f {
  users = t.users;
  invites = t.invites;
  sessions = record f.sessions { users = map (λ (k : RowId). k.number) (keys t.users) };
}

abbrev signed_in_or : Front → (Front → Answer × Front) → Result Text × Table → Answer × Front
signed_in_or f page (ok _, t) = (home, record f { sessions = t })
signed_in_or f page (err e, t) = page (record f { sessions = t })

-- requireUser: to the login page, or on to the handler.
pub data Gate : Type 0 where
  to_login : Gate
  admitted : User → Gate

module _ ⦃u : Unicode⦄ ⦃crypto : Crypto⦄ (parse_address : Text → Option Text) (sha256 : Text → Text)
    (encode : List ℕ → Text) (m : Manager) where
  unfoldable pub start_session : Result (List ℕ) → ℕ → Front → User → Answer × Front
  unfolding welcomed
  start_session raw now f account =
      welcomed f (Login.start sha256 encode m raw now account.id f.sessions)

  unfoldable pub authenticated : Result (List ℕ) → ℕ → Text → Front → Result User → Answer × Front
  unfolding start_session
  authenticated raw now email f (err e) = (
    login 401 (record blank {
      email = email;
      error = codes "That email and password do not match an account.";
    }),
    f,
  )
  authenticated raw now email f (ok account) = start_session raw now f account

  unfoldable pub attempted :
      Result (List ℕ) → ℕ → Text → Text → Front → Verdict × AttemptLimit → Answer × Front
  unfolding authenticated too_many_attempts
  attempted raw now email password f (Verdict.wait retry, a) =
      (too_many_attempts login retry (record blank { email = email }), record f { logins = a })
  attempted raw now email password f (Verdict.proceed, a) =
      authenticated raw now email (record f { logins = a })
        (authenticate parse_address email password f.users)

  -- logIn, of the fields of the form, from a source. `raw` is what crypto/rand answered.
  unfoldable pub log_in : Option (Text × Text) → Text → Result (List ℕ) → ℕ → Front → Answer × Front
  unfolding attempted
  log_in none source raw now f = (login 400 (record blank { error = unread }), f)
  log_in (some (email, password)) source raw now f =
      attempted raw now email password f (allow_attempt parse_address source email now f.logins)

  -- showLogin
  unfoldable pub show_login : ℕ → Option Text → Front → Answer × Front
  show_login now cookie f =
      signed_in_or f (λ f'. (login 200 blank, f')) (user_id sha256 encode m now cookie f.sessions)

  -- logOut
  unfoldable pub log_out : Option Text → Front → Answer × Front
  log_out cookie f =
      let (c, t) = end_session sha256 encode m cookie f.sessions in
      (goodbye c, record f { sessions = t })

  unfoldable pub account_gate : Option Text → Front → Result User → Gate × Front
  account_gate cookie f (ok account) = (admitted account, f)
  account_gate cookie f (err e) =
      (to_login, record f { sessions = (end_session sha256 encode m cookie f.sessions).1 })

  unfoldable pub session_gate : Option Text → Front → Result Text × Table → Gate × Front
  unfolding account_gate
  session_gate cookie f (err e, t) = (to_login, record f { sessions = t })
  session_gate cookie f (ok id, t) =
      account_gate cookie (record f { sessions = t }) (Service.user id f.users)

  -- requireUser, of the cookie that the request carries.
  unfoldable pub require_user : ℕ → Option Text → Front → Gate × Front
  unfolding session_gate
  require_user now cookie f = session_gate cookie f (user_id sha256 encode m now cookie f.sessions)

  module _ ⦃sql : Sqlite⦄ (s : Inviter) where
    -- showRegister, of the field "invite" of the address
    unfoldable pub show_register : ℕ → Option Text → Text → Front → Answer × Front
    unfolding register_view
    show_register now cookie token f =
        signed_in_or f
          (λ f'. (
            register_view token (
                invited parse_address sha256 encode s token now
                  (record { users = f'.users; invites = f'.invites })),
            f',
          ))
          (user_id sha256 encode m now cookie f.sessions)

    -- A new account has a row among the users that a session may name.
    unfoldable pub signed_up :
        Result (List ℕ) → ℕ → CredentialsView → Front → Result User × Tables → Answer × Front
    unfolding register_failed start_session
    signed_up raw now v f (err e, t) =
        (register_failed v e, record f { users = t.users; invites = t.invites })
    signed_up raw now v f (ok account, t) = start_session raw now (enrolled f t) account

    unfoldable pub registering :
        Result (List ℕ)
        → Result (List ℕ)
        → ℕ
        → CredentialsView
        → Text
        → Front
        → Verdict × AttemptLimit
        → Answer × Front
    unfolding signed_up too_many_attempts
    registering raw salt now v password f (Verdict.wait retry, a) =
        (too_many_attempts register retry v, record f { registrations = a })
    registering raw salt now v password f (Verdict.proceed, a) =
        let t : Tables = record { users = f.users; invites = f.invites } in
        signed_up raw now v (record f { registrations = a })
          (Invite.redeem parse_address sha256 encode s v.invite v.email password salt now t t)

    -- register, of the fields "invite", "email" and "password"
    unfoldable pub register_form :
        Option (Text × Text × Text)
        → Text
        → Result (List ℕ)
        → Result (List ℕ)
        → ℕ
        → Front
        → Answer × Front
    unfolding registering
    register_form none source raw salt now f =
        (register 400 (record blank { min_password = min_password_length; error = unread }), f)
    register_form (some (token, email, password)) source raw salt now f =
        registering raw salt now (filled token email) password f
          (allow_attempt parse_address source email now f.registrations)
