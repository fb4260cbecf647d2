-- ===== src/Account/Service.antt =====
-- internal/auth/auth.go: registration and login, over the table users of internal/database.
pub mod Laws
pub mod Admitted
pub mod Table
use zorkd.Base.{Bool, true, false, if◌then◌else◌, Option, none, some, List, Text, ℕ}
use zorkd.Errors.{
  Result, ok, err, fail, ◌>>=◌, errors_is, invalid_credentials, user_not_found, password_mismatch,
}
use zorkd.Go.Space.{Unicode}
use zorkd.Game.Store.Calls.{Action}
use zorkd.Database.{Sqlite}
use zorkd.Account.{normalize_email}
use zorkd.Account.Password.{Crypto, check_password_length, hash_password, verify_password}
use zorkd.Account.Users.{User, Account, UserRow, Users, user_by_email, user_by_id, create_user}

module _ ⦃crypto : Crypto⦄ where
  -- The verification of a password against a stored account.
  unfoldable pub identify : Text → Account → Result User
  unfolding verify_password
  identify password account = elim (verify_password account.password_hash password) [
    | ok _ ↦ ok account.user
    | err e ↦ if errors_is e password_mismatch then fail invalid_credentials else err e
  ]

-- `parse_address` is net/mail.ParseAddress.
module _ ⦃u : Unicode⦄ ⦃crypto : Crypto⦄ (parse_address : Text → Option Text) where
  -- What Register hands to the store. `salt` is what crypto/rand answered.
  unfoldable pub credentials : Text → Text → Result (List ℕ) → Result UserRow
  credentials email password salt = do
    address ← normalize_email parse_address email
    _ ← check_password_length password
    hash ← hash_password password salt
    ok (record { email = address; password_hash = hash })

  -- Service.Authenticate. What the decoy verifications answer is not looked at.
  unfoldable pub authenticate : Text → Text → Users → Result User
  unfolding identify user_by_email
  authenticate email password users = elim (normalize_email parse_address email) [
    | err _ ↦ fail invalid_credentials
    | ok address ↦ elim (user_by_email address users) [
      | err e ↦ if errors_is e user_not_found then fail invalid_credentials else err e
      | ok account ↦ identify password account
    ]
  ]

module _ ⦃u : Unicode⦄ ⦃crypto : Crypto⦄ ⦃sql : Sqlite⦄ (parse_address : Text → Option Text) where
  -- Service.Register
  unfoldable pub register : Text → Text → Result (List ℕ) → Action Users User
  unfolding create_user
  register email password salt users = elim (credentials parse_address email password salt) [
    | err e ↦ (err e, users)
    | ok r ↦ create_user r users
  ]

-- Service.User
unfoldable pub user : Text → Users → Result User
user id users = user_by_id id users
