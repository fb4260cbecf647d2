-- ===== src/Invite.antt =====
-- internal/invite: who may register, over the table of internal/database/invitations.go. Times are
-- nanoseconds; the text stamps of the tables have a fixed width, so they compare as numbers.
pub mod Rows
pub mod Used
pub mod Cases
pub mod Spent
pub mod Issue
pub mod Admission
use zorkd.Base.{
  ◌∷◌, ◌*◌, ◌^◌, ℕ, ◌+◌, ◌-◌, Bool, true, false, ◌&&◌, Option, none, some, List, [], if◌then◌else◌,
  ltb, Text, str_eq,
}
use zorkd.Errors.{Error, Result, ok, err, fail, refuse, ◌>>=◌, errors_is, not_invited}
use zorkd.Go.Space.{Unicode}
use zorkd.Game.SaveName.{is_empty}
use zorkd.Game.Store.Calls.{Action}
use zorkd.Database.{Sqlite}
use zorkd.Account.{normalize_email}
use zorkd.Account.Password.{Crypto, hash_password}
use zorkd.Account.Users.{User, UserRow}
use Rows.{
  Invitation, Tables, unspent, create_invitation, invitation_by_token, redeem_invitation,
  delete_spent_invitations,
}

abbrev pub default_invitation_ttl : ℕ
default_invitation_ttl = 48 * 3600 * 10 ^ 9

pub record Inviter : Type 0 where
  pub ttl : ℕ

abbrev pub InviteOption : Type 0
InviteOption = Inviter → Inviter

-- WithTTL
unfoldable pub keep_for : ℕ → InviteOption
keep_for ttl s = record { ttl = ttl }

apply_all : List InviteOption → Inviter → Inviter
apply_all [] s = s
apply_all (opt ∷ opts) s = apply_all opts (opt s)

-- NewService. A lifetime of zero or less is zero here.
unfoldable pub new_inviter : List InviteOption → Result Inviter
unfolding apply_all
new_inviter opts =
    let s : Inviter = apply_all opts (record { ttl = default_invitation_ttl }) in
    if ltb 0 s.ttl then ok s else refuse

unfoldable pub redeemable : Invitation → ℕ → Bool
redeemable v at = unspent v.redeemed_at && ltb at v.expires_at

-- What a failing store answers to the service.
abbrev pub as_not_invited : {A : Type 0} → Error → Result A
as_not_invited e = if errors_is e not_invited then fail not_invited else err e

-- The answers of Create and of Redeem, after the store's.
unfoldable pub issued : Text → Result (Unit {0}) × Tables → Result Text × Tables
issued token (ok _, t) = (ok token, t)
issued token (err e, t) = (err e, t)

unfoldable pub redeemed : Result User × Tables → Result User × Tables
redeemed (ok user, t) = (ok user, t)
redeemed (err e, t) = (as_not_invited e, t)

-- `parse_address` is net/mail.ParseAddress, `sha256` crypto/sha256 and `encode`
-- base64.RawURLEncoding.
module _ ⦃u : Unicode⦄ ⦃crypto : Crypto⦄ ⦃sql : Sqlite⦄ (parse_address : Text → Option Text)
    (sha256 : Text → Text) (encode : List ℕ → Text) (s : Inviter) where
  -- The address and the token of a new invitation.
  unfoldable pub addressed : Text → Result (List ℕ) → Result (Text × Text)
  addressed email raw = do
    address ← normalize_email parse_address email
    bytes ← raw
    ok (address, encode bytes)

  -- Service.Create. `raw` is what crypto/rand answered, and `now` the reading of the clock.
  unfoldable pub create : Text → Result (List ℕ) → ℕ → Action Tables Text
  create email raw now t = elim (addressed email raw) [
    | err e ↦ (err e, t)
    | ok (address, token) ↦ issued token (
        create_invitation (sha256 token)
          (record { email = address; expires_at = now + s.ttl; redeemed_at = none; user_id = [] })
          t)
  ]

  -- The lookup of Invited and of Redeem, with the test that follows it.
  unfoldable pub look_up : Text → ℕ → Tables → Result Invitation
  look_up token now t =
      if is_empty token then fail not_invited else elim (invitation_by_token (sha256 token) t) [
        | err e ↦ as_not_invited e
        | ok v ↦ if redeemable v now then ok v else fail not_invited
      ]

  -- Service.Invited
  unfoldable pub invited : Text → ℕ → Tables → Result Invitation
  invited token now t = look_up token now t

  -- The account that a request asks for, if the invitation is its own.
  unfoldable pub invited_account : Text → Text → Result (List ℕ) → Invitation → Result UserRow
  invited_account email password salt v = elim (normalize_email parse_address email) [
    | err _ ↦ fail not_invited
    | ok address ↦
        if str_eq address v.email
        then (do
          hash ← hash_password password salt
          ok (record { email = address; password_hash = hash }))
        else fail not_invited
  ]

  unfoldable pub admitted : Text → Text → Text → Result (List ℕ) → ℕ → Tables → Result UserRow
  admitted token email password salt at before = do
    v ← look_up token at before
    invited_account email password salt v

  -- Service.Redeem. The lookup reads the tables as they were at `before`, the transaction runs on
  -- the tables as they have become.
  unfoldable pub redeem : Text → Text → Text → Result (List ℕ) → ℕ → Tables → Action Tables User
  redeem token email password salt at before t =
      elim (admitted token email password salt at before) [
        | err e ↦ (err e, t)
        | ok account ↦ redeemed (redeem_invitation (sha256 token) at account t)
      ]

  -- Service.Sweep. No stored time is below zero, so the bound may stop there.
  unfoldable pub sweep : ℕ → Action Tables ℕ
  sweep now t = delete_spent_invitations now (now - s.ttl) t
