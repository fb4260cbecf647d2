-- ===== src/Examples/Invitations.antt =====
-- The theorems on invitations, at small inputs.
use zorkd.Base.{
  ℕ, ◌+◌, ◌<◌, ◌≡◌, ◌⊎◌, refl, ap, Bool, true, false, Option, none, some, List, [], ◌∷◌, ◌++◌,
  arith, Text, codes, replicate,
}
use zorkd.Errors.{Error, Result, ok, err, fail, not_invited}
use zorkd.Database.{RowId}
use zorkd.Account.{normalize_email}
use zorkd.Account.Users.{User, UserRow, Users, user_of, row_by_email}
use zorkd.Invite.{Inviter, create, invited, redeem, sweep}
use zorkd.Invite.Rows.{InviteRow, Tables, unspent, row_by_token, new_row}
use zorkd.Invite.Spent.{done, redeem-once}
use zorkd.Invite.Issue.{redeem-create}
use zorkd.Invite.Admission.{redeem-ok}
use zorkd.Examples.{unicode}
use zorkd.Examples.Parts.{first, sqlite, crypto, salt, parse}
use zorkd.Examples.Tables.{row, account}

-- A hash of 32 bytes, and an encoding that is not empty.
abbrev hash : Text → Text
hash token = replicate 31 1 ++ token

abbrev encode : List ℕ → Text
encode bytes = b'a' ∷ []

abbrev inviter : Inviter
inviter = record { ttl = 10 }

abbrev empty : Tables
empty = record { users = []; invites = [] }

abbrev open_invite : Tables
open_invite = record {
  users = [];
  invites = (first, new_row (hash (codes "a")) (codes "a@b") 15) ∷ [];
}

create_ok :
    create ⦃u = unicode⦄ ⦃crypto = crypto⦄ ⦃sql = sqlite⦄ parse hash encode inviter
      (codes "a@b")
      (ok [])
      5
      empty
    ≡ (ok (codes "a"), open_invite)
unfolding create zorkd.Invite.addressed normalize_email zorkd.Game.SaveName.is_empty
    zorkd.Go.Space.trim_space zorkd.Go.Space.equal_fold zorkd.Base.str_eq zorkd.Invite.issued
    zorkd.Invite.Rows.create_invitation zorkd.Go.Space.to_lower_text row_by_token
    zorkd.Database.has_key
create_ok = refl

redeem-create_example :
    (user : User) × ((redeem ⦃u = unicode⦄ ⦃crypto = crypto⦄ ⦃sql = sqlite⦄ parse hash encode
        inviter
        (codes "a")
        (codes "A@B")
        (codes "xyzzy123")
        (ok salt)
        14
        (create ⦃u = unicode⦄ ⦃crypto = crypto⦄ ⦃sql = sqlite⦄ parse hash encode inviter
          (codes "a@b")
          (ok [])
          5
          empty).1
        (create ⦃u = unicode⦄ ⦃crypto = crypto⦄ ⦃sql = sqlite⦄ parse hash encode inviter
          (codes "a@b")
          (ok [])
          5
          empty).1).0
      ≡ ok user)
    × (normalize_email ⦃u = unicode⦄ parse (codes "a@b") ≡ ok user.email)
unfolding zorkd.Game.SaveName.is_empty normalize_email zorkd.Go.Space.trim_space
    zorkd.Go.Space.equal_fold zorkd.Go.Space.to_lower_text zorkd.Account.Password.hash_password
    zorkd.Account.Password.hash_with zorkd.Go.Decimal.format_int row_by_email zorkd.Database.has_key
redeem-create_example =
    redeem-create ⦃u = unicode⦄ ⦃crypto = crypto⦄ ⦃sql = sqlite⦄ parse hash encode inviter
      (codes "a@b") (codes "A@B") (codes "xyzzy123") (codes "a") row.password_hash (ok []) (ok salt)
      5 14 empty first (ap (λ (p : Result Text × Tables). p.0) create_ok) refl refl (omega arith)
      refl (λ address e. refl) refl

redeems :
    (redeem ⦃u = unicode⦄ ⦃crypto = crypto⦄ ⦃sql = sqlite⦄ parse hash encode inviter
      (codes "a")
      (codes "a@b")
      (codes "xyzzy123")
      (ok salt)
      14
      open_invite
      open_invite).0
    ≡ ok account
unfolding redeem zorkd.Invite.admitted zorkd.Invite.look_up zorkd.Game.SaveName.is_empty
    zorkd.Invite.Rows.invitation_by_token zorkd.Base.str_eq zorkd.Invite.redeemable
    zorkd.Invite.invited_account normalize_email zorkd.Go.Space.trim_space zorkd.Go.Space.equal_fold
    zorkd.Go.Space.to_lower_text zorkd.Account.Password.hash_password
    zorkd.Account.Password.hash_with zorkd.Invite.redeemed zorkd.Invite.Rows.redeem_invitation
    zorkd.Account.Users.insert_user zorkd.Account.Password.check_password_length
    zorkd.Account.Users.insert_row row_by_email zorkd.Go.Decimal.format_int zorkd.Invite.Rows.mark
    zorkd.Invite.Rows.redeem_row row_by_token zorkd.Database.has_key
redeems = refl

redeem-ok_example :
    (r : RowId × UserRow) × (n : ℕ) × (v : InviteRow) × ((redeem ⦃u = unicode⦄ ⦃crypto = crypto⦄
        ⦃sql = sqlite⦄ parse hash encode inviter
        (codes "a")
        (codes "a@b")
        (codes "xyzzy123")
        (ok salt)
        14
        open_invite
        open_invite).1.users
      ≡ r ∷ [])
    × (account ≡ user_of r.0.number r.1)
    × (row_by_email account.email [] ≡ none)
    × (normalize_email ⦃u = unicode⦄ parse (codes "a@b") ≡ ok account.email)
    × (row_by_token (hash (codes "a")) open_invite.invites ≡ some (n, v))
    × (v.email ≡ account.email)
    × (unspent v.redeemed_at ≡ true)
    × (14 < v.expires_at)
redeem-ok_example =
    redeem-ok ⦃u = unicode⦄ ⦃crypto = crypto⦄ ⦃sql = sqlite⦄ parse hash encode inviter (codes "a")
      (codes "a@b") (codes "xyzzy123") (ok salt) 14 open_invite open_invite account redeems

redeem-once_example :
    ((e : Error) × (redeem ⦃u = unicode⦄ ⦃crypto = crypto⦄ ⦃sql = sqlite⦄ parse hash encode inviter
          (codes "a")
          (codes "a@b")
          (codes "other password")
          (ok salt)
          14
          open_invite
          (redeem ⦃u = unicode⦄ ⦃crypto = crypto⦄ ⦃sql = sqlite⦄ parse hash encode inviter
            (codes "a")
            (codes "a@b")
            (codes "xyzzy123")
            (ok salt)
            14
            open_invite
            open_invite).1
        ≡ (
          err e,
          (redeem ⦃u = unicode⦄ ⦃crypto = crypto⦄ ⦃sql = sqlite⦄ parse hash encode inviter
              (codes "a")
              (codes "a@b")
              (codes "xyzzy123")
              (ok salt)
              14
              open_invite
              open_invite).1,
        )))
    × (invited ⦃u = unicode⦄ ⦃crypto = crypto⦄ ⦃sql = sqlite⦄ parse hash encode inviter
          (codes "a")
          14
          (redeem ⦃u = unicode⦄ ⦃crypto = crypto⦄ ⦃sql = sqlite⦄ parse hash encode inviter
            (codes "a")
            (codes "a@b")
            (codes "xyzzy123")
            (ok salt)
            14
            open_invite
            open_invite).1
        ≡ fail not_invited)
unfolding row_by_token
redeem-once_example =
    redeem-once ⦃u = unicode⦄ ⦃crypto = crypto⦄ ⦃sql = sqlite⦄ parse hash encode inviter (codes "a")
      (codes "a@b") (codes "xyzzy123") (ok salt) 14 open_invite open_invite
      (redeem ⦃u = unicode⦄ ⦃crypto = crypto⦄ ⦃sql = sqlite⦄ parse hash encode inviter (codes "a")
        (codes "a@b") (codes "xyzzy123") (ok salt) 14 open_invite open_invite).1
      account (refl, tt) redeems (done _) (codes "a@b") (codes "other password") (ok salt) 14
      open_invite
