-- ===== src/Invite/Rows.antt =====
-- internal/database/invitations.go: the statements on the table invitations, whose schema keeps
-- token hashes of 32 bytes unique and addresses not empty.
use zorkd.Base.{
  ℕ, suc, ◌-◌, Bool, true, false, ◌&&◌, not, Option, none, some, [], ◌∷◌, ltb, ◌==◌, if◌then◌else◌,
  length, Text, str_eq,
}
use zorkd.Errors.{Result, ok, err, fail, refuse, not_invited}
use zorkd.Go.Decimal.{format_int}
use zorkd.Game.SaveName.{is_empty}
use zorkd.Game.Store.Calls.{Action}
use zorkd.Database.{RowId, Rows, keys, Sqlite}
use zorkd.Account.Users.{User, UserRow, Users, user_of, insert_user}

-- `redeemed_at` is none for the zero time.
pub record Invitation : Type 0 where
  pub email : Text
  pub expires_at : ℕ
  pub redeemed_at : Option ℕ
  pub user_id : Text

-- A row of the table invitations.
pub record InviteRow : Type 0 where
  pub token_hash : Text
  pub email : Text
  pub expires_at : ℕ
  pub redeemed_at : Option ℕ
  pub user_id : Option ℕ

abbrev pub Invites : Type 0
Invites = Rows InviteRow

pub record Tables : Type 0 where
  pub users : Users
  pub invites : Invites

-- time.Time.IsZero of a redemption, and `redeemed_at IS NULL`.
abbrev pub unspent : Option ℕ → Bool
unspent none = true
unspent (some t) = false

-- The column user_id, read.
abbrev pub user_text : Option ℕ → Text
user_text none = []
user_text (some n) = format_int n

-- readInvitation
abbrev pub read_invitation : InviteRow → Invitation
read_invitation r = record {
  email = r.email;
  expires_at = r.expires_at;
  redeemed_at = r.redeemed_at;
  user_id = user_text r.user_id;
}

-- WHERE token_hash = ?
unfoldable pub row_by_token : Text → Invites → Option (ℕ × InviteRow)
row_by_token hash [] = none
row_by_token hash ((k, r) ∷ rows) =
    let rest = row_by_token hash rows in
    if str_eq r.token_hash hash then some (k.number, r) else rest

unfoldable pub invitation_by_token : Text → Tables → Result Invitation
unfolding row_by_token
invitation_by_token hash t = elim (row_by_token hash t.invites) [
  | none ↦ fail not_invited
  | some (_, r) ↦ ok (read_invitation r)
]

-- UPDATE invitations SET redeemed_at = ?, user_id = ? WHERE id = ? AND redeemed_at IS NULL, and how
-- many rows it changed.
unfoldable pub mark : ℕ → ℕ → ℕ → Invites → ℕ × Invites
mark at user n [] = (0, [])
mark at user n ((k, r) ∷ rows) =
    let (changes, rest) = mark at user n rows in
    if k.number == n && unspent r.redeemed_at
    then (suc changes, (k, record r { redeemed_at = some at; user_id = some user }) ∷ rest)
    else (changes, (k, r) ∷ rest)

-- DELETE FROM invitations WHERE (redeemed_at IS NULL AND expires_at < ?)
--   OR (redeemed_at IS NOT NULL AND redeemed_at < ?)
abbrev pub is_spent : ℕ → ℕ → ℕ → Option ℕ → Bool
is_spent expired_before redeemed_before expires_at none = ltb expires_at expired_before
is_spent expired_before redeemed_before expires_at (some t) = ltb t redeemed_before

unfoldable pub unspent_rows : ℕ → ℕ → Invites → Invites
unspent_rows expired redeemed [] = []
unspent_rows expired redeemed ((k, r) ∷ rows) =
    let rest = unspent_rows expired redeemed rows in
    if is_spent expired redeemed r.expires_at r.redeemed_at then rest else (k, r) ∷ rest

unfoldable pub delete_spent_invitations : ℕ → ℕ → Action Tables ℕ
delete_spent_invitations expired redeemed t =
    let kept = unspent_rows expired redeemed t.invites in
    (ok (length t.invites - length kept), record t { invites = kept })

-- Whether a row can be redeemed for an account, in the transaction of Redeem.
abbrev pub usable : ℕ → UserRow → InviteRow → Bool
usable at account r = unspent r.redeemed_at && ltb at r.expires_at && str_eq r.email account.email

-- The row of a new invitation.
abbrev pub new_row : Text → Text → ℕ → InviteRow
new_row hash email expires = record {
  token_hash = hash;
  email = email;
  expires_at = expires;
  redeemed_at = none;
  user_id = none;
}

module _ ⦃sql : Sqlite⦄ where
  unfoldable pub insert_invitation :
      Text → Invitation → Option RowId → Tables → Result (Unit {0}) × Tables
  insert_invitation hash v none t = (refuse, t)
  insert_invitation hash v (some k) t =
      (ok tt, record t { invites = (k, new_row hash v.email v.expires_at) ∷ t.invites })

  unfoldable pub create_invitation : Text → Invitation → Action Tables (Unit {0})
  unfolding insert_invitation
  create_invitation hash v t =
      if length hash == 32 && not (is_empty v.email)
      then elim (row_by_token hash t.invites) [
        | some _ ↦ (refuse, t)
        | none ↦ insert_invitation hash v (sql.next_row (keys t.invites)) t
      ]
      else (refuse, t)

  -- The writes of the transaction: what fails is rolled back.
  unfoldable pub redeem_row : ℕ → UserRow → ℕ → Tables → Result User × Tables
  unfolding mark
  redeem_row at account n t = elim (insert_user account t.users) [
    | err e ↦ (err e, t)
    | ok (k, users) ↦
        let (changes, invites) = mark at k.number n t.invites in
        if changes == 1
        then (ok (user_of k.number account), record { users = users; invites = invites })
        else (fail not_invited, t)
  ]

  -- Redeem
  unfoldable pub redeem_invitation : Text → ℕ → UserRow → Action Tables User
  unfolding redeem_row
  redeem_invitation hash at account t = elim (row_by_token hash t.invites) [
    | none ↦ (fail not_invited, t)
    | some (n, r) ↦ if usable at account r then redeem_row at account n t else (fail not_invited, t)
  ]
