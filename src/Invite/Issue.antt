-- ===== src/Invite/Issue.antt =====
-- From an invitation that is issued to the account that it makes.
use zorkd.Base.{
  subst, ◌<◌, ℕ, ◌+◌, ◌≡◌, refl, ap, sym, ◌∙◌, Bool, false, Option, none, some, List, [], ◌∷◌,
  ==_refl, Text, str_eq_refl, arith, inl, inr,
}
use zorkd.Errors.{Result, ok, err, Result-cases}
use zorkd.Go.Space.{Unicode}
use zorkd.Game.SaveName.{is_empty}
use zorkd.Database.{RowId, Sqlite, keys, has_key}
use zorkd.Account.{normalize_email}
use zorkd.Account.Password.{Crypto}
use zorkd.Account.Users.{User, UserRow, Users, user_of, insert_user}
use zorkd.Invite.Rows.{
  Invites, Tables, new_row, invitation_by_token, row_by_token, mark, redeem_row, redeem_invitation,
}
use zorkd.Invite.{
  Inviter, create, redeem, redeemed, look_up, redeemable, invited_account, admitted, addressed,
}
use zorkd.Invite.Cases.{create-cases}
use zorkd.Account.Password.{check_password_length, default_params, hash_with, hash_password}
use zorkd.Account.Users.{row_by_email, insert_row}
use zorkd.Go.Split.{join}

-- A key that no row has is marked in none, and a new row is marked alone.
mark-fresh :
    (at user n : ℕ) (rows : Invites) → has_key n (keys rows) ≡ false → (mark at user n rows).0 ≡ 0
unfolding mark has_key
mark-fresh at user n [] h = refl
mark-fresh at user n ((k, r) ∷ rows) h = ground (arith, mark-fresh at user n rows)

module _ ⦃sql : Sqlite⦄ where
  redeem_invitation-new :
      (hash : Text) (at expires : ℕ) (account : UserRow) (j k : RowId) (t : Tables)
      → at < expires
      → is_empty account.email ≡ false
      → is_empty account.password_hash ≡ false
      → row_by_email account.email t.users ≡ none
      → sql.next_row (keys t.users) ≡ some k
      → has_key j.number (keys t.invites) ≡ false
      → (redeem_invitation hash at account
          (record t { invites = (j, new_row hash account.email expires) ∷ t.invites })).0
        ≡ ok (user_of k.number account)
  unfolding redeem_invitation redeem_row insert_user insert_row row_by_token mark
  redeem_invitation-new hash at expires account j k t late a b c d fresh = ground (
    arith,
    str_eq_refl hash,
    str_eq_refl account.email,
    late,
    a,
    b,
    c,
    d,
    ==_refl j.number,
    mark-fresh at k.number j.number t.invites fresh,
  )

blank_hash : Result Text → Bool
blank_hash (ok h) = is_empty h
blank_hash (err e) = false

module _ ⦃crypto : Crypto⦄ where
  hash_password-filled :
      (password hash : Text) (salt : Result (List ℕ))
      → hash_password password salt ≡ ok hash
      → is_empty hash ≡ false
  unfolding hash_password check_password_length hash_with join is_empty blank_hash
  hash_password-filled password hash (err e) w = absurd (ground arith)
  hash_password-filled password hash (ok salt) w =
      let made : hash_with password default_params (ok salt) ≡ ok hash = ground (arith, w) in
      sym (ap blank_hash made)

module _ ⦃u : Unicode⦄ ⦃crypto : Crypto⦄ ⦃sql : Sqlite⦄ (parse_address : Text → Option Text)
    (sha256 : Text → Text) (encode : List ℕ → Text) (s : Inviter) where
  addressed-ok :
      (email : Text) (raw : Result (List ℕ)) (address token : Text)
      → addressed parse_address sha256 encode s email raw ≡ ok (address, token)
      → normalize_email parse_address email ≡ ok address
  unfolding addressed
  addressed-ok email raw address token e =
      elim (Result-cases (normalize_email parse_address email)) [
        | inr (x, p) ↦ absurd (ground arith)
        | inl (a, p) ↦ elim (Result-cases raw) [
          | inr (x, q) ↦ absurd (ground arith)
          | inl (b, q) ↦
              let same : a ≡ address = ground (arith, p, q, e) in p ∙ ap (λ (x : Text). ok x) same
        ]
      ]

  admitted-new :
      (token spelling password address hash : Text) (salt : Result (List ℕ)) (at expires : ℕ)
      (j : RowId) (rows : Invites) (users : Users)
      → is_empty token ≡ false
      → normalize_email parse_address spelling ≡ ok address
      → at < expires
      → hash_password password salt ≡ ok hash
      → admitted parse_address sha256 encode s token spelling password salt at
          (record { users = users; invites = (j, new_row (sha256 token) address expires) ∷ rows })
        ≡ ok (record { email = address; password_hash = hash })
  unfolding admitted look_up invitation_by_token row_by_token redeemable invited_account
  admitted-new token spelling password address hash salt at expires j rows users f n late h =
      ground (arith, str_eq_refl (sha256 token), str_eq_refl address, f, n, late, h)

  redeem-stored :
      (token email password : Text) (salt : Result (List ℕ)) (at : ℕ) (before t : Tables)
      (account : UserRow) (user : User)
      → admitted parse_address sha256 encode s token email password salt at before ≡ ok account
      → (redeem_invitation (sha256 token) at account t).0 ≡ ok user
      → (redeem parse_address sha256 encode s token email password salt at before t).0 ≡ ok user
  unfolding redeem redeemed
  redeem-stored token email password salt at before t account user p q =
      rw (p, redeem) (rw (q, redeemed) refl)

  -- Whoever holds a new invitation gets the account before it expires: under any spelling of the
  -- invited address, with a password that can be hashed, when the address has no account and the
  -- table of users has a free key.
  pub redeem-create :
      (email spelling password token hash : Text) (raw salt : Result (List ℕ)) (now at : ℕ)
      (t : Tables) (k : RowId)
      → (create parse_address sha256 encode s email raw now t).0 ≡ ok token
      → is_empty token ≡ false
      → normalize_email parse_address spelling ≡ normalize_email parse_address email
      → at < now + s.ttl
      → hash_password password salt ≡ ok hash
      → ((address : Text)
          → normalize_email parse_address email ≡ ok address
          → row_by_email address t.users ≡ none)
      → sql.next_row (keys t.users) ≡ some k
      → (user : User) × ((redeem parse_address sha256 encode s token spelling password salt at
            (create parse_address sha256 encode s email raw now t).1
            (create parse_address sha256 encode s email raw now t).1).0
          ≡ ok user)
        × (normalize_email parse_address email ≡ ok user.email)
  redeem-create email spelling password token hash raw salt now at t k e f n late h free room =
      elim (create-cases parse_address sha256 encode s email raw now t) [
        | inl (x, w) ↦ absurd (cc (e, ap (λ (p : Result Text × Tables). p.0) w))
        | inr (address, tok, j, p, filled, unused, fresh, w) ↦
            let same : tok ≡ token = ground (arith, e, w) in
            let named = addressed-ok email raw address tok p in
            let account : UserRow = record { email = address; password_hash = hash } in
            let t' : Tables = record t {
              invites = (j, new_row (sha256 tok) address (now + s.ttl)) ∷ t.invites;
            } in
            let admits =
              admitted-new tok spelling password address hash salt at (now + s.ttl) j t.invites
                t.users (ap is_empty same ∙ f) (n ∙ named) late h in
            let stores =
              redeem_invitation-new (sha256 tok) at (now + s.ttl) account j k t late filled
                (hash_password-filled password hash salt h) (free address named) room fresh in
            (
              user_of k.number account,
              rw w (
                  subst
                    (λ (x : Text).
                      (redeem parse_address sha256 encode s x spelling password salt at t' t').0
                      ≡ ok (user_of k.number account))
                    same
                    (redeem-stored tok spelling password salt at t' t' account
                      (user_of k.number account) admits stores)),
              named,
            )
      ]
