-- ===== src/Invite/Admission.antt =====
-- Whom a redemption admits, and what the registration form sees of a sweep.
use zorkd.Base.{
  ◌<◌, ◌≤◌, ℕ, ◌-◌, ◌≡◌, ap, sym, ◌∙◌, true, Option, none, some, List, [], ◌∷◌, if◌then◌else◌, Text,
  str_eq, eq_of_str_eq, arith, Option-cases, Bool-cases, inl, inr,
}
use zorkd.Errors.{Result, ok, errors_is, Result-cases}
use zorkd.Go.Space.{Unicode}
use zorkd.Database.{RowId, Sqlite}
use zorkd.Account.{normalize_email}
use zorkd.Account.Password.{Crypto}
use zorkd.Account.Users.{User, UserRow, user_of}
use zorkd.Account.Service.Laws.{insert_user-ok}
use zorkd.Invite.Rows.{
  InviteRow, Invites, Tables, invitation_by_token, unspent, row_by_token, is_spent, unspent_rows,
  delete_spent_invitations,
}
use zorkd.Invite.{Inviter, redeem, look_up, invited, redeemable, invited_account, admitted, sweep}
use zorkd.Invite.Used.{IsUnique}
use zorkd.Invite.Cases.{redeem-cases}
use zorkd.Invite.Spent.{row_by_token-unspent_rows}
use zorkd.Account.Password.{hash_password}
use zorkd.Account.Users.{row_by_email}

-- The row that a hash names, after a sweep.
row_by_token-kept :
    (hash : Text) (x y n : ℕ) (r : InviteRow) (rows : Invites)
    → IsUnique rows
    → row_by_token hash rows ≡ some (n, r)
    → row_by_token hash (unspent_rows x y rows)
      ≡ (if is_spent x y r.expires_at r.redeemed_at then none else some (n, r))
unfolding row_by_token unspent_rows
row_by_token-kept hash x y n r [] u e = absurd (ground arith)
row_by_token-kept hash x y n r ((k, v) ∷ rows) u e = elim (Bool-cases (str_eq v.token_hash hash)) [
  | inr p ↦ ground (arith, p, e, row_by_token-kept hash x y n r rows u.1)
  | inl p ↦
      let gone =
        row_by_token-unspent_rows hash x y rows
          (ap (λ (j : Text). row_by_token j rows) (sym (eq_of_str_eq v.token_hash hash p)) ∙ u.0) in
      ground (arith, p, e, gone)
]

module _ ⦃u : Unicode⦄ ⦃crypto : Crypto⦄ ⦃sql : Sqlite⦄ (parse_address : Text → Option Text)
    (sha256 : Text → Text) (encode : List ℕ → Text) (s : Inviter) where
  admitted-ok :
      (token email password : Text) (salt : Result (List ℕ)) (at : ℕ) (before : Tables)
      (account : UserRow)
      → admitted parse_address sha256 encode s token email password salt at before ≡ ok account
      → normalize_email parse_address email ≡ ok account.email
  unfolding admitted invited_account
  admitted-ok token email password salt at before account e =
      elim (Result-cases (look_up parse_address sha256 encode s token at before)) [
        | inr (x, p) ↦ absurd (ground arith)
        | inl (v, p) ↦ elim (Result-cases (normalize_email parse_address email)) [
          | inr (x, q) ↦ absurd (ground arith)
          | inl (address, q) ↦ elim (Result-cases (hash_password password salt)) [
            | inr (x, w) ↦ absurd (ground arith)
            | inl (hash, w) ↦
                let same : address ≡ account.email = ground (arith, p, q, w, e) in
                q ∙ ap (λ (x : Text). ok x) same
          ]
        ]
      ]

  -- A redemption that succeeds adds one account, under the address that its invitation names and the
  -- request normalizes to, which had no account before; the invitation was not spent and had not
  -- expired.
  pub redeem-ok :
      (token email password : Text) (salt : Result (List ℕ)) (at : ℕ) (before t : Tables)
      (user : User)
      → (redeem parse_address sha256 encode s token email password salt at before t).0 ≡ ok user
      → (row : RowId × UserRow) × (n : ℕ) × (r : InviteRow) × ((redeem parse_address sha256 encode s
            token email password salt at before t).1.users
          ≡ row ∷ t.users)
        × (user ≡ user_of row.0.number row.1)
        × (row_by_email user.email t.users ≡ none)
        × (normalize_email parse_address email ≡ ok user.email)
        × (row_by_token (sha256 token) t.invites ≡ some (n, r))
        × (r.email ≡ user.email)
        × (unspent r.redeemed_at ≡ true)
        × (at < r.expires_at)
  redeem-ok token email password salt at before t user e =
      elim (redeem-cases parse_address sha256 encode s token email password salt at before t) [
        | inl (x, w) ↦ absurd (cc (e, ap (λ (p : Result User × Tables). p.0) w))
        | inr (account, n, r, k, p, f, o, i, w) ↦
            let same : user ≡ user_of k.number account =
              cc (e, ap (λ (p : Result User × Tables). p.0) w) in
            let email' : user.email ≡ account.email = ap (λ (x : User). x.email) same in
            let (_, free, _) = insert_user-ok account t.users _ k i in
            (
              (k, account),
              n,
              r,
              ap (λ (p : Result User × Tables). p.1.users) w,
              same,
              ap (λ (x : Text). row_by_email x t.users) email' ∙ free,
              admitted-ok token email password salt at before account p
                  ∙ ap (λ (x : Text). ok x) (sym email'),
              f,
              eq_of_str_eq r.email account.email (ground (arith, o)) ∙ sym email',
              ground (arith, o),
              ground (arith, o),
            )
      ]

  -- A sweep is not seen by the registration form from then on.
  pub invited-sweep :
      (token : Text) (before now : ℕ) (t : Tables)
      → IsUnique t.invites
      → before ≤ now
      → invited parse_address sha256 encode s token now
          (sweep parse_address sha256 encode s before t).1
        ≡ invited parse_address sha256 encode s token now t
  unfolding invited look_up invitation_by_token redeemable errors_is sweep delete_spent_invitations
  invited-sweep token before now t h before_now =
      elim (Option-cases (row_by_token (sha256 token) t.invites)) [
        | inl p ↦
            ground (
              arith,
              p,
              row_by_token-unspent_rows (sha256 token) before (before - s.ttl) t.invites p,
            )
        | inr ((n, r), p) ↦ elim (Option-cases r.redeemed_at) [
          | inl q ↦ ground (
            arith,
            p,
            q,
            row_by_token-kept (sha256 token) before (before - s.ttl) n r t.invites h p,
          )
          | inr (x, q) ↦ ground (
            arith,
            p,
            q,
            row_by_token-kept (sha256 token) before (before - s.ttl) n r t.invites h p,
          )
        ]
      ]
