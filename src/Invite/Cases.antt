-- ===== src/Invite/Cases.antt =====
-- What the writes of an invitation do: everything or nothing.
use zorkd.Base.{
  ℕ, ◌+◌, ◌≡◌, refl, ap, ◌∙◌, true, false, ◌&&◌, not, Option, none, some, List, [], ◌∷◌, ◌==◌,
  length, Text, arith, Option-cases, Bool-cases, inl, inr, ◌⊎◌,
}
use zorkd.Errors.{Error, Result, ok, err, errors_is, not_invited, Result-cases}
use zorkd.Go.Space.{Unicode}
use zorkd.Game.SaveName.{is_empty}
use zorkd.Database.{RowId, Sqlite, keys, has_key}
use zorkd.Account.Password.{Crypto}
use zorkd.Account.Users.{User, UserRow, Users, user_of, insert_user}
use zorkd.Account.Service.Laws.{insert_user-ok}
use zorkd.Invite.Rows.{
  Invitation, InviteRow, Tables, new_row, usable, row_by_token, mark, insert_invitation,
  create_invitation, redeem_row, redeem_invitation,
}
use zorkd.Invite.{Inviter, create, redeem, redeemed, admitted, addressed, issued, as_not_invited}

module _ ⦃sql : Sqlite⦄ where
  -- What the transaction of a redemption did.
  pub redeem_invitation-cases :
      (hash : Text) (at : ℕ) (account : UserRow) (t : Tables)
      → ((e : Error) × (redeem_invitation hash at account t ≡ (err e, t)))
        ⊎ ((n : ℕ) × (r : InviteRow) × (k : RowId) × (row_by_token hash t.invites ≡ some (n, r))
            × (usable at account r ≡ true)
            × (insert_user account t.users ≡ ok (k, (k, account) ∷ t.users))
            × (redeem_invitation hash at account t ≡ (
              ok (user_of k.number account),
              record { users = (k, account) ∷ t.users; invites = (mark at k.number n t.invites).1 },
            )))
  unfolding redeem_invitation redeem_row
  redeem_invitation-cases hash at account t = elim (Option-cases (row_by_token hash t.invites)) [
    | inl p ↦ inl (not_invited ∷ [], rw (p, redeem_invitation) refl)
    | inr ((n, r), p) ↦ elim (Bool-cases (usable at account r)) [
      | inr w ↦ inl (not_invited ∷ [], rw (p, redeem_invitation) (rw w refl))
      | inl w ↦ elim (Result-cases (insert_user account t.users)) [
        | inr (e, q) ↦ inl (e, rw (p, redeem_invitation) (rw w (rw (q, redeem_row) refl)))
        | inl ((k, users), q) ↦
            let (same, _, _) = insert_user-ok account t.users users k q in
            elim (Bool-cases ((mark at k.number n t.invites).0 == 1)) [
              | inr c ↦ inl (
                not_invited ∷ [],
                rw (p, redeem_invitation) (rw w (rw (q, redeem_row) (rw c refl))),
              )
              | inl c ↦ inr (
                n,
                r,
                k,
                p,
                w,
                q ∙ ap (λ (x : Users). ok (k, x)) same,
                rw (p, redeem_invitation) (rw w (rw (q, redeem_row) (rw c (rw same refl)))),
              )
            ]
      ]
    ]
  ]

  create_invitation-cases :
      (hash : Text) (v : Invitation) (t : Tables)
      → ((e : Error) × (create_invitation hash v t ≡ (err e, t)))
        ⊎ ((k : RowId) × (is_empty v.email ≡ false)
            × (row_by_token hash t.invites ≡ none)
            × (has_key k.number (keys t.invites) ≡ false)
            × (create_invitation hash v t ≡ (
              ok tt,
              record t { invites = (k, new_row hash v.email v.expires_at) ∷ t.invites },
            )))
  unfolding create_invitation insert_invitation
  create_invitation-cases hash v t =
      elim (Bool-cases (length hash == 32 && not (is_empty v.email))) [
        | inr w ↦ inl ([], rw (w, create_invitation) refl)
        | inl w ↦ elim (Option-cases (row_by_token hash t.invites)) [
          | inr (r, p) ↦ inl ([], rw (w, create_invitation) (rw p refl))
          | inl p ↦ elim (Option-cases (sql.next_row (keys t.invites))) [
            | inl q ↦ inl ([], rw (w, create_invitation) (rw p (rw (q, insert_invitation) refl)))
            | inr (k, q) ↦ inr (
              k,
              ground (arith, w),
              p,
              sql.next_row-fresh (keys t.invites) k q,
              rw (w, create_invitation) (rw p (rw (q, insert_invitation) refl)),
            )
          ]
        ]
      ]

as_not_invited-err : {A : Type 0} (e : Error) → (x : Error) × (as_not_invited {A = A} e ≡ err x)
as_not_invited-err e = elim (Bool-cases (errors_is e not_invited)) [
  | inl p ↦ (not_invited ∷ [], rw p refl)
  | inr p ↦ (e, rw p refl)
]

module _ ⦃u : Unicode⦄ ⦃crypto : Crypto⦄ ⦃sql : Sqlite⦄ (parse_address : Text → Option Text)
    (sha256 : Text → Text) (encode : List ℕ → Text) (s : Inviter) where
  -- What a redemption did: nothing, or it added the account that was admitted and marked the
  -- invitation.
  pub redeem-cases :
      (token email password : Text) (salt : Result (List ℕ)) (at : ℕ) (before t : Tables)
      → ((e : Error) × (redeem parse_address sha256 encode s token email password salt at before t
            ≡ (err e, t)))
        ⊎ ((account : UserRow) × (n : ℕ) × (r : InviteRow) × (k : RowId) × (admitted parse_address
                sha256 encode s token email password salt at before
              ≡ ok account)
            × (row_by_token (sha256 token) t.invites ≡ some (n, r))
            × (usable at account r ≡ true)
            × (insert_user account t.users ≡ ok (k, (k, account) ∷ t.users))
            × (redeem parse_address sha256 encode s token email password salt at before t ≡ (
              ok (user_of k.number account),
              record { users = (k, account) ∷ t.users; invites = (mark at k.number n t.invites).1 },
            )))
  unfolding redeem redeemed
  redeem-cases token email password salt at before t =
      elim (Result-cases
        (admitted parse_address sha256 encode s token email password salt at before)) [
          | inr (e, p) ↦ inl (e, rw (p, redeem) refl)
          | inl (account, p) ↦ elim (redeem_invitation-cases (sha256 token) at account t) [
            | inl (e, q) ↦
                let (x, w) = as_not_invited-err {A = User} e in
                inl (x, rw (p, redeem) (rw (q, redeemed) (rw w refl)))
            | inr (n, r, k, f, w, i, q) ↦
                inr (account, n, r, k, p, f, w, i, rw (p, redeem) (rw (q, redeemed) refl))
          ]
        ]

  -- What Create did: nothing, or it added one row, under a hash that no other row has.
  pub create-cases :
      (email : Text) (raw : Result (List ℕ)) (now : ℕ) (t : Tables)
      → ((e : Error) × (create parse_address sha256 encode s email raw now t ≡ (err e, t)))
        ⊎ ((address token : Text) × (k : RowId) × (addressed parse_address sha256 encode s email raw
              ≡ ok (address, token))
            × (is_empty address ≡ false)
            × (row_by_token (sha256 token) t.invites ≡ none)
            × (has_key k.number (keys t.invites) ≡ false)
            × (create parse_address sha256 encode s email raw now t ≡ (
              ok token,
              record t { invites = (k, new_row (sha256 token) address (now + s.ttl)) ∷ t.invites },
            )))
  unfolding create issued
  create-cases email raw now t =
      elim (Result-cases (addressed parse_address sha256 encode s email raw)) [
        | inr (e, p) ↦ inl (e, rw (p, create) refl)
        | inl ((address, token), p) ↦
            let v : Invitation = record {
              email = address;
              expires_at = now + s.ttl;
              redeemed_at = none;
              user_id = [];
            } in
            elim (create_invitation-cases (sha256 token) v t) [
              | inl (e, q) ↦ inl (e, rw (p, create) (rw (q, issued) refl))
              | inr (k, a, h, f, q) ↦
                  inr (address, token, k, p, a, h, f, rw (p, create) (rw (q, issued) refl))
            ]
      ]
