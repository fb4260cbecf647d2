-- ===== src/Invite/Spent.antt =====
-- What has been redeemed stays redeemed: one invitation makes one account.
use zorkd.Base.{
  ℕ, ◌-◌, ◌≡◌, ◌≢◌, refl, ap, ◌&&◌, Option, none, List, [], ◌∷◌, ◌==◌, Text, arith, Option-cases,
  Bool-cases, inl, inr,
}
use zorkd.Errors.{Error, Result, ok, err, fail, errors_is, not_invited}
use zorkd.Go.Space.{Unicode}
use zorkd.Game.SaveName.{is_empty}
use zorkd.Database.{Sqlite}
use zorkd.Account.Password.{Crypto}
use zorkd.Account.Users.{User, Users}
use zorkd.Invite.Rows.{
  Invites, Tables, invitation_by_token, unspent, row_by_token, mark, is_spent, unspent_rows,
  delete_spent_invitations,
}
use zorkd.Invite.{Inviter, create, redeem, look_up, invited, redeemable, addressed, sweep}
use zorkd.Invite.Used.{
  IsUsed, IsUnique, row_by_token-used, IsUsed-mark, IsUsed-unspent_rows, mark-IsUsed,
}
use zorkd.Invite.Cases.{redeem-cases, create-cases}

row_by_token-mark :
    (hash : Text) (at user n : ℕ) (rows : Invites)
    → row_by_token hash rows ≡ none
    → row_by_token hash (mark at user n rows).1 ≡ none
unfolding mark row_by_token
row_by_token-mark hash at user n [] e = refl
row_by_token-mark hash at user n ((k, r) ∷ rows) e =
    ground (arith, row_by_token-mark hash at user n rows)

IsUnique-mark : (at user n : ℕ) (rows : Invites) → IsUnique rows → IsUnique (mark at user n rows).1
unfolding mark
IsUnique-mark at user n [] h = tt
IsUnique-mark at user n ((k, r) ∷ rows) h =
    let free = row_by_token-mark r.token_hash at user n rows h.0 in
    let tail = IsUnique-mark at user n rows h.1 in
    elim (Bool-cases (k.number == n && unspent r.redeemed_at)) [
      | inl p ↦ rw p (free, tail)
      | inr p ↦ rw p (free, tail)
    ]

pub row_by_token-unspent_rows :
    (hash : Text) (x y : ℕ) (rows : Invites)
    → row_by_token hash rows ≡ none
    → row_by_token hash (unspent_rows x y rows) ≡ none
unfolding unspent_rows row_by_token
row_by_token-unspent_rows hash x y [] e = refl
row_by_token-unspent_rows hash x y ((k, r) ∷ rows) e =
    ground (arith, row_by_token-unspent_rows hash x y rows)

pub IsUnique-unspent_rows :
    (x y : ℕ) (rows : Invites) → IsUnique rows → IsUnique (unspent_rows x y rows)
unfolding unspent_rows
IsUnique-unspent_rows x y [] h = tt
IsUnique-unspent_rows x y ((k, r) ∷ rows) h =
    elim (Bool-cases (is_spent x y r.expires_at r.redeemed_at)) [
      | inl p ↦ rw p (IsUnique-unspent_rows x y rows h.1)
      | inr p ↦
          rw p (
            row_by_token-unspent_rows r.token_hash x y rows h.0,
            IsUnique-unspent_rows x y rows h.1,
          )
    ]

module _ ⦃u : Unicode⦄ ⦃crypto : Crypto⦄ ⦃sql : Sqlite⦄ (parse_address : Text → Option Text)
    (sha256 : Text → Text) (encode : List ℕ → Text) (s : Inviter) where
  -- What can happen to the tables, but for an invitation under one hash: invitations are issued,
  -- redeemed and swept, and accounts change.
  pub data Step (hash : Text) : Tables → Tables → Type 0 where
    issuing :
        (t : Tables) (email : Text) (raw : Result (List ℕ)) (now : ℕ)
        → ((address token : Text)
            → addressed parse_address sha256 encode s email raw ≡ ok (address, token)
            → sha256 token ≢ hash)
        → Step hash t (create parse_address sha256 encode s email raw now t).1
    redeeming :
        (t before : Tables) (token email password : Text) (salt : Result (List ℕ)) (at : ℕ)
        → Step hash t (redeem parse_address sha256 encode s token email password salt at before t).1
    sweeping : (t : Tables) (now : ℕ) → Step hash t (sweep parse_address sha256 encode s now t).1
    registering : (t : Tables) (users : Users) → Step hash t (record t { users = users })

  pub data Steps (hash : Text) : Tables → Tables → Type 0 where
    done : (t : Tables) → Steps hash t t
    next : (a b c : Tables) → Step hash a b → Steps hash b c → Steps hash a c

  -- Whatever issues, redeems and sweeps invitations keeps their token hashes unique.
  Step-IsUnique :
      (hash : Text) (a b : Tables) → Step hash a b → IsUnique a.invites → IsUnique b.invites
  unfolding sweep delete_spent_invitations
  Step-IsUnique hash _ _ (issuing t email raw now f) h =
      elim (create-cases parse_address sha256 encode s email raw now t) [
        | inl (e, w) ↦ rw w h
        | inr (address, token, k, p, n, free, i, w) ↦ rw w (free, h)
      ]
  Step-IsUnique hash _ _ (redeeming t before token email password salt at) h =
      elim (redeem-cases parse_address sha256 encode s token email password salt at before t) [
        | inl (e, w) ↦ rw w h
        | inr (account, n, r, k, p, f, o, i, w) ↦ rw w (IsUnique-mark at k.number n t.invites h)
      ]
  Step-IsUnique hash _ _ (sweeping t now) h = IsUnique-unspent_rows now (now - s.ttl) t.invites h
  Step-IsUnique hash _ _ (registering t users) h = h

  Step-IsUsed :
      (hash : Text) (a b : Tables) → Step hash a b → IsUsed hash a.invites → IsUsed hash b.invites
  unfolding sweep delete_spent_invitations
  Step-IsUsed hash _ _ (issuing t email raw now f) h =
      elim (create-cases parse_address sha256 encode s email raw now t) [
        | inl (e, w) ↦ rw w h
        | inr (address, token, k, p, n, free, i, w) ↦
            rw w (λ same. absurd (f address token p same), h)
      ]
  Step-IsUsed hash _ _ (redeeming t before token email password salt at) h =
      elim (redeem-cases parse_address sha256 encode s token email password salt at before t) [
        | inl (e, w) ↦ rw w h
        | inr (account, n, r, k, p, f, o, i, w) ↦ rw w (IsUsed-mark hash at k.number n t.invites h)
      ]
  Step-IsUsed hash _ _ (sweeping t now) h = IsUsed-unspent_rows hash now (now - s.ttl) t.invites h
  Step-IsUsed hash _ _ (registering t users) h = h

  Steps-IsUsed :
      (hash : Text) (a b : Tables) → Steps hash a b → IsUsed hash a.invites → IsUsed hash b.invites
  Steps-IsUsed hash _ _ (done t) h = h
  Steps-IsUsed hash _ _ (next a b c x xs) h = Steps-IsUsed hash b c xs (Step-IsUsed hash a b x h)

  invited-used :
      (token : Text) (now : ℕ) (t : Tables)
      → IsUsed (sha256 token) t.invites
      → invited parse_address sha256 encode s token now t ≡ fail not_invited
  unfolding invited look_up invitation_by_token redeemable errors_is
  invited-used token now t h = elim (Bool-cases (is_empty token)) [
    | inl p ↦ rw p refl
    | inr p ↦ elim (Option-cases (row_by_token (sha256 token) t.invites)) [
      | inl q ↦ rw p (rw (q, invitation_by_token) refl)
      | inr ((n, r), q) ↦ rw p (
          rw (q, invitation_by_token)
            (rw (row_by_token-used (sha256 token) t.invites n r h q, redeemable) refl))
    ]
  ]

  redeem-used :
      (token email password : Text) (salt : Result (List ℕ)) (at : ℕ) (before t : Tables)
      → IsUsed (sha256 token) t.invites
      → (e : Error) × (redeem parse_address sha256 encode s token email password salt at before t
          ≡ (err e, t))
  redeem-used token email password salt at before t h =
      elim (redeem-cases parse_address sha256 encode s token email password salt at before t) [
        | inl p ↦ p
        | inr (account, n, r, k, p, f, o, i, w) ↦
            absurd (ground (arith, row_by_token-used (sha256 token) t.invites n r h f, o))
      ]

  -- An invitation is of no use once it was redeemed, whatever is issued under other hashes, redeemed
  -- or swept meanwhile: the registration form does not find it, and no attempt to redeem it succeeds
  -- or changes anything, not even one that looked it up before it was spent.
  pub redeem-once :
      (token email password : Text) (salt : Result (List ℕ)) (at : ℕ) (before a b : Tables)
      (user : User)
      → IsUnique a.invites
      → (redeem parse_address sha256 encode s token email password salt at before a).0 ≡ ok user
      → Steps
          (sha256 token)
          (redeem parse_address sha256 encode s token email password salt at before a).1
          b
      → (email' password' : Text) (salt' : Result (List ℕ)) (at' : ℕ) (before' : Tables)
      → ((e : Error) × (redeem parse_address sha256 encode s token email' password' salt' at'
              before' b
            ≡ (err e, b)))
        × (invited parse_address sha256 encode s token at' b ≡ fail not_invited)
  redeem-once token email password salt at before a b user u e steps email' password' salt' at'
        before' =
      elim (redeem-cases parse_address sha256 encode s token email password salt at before a) [
        | inl (x, w) ↦ absurd (cc (e, ap (λ (p : Result User × Tables). p.0) w))
        | inr (account, n, r, k, p, f, o, i, w) ↦
            let used : IsUsed (sha256 token) b.invites =
              Steps-IsUsed (sha256 token) _ b steps
                (rw w (mark-IsUsed (sha256 token) at k.number n r a.invites u f)) in
            (
              redeem-used token email' password' salt' at' before' b used,
              invited-used token at' b used,
            )
      ]
