-- ===== src/Invite/Used.antt =====
-- Rows of the table invitations under the statements that write it.
use zorkd.Base.{
  ℕ, ◌≡◌, refl, ap, sym, ◌∙◌, false, ◌&&◌, none, some, [], ◌∷◌, ◌==◌, Text, str_eq, str_eq_iff,
  eq_of_str_eq, arith, Option-cases, Bool-cases, inl, inr, All,
}
use zorkd.Errors.{fail, not_invited}
use zorkd.Database.{RowId, Sqlite}
use zorkd.Account.Users.{UserRow}
use zorkd.Invite.Rows.{
  InviteRow, Invites, Tables, unspent, row_by_token, mark, is_spent, unspent_rows,
  redeem_invitation,
}

-- Every invitation under the hash has been redeemed.
abbrev pub IsUsed : Text → Invites → Type 0
IsUsed hash rows =
    All (λ (e : RowId × InviteRow). e.1.token_hash ≡ hash → unspent e.1.redeemed_at ≡ false) rows

-- Token hashes are unique.
abbrev pub IsUnique : Invites → Type 0
IsUnique [] = Unit
IsUnique ((k, r) ∷ rows) = (row_by_token r.token_hash rows ≡ none) × IsUnique rows

-- No invitation under the hash.
pub row_by_token-none :
    (hash : Text) (rows : Invites) → row_by_token hash rows ≡ none → IsUsed hash rows
unfolding row_by_token
row_by_token-none hash [] e = tt
row_by_token-none hash ((k, r) ∷ rows) e = (
  λ h. absurd (ground (arith, str_eq_iff r.token_hash hash, h)),
  row_by_token-none hash rows (ground arith),
)

pub row_by_token-used :
    (hash : Text) (rows : Invites) (n : ℕ) (r : InviteRow)
    → IsUsed hash rows
    → row_by_token hash rows ≡ some (n, r)
    → unspent r.redeemed_at ≡ false
unfolding row_by_token
row_by_token-used hash [] n r h e = absurd (ground arith)
row_by_token-used hash ((k, x) ∷ rows) n r h e = elim (Bool-cases (str_eq x.token_hash hash)) [
  | inl p ↦
      let same : r ≡ x = ground (arith, p, e) in
      ap (λ (y : InviteRow). unspent y.redeemed_at) same ∙ h.0 (eq_of_str_eq x.token_hash hash p)
  | inr p ↦ row_by_token-used hash rows n r h.1 (ground (arith, p, e))
]

pub IsUsed-mark :
    (hash : Text) (at user n : ℕ) (rows : Invites)
    → IsUsed hash rows
    → IsUsed hash (mark at user n rows).1
unfolding mark
IsUsed-mark hash at user n [] h = tt
IsUsed-mark hash at user n ((k, r) ∷ rows) h =
    elim (Bool-cases (k.number == n && unspent r.redeemed_at)) [
      | inl p ↦ rw p (λ _. refl, IsUsed-mark hash at user n rows h.1)
      | inr p ↦ rw p (h.0, IsUsed-mark hash at user n rows h.1)
    ]

pub IsUsed-unspent_rows :
    (hash : Text) (x y : ℕ) (rows : Invites)
    → IsUsed hash rows
    → IsUsed hash (unspent_rows x y rows)
unfolding unspent_rows
IsUsed-unspent_rows hash x y [] h = tt
IsUsed-unspent_rows hash x y ((k, r) ∷ rows) h =
    elim (Bool-cases (is_spent x y r.expires_at r.redeemed_at)) [
      | inl p ↦ rw p (IsUsed-unspent_rows hash x y rows h.1)
      | inr p ↦ rw p (h.0, IsUsed-unspent_rows hash x y rows h.1)
    ]

-- Marking the row that a hash names uses it up.
pub mark-IsUsed :
    (hash : Text) (at user n : ℕ) (r : InviteRow) (rows : Invites)
    → IsUnique rows
    → row_by_token hash rows ≡ some (n, r)
    → IsUsed hash (mark at user n rows).1
unfolding mark row_by_token
mark-IsUsed hash at user n r [] u e = tt
mark-IsUsed hash at user n r ((k, x) ∷ rows) u e =
    let rest : IsUsed hash (mark at user n rows).1 = elim (Bool-cases (str_eq x.token_hash hash)) [
      | inl p ↦ IsUsed-mark hash at user n rows (
          row_by_token-none hash rows
            (ap (λ (j : Text). row_by_token j rows) (sym (eq_of_str_eq x.token_hash hash p)) ∙ u.0))
      | inr p ↦ mark-IsUsed hash at user n r rows u.1 (ground (arith, p, e))
    ] in
    elim (Bool-cases (k.number == n && unspent x.redeemed_at)) [
      | inl p ↦ rw p (λ _. refl, rest)
      | inr p ↦ rw p (λ h. ground (arith, p, e, str_eq_iff x.token_hash hash, h), rest)
    ]

module _ ⦃sql : Sqlite⦄ where
  pub redeem_invitation-used :
      (hash : Text) (at : ℕ) (account : UserRow) (t : Tables)
      → IsUsed hash t.invites
      → redeem_invitation hash at account t ≡ (fail not_invited, t)
  unfolding redeem_invitation
  redeem_invitation-used hash at account t h = elim (Option-cases (row_by_token hash t.invites)) [
    | inl p ↦ rw (p, redeem_invitation) refl
    | inr ((n, r), p) ↦
        let used = row_by_token-used hash t.invites n r h p in
        rw (p, redeem_invitation) (rw used refl)
  ]
