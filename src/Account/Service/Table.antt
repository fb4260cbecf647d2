-- ===== src/Account/Service/Table.antt =====
-- The table of users under registrations.
use zorkd.Base.{
  ◌⊎◌, ℕ, ◌≡◌, refl, false, Option, none, List, [], ◌∷◌, length, Text, arith, inl, inr, ==_refl,
}
use zorkd.Errors.{Error, Result, ok, err, Result-cases}
use zorkd.Go.Space.{Unicode}
use zorkd.Go.Decimal.{parse_positive-format_int}
use zorkd.Database.{RowId, Sqlite, find, has_key, keys}
use zorkd.Account.Password.{Crypto, decode_hash, verify_password}
use zorkd.Account.Users.{User, UserRow, Users, user_of, row_by_email, user_by_id}
use zorkd.Account.Service.{register, user}
use zorkd.Account.Service.Laws.{Readable, credentials-ok, register-cases, insert_user-ok}

module _ ⦃crypto : Crypto⦄ where
  -- No two accounts share an address or a key, and every stored hash can be read.
  abbrev pub IsAccounts : Users → Type 0
  IsAccounts [] = Unit
  IsAccounts ((k, r) ∷ users) =
      (row_by_email r.email users ≡ none)
      × (has_key k.number (keys users) ≡ false)
      × Readable r.password_hash
      × IsAccounts users

  pub verify_password-Readable :
      (hash password : Text) → verify_password hash password ≡ ok tt → Readable hash
  unfolding verify_password
  verify_password-Readable hash password e = elim (Result-cases (decode_hash hash)) [
    | inl p ↦ p
    | inr (x, p) ↦ absurd (ground arith)
  ]

module _ ⦃u : Unicode⦄ ⦃crypto : Crypto⦄ ⦃sql : Sqlite⦄ (parse_address : Text → Option Text) where
  -- A registration keeps addresses and keys unique and every stored hash readable, for a salt of
  -- sixteen bytes.
  register-IsAccounts :
      (email password : Text) (salt : List ℕ) (users : Users)
      → length salt ≡ 16
      → IsAccounts users
      → IsAccounts (register parse_address email password (ok salt) users).1
  register-IsAccounts email password salt users l h =
      elim (register-cases parse_address email password (ok salt) users) [
        | inl (x, w) ↦ rw w h
        | inr (r, k, c, i, w) ↦
            let (_, verified) = credentials-ok parse_address email password salt r l c in
            let (_, address, key) = insert_user-ok r users ((k, r) ∷ users) k i in
            rw w (address, key, verify_password-Readable r.password_hash password verified, h)
      ]

  -- A registration either fails and leaves the users as they were, or adds one account, which is then found
  -- under its identifier.
  user-register :
      (email password : Text) (salt : Result (List ℕ)) (users : Users)
      → ((e : Error) × (register parse_address email password salt users ≡ (err e, users)))
        ⊎ ((account : User) × (row : RowId × UserRow) × (register parse_address email password salt
                users
              ≡ (ok account, row ∷ users))
            × (user account.id (row ∷ users) ≡ ok account))
  unfolding user user_by_id find
  user-register email password salt users =
      elim (register-cases parse_address email password salt users) [
        | inl (x, w) ↦ inl (x, w)
        | inr (r, k, c, i, w) ↦ inr (
          user_of k.number r,
          (k, r),
          w,
          rw (parse_positive-format_int k.number k.positive k.fits, user, user_by_id)
              (rw (==_refl k.number, find) refl),
        )
      ]
