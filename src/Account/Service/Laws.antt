-- ===== src/Account/Service/Laws.antt =====
-- Who a login identifies, and what a registration leaves behind.
use zorkd.Base.{
  ℕ, ◌≡◌, refl, ap, sym, ◌∙◌, true, false, Option, none, some, List, [], ◌∷◌, length, Text, str_eq,
  str_eq_refl, arith, Option-cases, Bool-cases, inl, inr, ◌⊎◌, All,
}
use zorkd.Errors.{
  Error, Result, ok, err, errors_is, invalid_credentials, user_not_found, Result-cases,
}
use zorkd.Go.Space.{Unicode}
use zorkd.Database.{RowId, Sqlite, has_key, keys}
use zorkd.Account.{normalize_email}
use zorkd.Account.Password.{
  Crypto, HashParams, default_params, check_password_length, hash_password, decode_hash,
  verify_password,
}
use zorkd.Account.Password.Verify.{verify_password-hash_with, IsParams}
use zorkd.Account.Users.{
  User, Account, UserRow, Users, user_of, row_by_email, user_by_email, insert_row, insert_user,
  create_user,
}
use zorkd.Account.Service.{credentials, register, identify, authenticate}

pub default_params-IsParams : IsParams default_params
default_params-IsParams = record {
  memory_pos = omega arith;
  memory_fits = omega arith;
  time_pos = omega arith;
  time_fits = omega arith;
  threads_pos = omega arith;
  threads_fits = omega arith;
  key_pos = omega arith;
}

module _ ⦃crypto : Crypto⦄ where
  verify_password-hash_password :
      (password hash : Text) (salt : List ℕ)
      → length salt ≡ 16
      → hash_password password (ok salt) ≡ ok hash
      → verify_password hash password ≡ ok tt
  unfolding hash_password check_password_length
  verify_password-hash_password password hash salt l e =
      verify_password-hash_with password default_params salt hash default_params-IsParams l
        (omega arith) (ground (arith, e))

  -- A stored hash that VerifyPassword can read.
  abbrev pub Readable : Text → Type 0
  Readable hash = (h : HashParams × List ℕ × List ℕ) × (decode_hash hash ≡ ok h)

  identify-fails :
      (password : Text) (a : Account) (e : Error)
      → Readable a.password_hash
      → identify password a ≡ err e
      → e ≡ invalid_credentials ∷ []
  unfolding identify verify_password errors_is
  identify-fails password a e (h, r) w = ground (arith, r)

  user_by_email-Readable :
      (address : Text) (users : Users) (a : Account)
      → All (λ x. Readable x.1.password_hash) users
      → user_by_email address users ≡ ok a
      → Readable a.password_hash
  unfolding user_by_email row_by_email
  user_by_email-Readable address [] a h e = absurd (ground arith)
  user_by_email-Readable address ((k, r) ∷ users) a h e =
      elim (Bool-cases (str_eq r.email address)) [
        | inl p ↦
            let (v, q) = h.0 in
            let same : a.password_hash ≡ r.password_hash = ground (arith, p, e) in
            (v, ap decode_hash same ∙ q)
        | inr p ↦ user_by_email-Readable address users a h.1 (ground (arith, p))
      ]

user_by_email-err :
    (address : Text) (users : Users) (e : Error)
    → user_by_email address users ≡ err e
    → errors_is e user_not_found ≡ true
unfolding user_by_email errors_is
user_by_email-err address users e w = elim (Option-cases (row_by_email address users)) [
  | inl p ↦ ground (arith, p, w)
  | inr (r, p) ↦ absurd (ground arith)
]

module _ ⦃sql : Sqlite⦄ where
  -- A row that was inserted is the only one under its address, and its key was free.
  pub insert_user-ok :
      (r : UserRow) (users users' : Users) (k : RowId)
      → insert_user r users ≡ ok (k, users')
      → (users' ≡ (k, r) ∷ users)
        × (row_by_email r.email users ≡ none)
        × (has_key k.number (keys users) ≡ false)
  unfolding insert_user insert_row
  insert_user-ok r users users' k e = elim (Option-cases (row_by_email r.email users)) [
    | inr (row, p) ↦ absurd (ground arith)
    | inl p ↦ elim (Option-cases (sql.next_row (keys users))) [
      | inl q ↦ absurd (ground arith)
      | inr (j, q) ↦
          let same : j ≡ k = ground arith in
          (ground arith, p, sql.next_row-fresh (keys users) k (q ∙ ap (λ (i : RowId). some i) same))
    ]
  ]

module _ ⦃u : Unicode⦄ ⦃crypto : Crypto⦄ ⦃sql : Sqlite⦄ (parse_address : Text → Option Text) where
  pub credentials-ok :
      (email password : Text) (salt : List ℕ) (r : UserRow)
      → length salt ≡ 16
      → credentials parse_address email password (ok salt) ≡ ok r
      → (normalize_email parse_address email ≡ ok r.email)
        × (verify_password r.password_hash password ≡ ok tt)
  unfolding credentials
  credentials-ok email password salt r l e =
      elim (Result-cases (normalize_email parse_address email)) [
        | inr (_, p) ↦ absurd (ground arith)
        | inl (address, p) ↦ elim (Result-cases (check_password_length password)) [
          | inr (_, q) ↦ absurd (ground arith)
          | inl (_, q) ↦ elim (Result-cases (hash_password password (ok salt))) [
            | inr (_, w) ↦ absurd (ground arith)
            | inl (hash, w) ↦
                let same : record { email = address; password_hash = hash } ≡ r = ground arith in
                (
                  p ∙ ap (λ (x : UserRow). ok x.email) same,
                  ap (λ (x : UserRow). verify_password x.password_hash password) (sym same)
                      ∙ verify_password-hash_password password hash salt l w,
                )
          ]
        ]
      ]

  -- What a registration did.
  pub register-cases :
      (email password : Text) (salt : Result (List ℕ)) (users : Users)
      → ((e : Error) × (register parse_address email password salt users ≡ (err e, users)))
        ⊎ ((r : UserRow) × (k : RowId) × (credentials parse_address email password salt ≡ ok r)
            × (insert_user r users ≡ ok (k, (k, r) ∷ users))
            × (register parse_address email password salt users
                ≡ (ok (user_of k.number r), (k, r) ∷ users)))
  unfolding register create_user
  register-cases email password salt users =
      elim (Result-cases (credentials parse_address email password salt)) [
        | inr (e, p) ↦ inl (e, rw (p, register) refl)
        | inl (r, p) ↦ elim (Result-cases (insert_user r users)) [
          | inr (e, q) ↦ inl (e, rw (p, register) (rw (q, create_user) refl))
          | inl ((k, users'), q) ↦
              let (s, _, _) = insert_user-ok r users users' k q in
              inr (
                r,
                k,
                p,
                q ∙ ap (λ (x : Users). ok (k, x)) s,
                rw (p, register) (rw (q, create_user) (rw s refl)),
              )
        ]
      ]

  authenticate-found :
      (email address password : Text) (users : Users) (a : Account)
      → normalize_email parse_address email ≡ ok address
      → user_by_email address users ≡ ok a
      → authenticate parse_address email password users ≡ identify password a
  unfolding authenticate
  authenticate-found email address password users a n f = rw (n, authenticate) (rw f refl)

  -- A user who registered is logged in by the same password, under any spelling of the address that
  -- normalizes to the one registered, for a salt of sixteen bytes.
  pub authenticate-register :
      (email spelling password : Text) (salt : List ℕ) (users : Users) (account : User)
      → length salt ≡ 16
      → normalize_email parse_address spelling ≡ normalize_email parse_address email
      → (register parse_address email password (ok salt) users).0 ≡ ok account
      → authenticate parse_address spelling password
          (register parse_address email password (ok salt) users).1
        ≡ ok account
  unfolding user_by_email row_by_email identify
  authenticate-register email spelling password salt users account l n e =
      elim (register-cases email password (ok salt) users) [
        | inl (x, w) ↦ absurd (cc (e, ap (λ (p : Result User × Users). p.0) w))
        | inr (r, k, c, i, w) ↦
            let (address, verified) = credentials-ok email password salt r l c in
            let found : user_by_email r.email ((k, r) ∷ users)
                ≡ ok (record { user = user_of k.number r; password_hash = r.password_hash }) =
              rw (str_eq_refl r.email, user_by_email) refl in
            rw w (
              authenticate-found spelling r.email password _ _ (n ∙ address) found
              ∙ (rw (verified, identify) (sym (ap (λ (p : Result User × Users). p.0) w) ∙ e)))
      ]

  -- The account that a login found, and read.
  pub authenticate-account :
      (email password : Text) (users : Users) (account : User)
      → authenticate parse_address email password users ≡ ok account
      → (address : Text) × (a : Account) × (normalize_email parse_address email ≡ ok address)
        × (user_by_email address users ≡ ok a)
        × (verify_password a.password_hash password ≡ ok tt)
        × (a.user ≡ account)
  unfolding authenticate identify
  authenticate-account email password users account e =
      elim (Result-cases (normalize_email parse_address email)) [
        | inr (_, p) ↦ absurd (ground arith)
        | inl (address, p) ↦ elim (Result-cases (user_by_email address users)) [
          | inr (x, q) ↦ absurd (ground arith)
          | inl (a, q) ↦ elim (Result-cases (verify_password a.password_hash password)) [
            | inr (x, v) ↦ absurd (ground arith)
            | inl (_, v) ↦ (address, a, p, q, v, ground arith)
          ]
        ]
      ]

  -- Where every stored hash can be read, every login that fails does so with one error: an address
  -- that does not parse, one that has no account and a wrong password look alike.
  pub authenticate-fails :
      (email password : Text) (users : Users) (e : Error)
      → All (λ x. Readable x.1.password_hash) users
      → authenticate parse_address email password users ≡ err e
      → e ≡ invalid_credentials ∷ []
  unfolding authenticate identify
  authenticate-fails email password users e h w =
      elim (Result-cases (normalize_email parse_address email)) [
        | inr (_, p) ↦ ground arith
        | inl (address, p) ↦ elim (Result-cases (user_by_email address users)) [
          | inr (x, q) ↦ ground (arith, user_by_email-err address users x q)
          | inl (a, q) ↦
              identify-fails password a e (user_by_email-Readable address users a h q)
                (sym (authenticate-found email address password users a p q) ∙ w)
        ]
      ]
