-- ===== src/Account/Service/Admitted.antt =====
-- Whom a login lets in.
use zorkd.Base.{
  ℕ, ◌≡◌, ap, sym, ◌∙◌, Option, some, List, [], ◌∷◌, Text, str_eq, eq_of_str_eq, arith,
  Option-cases, Bool-cases, inl, inr,
}
use mathlib.Core.Option.{some-injective}
use mathlib.Core.List.{Memᴰ}
use zorkd.Errors.{ok, Result-cases}
use zorkd.Go.Space.{Unicode}
use zorkd.Database.{RowId}
use zorkd.Account.{normalize_email}
use zorkd.Account.Password.{Crypto, HashParams, decode_hash, verify_password}
use zorkd.Account.Users.{User, UserRow, Users, user_of, row_by_email, user_by_email}
use zorkd.Account.Service.{identify, authenticate}

-- The row under an address is a row of the table, with that address.
row_by_email-Mem :
    (address : Text) (users : Users) (n : ℕ) (r : UserRow)
    → row_by_email address users ≡ some (n, r)
    → (k : RowId) × (k.number ≡ n) × Memᴰ (k, r) users × (r.email ≡ address)
unfolding row_by_email
row_by_email-Mem address [] n r e = absurd cc
row_by_email-Mem address ((k, q) ∷ users) n r e = elim (Bool-cases (str_eq q.email address)) [
  | inl p ↦
      let same : (k.number, q) ≡ (n, r) = some-injective (k.number, q) (n, r) (rw p at e) in
      let row : q ≡ r = ap (λ (x : ℕ × UserRow). x.1) same in
      (
        k,
        ap (λ (x : ℕ × UserRow). x.0) same,
        Memᴰ.head (ap (λ (x : UserRow). (k, x)) (sym row)),
        ap (λ (x : UserRow). x.email) (sym row) ∙ eq_of_str_eq q.email address p,
      )
  | inr p ↦
      let (j, named, there, a) = row_by_email-Mem address users n r (rw p at e) in
      (j, named, Memᴰ.tail there, a)
]

module _ ⦃crypto : Crypto⦄ where
  verify_password-ok :
      (hash password : Text) (t : Unit {0})
      → verify_password hash password ≡ ok t
      → (h : HashParams × List ℕ × List ℕ) × (decode_hash hash ≡ ok h)
        × (crypto.id_key password h.1 h.0.time h.0.memory h.0.threads h.0.key_len ≡ h.2)
  unfolding verify_password
  verify_password-ok hash password t e = elim (Result-cases (decode_hash hash)) [
    | inr (x, p) ↦ absurd (ground (arith, p, e))
    | inl (h, p) ↦
        let got = crypto.id_key password h.1 h.0.time h.0.memory h.0.threads h.0.key_len in
        elim (Bool-cases (str_eq got h.2)) [
          | inl q ↦ (h, p, eq_of_str_eq got h.2 q)
          | inr q ↦ absurd (ground (arith, p, q, e))
        ]
  ]

module _ ⦃u : Unicode⦄ ⦃crypto : Crypto⦄ (parse_address : Text → Option Text) where
  -- A login answers an account of the table: one whose stored address is the normal form of the
  -- address that was typed, and whose stored key is the one that Argon2id derives from the password
  -- with the stored salt and the stored costs.
  pub authenticate-ok :
      (email password : Text) (users : Users) (account : User)
      → authenticate parse_address email password users ≡ ok account
      → (k : RowId) × (r : UserRow) × (p : HashParams) × (salt : List ℕ) × (key : List ℕ) × Memᴰ
          (k, r)
          users
        × (account ≡ user_of k.number r)
        × (normalize_email parse_address email ≡ ok r.email)
        × (decode_hash r.password_hash ≡ ok (p, salt, key))
        × (crypto.id_key password salt p.time p.memory p.threads p.key_len ≡ key)
  unfolding authenticate identify user_by_email
  authenticate-ok email password users account e =
      elim (Result-cases (normalize_email parse_address email)) [
        | inr (_, p) ↦ absurd (ground (arith, p, e))
        | inl (address, p) ↦ elim (Option-cases (row_by_email address users)) [
          | inl q ↦ absurd (ground (arith, p, q, e))
          | inr ((n, r), q) ↦ elim (Result-cases (verify_password r.password_hash password)) [
            | inr (x, v) ↦ absurd (ground (arith, p, q, v, e))
            | inl (t, v) ↦
                let (k, named, there, address_of) = row_by_email-Mem address users n r q in
                let ((h, salt, key), decoded, derived) =
                  verify_password-ok r.password_hash password t v in
                (
                  k,
                  r,
                  h,
                  salt,
                  key,
                  there,
                  ground (arith, p, q, v, e, named),
                  p ∙ ap (λ (x : Text). ok x) (sym address_of),
                  decoded,
                  derived,
                )
          ]
        ]
      ]
