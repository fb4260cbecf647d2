-- ===== src/Web/Session/Entrance.antt =====
-- internal/httpserver/auth.go and server.go: from the login form to the games.
use zorkd.Base.{
  ℕ, ◌<◌, ◌^◌, ◌≡◌, refl, ap, sym, ◌∙◌, true, false, Option, some, List, [], ◌∷◌, Text, str_eq,
  arith, Option-cases, Bool-cases, inl, inr,
}
use zorkd.Errors.{Result, ok, err}
use zorkd.Go.Space.{Unicode}
use zorkd.Go.Decimal.{format_int, parse_positive, parse_positive-format_int}
use zorkd.Game.SaveName.{is_empty}
use zorkd.Database.{Sqlite, find, has_key, keys}
use zorkd.Account.Password.{Crypto}
use zorkd.Account.Users.{
  User, Account, UserRow, Users, user_of, row_by_email, user_by_email, user_by_id,
}
use zorkd.Account.Service.{authenticate, user}
use zorkd.Account.Service.Laws.{authenticate-account}
use zorkd.Account.Service.Table.{IsAccounts}
use zorkd.Limiter.{Verdict, wait, proceed, AttemptLimit}
use zorkd.Login.{Manager, Cookie, start, user_id}
use zorkd.Login.Rows.{Table}
use zorkd.Login.Lifetime.{start-user_id}
use zorkd.Web.Session.{
  Front, Answer, welcome, admitted, log_in, attempted, authenticated, start_session, welcomed,
  require_user, session_gate, account_gate,
}

module _ ⦃crypto : Crypto⦄ where
  find-has_key :
      (n : ℕ) (users : Users) (r : UserRow) → find n users ≡ some r → has_key n (keys users) ≡ true
  unfolding has_key find
  find-has_key n [] r h = absurd cc
  find-has_key n ((k, w) ∷ users) r h = ground (arith, find-has_key n users r)

  row_by_email-find :
      (email : Text) (users : Users) (n : ℕ) (r : UserRow)
      → IsAccounts users
      → row_by_email email users ≡ some (n, r)
      → (0 < n) × (n < 2 ^ 63) × (find n users ≡ some r)
  unfolding row_by_email find
  row_by_email-find email [] n r h e = absurd cc
  row_by_email-find email ((k, w) ∷ users) n r h e = elim (Bool-cases (str_eq w.email email)) [
    | inl p ↦
        let same : k.number ≡ n = ground (arith, p, e) in
        let row : w ≡ r = ground (arith, p, e) in
        (ground (arith, same, k.positive), ground (arith, same, k.fits), ground (arith, same, row))
    | inr p ↦
        let (a, b, f) = row_by_email-find email users n r h.3 (ground (arith, p, e)) in
        (a, b, ground (arith, f, find-has_key n users r f, h.1))
  ]

  pub user-found :
      (id : Text) (users : Users) (n : ℕ) (r : UserRow)
      → parse_positive id ≡ some n
      → find n users ≡ some r
      → user id users ≡ ok (user_of n r)
  unfolding user user_by_id
  user-found id users n r p f = rw (p, user, user_by_id) (rw f refl)

  user_by_email-user :
      (email : Text) (users : Users) (a : Account)
      → IsAccounts users
      → user_by_email email users ≡ ok a
      → (n : ℕ) × (0 < n)
        × (n < 2 ^ 63)
        × (a.user.id ≡ format_int n)
        × (user a.user.id users ≡ ok a.user)
  unfolding user_by_email
  user_by_email-user email users a h e = elim (Option-cases (row_by_email email users)) [
    | inl p ↦ absurd (ground arith)
    | inr ((n, r), p) ↦
        let (x, y, f) = row_by_email-find email users n r h p in
        let same : a.user ≡ user_of n r = ground (arith, p, e) in
        (
          n,
          x,
          y,
          ap (λ (v : User). v.id) same,
          ap (λ (v : User). user v.id users) same
              ∙ user-found (format_int n) users n r (parse_positive-format_int n x y) f
              ∙ ap (λ (v : User). ok v) (sym same),
        )
  ]

module _ ⦃u : Unicode⦄ ⦃crypto : Crypto⦄ ⦃sql : Sqlite⦄ (parse_address : Text → Option Text)
    (sha256 : Text → Text) (encode : List ℕ → Text) (m : Manager) where
  pub welcomed-welcome :
      (f : Front) (x : Result Cookie × Table) (f' : Front) (c : Cookie)
      → welcomed f x ≡ (welcome c, f')
      → (t : Table) × (x ≡ (ok c, t)) × (f' ≡ record f { sessions = t })
  unfolding welcomed
  welcomed-welcome f (ok c', t) f' c e = (t, ground arith, sym (ap (λ (z : Answer × Front). z.1) e))
  welcomed-welcome f (err _, t) f' c e = absurd cc

  authenticated-welcome :
      (raw : Result (List ℕ)) (now : ℕ) (email : Text) (f : Front) (x : Result User) (f' : Front)
      (c : Cookie)
      → authenticated parse_address sha256 encode m raw now email f x ≡ (welcome c, f')
      → (account : User) × (t : Table) × (x ≡ ok account)
        × (start sha256 encode m raw now account.id f.sessions ≡ (ok c, t))
        × (f' ≡ record f { sessions = t })
  unfolding authenticated start_session
  authenticated-welcome raw now email f (err _) f' c e = absurd cc
  authenticated-welcome raw now email f (ok account) f' c e =
      let (t, p, q) = welcomed-welcome f _ f' c e in (account, t, refl, p, q)

  attempted-welcome :
      (raw : Result (List ℕ)) (now : ℕ) (email password : Text) (f : Front)
      (x : Verdict × AttemptLimit) (f' : Front) (c : Cookie)
      → attempted parse_address sha256 encode m raw now email password f x ≡ (welcome c, f')
      → (account : User) × (t : Table) × (a : AttemptLimit) × (authenticate parse_address email
            password f.users
          ≡ ok account)
        × (start sha256 encode m raw now account.id f.sessions ≡ (ok c, t))
        × (f' ≡ record f { sessions = t; logins = a })
  unfolding attempted
  attempted-welcome raw now email password f (wait _, a) f' c e = absurd cc
  attempted-welcome raw now email password f (proceed, a) f' c e =
      let (account, t, p, q, r) =
        authenticated-welcome raw now email (record f { logins = a }) _ f' c e in
      (account, t, a, p, q, r)

  pub require_user-admitted :
      (later : ℕ) (cookie : Option Text) (f : Front) (id : Text) (account : User)
      → user_id sha256 encode m later cookie f.sessions ≡ (ok id, f.sessions)
      → user id f.users ≡ ok account
      → require_user parse_address sha256 encode m later cookie f ≡ (admitted account, f)
  unfolding require_user session_gate account_gate
  require_user-admitted later cookie f id account p q = rw p (rw q refl)

  -- Whoever is welcomed by the login form is let through to the games, until the cookie that it set
  -- expires, as the account that the email and the password identify: where no two accounts share
  -- an address or a key, every stored hash can be read, and the cookie's token is not empty.
  pub log_in-require_user :
      (email password source : Text) (raw : Result (List ℕ)) (now later : ℕ) (f f' : Front)
      (c : Cookie)
      → IsAccounts f.users
      → is_empty c.value ≡ false
      → log_in parse_address sha256 encode m (some (email, password)) source raw now f
        ≡ (welcome c, f')
      → later < c.expires
      → (account : User) × (authenticate parse_address email password f.users ≡ ok account)
        × (require_user parse_address sha256 encode m later (some c.value) f'
            ≡ (admitted account, f'))
  unfolding log_in
  log_in-require_user email password source raw now later f f' c h solid e late =
      let (account, t, a, p, q, r) = attempted-welcome raw now email password f _ f' c e in
      let (address, row, _, found, _, same) =
        authenticate-account parse_address email password f.users account p in
      let (n, x, y, id, known) = user_by_email-user address f.users row h found in
      let id' : account.id ≡ format_int n = rw (sym same) id in
      let known' : user account.id f.users ≡ ok account = rw (sym same) known in
      let session =
        start-user_id sha256 encode m raw now n later f.sessions t c solid x y (rw (sym id') q)
          late in
      (
        account,
        p,
        rw r (
            require_user-admitted later (some c.value) (record f { sessions = t; logins = a })
              (format_int n) account session (rw (sym id') known')),
      )
