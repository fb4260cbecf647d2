-- ===== src/Web/Session/Registration.antt =====
-- internal/httpserver/auth.go and server.go: from the registration form to the games.
use zorkd.Base.{
  ℕ, ◌<◌, ◌≡◌, refl, ap, sym, ◌∙◌, false, Option, none, some, List, ◌∷◌, Text, arith, ==_refl,
}
use zorkd.Errors.{Result, ok, err}
use zorkd.Go.Space.{Unicode}
use zorkd.Go.Decimal.{format_int, parse_positive-format_int}
use zorkd.Game.SaveName.{is_empty}
use zorkd.Database.{RowId, Sqlite, find}
use zorkd.Account.{normalize_email}
use zorkd.Account.Password.{Crypto}
use zorkd.Account.Users.{User, UserRow, Users, row_by_email}
use zorkd.Account.Service.{user}
use zorkd.Invite.{Inviter, redeem}
use zorkd.Invite.Rows.{Tables}
use zorkd.Invite.Admission.{redeem-ok}
use zorkd.Limiter.{Verdict, wait, proceed, AttemptLimit}
use zorkd.Login.{Manager, Cookie, start}
use zorkd.Login.Rows.{Table}
use zorkd.Login.Lifetime.{start-user_id}
use zorkd.Web.Session.{
  Front, Answer, CredentialsView, welcome, admitted, register_form, registering, signed_up,
  enrolled, start_session, register_failed, require_user, too_many_attempts, filled,
}
use zorkd.Web.Session.Entrance.{welcomed-welcome, require_user-admitted, user-found}

first_row : (k : RowId) (r : UserRow) (users : Users) → find k.number ((k, r) ∷ users) ≡ some r
unfolding find
first_row k r users = ground (arith, ==_refl k.number)

module _ ⦃u : Unicode⦄ ⦃crypto : Crypto⦄ ⦃sql : Sqlite⦄ (parse_address : Text → Option Text)
    (sha256 : Text → Text) (encode : List ℕ → Text) (m : Manager) (s : Inviter) where
  signed_up-welcome :
      (raw : Result (List ℕ)) (now : ℕ) (v : CredentialsView) (f : Front) (x : Result User × Tables)
      (f' : Front) (c : Cookie)
      → signed_up parse_address sha256 encode m s raw now v f x ≡ (welcome c, f')
      → (account : User) × (t : Table) × (x.0 ≡ ok account)
        × (start sha256 encode m raw now account.id (enrolled f x.1).sessions ≡ (ok c, t))
        × (f' ≡ record (enrolled f x.1) { sessions = t })
  unfolding signed_up start_session register_failed
  signed_up-welcome raw now v f (err e, t) f' c h =
      absurd (ground (arith, ap (λ (z : Answer × Front). z.0) h))
  signed_up-welcome raw now v f (ok account, t) f' c h =
      let (t', p, q) = welcomed-welcome parse_address sha256 encode m (enrolled f t) _ f' c h in
      (account, t', refl, p, q)

  abbrev redeemed_for : CredentialsView → Text → Result (List ℕ) → ℕ → Front → Result User × Tables
  redeemed_for v password salt now f =
      let t : Tables = record { users = f.users; invites = f.invites } in
      redeem parse_address sha256 encode s v.invite v.email password salt now t t

  registering-welcome :
      (raw salt : Result (List ℕ)) (now : ℕ) (v : CredentialsView) (password : Text) (f : Front)
      (x : Verdict × AttemptLimit) (f' : Front) (c : Cookie)
      → registering parse_address sha256 encode m s raw salt now v password f x ≡ (welcome c, f')
      → (account : User) × (t : Table) × (a : AttemptLimit) × ((redeemed_for v password salt now
            f).0
          ≡ ok account)
        × (start sha256 encode m raw now account.id
              (enrolled f (redeemed_for v password salt now f).1).sessions
            ≡ (ok c, t))
        × (f' ≡ record (enrolled f (redeemed_for v password salt now f).1) {
          sessions = t;
          registrations = a;
        })
  unfolding registering too_many_attempts
  registering-welcome raw salt now v password f (wait _, a) f' c h = absurd cc
  registering-welcome raw salt now v password f (proceed, a) f' c h =
      let (account, t, p, q, r) =
        signed_up-welcome raw now v (record f { registrations = a }) _ f' c h in
      (account, t, a, p, q, r)

  user-redeemed :
      (v : CredentialsView) (password : Text) (salt : Result (List ℕ)) (now : ℕ) (f : Front)
      (account : User)
      → (redeemed_for v password salt now f).0 ≡ ok account
      → (k : RowId) × (account.id ≡ format_int k.number)
        × (user account.id (redeemed_for v password salt now f).1.users ≡ ok account)
        × (row_by_email account.email f.users ≡ none)
        × (normalize_email parse_address v.email ≡ ok account.email)
  user-redeemed v password salt now f account e =
      let (row, _, _, w, same, free, named, _, _, _, _) =
        redeem-ok parse_address sha256 encode s v.invite v.email password salt now _ _ account e in
      let id : account.id ≡ format_int row.0.number = ap (λ (x : User). x.id) same in
      (
        row.0,
        id,
        rw w (
            ap (λ x. user x (row ∷ f.users)) id
            ∙ user-found (format_int row.0.number) (row ∷ f.users) row.0.number row.1
                (parse_positive-format_int row.0.number row.0.positive row.0.fits)
                (first_row row.0 row.1 f.users)
            ∙ ap (λ (x : User). ok x) (sym same)),
        free,
        named,
      )

  -- Whoever is welcomed by the registration form is let through to the games, until the cookie that
  -- it set expires, as a new account under the normal form of the address, which had none before;
  -- where the cookie's token is not empty.
  pub register_form-require_user :
      (token email password source : Text) (raw salt : Result (List ℕ)) (now later : ℕ)
      (f f' : Front) (c : Cookie)
      → is_empty c.value ≡ false
      → register_form parse_address sha256 encode m s
          (some (token, email, password))
          source
          raw
          salt
          now
          f
        ≡ (welcome c, f')
      → later < c.expires
      → (account : User) × (normalize_email parse_address email ≡ ok account.email)
        × (row_by_email account.email f.users ≡ none)
        × (require_user parse_address sha256 encode m later (some c.value) f'
            ≡ (admitted account, f'))
  unfolding register_form
  register_form-require_user token email password source raw salt now later f f' c solid e late =
      let (account, t, a, p, q, r) =
        registering-welcome raw salt now (filled token email) password f _ f' c e in
      let (k, id, known, free, named) =
        user-redeemed (filled token email) password salt now f account p in
      let session =
        start-user_id sha256 encode m raw now k.number later
          (enrolled f (redeemed_for (filled token email) password salt now f).1).sessions t c solid
          k.positive k.fits (rw (sym id) q) late in
      (
        account,
        named,
        free,
        rw r (
            require_user-admitted parse_address sha256 encode m later (some c.value)
              (record (enrolled f (redeemed_for (filled token email) password salt now f).1) {
                sessions = t;
                registrations = a;
              })
              (format_int k.number) account session (rw (sym id) known)),
      )
