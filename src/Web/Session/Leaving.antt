-- ===== src/Web/Session/Leaving.antt =====
-- internal/httpserver/auth.go and server.go: who is still let through after logging out.
use zorkd.Base.{
  ℕ, ◌≡◌, ◌≢◌, refl, ap, ◌∙◌, Option, none, some, List, Text, str_eq_iff, arith, Bool-cases, inl,
  inr, lookup-delete,
}
use zorkd.Errors.{Result, ok, err, fail, no_session}
use zorkd.Go.Space.{Unicode}
use zorkd.Game.SaveName.{is_empty}
use zorkd.Account.Password.{Crypto}
use zorkd.Account.Users.{User}
use zorkd.Account.Service
use zorkd.Login.{Manager, user_id, look_up, end_session}
use zorkd.Login.Rows.{Table, Row, session_by_token, delete_session}
use zorkd.Login.Lifetime.{end_session-user_id}
use zorkd.Web.Session.{Front, to_login, log_out, require_user, session_gate, account_gate}

module _ ⦃u : Unicode⦄ ⦃crypto : Crypto⦄ (parse_address : Text → Option Text) (sha256 : Text → Text)
    (encode : List ℕ → Text) (m : Manager) where
  account_gate-eq :
      (cookie : Option Text) (f g : Front) (r : Result User)
      → (account_gate parse_address sha256 encode m cookie f r).0
        ≡ (account_gate parse_address sha256 encode m cookie g r).0
  unfolding account_gate
  account_gate-eq cookie f g (ok account) = refl
  account_gate-eq cookie f g (err e) = refl

  session_gate-eq :
      (cookie : Option Text) (f g : Front) (r : Result Text) (s t : Table)
      → f.users ≡ g.users
      → (session_gate parse_address sha256 encode m cookie f (r, s)).0
        ≡ (session_gate parse_address sha256 encode m cookie g (r, t)).0
  unfolding session_gate
  session_gate-eq cookie f g (err e) s t h = refl
  session_gate-eq cookie f g (ok id) s t h =
      account_gate-eq cookie _ (record g { sessions = t }) (Service.user id f.users)
      ∙ ap
          (λ us.
            (account_gate parse_address sha256 encode m cookie (record g { sessions = t })
              (Service.user id us)).0)
          h

  -- Who is let through depends on the user that the cookie names, and on the accounts.
  pub require_user-eq :
      (now : ℕ) (cookie : Option Text) (f g : Front)
      → (user_id sha256 encode m now cookie f.sessions).0
        ≡ (user_id sha256 encode m now cookie g.sessions).0
      → f.users ≡ g.users
      → (require_user parse_address sha256 encode m now cookie f).0
        ≡ (require_user parse_address sha256 encode m now cookie g).0
  unfolding require_user
  require_user-eq now cookie f g e h =
      session_gate-eq cookie f g (user_id sha256 encode m now cookie f.sessions).0 _
        (user_id sha256 encode m now cookie g.sessions).1 h
      ∙ ap
          (λ r.
            (session_gate parse_address sha256 encode m cookie g
              (r, (user_id sha256 encode m now cookie g.sessions).1)).0)
          e

  require_user-fails :
      (now : ℕ) (cookie : Option Text) (f : Front)
      → (user_id sha256 encode m now cookie f.sessions).0 ≡ fail no_session
      → (require_user parse_address sha256 encode m now cookie f).0 ≡ to_login
  unfolding require_user session_gate
  require_user-fails now cookie f e =
      ap
        (λ r.
          (session_gate parse_address sha256 encode m cookie f
            (r, (user_id sha256 encode m now cookie f.sessions).1)).0)
        e

  look_up-eq :
      (now : ℕ) (hash : Text) (s t : Table) (o : Option Row)
      → (look_up sha256 encode m now hash s o).0 ≡ (look_up sha256 encode m now hash t o).0
  unfolding look_up
  look_up-eq now hash s t o = ground arith

  -- The sessions under other hashes are still there.
  still_there :
      (other token : Text) (t : Table)
      → sha256 other ≢ sha256 token
      → session_by_token (sha256 token) (delete_session (sha256 other) t)
        ≡ session_by_token (sha256 token) t
  unfolding session_by_token delete_session
  still_there other token t d = ground (
    arith,
    lookup-delete (sha256 other) (sha256 token) t.sessions,
    str_eq_iff (sha256 other) (sha256 token),
    d,
  )

  end_session-others :
      (now : ℕ) (cookie : Option Text) (token : Text) (t : Table)
      → ((other : Text) → cookie ≡ some other → sha256 other ≢ sha256 token)
      → (user_id sha256 encode m now (some token) (end_session sha256 encode m cookie t).1).0
        ≡ (user_id sha256 encode m now (some token) t).0
  unfolding user_id end_session
  end_session-others now none token t d = refl
  end_session-others now (some other) token t d = elim (Bool-cases (is_empty other)) [
    | inl p ↦ rw p refl
    | inr p ↦ elim (Bool-cases (is_empty token)) [
      | inl q ↦ rw (p, q) refl
      | inr q ↦ rw p (
          rw q (
            rw (still_there other token t (d other refl)) (
              look_up-eq now (sha256 token) (delete_session (sha256 other) t) t
                (session_by_token (sha256 token) t))))
    ]
  ]

  -- After a request to log out, its cookie lets nobody through, at any time; and whoever comes with
  -- a token of another hash is let through, or not, as before.
  pub log_out-require_user :
      (now : ℕ) (cookie : Option Text) (token : Text) (f : Front)
      → ((other : Text) → cookie ≡ some other → sha256 other ≢ sha256 token)
      → ((require_user parse_address sha256 encode m now cookie
            (log_out parse_address sha256 encode m cookie f).1).0
          ≡ to_login)
        × ((require_user parse_address sha256 encode m now
              (some token)
              (log_out parse_address sha256 encode m cookie f).1).0
            ≡ (require_user parse_address sha256 encode m now (some token) f).0)
  unfolding log_out
  log_out-require_user now cookie token f d = (
    require_user-fails now cookie _ (end_session-user_id sha256 encode m now cookie f.sessions),
    require_user-eq now (some token) _ f (end_session-others now cookie token f.sessions d) refl,
  )
