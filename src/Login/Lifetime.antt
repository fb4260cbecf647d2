-- ===== src/Login/Lifetime.antt =====
-- How long a session signs its user in: from Manager.Start until it expires, ends or is swept.
use zorkd.Base.{
  ℕ, ◌^◌, ◌+◌, ◌<◌, ◌≤◌, false, ◌≡◌, ◌≢◌, refl, subst, ◌∙◌, Option, none, some, List, [], ◌∷◌,
  arith, ltb, ◌==◌, if◌then◌else◌, length, Text, Map, lookup, str_eq_iff, str_eq_refl,
  lookup-delete, Bool-cases, Option-cases, inl, inr,
}
use zorkd.Errors.{Result, ok, err, fail, no_session}
use zorkd.Go.Decimal.{format_int, parse_positive, parse_positive-format_int}
use zorkd.Game.SaveName.{is_empty}
use zorkd.Login.{Manager, Cookie, start, user_id, end_session, look_up, sweep}
use zorkd.Login.Rows.{
  Table, Row, create_session, session_by_token, delete_session, unexpired, delete_expired,
}

-- The token hash is a key of the table: UNIQUE in its schema.
unfoldable pub IsKeyed : Map Row → Type 0
IsKeyed [] = Unit
IsKeyed ((h, row) ∷ m) = (lookup h m ≡ none) × IsKeyed m

pub lookup-unexpired_none :
    (h : Text) (before : ℕ) (m : Map Row) → lookup h m ≡ none → lookup h (unexpired before m) ≡ none
unfolding lookup unexpired
lookup-unexpired_none h before [] e = refl
lookup-unexpired_none h before ((j, row) ∷ m) e = ground (arith, lookup-unexpired_none h before m)

lookup-unexpired :
    (h : Text) (before : ℕ) (m : Map Row) (row : Row)
    → IsKeyed m
    → lookup h m ≡ some row
    → lookup h (unexpired before m) ≡ (if ltb row.expires_at before then none else some row)
unfolding lookup unexpired IsKeyed
lookup-unexpired h before [] row k e = cc
lookup-unexpired h before ((j, r) ∷ m) row k e =
    ground
      (arith, str_eq_iff j h, lookup-unexpired h before m row, lookup-unexpired_none h before m)

-- What a created session leaves in the table.
created :
    (hash user : Text) (expires n : ℕ) (t t' : Table)
    → create_session hash user expires t ≡ ok t'
    → parse_positive user ≡ some n
    → session_by_token hash t' ≡ some (record { user_id = n; expires_at = expires })
unfolding session_by_token lookup create_session
created hash user expires n t t' e p = ground (arith, str_eq_refl hash)

created_user :
    (hash user : Text) (expires : ℕ) (t t' : Table)
    → create_session hash user expires t ≡ ok t'
    → parse_positive user ≢ none
unfolding create_session
created_user hash user expires t t' e p = ground arith

created-IsKeyed :
    (hash user : Text) (expires : ℕ) (t t' : Table)
    → IsKeyed t.sessions
    → create_session hash user expires t ≡ ok t'
    → IsKeyed t'.sessions
unfolding create_session IsKeyed
created-IsKeyed hash user expires t t' k e = elim (Option-cases (lookup hash t.sessions)) [
  | inl q ↦ elim (Bool-cases (length hash == 32)) [
    | inl g ↦ ground (arith, k)
    | inr g ↦ ground arith
  ]
  | inr (row, q) ↦ ground arith
]

module _ (sha256 : Text → Text) (encode : List ℕ → Text) (m : Manager) where
  -- Signing in with a session that the table holds, and without one.
  pub user_id-lookup :
      (now : ℕ) (token : Text) (t : Table) (o : Option Row)
      → is_empty token ≡ false
      → session_by_token (sha256 token) t ≡ o
      → user_id sha256 encode m now (some token) t ≡ look_up sha256 encode m now (sha256 token) t o
  unfolding user_id
  user_id-lookup now token t o p e = rw p (rw e refl)

  -- A started session has its cookie's token and expiry in the table.
  started :
      (bytes : List ℕ) (now : ℕ) (user : Text) (t t' : Table) (c : Cookie)
      → start sha256 encode m (ok bytes) now user t ≡ (ok c, t')
      → (c.value ≡ encode bytes)
        × (c.expires ≡ now + m.ttl)
        × (create_session (sha256 (encode bytes)) user (now + m.ttl) t ≡ ok t')
  unfolding start
  started bytes now user t t' c e = ground arith

  signed_in :
      (later n : ℕ) (hash : Text) (expires : ℕ) (t : Table)
      → later < expires
      → look_up sha256 encode m later hash t (some (record { user_id = n; expires_at = expires }))
        ≡ (ok (format_int n), t)
  unfolding look_up
  signed_in later n hash expires t h = ground arith

  -- A session that Manager.Start answered signs its user in at every time before the cookie's
  -- expiry: Manager.UserID answers the user that the session was started for, and leaves the
  -- table alone. The user is a row number in decimal, and the cookie's token is not empty.
  pub start-user_id :
      (raw : Result (List ℕ)) (now n later : ℕ) (t t' : Table) (c : Cookie)
      → is_empty c.value ≡ false
      → 0 < n
      → n < 2 ^ 63
      → start sha256 encode m raw now (format_int n) t ≡ (ok c, t')
      → later < c.expires
      → user_id sha256 encode m later (some c.value) t' ≡ (ok (format_int n), t')
  unfolding start
  start-user_id (err x) now n later t t' c solid p q e h = absurd (ground arith)
  start-user_id (ok bytes) now n later t t' c solid p q e h =
      let (v, x, s) = started bytes now (format_int n) t t' c e in
      let r = created _ (format_int n) (now + m.ttl) n t t' s (parse_positive-format_int n p q) in
      rw v (
        user_id-lookup later (encode bytes) t' _ (subst (λ (z : Text). is_empty z ≡ false) v solid)
          r
        ∙ signed_in later n _ (now + m.ttl) t' (subst (λ (z : ℕ). later < z) x h))

  refused :
      (now : ℕ) (hash : Text) (t : Table) (row : Row)
      → row.expires_at ≤ now
      → ((look_up sha256 encode m now hash t (some row)).0 ≡ fail no_session)
        × (session_by_token hash (look_up sha256 encode m now hash t (some row)).1 ≡ none)
  unfolding look_up session_by_token delete_session
  refused now hash t row h = ground (arith, lookup-delete hash hash t.sessions, str_eq_refl hash)

  -- Manager.UserID, for a token that is not empty, answers no_session at or after the expiry of
  -- the token's row, and deletes the row.
  user_id_expired :
      (now : ℕ) (token : Text) (t : Table) (row : Row)
      → session_by_token (sha256 token) t ≡ some row
      → row.expires_at ≤ now
      → is_empty token ≡ false
      → ((user_id sha256 encode m now (some token) t).0 ≡ fail no_session)
        × (session_by_token (sha256 token) (user_id sha256 encode m now (some token) t).1 ≡ none)
  user_id_expired now token t row e h p =
      rw (user_id-lookup now token t (some row) p e) (refused now (sha256 token) t row h)

  gone : (hash : Text) (t : Table) → session_by_token hash (delete_session hash t) ≡ none
  unfolding session_by_token delete_session
  gone hash t = ground (arith, lookup-delete hash hash t.sessions, str_eq_refl hash)

  -- After Manager.End of a request, its cookie signs nobody in, at any time.
  pub end_session-user_id :
      (now : ℕ) (cookie : Option Text) (t : Table)
      → (user_id sha256 encode m now cookie (end_session sha256 encode m cookie t).1).0
        ≡ fail no_session
  unfolding user_id end_session
  end_session-user_id now none t = refl
  end_session-user_id now (some token) t = elim (Bool-cases (is_empty token)) [
    | inl p ↦ rw p refl
    | inr p ↦ rw p (rw (gone (sha256 token) t, look_up) refl)
  ]

  look_up-sweep :
      (before now : ℕ) (hash : Text) (t : Table)
      → IsKeyed t.sessions
      → before ≤ now
      → (look_up sha256 encode m now hash
          (sweep before t).1
          (session_by_token hash (sweep before t).1)).0
        ≡ (look_up sha256 encode m now hash t (session_by_token hash t)).0
  unfolding sweep delete_expired session_by_token look_up
  look_up-sweep before now hash t k h = elim (Option-cases (lookup hash t.sessions)) [
    | inl p ↦ rw (p, lookup-unexpired_none hash before t.sessions p, look_up) refl
    | inr (row, p) ↦ rw (p, lookup-unexpired hash before t.sessions row k p) (ground arith)
  ]

  -- Over a table whose token hashes are unique, Manager.Sweep removes no session that could still
  -- sign somebody in: UserID answers the same for every request at or after the sweep's time as
  -- it does without the sweep.
  pub user_id-sweep :
      (before now : ℕ) (cookie : Option Text) (t : Table)
      → IsKeyed t.sessions
      → before ≤ now
      → (user_id sha256 encode m now cookie (sweep before t).1).0
        ≡ (user_id sha256 encode m now cookie t).0
  unfolding user_id sweep
  user_id-sweep before now none t k h = refl
  user_id-sweep before now (some token) t k h = elim (Bool-cases (is_empty token)) [
    | inl p ↦ rw p refl
    | inr p ↦ rw p (look_up-sweep before now (sha256 token) t k h)
  ]
