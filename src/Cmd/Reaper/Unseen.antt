-- ===== src/Cmd/Reaper/Unseen.antt =====
-- The reaper removes nothing that anybody could still use.
use zorkd.Base.{ℕ, ◌≤◌, ◌-◌, ◌≡◌, refl, ◌∙◌, Option, List, [], ◌∷◌, Text, arith, All, Map}
use zorkd.Go.Space.{Unicode}
use zorkd.Database.{Sqlite}
use zorkd.Account.Password.{Crypto}
use zorkd.Invite.{Inviter, invited}
use zorkd.Invite.Rows.{Tables, unspent_rows, delete_spent_invitations}
use zorkd.Invite.Spent.{IsUnique-unspent_rows}
use zorkd.Invite.Used.{IsUnique}
use zorkd.Invite.Admission.{invited-sweep}
use zorkd.Login.{Manager, sweep}
use zorkd.Login.Rows.{Row, unexpired, delete_expired}
use zorkd.Login.Lifetime.{IsKeyed, lookup-unexpired_none, user_id-sweep}
use zorkd.Web.Session.{Front, require_user}
use zorkd.Web.Session.Leaving.{require_user-eq}
use zorkd.Cmd.Reaper.{reap, server_sweeps}

unexpired-IsKeyed : (before : ℕ) (m : Map Row) → IsKeyed m → IsKeyed (unexpired before m)
unfolding unexpired IsKeyed
unexpired-IsKeyed before [] k = tt
unexpired-IsKeyed before ((h, row) ∷ m) k =
    ground (arith, unexpired-IsKeyed before m k.1, lookup-unexpired_none h before m k.0)

module _ ⦃u : Unicode⦄ ⦃crypto : Crypto⦄ ⦃sql : Sqlite⦄ (parse_address : Text → Option Text)
    (sha256 : Text → Text) (encode : List ℕ → Text) (m : Manager) (inviter : Inviter) where
  abbrev tables : Front → Tables
  tables f = record { users = f.users; invites = f.invites }

  -- What the two sweeps of one tick leave.
  abbrev swept : ℕ → Front → Front
  swept before f = record f {
    sessions = (sweep before f.sessions).1;
    invites = unspent_rows before (before - inviter.ttl) f.invites;
  }

  abbrev reaped : List ℕ → Front → Front
  reaped ticks f = reap (server_sweeps parse_address sha256 encode inviter) ticks f

  kept_keys :
      (before : ℕ) (f : Front)
      → IsKeyed f.sessions.sessions
      → IsKeyed (sweep before f.sessions).1.sessions
  unfolding sweep delete_expired
  kept_keys before f k = unexpired-IsKeyed before f.sessions.sessions k

  form :
      (before now : ℕ) (token : Text) (f : Front)
      → IsUnique f.invites
      → before ≤ now
      → invited parse_address sha256 encode inviter token now (tables (swept before f))
        ≡ invited parse_address sha256 encode inviter token now (tables f)
  unfolding zorkd.Invite.sweep delete_spent_invitations
  form before now token f n h =
      invited-sweep parse_address sha256 encode inviter token before now (tables f) n h

  -- Whenever the reaper ticked, and however often, no later request is answered otherwise for it:
  -- requireUser lets the same users through, and the registration form finds the same invitations;
  -- where the hashes of tokens are unique in both tables.
  pub reap-unseen :
      (ticks : List ℕ) (now : ℕ) (cookie : Option Text) (token : Text) (f : Front)
      → All (λ before. before ≤ now) ticks
      → IsKeyed f.sessions.sessions
      → IsUnique f.invites
      → ((require_user parse_address sha256 encode m now cookie (reaped ticks f)).0
          ≡ (require_user parse_address sha256 encode m now cookie f).0)
        × (invited parse_address sha256 encode inviter token now (tables (reaped ticks f))
            ≡ invited parse_address sha256 encode inviter token now (tables f))
  unfolding reap server_sweeps zorkd.Invite.sweep delete_spent_invitations
  reap-unseen [] now cookie token f h k n = (refl, refl)
  reap-unseen (before ∷ ticks) now cookie token f h k n =
      let (p, q) =
        reap-unseen ticks now cookie token (swept before f) h.1 (kept_keys before f k)
          (IsUnique-unspent_rows before (before - inviter.ttl) f.invites n) in
      (
        p
            ∙ require_user-eq parse_address sha256 encode m now cookie (swept before f) f
                (user_id-sweep sha256 encode m before now cookie f.sessions k h.0) refl,
        q ∙ form before now token f n h.0,
      )
