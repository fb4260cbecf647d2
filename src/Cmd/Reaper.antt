-- ===== src/Cmd/Reaper.antt =====
-- cmd/zorkd/reaper.go: the sweeps of expired rows. The log is left out.
pub mod Unseen
use zorkd.Base.{ℕ, Bool, Option, List, [], ◌∷◌, if◌then◌else◌, Text, codes}
use zorkd.Errors.{Result, ok, err, canceled, errors_is}
use zorkd.Go.Space.{Unicode}
use zorkd.Database.{Sqlite}
use zorkd.Account.Password.{Crypto}
use zorkd.Game.Store.Calls.{Action}
use zorkd.Invite
use zorkd.Invite.{Inviter}
use zorkd.Invite.Rows.{Tables}
use zorkd.Login
use zorkd.Web.Session.{Front}

pub record Sweep (S : Type 0) : Type 0 where
  pub name : Text
  pub remove : Action S ℕ

module _ {S : Type 0} where
  -- runSweeps: one that fails does not end it, but one that was cancelled does.
  unfoldable pub run_sweeps : List (Sweep S) → S → S
  run_sweeps [] s = s
  run_sweeps (x ∷ xs) s =
      let (r, s') = x.remove s in
      let rest = run_sweeps xs s' in
      elim r [ ok removed ↦ rest | err e ↦ if errors_is e canceled then s' else rest ]

  -- reap, tick by tick until it is cancelled. A sweep reads the clock.
  unfoldable pub reap : (ℕ → List (Sweep S)) → List ℕ → S → S
  unfolding run_sweeps
  reap sweeps [] s = s
  reap sweeps (now ∷ ticks) s = reap sweeps ticks (run_sweeps (sweeps now) s)

-- The sweeps that serve sets up, of sessions and of invitations.
module _ ⦃u : Unicode⦄ ⦃crypto : Crypto⦄ ⦃sql : Sqlite⦄ (parse_address : Text → Option Text)
    (sha256 : Text → Text) (encode : List ℕ → Text) (inviter : Inviter) where
  unfoldable pub sweep_sessions : ℕ → Action Front ℕ
  sweep_sessions now f =
      let (n, t) = Login.sweep now f.sessions in (ok n, record f { sessions = t })

  unfoldable pub sweep_invitations : ℕ → Action Front ℕ
  sweep_invitations now f =
      let (r, t) =
        Invite.sweep parse_address sha256 encode inviter now
          (record { users = f.users; invites = f.invites }) in
      (r, record f { users = t.users; invites = t.invites })

  unfoldable pub server_sweeps : ℕ → List (Sweep Front)
  unfolding sweep_sessions sweep_invitations
  server_sweeps now =
      record { name = codes "sessions"; remove = sweep_sessions now }
      ∷ record { name = codes "invitations"; remove = sweep_invitations now }
      ∷ []
