-- ===== src/Examples/Days.antt =====
-- The theorems on requests and the reaper, at small inputs.
use zorkd.Base.{
  ℕ, ◌+◌, ◌-◌, ◌%◌, ◌^◌, ◌<◌, ◌≤◌, ◌≡◌, ◌≢◌, ◌⊎◌, ◌↔◌, refl, ap, ◌∙◌, ◌/◌, Bool, true, false,
  Option, none, some, List, [], ◌∷◌, ◌++◌, arith, Text, codes, replicate, All,
}
use zorkd.Errors.{ok}
use zorkd.Go.Decimal.{parse_positive}
use zorkd.Account.{normalize_email}
use zorkd.Account.Users.{User, row_by_email}
use zorkd.Login.{Cookie, Manager, default_ttl}
use zorkd.Login.Rows.{Table}
use zorkd.Invite.{Inviter, invited}
use zorkd.Invite.Rows.{new_row}
use zorkd.Limiter.{new_limiter, allow_attempt}
use zorkd.Database.{Db, GameRow, has_key}
use zorkd.Database.Saves.{sql_store, count_saves}
use zorkd.Database.Privacy.Views.{IsTidy}
use zorkd.Game.Store.Private.{SameView}
use zorkd.Web.Session.{Front, welcome, admitted, to_login, require_user, log_out, register_form}
use zorkd.Web.Session.Registration.{register_form-require_user}
use zorkd.Web.Session.Leaving.{log_out-require_user}
use zorkd.Web.Routes.{Site, Visit, Target, post_delete, zorkd_server, serves}
use zorkd.Web.Isolation.{Stranger, serves-SameView}
use zorkd.Cmd.Reaper.{reap, server_sweeps}
use zorkd.Cmd.Reaper.Unseen.{reap-unseen}
use zorkd.Examples.{unicode, engine, library, runner, call, game}
use zorkd.Examples.Parts.{first, second, sqlite, crypto, salt, parse}
use zorkd.Examples.Tables.{account, users, row}
use zorkd.Examples.Entrances.{manager, logins}

-- A hash of 32 bytes for the tokens of one byte.
abbrev hash : Text → Text
hash token = token ++ replicate 31 1

abbrev encode : List ℕ → Text
encode bytes = b'c' ∷ []

abbrev inviter : Inviter
inviter = record { ttl = 10 }

abbrev game_of : ℕ → GameRow
game_of n = record {
  user_id = n;
  story_key = codes "key";
  state = codes "0";
  transcript = codes "Hello.";
  turn = 0;
  version = 1;
  halted = false;
  status = game.status;
  updated_at = 0;
}

-- A game of the user 1, and one of the user 2.
abbrev two_games : Db
two_games = record {
  games = (first, game_of 1) ∷ (second, game_of 2) ∷ [];
  saves = [];
  users = 1 ∷ 2 ∷ [];
}

two_games-IsTidy : IsTidy two_games
unfolding has_key count_saves
two_games-IsTidy = record {
  whole = record { table = tt; bounded = λ n. omega arith; owned = tt };
  keyed = (refl, (refl, tt));
}

-- The user 1 is signed in with the token "a".
abbrev signed_in : Front
signed_in = record {
  users = users;
  invites = (first, new_row (hash (codes "i")) (codes "c@d") 15) ∷ [];
  sessions = record {
    sessions = (hash (codes "a"), record { user_id = 1; expires_at = 15 }) ∷ [];
    users = 1 ∷ [];
  };
  logins = logins;
  registrations = logins;
}

abbrev site : Site Db
site = record { front = signed_in; games = two_games }

-- The user 1 deletes a game.
abbrev deletion : Visit
deletion = record {
  target = Target.game (post_delete (codes "1"));
  cookie = some (codes "a");
  now = 14;
  call = call;
}

lets_through :
    (require_user ⦃u = unicode⦄ ⦃crypto = crypto⦄ parse hash encode manager 14
      (some (codes "a"))
      signed_in).0
    ≡ admitted account
unfolding require_user zorkd.Login.user_id zorkd.Login.Rows.session_by_token zorkd.Base.lookup
    zorkd.Base.str_eq zorkd.Account.Service.user zorkd.Account.Users.user_by_id parse_positive
    zorkd.Go.Decimal.format_int zorkd.Database.find
lets_through = refl

stranger :
    Stranger ⦃u = unicode⦄ ⦃crypto = crypto⦄ ⦃sql = sqlite⦄ parse hash encode
      (zorkd_server ⦃sql = sqlite⦄ library runner engine manager inviter)
      (λ u. parse_positive (codes "2") ≢ parse_positive u)
      deletion
      site
unfolding parse_positive
stranger r player t e =
    let same : account ≡ player = cc (lets_through, e) in
    λ q. absurd (ground (arith, q, ap (λ (x : User). parse_positive x.id) same))

serves-SameView_example :
    SameView
      (sql_store ⦃sql = sqlite⦄)
      (codes "2")
      two_games
      (serves ⦃u = unicode⦄ ⦃crypto = crypto⦄ ⦃sql = sqlite⦄ parse hash encode
        (zorkd_server ⦃sql = sqlite⦄ library runner engine manager inviter)
        (deletion ∷ [])
        site).games
serves-SameView_example =
    serves-SameView ⦃u = unicode⦄ ⦃crypto = crypto⦄ ⦃sql = sqlite⦄ parse hash encode library runner
      engine manager inviter (codes "2") (deletion ∷ []) site two_games-IsTidy (stranger, tt)

reap-unseen_example :
    ((require_user ⦃u = unicode⦄ ⦃crypto = crypto⦄ parse hash encode manager 14 (some (codes "a")) (
        reap
          (server_sweeps ⦃u = unicode⦄ ⦃crypto = crypto⦄ ⦃sql = sqlite⦄ parse hash encode inviter)
          (6 ∷ 12 ∷ [])
          signed_in)).0
      ≡ (require_user ⦃u = unicode⦄ ⦃crypto = crypto⦄ parse hash encode manager 14
          (some (codes "a"))
          signed_in).0)
    × (invited ⦃u = unicode⦄ ⦃crypto = crypto⦄ ⦃sql = sqlite⦄ parse hash encode inviter
          (codes "i")
          14
          (record {
            users =
                (reap
                  (server_sweeps ⦃u = unicode⦄ ⦃crypto = crypto⦄ ⦃sql = sqlite⦄ parse hash encode
                    inviter)
                  (6 ∷ 12 ∷ [])
                  signed_in).users;
            invites =
                (reap
                  (server_sweeps ⦃u = unicode⦄ ⦃crypto = crypto⦄ ⦃sql = sqlite⦄ parse hash encode
                    inviter)
                  (6 ∷ 12 ∷ [])
                  signed_in).invites;
          })
        ≡ invited ⦃u = unicode⦄ ⦃crypto = crypto⦄ ⦃sql = sqlite⦄ parse hash encode inviter
            (codes "i")
            14
            (record { users = users; invites = signed_in.invites }))
unfolding zorkd.Login.Lifetime.IsKeyed zorkd.Base.lookup zorkd.Invite.Rows.row_by_token
reap-unseen_example =
    reap-unseen ⦃u = unicode⦄ ⦃crypto = crypto⦄ ⦃sql = sqlite⦄ parse hash encode manager inviter
      (6 ∷ 12 ∷ []) 14 (some (codes "a")) (codes "i") signed_in (omega arith) (refl, tt) (refl, tt)

abbrev first_byte : Text → ℕ
first_byte [] = 0
first_byte (b ∷ s) = b

log_out-require_user_example :
    ((require_user ⦃u = unicode⦄ ⦃crypto = crypto⦄ parse hash encode manager 14
        (some (codes "a"))
        (log_out ⦃u = unicode⦄ ⦃crypto = crypto⦄ parse hash encode manager
          (some (codes "a"))
          signed_in).1).0
      ≡ to_login)
    × ((require_user ⦃u = unicode⦄ ⦃crypto = crypto⦄ parse hash encode manager 14
          (some (codes "b"))
          (log_out ⦃u = unicode⦄ ⦃crypto = crypto⦄ parse hash encode manager
            (some (codes "a"))
            signed_in).1).0
        ≡ (require_user ⦃u = unicode⦄ ⦃crypto = crypto⦄ parse hash encode manager 14
            (some (codes "b"))
            signed_in).0)
log_out-require_user_example =
    log_out-require_user ⦃u = unicode⦄ ⦃crypto = crypto⦄ parse hash encode manager 14
      (some (codes "a")) (codes "b") signed_in
      (λ other p e.
        let named : codes "a" ≡ other = cc p in
        let q : first_byte (hash (codes "a")) ≡ first_byte (hash (codes "b")) =
          ap first_byte (ap hash named ∙ e) in
        absurd (omega (arith, q)))

abbrev cookie : Cookie
cookie = record { value = codes "c"; expires = 15; max_age = some 0; secure = true }

abbrev joined : Front
joined = record {
  users = (second, record row { email = codes "c@d" }) ∷ users;
  invites =
      (
        first,
        record (new_row (hash (codes "i")) (codes "c@d") 15) {
          redeemed_at = some 5;
          user_id = some 2;
        },
      )
      ∷ [];
  sessions = record {
    sessions =
        (hash (codes "c"), record { user_id = 2; expires_at = 15 })
        ∷ (hash (codes "a"), record { user_id = 1; expires_at = 15 })
        ∷ [];
    users = 2 ∷ 1 ∷ [];
  };
  logins = logins;
  registrations = (allow_attempt ⦃u = unicode⦄ parse (codes "10.0.0.1") (codes "c@d") 5 logins).1;
}

joins :
    register_form ⦃u = unicode⦄ ⦃crypto = crypto⦄ parse hash encode manager ⦃sql = sqlite⦄ inviter
      (some (codes "i", codes "c@d", codes "xyzzy123"))
      (codes "10.0.0.1")
      (ok [])
      (ok salt)
      5
      signed_in
    ≡ (welcome cookie, joined)
unfolding register_form allow_attempt zorkd.Limiter.allow zorkd.Base.lookup new_limiter
    zorkd.Limiter.spend zorkd.Limiter.prune zorkd.Invite.redeem zorkd.Invite.admitted
    zorkd.Invite.look_up zorkd.Game.SaveName.is_empty zorkd.Invite.Rows.invitation_by_token
    zorkd.Base.str_eq zorkd.Invite.redeemable zorkd.Invite.invited_account normalize_email
    zorkd.Go.Space.trim_space zorkd.Go.Space.equal_fold zorkd.Account.Password.check_password_length
    zorkd.Account.Password.hash_password zorkd.Account.Password.hash_with
    zorkd.Account.Users.insert_row zorkd.Account.Users.insert_user row_by_email
    zorkd.Go.Decimal.format_int parse_positive zorkd.Go.Space.to_lower_text zorkd.Invite.Rows.mark
    zorkd.Invite.Rows.redeem_invitation zorkd.Invite.Rows.redeem_row zorkd.Invite.Rows.row_by_token
    zorkd.Invite.redeemed zorkd.Login.Rows.create_session zorkd.Login.Rows.is_user zorkd.Login.start
    has_key
joins = refl

register_form-require_user_example :
    (a : User) × (normalize_email ⦃u = unicode⦄ parse (codes "c@d") ≡ ok a.email)
    × (row_by_email a.email users ≡ none)
    × (require_user ⦃u = unicode⦄ ⦃crypto = crypto⦄ parse hash encode manager 14
          (some (codes "c"))
          joined
        ≡ (admitted a, joined))
register_form-require_user_example =
    register_form-require_user ⦃u = unicode⦄ ⦃crypto = crypto⦄ ⦃sql = sqlite⦄ parse hash encode
      manager inviter (codes "i") (codes "c@d") (codes "xyzzy123") (codes "10.0.0.1") (ok [])
      (ok salt) 5 14 signed_in joined cookie (unfold zorkd.Game.SaveName.is_empty in refl) joins
      (omega arith)
