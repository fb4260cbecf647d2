-- ===== src/Web/Routes.antt =====
-- internal/httpserver/server.go: what a request reaches. The patterns of http.ServeMux are the
-- constructors; a request that matches none, or that http.CrossOriginProtection refuses, reaches no
-- handler, and neither do the files under /static/.
use zorkd.Base.{ℕ, Option, List, [], ◌∷◌, Text, map}
use zorkd.Errors.{Result}
use zorkd.Go.Space.{Unicode}
use zorkd.Database.{Sqlite, RowId, Db, keys}
use zorkd.Database.Saves.{sql_store}
use zorkd.Game.Runner.{Runner, Engine}
use zorkd.Game.Library.{Library}
use zorkd.Account.Password.{Crypto}
use zorkd.Account.Users.{User, Users}
use zorkd.Invite.{Inviter}
use zorkd.Login.{Manager}
use zorkd.Game.Service.{Service, Call}
use zorkd.Web.{Request, Reply, play_turn, restart_game, delete_game}
use zorkd.Web.Saves.{create_save, restore_save, delete_save}
use zorkd.Web.Pages.{show_lobby, new_game, show_game, show_saves}
use zorkd.Web.Session.{
  Front, Answer, Gate, to_login, admitted, log_in, log_out, register_form, require_user, show_login,
  show_register,
}

-- The routes behind requireUser, with the parts of the request that their handlers read.
pub data Route : Type 0 where
  get_lobby : (notice : Text) → Route
  post_game : (story : Option Text) → Route
  get_game : (id prompt notice : Text) → Route
  post_input : (r : Request) (id : Text) → Route
  post_restart : (r : Request) (id : Text) → Route
  post_delete : (id : Text) → Route
  get_saves : (id prompt notice : Text) → Route
  post_save : (id : Text) (name : Option Text) → Route
  post_restore : (id save : Text) → Route
  post_delete_save : (id save : Text) → Route

-- The routes for everybody. `source` is the client's address, and `raw` and `salt` are what
-- crypto/rand answers.
pub data Door : Type 0 where
  get_login : Door
  post_login : (form : Option (Text × Text)) (source : Text) (raw : Result (List ℕ)) → Door
  get_register : (token : Text) → Door
  post_register :
      (form : Option (Text × Text × Text)) (source : Text) (raw salt : Result (List ℕ)) → Door
  post_logout : Door

pub data Target : Type 0 where
  door : Door → Target
  game : Route → Target

pub record Visit : Type 0 where
  pub target : Target
  pub cookie : Option Text
  pub now : ℕ
  pub call : Call

pub data Response : Type 0 where
  answer : Answer → Response
  reply : Reply → Response
  -- redirectToLogin
  login_first : Response

pub record Site (S : Type 0) : Type 0 where
  pub front : Front
  pub games : S

-- What the program is put together of. `enroll` is what the tables of games see of the users.
pub record Server (S Story Machine : Type 0) : Type 0 where
  pub service : Service S Story Machine
  pub manager : Manager
  pub inviter : Inviter
  pub enroll : Users → S → S

module _ ⦃u : Unicode⦄ ⦃crypto : Crypto⦄ ⦃sql : Sqlite⦄ (parse_address : Text → Option Text)
    (sha256 : Text → Text) (encode : List ℕ → Text) {S Story Machine : Type 0}
    (server : Server S Story Machine) where
  open server use {service, manager, inviter, enroll}

  unfoldable pub route : Call → User → Route → S → Reply × S
  route c player (get_lobby notice) s = show_lobby service c player notice s
  route c player (post_game story) s = new_game service c player.id story s
  route c player (get_game id prompt notice) s = show_game service c player.id id prompt notice s
  route c player (post_input r id) s = play_turn service c r player.id id s
  route c player (post_restart r id) s = restart_game service c r player.id id s
  route c player (post_delete id) s = delete_game service c player.id id s
  route c player (get_saves id prompt notice) s = show_saves service c player.id id prompt notice s
  route c player (post_save id name) s = create_save service c player.id id name s
  route c player (post_restore id save) s = restore_save service c player.id id save s
  route c player (post_delete_save id save) s = delete_save service c player.id id save s

  unfoldable pub enter : Door → Option Text → ℕ → Front → Answer × Front
  enter get_login cookie now f = show_login parse_address sha256 encode manager now cookie f
  enter (post_login form source raw) cookie now f =
      log_in parse_address sha256 encode manager form source raw now f
  enter (get_register token) cookie now f =
      show_register parse_address sha256 encode manager inviter now cookie token f
  enter (post_register form source raw salt) cookie now f =
      register_form parse_address sha256 encode manager inviter form source raw salt now f
  enter post_logout cookie now f = log_out parse_address sha256 encode manager cookie f

  unfoldable pub entered : S → Answer × Front → Response × Site S
  entered s (a, f) = (answer a, record { front = f; games = enroll f.users s })

  unfoldable pub handled : Front → Reply × S → Response × Site S
  handled f (r, s) = (reply r, record { front = f; games = s })

  unfoldable pub behind : Call → Route → S → Gate × Front → Response × Site S
  unfolding route handled
  behind c r s (to_login, f) = (login_first, record { front = f; games = s })
  behind c r s (admitted player, f) = handled f (route c player r s)

  -- Handler: a request, whole.
  unfoldable pub serve : Visit → Site S → Response × Site S
  unfolding enter entered behind require_user
  serve v site = elim v.target [
    | door d ↦ entered site.games (enter d v.cookie v.now site.front)
    | game r ↦
        behind v.call r site.games
          (require_user parse_address sha256 encode manager v.now v.cookie site.front)
  ]

  -- The requests of a day, one after another.
  unfoldable pub serves : List Visit → Site S → Site S
  unfolding serve
  serves [] site = site
  serves (v ∷ vs) site = serves vs (serve v site).1

-- The parts that cmd/zorkd puts together: the stores are tables of one database, so the users that
-- games may name are the accounts.
module _ ⦃sql : Sqlite⦄ where
  abbrev pub enroll_users : Users → Db → Db
  enroll_users users db = record db { users = map (λ (k : RowId). k.number) (keys users) }

  abbrev pub zorkd_server :
      {Story Machine : Type 0}
      → Library Story
      → Runner
      → Engine Story Machine
      → Manager
      → Inviter
      → Server Db Story Machine
  zorkd_server library runner engine manager inviter = record {
    service = record { library = library; runner = runner; store = sql_store; engine = engine };
    manager = manager;
    inviter = inviter;
    enroll = enroll_users;
  }
