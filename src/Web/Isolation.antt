-- ===== src/Web/Isolation.antt =====
-- What requests do to the games of somebody else.
use zorkd.Base.{ℕ, ◌≡◌, refl, Option, List, [], ◌∷◌, Text, codes}
use zorkd.Go.Space.{Unicode}
use zorkd.Game.Store.{IsAtomic}
use zorkd.Game.Store.Private.{IsPrivate, SameView, SameView-refl, SameView-trans}
use zorkd.Game.Service
use zorkd.Game.Service.{Service, Call}
use zorkd.Game.Service.Isolation.{
  restart-Hidden, restore_save-Hidden, delete_save-Hidden, delete-Hidden,
}
use zorkd.Account.Password.{Crypto}
use zorkd.Account.Users.{User, Users}
use zorkd.Login.{Manager}
use zorkd.Invite.{Inviter}
use zorkd.Game.Runner.{Runner, Engine}
use zorkd.Game.Library.{Library}
use zorkd.Database.{Sqlite, Db}
use zorkd.Database.Saves.{sql_store, owns_game}
use zorkd.Database.Contract.Atomic.{sql_store-IsAtomic}
use zorkd.Database.Privacy.{Apart, sql_store-IsPrivate}
use zorkd.Database.Privacy.Views.{IsTidy, View-SameView}
use zorkd.Web.Handlers.{
  Kept, redrawn-keeps, save_deleted-keeps, restarted-keeps, deleted-keeps, draw_game-keeps,
  show_lobby-keeps, input-Kept, create_save-Kept, new_game-Kept,
}
use zorkd.Web.{restart_game, delete_game}
use zorkd.Web.Saves.{restore_save, delete_save}
use zorkd.Web.Pages.{show_game, show_saves, game_mode, saves_mode}
use zorkd.Web.Session.{Front, Gate, to_login, admitted, require_user}
use zorkd.Web.Routes.{
  Route, get_lobby, post_game, get_game, post_input, post_restart, post_delete, get_saves,
  post_save, post_restore, post_delete_save, Target, door, game, Visit, Site, Server, route, serve,
  serves, behind, handled, entered, zorkd_server, enroll_users,
}

-- `Else` holds of the identifiers of other users.
module _ ⦃u : Unicode⦄ ⦃crypto : Crypto⦄ ⦃sql : Sqlite⦄ (parse_address : Text → Option Text)
    (sha256 : Text → Text) (encode : List ℕ → Text) {S Story Machine : Type 0}
    (server : Server S Story Machine) (Else : Text → Type 0) where
  -- A request for the games that requireUser lets through, if at all, as somebody else.
  abbrev pub Stranger : Visit → Site S → Type 0
  Stranger x site =
      (r : Route) (player : User)
      → x.target ≡ game r
      → (require_user parse_address sha256 encode server.manager x.now x.cookie site.front).0
        ≡ admitted player
      → Else player.id

  abbrev pub Strangers : List Visit → Site S → Type 0
  Strangers [] site = Unit {0}
  Strangers (x ∷ xs) site =
      Stranger x site × Strangers xs (serve parse_address sha256 encode server x site).1

module _ ⦃u : Unicode⦄ ⦃crypto : Crypto⦄ ⦃sql : Sqlite⦄ (parse_address : Text → Option Text)
    (sha256 : Text → Text) (encode : List ℕ → Text) {S Story Machine : Type 0}
    (server : Server S Story Machine) (atomic : IsAtomic server.service.store)
    (Apart : Text → Text → Type 0) (IsValid : S → Type 0)
    (law : IsPrivate server.service.store Apart IsValid) (v : Text)
    (enrolls : (users : Users) (s : S)
      → IsValid s
      → IsValid (server.enroll users s)
        × SameView server.service.store v s (server.enroll users s)) where
  open server use {service}

  route-Kept :
      (c : Call) (player : User) (r : Route) (s : S)
      → Apart v player.id
      → IsValid s
      → Kept service atomic Apart IsValid law c v s
          (route parse_address sha256 encode server c player r s).1
  unfolding route show_game show_saves restart_game delete_game restore_save delete_save
  route-Kept c player (get_lobby notice) s a w =
      rw (show_lobby-keeps service atomic Apart IsValid law c v player notice s)
        (w, SameView-refl _ v s)
  route-Kept c player (post_game story) s a w =
      new_game-Kept service atomic Apart IsValid law c v player a story s w
  route-Kept c player (get_game id prompt notice) s a w =
      rw
        (draw_game-keeps service atomic Apart IsValid law c v player.id id notice (game_mode prompt)
          s)
        (w, SameView-refl _ v s)
  route-Kept c player (post_input r id) s a w =
      input-Kept service atomic Apart IsValid law c v player a r id s w
  route-Kept c player (post_restart r id) s a w =
      rw
        (restarted-keeps service atomic Apart IsValid law c v r id
          (Service.restart service c player.id id s))
        ((restart-Hidden service atomic Apart IsValid law c v player.id a id).at s w)
  route-Kept c player (post_delete id) s a w =
      rw
        (deleted-keeps service atomic Apart IsValid law c v
          (Service.delete service c player.id id s))
        ((delete-Hidden service atomic Apart IsValid law c v player.id a id).at s w)
  route-Kept c player (get_saves id prompt notice) s a w =
      rw
        (draw_game-keeps service atomic Apart IsValid law c v player.id id notice
          (saves_mode prompt) s)
        (w, SameView-refl _ v s)
  route-Kept c player (post_save id name) s a w =
      create_save-Kept service atomic Apart IsValid law c v player a id name s w
  route-Kept c player (post_restore id save) s a w =
      rw
        (redrawn-keeps service atomic Apart IsValid law c v id (codes "restore")
          (Service.restore_save service c player.id id save s))
        ((restore_save-Hidden service atomic Apart IsValid law c v player.id a id save).at s w)
  route-Kept c player (post_delete_save id save) s a w =
      rw
        (save_deleted-keeps service atomic Apart IsValid law c v id
          (Service.delete_save service c player.id id save s))
        ((delete_save-Hidden service atomic Apart IsValid law c v player.id a id save).at s w)

  behind-Kept :
      (c : Call) (r : Route) (s : S) (g : Gate × Front)
      → ((player : User) → g.0 ≡ admitted player → Apart v player.id)
      → IsValid s
      → Kept service atomic Apart IsValid law c v s
          (behind parse_address sha256 encode server c r s g).1.games
  unfolding behind handled
  behind-Kept c r s (to_login, f) a w = (w, SameView-refl _ v s)
  behind-Kept c r s (admitted player, f) a w = route-Kept c player r s (a player refl) w

  visited :
      (x : Visit) (site : Site S) (t : Target)
      → x.target ≡ t
      → Stranger parse_address sha256 encode server (Apart v) x site
      → IsValid site.games
      → Kept service atomic Apart IsValid law x.call v site.games
          (serve parse_address sha256 encode server x site).1.games
  unfolding serve
  visited x site (door d) e a w = rw (e, serve) (unfold entered in enrolls _ site.games w)
  visited x site (game r) e a w =
      rw (e, serve) (behind-Kept x.call r site.games _ (λ player. a r player e) w)

  pub serves-Kept :
      (xs : List Visit) (site : Site S)
      → Strangers parse_address sha256 encode server (Apart v) xs site
      → IsValid site.games
      → IsValid (serves parse_address sha256 encode server xs site).games
        × SameView service.store v site.games
            (serves parse_address sha256 encode server xs site).games
  unfolding serves
  serves-Kept [] site a w = (w, SameView-refl _ v site.games)
  serves-Kept (x ∷ xs) site a w =
      let (w', e) = visited x site x.target refl a.0 w in
      let (w'', e') = serves-Kept xs (serve parse_address sha256 encode server x site).1 a.1 w' in
      (w'', SameView-trans service.store v site.games _ _ e e')

module _ ⦃u : Unicode⦄ ⦃crypto : Crypto⦄ ⦃sql : Sqlite⦄ (parse_address : Text → Option Text)
    (sha256 : Text → Text) (encode : List ℕ → Text) {Story Machine : Type 0}
    (library : Library Story) (runner : Runner) (engine : Engine Story Machine) (manager : Manager)
    (inviter : Inviter) where
  abbrev server : Server Db Story Machine
  server = zorkd_server library runner engine manager inviter

  enrolled_view :
      (v : Text) (users : Users) (db : Db)
      → IsTidy db
      → IsTidy (enroll_users users db) × SameView sql_store v db (enroll_users users db)
  unfolding owns_game
  enrolled_view v users db h =
      let tidy : IsTidy (enroll_users users db) = record {
        whole = record { table = h.whole.table; bounded = h.whole.bounded; owned = h.whole.owned };
        keyed = h.keyed;
      } in
      (
        tidy,
        View-SameView v db (enroll_users users db) h tidy
            (λ o e. record { games = refl; saves = λ g w. refl }),
      )

  -- Whatever the requests of a day are, each of them let through to the games, if at all, as somebody
  -- else: the lobby, every game, its saves and every save are read by the user as before them. The
  -- tables may be any whose rows have keys of their own, whose saves have names and games of their own,
  -- twenty to a game at most.
  pub serves-SameView :
      (v : Text) (xs : List Visit) (site : Site Db)
      → IsTidy site.games
      → Strangers parse_address sha256 encode server (Apart v) xs site
      → SameView sql_store v site.games (serves parse_address sha256 encode server xs site).games
  serves-SameView v xs site h a =
      (serves-Kept parse_address sha256 encode server sql_store-IsAtomic Apart IsTidy
        sql_store-IsPrivate v (enrolled_view v) xs site a h).1
