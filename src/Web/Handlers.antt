-- ===== src/Web/Handlers.antt =====
-- What the handlers do to the games, seen by somebody else.
use zorkd.Base.{
  ◌≡◌, refl, ◌∙◌, Bool-cases, Option-cases, inl, inr, Option, none, some, List, Text, codes, str_eq,
  ltb, length, ◌||◌,
}
use zorkd.Errors.{Result, ok, err}
use zorkd.Go.Space.{Unicode, trim_space}
use zorkd.Game.Types.{Session, Save, Summary, EngineResult}
use zorkd.Web.Views.{GameView}
use zorkd.Game.SaveName.{is_empty}
use zorkd.Game.Runner.{max_command_bytes}
use zorkd.Game.Screen.{Turn}
use zorkd.Game.Store.{IsAtomic}
use zorkd.Game.Store.Private.{IsPrivate, SameView, SameView-refl}
use zorkd.Game.Service
use zorkd.Game.Service.{Service, Call}
use zorkd.Game.Service.Isolation.{new_game-Hidden, play-Hidden, save_named-Hidden}
use zorkd.Account.Users.{User}
use zorkd.Web.{Request, play_turn, first_line, restarted, deleted}
use zorkd.Web.Turns.{saves-keeps, line_played-keeps}
use zorkd.Web.Saves.{create_save, redrawn, save_deleted}
use zorkd.Web.Pages.{
  show_lobby, new_game, lobby_of, game_started, draw_game, drawn, with_saves, game_view,
}

module _ ⦃u : Unicode⦄ {S Story Machine : Type 0} (service : Service S Story Machine)
    (atomic : IsAtomic service.store) (Apart : Text → Text → Type 0) (IsValid : S → Type 0)
    (law : IsPrivate service.store Apart IsValid) (c : Call) (v : Text) where
  open service use {store}

  abbrev pub Kept : S → S → Type 0
  Kept s t = IsValid t × SameView store v s t

  pub redrawn-keeps : {A : Type 0} (id mode : Text) (m : Result A × S) → (redrawn id mode m).1 ≡ m.1
  unfolding redrawn
  redrawn-keeps id mode (ok _, s) = refl
  redrawn-keeps id mode (err e, s) = refl

  pub save_deleted-keeps : (id : Text) (m : Result Save × S) → (save_deleted service c id m).1 ≡ m.1
  unfolding save_deleted
  save_deleted-keeps id (ok _, s) = refl
  save_deleted-keeps id (err e, s) = refl

  pub restarted-keeps :
      (r : Request) (id : Text) (m : Result Turn × S) → (restarted service c r id m).1 ≡ m.1
  unfolding restarted
  restarted-keeps r id (ok _, s) = refl
  restarted-keeps r id (err e, s) = refl

  pub deleted-keeps : (m : Result (Unit {0}) × S) → (deleted service c m).1 ≡ m.1
  unfolding deleted
  deleted-keeps (ok _, s) = refl
  deleted-keeps (err e, s) = refl

  lobby_of-keeps :
      (player : User) (notice : Text) (m : Result (List Summary) × S)
      → (lobby_of service.library player notice m).1 ≡ m.1
  unfolding lobby_of
  lobby_of-keeps player notice (ok _, s) = refl
  lobby_of-keeps player notice (err e, s) = refl

  game_started-keeps : (m : Result (Session × EngineResult) × S) → (game_started m).1 ≡ m.1
  unfolding game_started
  game_started-keeps (ok _, s) = refl
  game_started-keeps (err e, s) = refl

  with_saves-keeps : (g : GameView) (m : Result (List Save) × S) → (with_saves g m).1 ≡ m.1
  unfolding with_saves
  with_saves-keeps g (ok _, s) = refl
  with_saves-keeps g (err e, s) = refl

  drawn-keeps :
      (user notice mode : Text) (m : Result Session × S)
      → (drawn service c user notice mode m).1 ≡ m.1
  unfolding drawn
  drawn-keeps user notice mode (err e, s) = refl
  drawn-keeps user notice mode (ok x, s) =
      elim (Bool-cases (str_eq mode (codes "save") || str_eq mode (codes "restore") || x.halted)) [
        | inl p ↦ rw p (
            with_saves-keeps (game_view service.library notice mode x)
              (Service.saves service c user x.id s)
            ∙ saves-keeps service atomic c user x.id s)
        | inr p ↦ rw p refl
      ]

  session-keeps : (user id : Text) (s : S) → (Service.session service c user id s).1 ≡ s
  unfolding Service.session
  session-keeps user id s = elim (Bool-cases (is_empty user)) [
    | inl p ↦ rw p refl
    | inr p ↦ rw p (atomic.load_keeps user id s)
  ]

  games-keeps : (user : Text) (s : S) → (Service.games service c user s).1 ≡ s
  unfolding Service.games
  games-keeps user s = elim (Bool-cases (is_empty user)) [
    | inl p ↦ rw p refl
    | inr p ↦ rw p (atomic.list_keeps user s)
  ]

  pub draw_game-keeps :
      (user id notice mode : Text) (s : S) → (draw_game service c user id notice mode s).1 ≡ s
  unfolding draw_game
  draw_game-keeps user id notice mode s =
      drawn-keeps user notice mode (Service.session service c user id s) ∙ session-keeps user id s

  pub show_lobby-keeps :
      (player : User) (notice : Text) (s : S) → (show_lobby service c player notice s).1 ≡ s
  unfolding show_lobby
  show_lobby-keeps player notice s =
      lobby_of-keeps player notice (Service.games service c player.id s) ∙ games-keeps player.id s

  module _ (player : User) (apart : Apart v player.id) where
    pub input-Kept :
        (r : Request) (id : Text) (s : S)
        → IsValid s
        → Kept s (play_turn service c r player.id id s).1
    unfolding play_turn
    input-Kept r id s w = elim (Option-cases r.command) [
      | inl p ↦ rw (p, play_turn) (w, SameView-refl store v s)
      | inr (field, p) ↦
          elim (Bool-cases (ltb max_command_bytes (length (trim_space (first_line field))))) [
            | inl q ↦ rw (p, play_turn) (rw q (w, SameView-refl store v s))
            | inr q ↦
                rw (p, play_turn)
                  (rw q (
                    rw (line_played-keeps service atomic c r player.id id _ _) (
                      (play-Hidden service atomic Apart IsValid law c v player.id apart id _).at s
                        w)))
          ]
    ]

    pub create_save-Kept :
        (id : Text) (name : Option Text) (s : S)
        → IsValid s
        → Kept s (create_save service c player.id id name s).1
    unfolding create_save
    create_save-Kept id none s w = (w, SameView-refl store v s)
    create_save-Kept id (some name) s w =
        rw (redrawn-keeps id (codes "save") (Service.save_named service c player.id id name s))
          ((save_named-Hidden service atomic Apart IsValid law c v player.id apart id name).at s w)

    pub new_game-Kept :
        (story : Option Text) (s : S) → IsValid s → Kept s (new_game service c player.id story s).1
    unfolding new_game
    new_game-Kept none s w = (w, SameView-refl store v s)
    new_game-Kept (some story) s w =
        rw (game_started-keeps (Service.new_game service c player.id story s))
          ((new_game-Hidden service atomic Apart IsValid law c v player.id apart story).at s w)
