-- ===== src/Web/Pages.antt =====
-- internal/httpserver/game.go and saves.go: the pages that a player is shown, and the form that
-- starts a game.
use zorkd.Base.{◌||◌, Option, none, some, List, [], if◌then◌else◌, map, Text, codes, str_eq}
use zorkd.Errors.{Result, ok, err, errors_is, session_not_found, story_unavailable}
use zorkd.Go.Space.{Unicode}
use zorkd.Game.Types.{Session, Save, Summary, EngineResult}
use zorkd.Game.Runner.{Entry}
use zorkd.Game.Library.{Library, find_key, all}
use zorkd.Game.Service
use zorkd.Game.Service.{Service, Call}
use zorkd.Account.Users.{User}
use zorkd.Web.Views.{
  GameView, GameLine, StoryLine, LobbyView, stored_status_view, new_prompt_view, save_rows,
}
use zorkd.Web.{Reply, not_found, broken, redirect, game_path, plain, lobby, terminal, trim_prompt}

module _ {Story : Type 0} (library : Library Story) where
  unfoldable pub title_or : Text → Text → Text
  unfolding find_key
  title_or other key = elim (find_key library key) [ none ↦ other | some entry ↦ entry.title ]

  unfoldable pub game_line : Summary → GameLine
  unfolding title_or
  game_line x = record {
    id = x.id;
    story = title_or (codes "unknown story") x.story_key;
    turn = x.turn;
    halted = x.halted;
  }

  abbrev story_line : Entry Story → StoryLine
  story_line entry = record { id = entry.id; title = entry.title }

  unfoldable pub lobby_view : User → Text → List Summary → LobbyView
  unfolding game_line all
  lobby_view player notice summaries = record {
    email = player.email;
    notice = notice;
    games = map game_line summaries;
    stories = map story_line (all library);
  }

  unfoldable pub lobby_of : {S : Type 0} → User → Text → Result (List Summary) × S → Reply × S
  unfolding lobby_view
  lobby_of player notice (ok summaries, s) = (lobby (lobby_view player notice summaries), s)
  lobby_of player notice (err e, s) = (broken, s)

  -- The view of drawGame before it is given its saves.
  unfoldable pub game_view : Text → Text → Session → GameView
  unfolding title_or trim_prompt stored_status_view new_prompt_view
  game_view notice mode x = record {
    id = x.id;
    story = title_or (codes "Zork") x.story_key;
    transcript = trim_prompt x.transcript;
    status = stored_status_view x.status;
    notice = notice;
    prompt = new_prompt_view x.id mode x.halted;
  }

unfoldable pub with_saves : {S : Type 0} → GameView → Result (List Save) × S → Reply × S
unfolding save_rows
with_saves v (ok saves, s) =
    (terminal (record v { prompt = record v.prompt { saves = save_rows saves } }), s)
with_saves v (err e, s) = (broken, s)

unfoldable pub game_started : {S : Type 0} → Result (Session × EngineResult) × S → Reply × S
game_started (ok (session, _), s) = (redirect (game_path session.id) [], s)
game_started (err e, s) = (
  if errors_is e story_unavailable
      then plain 404 (codes "This server does not carry that story.")
      else broken,
  s,
)

-- The questions that showGame and showSaves ask, by the address.
unfoldable pub game_mode : Text → Text
game_mode prompt =
    if str_eq prompt (codes "restart")
    then codes "restart"
    else if str_eq prompt (codes "delete")
    then codes "delete"
    else []

unfoldable pub saves_mode : Text → Text
saves_mode prompt = if str_eq prompt (codes "save") then codes "save" else codes "restore"

module _ ⦃u : Unicode⦄ {S Story Machine : Type 0} (service : Service S Story Machine)
    (call : Call) where
  open service use {library}

  -- showLobby
  unfoldable pub show_lobby : User → Text → S → Reply × S
  unfolding lobby_of
  show_lobby player notice s =
      lobby_of library player notice (Service.games service call player.id s)

  -- newGame, of the field of the form, if it can be read
  unfoldable pub new_game : Text → Option Text → S → Reply × S
  unfolding game_started
  new_game user none s = (plain 400 (codes "That request could not be read."), s)
  new_game user (some story) s = game_started (Service.new_game service call user story s)

  -- The saves are read only when something is going to show them.
  unfoldable pub drawn : Text → Text → Text → Result Session × S → Reply × S
  unfolding game_view with_saves
  drawn user notice mode (err e, s) =
      (if errors_is e session_not_found then not_found else broken, s)
  drawn user notice mode (ok x, s) =
      if str_eq mode (codes "save") || str_eq mode (codes "restore") || x.halted
      then with_saves (game_view library notice mode x) (Service.saves service call user x.id s)
      else (terminal (game_view library notice mode x), s)

  -- drawGame
  unfoldable pub draw_game : Text → Text → Text → Text → S → Reply × S
  unfolding drawn
  draw_game user id notice mode s = drawn user notice mode (Service.session service call user id s)

  -- showGame and showSaves, by the fields "prompt" and "notice" of the address
  unfoldable pub show_game : Text → Text → Text → Text → S → Reply × S
  unfolding draw_game game_mode
  show_game user id prompt notice s = draw_game user id notice (game_mode prompt) s

  unfoldable pub show_saves : Text → Text → Text → Text → S → Reply × S
  unfolding draw_game saves_mode
  show_saves user id prompt notice s = draw_game user id notice (saves_mode prompt) s
