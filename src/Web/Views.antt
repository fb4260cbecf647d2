-- ===== src/Web/Views.antt =====
-- What the pages of internal/httpserver/game.go draw, from what is stored. A time stays a number,
-- which the page prints as a local date.
use zorkd.Base.{ℕ, Bool, true, false, ℤ, List, [], if◌then◌else◌, map, Text, pos}
use zorkd.Game.Types.{StatusLine, EngineStatus, Save, status_of}
use zorkd.Game.Runner.{max_command_bytes}
use zorkd.Game.SaveName.{max_save_name_bytes}
use zorkd.Terminal.{clock}

pub record StatusView : Type 0 where
  pub available : Bool
  pub name : Text
  pub score : ℤ
  pub moves : ℤ
  pub time_game : Bool
  pub time : Text

-- One named save on the selector.
pub record SaveLine : Type 0 where
  pub id : Text
  pub name : Text
  pub turn : ℕ
  pub created : ℕ

-- The bottom of the terminal, by its mode: empty for the command line.
pub record PromptView : Type 0 where
  pub id : Text
  pub mode : Text
  pub halted : Bool
  pub max_command : ℕ
  pub max_save_name : ℕ
  pub saves : List SaveLine

pub record GameView : Type 0 where
  pub id : Text
  pub story : Text
  pub transcript : Text
  pub status : StatusView
  pub notice : Text
  pub prompt : PromptView

pub record GameLine : Type 0 where
  pub id : Text
  pub story : Text
  pub turn : ℕ
  pub halted : Bool

pub record StoryLine : Type 0 where
  pub id : Text
  pub title : Text

pub record LobbyView : Type 0 where
  pub email : Text
  pub notice : Text
  pub games : List GameLine
  pub stories : List StoryLine

-- The time of day that Clock prints, of the hours and the minutes alone.
unfoldable pub stored_status_view : StatusLine → StatusView
unfolding clock
stored_status_view s = record {
  available = s.available;
  name = s.name;
  score = s.score;
  moves = s.moves;
  time_game = s.time_game;
  time =
      if s.time_game
      then clock (record {
        available = false;
        name = [];
        time_game = true;
        score = pos 0;
        turns = pos 0;
        hours = s.hours;
        minutes = s.minutes;
      })
      else [];
}

unfoldable pub new_status_view : EngineStatus → StatusView
unfolding stored_status_view status_of
new_status_view s = stored_status_view (status_of s)

unfoldable pub new_prompt_view : Text → Text → Bool → PromptView
new_prompt_view id mode halted = record {
  id = id;
  mode = mode;
  halted = halted;
  max_command = max_command_bytes;
  max_save_name = max_save_name_bytes;
  saves = [];
}

abbrev pub save_line : Save → SaveLine
save_line save = record {
  id = save.id;
  name = save.name;
  turn = save.turn;
  created = save.created_at;
}

unfoldable pub save_rows : List Save → List SaveLine
save_rows saves = map save_line saves
