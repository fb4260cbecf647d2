-- ===== src/Game/Types.antt =====
-- The records of internal/game, and what a call of the engine returns. A state is the bytes that
-- resume a game; the empty list is Go's nil.
use zorkd.Base.{ℕ, Bool, ℤ, List, Text}

-- zmachine.StatusLine, as far as the program reads it.
pub record EngineStatus : Type 0 where
  pub available : Bool
  pub name : Text
  pub time_game : Bool
  pub score : ℤ
  pub turns : ℤ
  pub hours : ℕ
  pub minutes : ℕ

-- zmachine.Result
pub data EngineState : Type 0 where
  waiting halted : EngineState

pub record EngineResult : Type 0 where
  pub output : Text
  pub upper_window : Text
  pub status_line : EngineStatus
  pub status : EngineState
  pub state : List ℕ

pub record StatusLine : Type 0 where
  pub available : Bool
  pub name : Text
  pub time_game : Bool
  pub score : ℤ
  pub moves : ℤ
  pub hours : ℕ
  pub minutes : ℕ

unfoldable pub status_of : EngineStatus → StatusLine
status_of s = record {
  available = s.available;
  name = s.name;
  time_game = s.time_game;
  score = s.score;
  moves = s.turns;
  hours = s.hours;
  minutes = s.minutes;
}

-- A 32-byte SHA-256.
abbrev pub StoryKey : Type 0
StoryKey = Text

pub record Session : Type 0 where
  pub id : Text
  pub user_id : Text
  pub story_key : StoryKey
  pub state : List ℕ
  pub transcript : Text
  pub status : StatusLine
  pub turn : ℕ
  pub version : ℕ
  pub halted : Bool

-- A named save without the bytes that restore it. Times are nanoseconds.
pub record Save : Type 0 where
  pub id : Text
  pub name : Text
  pub turn : ℕ
  pub created_at : ℕ

pub record Snapshot : Type 0 where
  pub id : Text
  pub user_id : Text
  pub game_id : Text
  pub name : Text
  pub story_key : StoryKey
  pub state : List ℕ
  pub transcript : Text
  pub status : StatusLine
  pub turn : ℕ
  pub created_at : ℕ

pub record Summary : Type 0 where
  pub id : Text
  pub story_key : StoryKey
  pub turn : ℕ
  pub halted : Bool
  pub updated_at : ℕ

-- result.Status == zmachine.Halted
abbrev pub is_halted : EngineState → Bool
is_halted waiting = Bool.false
is_halted halted = Bool.true
