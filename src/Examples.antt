-- ===== src/Examples.antt =====
-- Concrete inputs for the theorems: a table of runes, an engine that echoes, and a server that
-- keeps its games in memory.
pub mod Games
pub mod Guards
pub mod Requests
pub mod Parts
pub mod Tables
pub mod Invitations
pub mod Entrances
pub mod Days
pub mod Commands
pub mod Openings
use zorkd.Base.{
  ℕ, ◌≤◌, ◌<◌, ◌≡◌, ◌≢◌, refl, Bool, true, false, Option, none, some, List, [], ◌∷◌, ◌++◌, arith,
  ltb, leb, ◌==◌, if◌then◌else◌, Text, codes, pos,
}
use zorkd.Errors.{Result, ok, err}
use zorkd.Go.Space.{Unicode, ascii_lower}
use zorkd.Game.Types.{EngineStatus, EngineResult, EngineState, Session, StatusLine}
use zorkd.Game.Runner.{Engine, Entry, Runner, Context}
use zorkd.Game.Library.{Library}
use zorkd.Game.Memory.{MemoryStore, memory_store}
use zorkd.Game.Service.{Service, Call}

abbrev lower : ℕ → ℕ
lower r =
    if ltb r 128
    then ascii_lower r
    else if r == 0x130
    then b'i'
    else if r == 0x212A
    then b'k'
    else r

abbrev fold_ascii : ℕ → ℕ
fold_ascii r = if ltb r 128 then ascii_lower r else r

abbrev pub unicode : Unicode
unicode = record {
  to_lower = lower;
  fold = fold_ascii;
  is_print = λ r. leb 32 r;
  to_lower-ascii = λ r h. ground arith;
  to_lower-other = λ r h p q. ground arith;
  to_lower-dotted = refl;
  to_lower-kelvin = refl;
  fold-ascii = λ r h. ground arith;
}

abbrev pub shown : EngineStatus
shown = record {
  available = true;
  name = codes "West of House";
  time_game = false;
  score = pos 0;
  turns = pos 1;
  hours = 0;
  minutes = 0;
}

abbrev pub answer_of : Text → EngineResult
answer_of state = record {
  output = codes "Taken.";
  upper_window = [];
  status_line = shown;
  status = EngineState.waiting;
  state = state;
}

-- A story is its image, and a state is every command so far.
abbrev pub engine : Engine Text Text
engine = record {
  load_story = ok;
  new = λ story limit seed. ok [];
  start = λ machine ctx. ok (answer_of (codes "0"));
  restore = λ machine saved. ok saved;
  run = λ machine ctx command. ok (answer_of (machine ++ command));
}

abbrev pub zork : Entry Text
zork = record {
  id = codes "zork1";
  title = codes "Zork I";
  file = codes "zork1.z3";
  key = codes "key";
  story = codes "image";
}

abbrev pub library : Library Text
library = record {
  by_key = (codes "key", zork) ∷ [];
  by_id = (codes "zork1", zork) ∷ [];
  order = zork ∷ [];
}

abbrev pub runner : Runner
runner = record { turn_timeout = 5; instruction_limit = 100; seed = none }

abbrev pub server : Service MemoryStore Text Text
server = record {
  library = library;
  runner = runner;
  store = memory_store ⦃u = unicode⦄;
  engine = engine;
}

abbrev pub call : Call
call = record { context = record { deadline = some 3 }; clock = λ n. n }

-- A game of the user "7".
abbrev pub game : Session
game = record {
  id = codes "1";
  user_id = codes "7";
  story_key = codes "key";
  state = codes "0";
  transcript = codes "Hello.";
  status = record {
    available = true;
    name = codes "West of House";
    time_game = false;
    score = pos 0;
    moves = pos 0;
    hours = 0;
    minutes = 0;
  };
  turn = 0;
  version = 1;
  halted = false;
}

abbrev pub stored : MemoryStore
stored = record {
  sessions = (codes "1", game) ∷ [];
  updated = (codes "1", 0) ∷ [];
  saves = [];
  next_id = 1;
  next_save = 0;
}
