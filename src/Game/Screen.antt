-- ===== src/Game/Screen.antt =====
-- session.go and saves.go: what a line produces, and the sessions and saves that an operation
-- hands to the store.
use zorkd.Base.{◌+◌, Bool, true, false, Option, none, some, [], ◌++◌, Text, codes}
use zorkd.Go.Space.{Unicode}
use zorkd.Go.Quote.{quote}
use zorkd.Game.Types.{Session, Save, Snapshot, EngineResult, status_of, is_halted, StoryKey}
use zorkd.Game.Command.{Intent}
use zorkd.Game.Transcript.{append_transcript, append_notice}

-- The zero value of a field is none here.
pub record Turn : Type 0 where
  pub intent : Intent
  pub session : Option Session
  pub result : Option EngineResult
  pub save : Option Save
  pub replaced : Bool
  pub asked : Bool

-- A line that is a question: nothing is written until the answer arrives.
abbrev pub question : Intent → Turn
question i = record {
  intent = i;
  session = none;
  result = none;
  save = none;
  replaced = false;
  asked = true;
}

-- The session that a played command leaves to be stored.
unfoldable pub after_turn : Session → Text → EngineResult → Session
unfolding append_transcript status_of
after_turn x command result = record x {
  state = result.state;
  transcript = append_transcript x.transcript command result.output;
  status = status_of result.status_line;
  halted = is_halted result.status;
  turn = x.turn + 1;
}

-- The session that a restart leaves to be stored.
unfoldable pub after_restart : Session → EngineResult → Session
unfolding status_of
after_restart x result = record x {
  state = result.state;
  transcript = result.output;
  status = status_of result.status_line;
  halted = is_halted result.status;
  turn = 0;
}

-- The session that a new game stores; the store gives it an identifier and a version.
unfoldable pub opening : Text → StoryKey → EngineResult → Session
unfolding status_of
opening user key result = record {
  id = [];
  user_id = user;
  story_key = key;
  state = result.state;
  transcript = result.output;
  status = status_of result.status_line;
  turn = 0;
  version = 0;
  halted = is_halted result.status;
}

unfoldable pub snapshot_of : Text → Text → Text → Session → Snapshot
snapshot_of user game name x = record {
  id = [];
  user_id = user;
  game_id = game;
  name = name;
  story_key = x.story_key;
  state = x.state;
  transcript = x.transcript;
  status = x.status;
  turn = x.turn;
  created_at = 0;
}

module _ ⦃u : Unicode⦄ where
  unfoldable pub saved_notice : Text → Bool → Text
  unfolding quote
  saved_notice name true = codes "Saved as " ++ (quote name ++ codes ", replacing the earlier one.")
  saved_notice name false = codes "Saved as " ++ (quote name ++ codes ".")

  unfoldable pub restored_notice : Text → Text
  unfolding quote
  restored_notice name = codes "Restored " ++ (quote name ++ codes ".")

  -- The session that a restore leaves to be stored.
  unfoldable pub after_restore : Session → Snapshot → Text → Session
  unfolding append_notice restored_notice
  after_restore x snapshot echo = record x {
    state = snapshot.state;
    status = snapshot.status;
    turn = snapshot.turn;
    transcript = append_notice snapshot.transcript echo (restored_notice snapshot.name);
    halted = false;
  }

  -- Turn.Notice
  unfoldable pub notice : Turn → Text
  unfolding saved_notice restored_notice
  notice t = elim t.save [
    | none ↦ []
    | some s ↦ elim t.intent [
      | Intent.save ↦ saved_notice s.name t.replaced
      | Intent.restore ↦ restored_notice s.name
      | _ ↦ []
    ]
  ]
