-- ===== src/Web.antt =====
-- internal/httpserver/game.go, with the answers of internal/httpserver/saves.go: a line that a
-- browser sends, up to the answer. What the templates draw of it, and the log, are left out.
pub mod Views
pub mod Turns
pub mod Saves
pub mod Pages
pub mod Routes
pub mod Health
pub mod Handlers
pub mod Isolation
pub mod Session
use zorkd.Base.{
  ℕ, Bool, true, false, ◌||◌, Option, none, some, List, [], ◌∷◌, ◌++◌, if◌then◌else◌, ltb, ◌==◌,
  length, Text, codes, str_eq,
}
use zorkd.Errors.{
  Error, Result, ok, err, errors_is, session_not_found, game_over, version_conflict,
  story_unavailable,
}
use zorkd.Go.Space.{Unicode, trim_space}
use zorkd.Game.Types.{Save, EngineResult}
use zorkd.Game.Command.{Intent}
use zorkd.Game.Fault.{Fault, classify}
use zorkd.Game.SaveName.{is_empty}
use zorkd.Game.Runner.{max_command_bytes}
use zorkd.Game.Screen.{Turn, notice}
use Views.{StatusView, PromptView, GameView, LobbyView, new_status_view, new_prompt_view, save_rows}
use zorkd.Game.Service
use zorkd.Game.Service.{Service, Call}

-- Whether htmx drives the browser, and the field of the form, if the form can be read.
pub record Request : Type 0 where
  pub htmx : Bool
  pub command : Option Text

-- The values that the templates draw. A URL is its path and its query.
pub data Reply : Type 0 where
  -- nobody is there to answer
  silent : Reply
  not_found broken : Reply
  -- http.Redirect, and sendTo
  redirect send_to : Text → List (Text × Text) → Reply
  -- the fragment "turn" of answerTurn
  message : Text → Text → Reply
  -- the fragments of a turn
  played : Text → Text → StatusView → Text → Reply
  -- the fragments of a question
  ask : Text → PromptView → Reply
  -- http.Error, with its status
  plain : ℕ → Text → Reply
  -- the pages
  lobby : LobbyView → Reply
  terminal : GameView → Reply

-- strings.SplitN(s, "\\n", 2)[0]
unfoldable pub first_line : Text → Text
first_line [] = []
first_line (b ∷ s) = let rest = first_line s in if b == 0x0A then [] else b ∷ rest

-- trimPrompt
unfoldable pub trim_prompt : Text → Text
trim_prompt [] = []
trim_prompt (b ∷ []) = if b == b'>' then [] else b ∷ []
trim_prompt (b ∷ c ∷ s) = b ∷ trim_prompt (c ∷ s)

unfoldable pub prompt_mode : Intent → Text
prompt_mode Intent.save = codes "save"
prompt_mode Intent.restart = codes "restart"
prompt_mode _ = codes "restore"

abbrev pub game_path : Text → Text
game_path id = codes "/games/" ++ id

unfoldable pub answer_turn : Request → Text → Text → Text → Reply
answer_turn r id command text =
    if r.htmx
    then message command (codes "[" ++ text ++ codes "]" ++ 0x0A ∷ 0x0A ∷ [])
    else redirect (game_path id) ((codes "notice", text) ∷ [])

unfoldable pub fault_reply : Request → Text → Text → Fault → Reply
unfolding answer_turn
fault_reply r id command Fault.canceled = silent
fault_reply r id command Fault.timeout =
    answer_turn r id command (codes "That took too long. Try it again.")
fault_reply r id command Fault.invalid_state =
    answer_turn r id command (codes "This game cannot be resumed.")
fault_reply r id command _ =
    answer_turn r id command (codes "Something went wrong playing that turn. Nothing was lost.")

unfoldable pub turn_failed : Request → Text → Text → Error → Reply
unfolding fault_reply
turn_failed r id command e =
    if errors_is e session_not_found
    then not_found
    else if errors_is e game_over
    then answer_turn r id command (codes "The story has ended.")
    else if errors_is e version_conflict
    then answer_turn r id command (codes "This game moved on somewhere else. Reload to catch up.")
    else if errors_is e story_unavailable
    then answer_turn r id command (codes "This server cannot run that story.")
    else fault_reply r id command (classify {A = Unit {0}} (err e))

-- redirectToSaves and redirectToRestart. url.Values encodes its keys in order.
unfoldable pub to_saves : Text → Text → Text → Reply
to_saves id mode text = send_to (game_path id ++ codes "/saves") (
    (if is_empty text then [] else (codes "notice", text) ∷ [])
    ++ (if str_eq mode (codes "save") then (codes "prompt", codes "save") ∷ [] else []))

abbrev pub to_restart : Text → Reply
to_restart id = send_to (game_path id) ((codes "prompt", codes "restart") ∷ [])

unfoldable pub asked_saves : Text → Text → Text → Result (List Save) → Reply
unfolding new_prompt_view save_rows
asked_saves id command mode (ok saves) =
    ask command (record (new_prompt_view id mode false) { saves = save_rows saves })
asked_saves id command mode (err e) = broken

-- The answer to a turn that was played, in the form that the browser takes. Without a result of the
-- engine the handler would panic, and nobody would be answered.
unfoldable pub turn_reply : Request → Text → Text → Turn → Reply
unfolding trim_prompt new_status_view
turn_reply r id command t =
    if r.htmx
    then elim t.result [
      | none ↦ silent
      | some result ↦
          played command (trim_prompt result.output) (new_status_view result.status_line)
            result.upper_window
    ]
    else redirect (game_path id) []

-- What is not a question, by the intent of the line.
unfoldable pub settled : ⦃u : Unicode⦄ → Request → Text → Text → Turn → Intent → Reply
unfolding answer_turn notice turn_reply
settled r id command t Intent.save = answer_turn r id command (notice t)
settled r id command t Intent.restore = send_to (game_path id) []
settled r id command t _ = turn_reply r id command t

module _ ⦃u : Unicode⦄ {S Story Machine : Type 0} (service : Service S Story Machine)
    (call : Call) where
  -- askAbout
  unfoldable pub ask_about : Request → Text → Text → Text → Text → S → Reply × S
  unfolding to_saves asked_saves new_prompt_view
  ask_about r user id command mode s =
      if r.htmx
      then (if str_eq mode (codes "restart")
          then (ask command (new_prompt_view id mode false), s)
          else (let (saves, s') = Service.saves service call user id s in
              (asked_saves id command mode saves, s')))
      else if str_eq mode (codes "restart")
      then (to_restart id, s)
      else (to_saves id mode [], s)

  unfoldable pub turn_answered : Request → Text → Text → Text → Turn → S → Reply × S
  unfolding ask_about prompt_mode settled
  turn_answered r user id command t s =
      if t.asked
      then ask_about r user id command (prompt_mode t.intent) s
      else (settled r id command t t.intent, s)

  unfoldable pub line_played : Request → Text → Text → Text → Result Turn × S → Reply × S
  unfolding turn_answered turn_failed
  line_played r user id command (ok t, s) = turn_answered r user id command t s
  line_played r user id command (err e, s) = (turn_failed r id command e, s)

  -- playTurn
  unfoldable pub play_turn : Request → Text → Text → S → Reply × S
  unfolding line_played answer_turn first_line
  play_turn r user id s = elim r.command [
    | none ↦ (answer_turn r id [] (codes "That request could not be read."), s)
    | some field ↦
        let command = trim_space (first_line field) in
        if ltb max_command_bytes (length command)
        then (answer_turn r id command (codes "That command is too long."), s)
        else line_played r user id command (Service.play service call user id command s)
  ]

  unfoldable pub restarted : Request → Text → Result Turn × S → Reply × S
  unfolding turn_failed
  restarted r id (ok t, s) = (send_to (game_path id) [], s)
  restarted r id (err e, s) = (turn_failed r id (codes "restart") e, s)

  -- restartGame
  unfoldable pub restart_game : Request → Text → Text → S → Reply × S
  unfolding restarted
  restart_game r user id s = restarted r id (Service.restart service call user id s)

  unfoldable pub deleted : Result (Unit {0}) × S → Reply × S
  deleted (ok _, s) = (
    send_to (codes "/")
        ((codes "notice", codes "That game is gone, and the saves it held with it.") ∷ []),
    s,
  )
  deleted (err e, s) = (if errors_is e session_not_found then not_found else broken, s)

  -- deleteGame
  unfoldable pub delete_game : Text → Text → S → Reply × S
  unfolding deleted
  delete_game user id s = deleted (Service.delete service call user id s)
