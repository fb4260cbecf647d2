-- ===== src/Game/Command.antt =====
-- command.go: whether a line is the story's to answer or this application's.
use zorkd.Base.{◌+◌, none, some, [], if◌then◌else◌, take, drop, Text, codes, str_eq}
use zorkd.Go.Utf8.{runes}
use zorkd.Go.Space.{Unicode, trim_space, index_space, to_lower_text}

pub data Intent : Type 0 where
  play save restore restart : Intent

pub record Command : Type 0 where
  pub intent : Intent
  pub text : Text
  pub name : Text

-- The first word and the rest of a trimmed line. The cut is one byte after the space begins.
unfoldable pub split_verb : Text → Text × Text
unfolding index_space runes trim_space
split_verb text = elim (index_space (runes text)) [
  | none ↦ (text, [])
  | some i ↦ (take i text, trim_space (drop (i + 1) text))
]

module _ ⦃u : Unicode⦄ where
  intent_of : Text → Intent
  intent_of verb =
      let v = to_lower_text verb in
      if str_eq v (codes "save")
      then save
      else if str_eq v (codes "restore")
      then restore
      else if str_eq v (codes "restart")
      then restart
      else play

  command_of : Text → Text × Text → Command
  command_of text (verb, rest) = elim (intent_of verb) [
    | play ↦ record { intent = play; text = text; name = [] }
    | save ↦ record { intent = save; text = text; name = rest }
    | restore ↦ record { intent = restore; text = text; name = rest }
    | restart ↦ record { intent = restart; text = text; name = [] }
  ]

  unfoldable pub interpret : Text → Command
  unfolding intent_of command_of split_verb trim_space to_lower_text str_eq
  interpret line = let text = trim_space line in command_of text (split_verb text)
