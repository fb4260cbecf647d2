-- ===== src/Examples/Guards.antt =====
-- The theorems on names, transcripts, libraries and the terminal, at small inputs.
use zorkd.Base.{
  some, ◌≤◌, ◌≡◌, refl, List, [], ◌∷◌, ◌++◌, arith, length, All, Text, codes, lookup, insert,
}
use zorkd.Examples.{engine, zork}
use zorkd.Game.Transcript.{append_transcript, max_transcript_bytes}
use zorkd.Game.Transcript.Bounds.{append_transcript-KeptEnd, KeptEnd}
use zorkd.Game.SaveName.{clean_save_name, is_empty}
use zorkd.Game.SaveName.Clean.{IsSaveName, clean_save_name-IsSaveName}
use zorkd.Go.Space.{single_spaced}
use zorkd.Game.Library.{Library, Source, new_library, all, len, find_id, find_key}
use zorkd.Game.Library.Catalog.{new_library-IsCatalog, Found}
use zorkd.Terminal.{wrap, wrap_words}
use zorkd.Terminal.Rounds.{wrap_words-ends}
use zorkd.Terminal.Wrapping.{ink, wrap-ink}

wrap-ink_example : ink (wrap (codes "go west young man") 8) ≡ ink (codes "go west young man")
wrap-ink_example = wrap-ink (codes "go west young man") 8

append_transcript-KeptEnd_example :
    (length (append_transcript (codes "Hi.>") (codes "look") (codes "Trees.>"))
      ≤ max_transcript_bytes)
    × KeptEnd
        (codes "Hi.>" ++ (codes "look" ++ (10 ∷ codes "Trees.>")))
        max_transcript_bytes
        (append_transcript (codes "Hi.>") (codes "look") (codes "Trees.>"))
append_transcript-KeptEnd_example =
    append_transcript-KeptEnd (codes "Hi.>") (codes "look") (codes "Trees.>")

clean_save_name-IsSaveName_example :
    IsSaveName (codes "a b") × (codes "a b" ≡ single_spaced (codes " a  b"))
unfolding clean_save_name zorkd.Go.Utf8.valid_string single_spaced zorkd.Go.Space.is_control
clean_save_name-IsSaveName_example = clean_save_name-IsSaveName (codes " a  b") (codes "a b") refl

abbrev sources : List Source
sources =
    record {
      id = codes "zork1";
      title = codes "Zork I";
      file = codes "z.z3";
      image = codes "image";
    }
    ∷ []

abbrev loaded : Library Text
loaded = record {
  by_key = (codes "image", record zork { file = codes "z.z3"; key = codes "image" }) ∷ [];
  by_id = (codes "zork1", record zork { file = codes "z.z3"; key = codes "image" }) ∷ [];
  order = record zork { file = codes "z.z3"; key = codes "image" } ∷ [];
}

new_library-IsCatalog_example : All (Found loaded) (all loaded) × (len loaded ≡ 1)
unfolding new_library zorkd.Game.Library.load_all zorkd.Game.Library.add is_empty lookup
    zorkd.Game.Library.empty zorkd.Game.Library.register insert
new_library-IsCatalog_example = new_library-IsCatalog engine (λ s. s) sources loaded refl

wrap_words-ends_example : (out : Text) × (wrap_words 8 4 [] [] 0 (codes "go west") ≡ some out)
wrap_words-ends_example = wrap_words-ends 8 4 [] [] 0 (codes "go west") (omega arith)
