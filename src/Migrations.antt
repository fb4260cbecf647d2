-- ===== src/Migrations.antt =====
-- migrations/migrations.go: the steps that build the schema. The embedded files are a map from the
-- names that match *.sql to their contents.
pub mod Order
use zorkd.Base.{
  ℕ, Bool, false, Option, none, some, List, [], ◌∷◌, map, if◌then◌else◌, leb, ◌==◌, Text, Map,
  lookup,
}
use zorkd.Errors.{Result, ok, refuse, ◌>>=◌}
use zorkd.Go.Sort.{text_after, sort_func}
use zorkd.Go.Decimal.{parse_positive}

pub record Migration : Type 0 where
  pub version : ℕ
  pub name : Text
  pub sql : Text

-- What strings.Cut finds before a separator of one byte, if it is there.
unfoldable pub cut_before : ℕ → Text → Option Text
cut_before c [] = none
cut_before c (b ∷ s) =
    let rest = cut_before c s in
    if b == c then some [] else elim rest [ none ↦ none | some t ↦ some (b ∷ t) ]

-- versionOf. What strconv.Atoi reads and is below one is refused like what it does not read.
unfoldable pub version_of : Text → Result ℕ
version_of name = elim (cut_before b'_' name) [
  | none ↦ refuse
  | some prefix ↦ elim (parse_positive prefix) [ none ↦ refuse | some version ↦ ok version ]
]

-- The test on the last migration that is out.
abbrev pub not_after : Option Migration → ℕ → Bool
not_after none version = false
not_after (some last) version = leb version last.version

-- files.ReadFile
unfoldable pub read_file : Map Text → Text → Result Text
read_file files name = elim (lookup name files) [ none ↦ refuse | some sql ↦ ok sql ]

-- One round of the loop of All, after the last migration that is out.
unfoldable pub step : Map Text → Option Migration → Text → Result Migration
step files last name = do
  version ← version_of name
  if not_after last version then refuse else (do
    sql ← read_file files name
    ok (record { version = version; name = name; sql = sql }))

-- The rounds for the names that are left, and what they append.
unfoldable pub steps : Map Text → Option Migration → List Text → Result (List Migration)
steps files last [] = ok []
steps files last (name ∷ names) = do
  m ← step files last name
  out ← steps files (some m) names
  ok (m ∷ out)

abbrev pub some_embedded : List Migration → Result (List Migration)
some_embedded [] = refuse
some_embedded (m ∷ out) = ok (m ∷ out)

-- The names of the embedded files, as sort.Strings puts them.
unfoldable pub entries : Map Text → List Text
entries files = sort_func (λ s t. text_after t s) (map (λ (f : Text × Text). f.0) files)

-- All
unfoldable pub all : Map Text → Result (List Migration)
all files = do out ← steps files none (entries files); some_embedded out
