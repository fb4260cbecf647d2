-- ===== src/Examples/Openings.antt =====
-- The theorems on opening and migrating a database, at small inputs.
use mathlib.Core.List.{Perm}
use zorkd.Base.{
  false, ℕ, ◌≡◌, ◌<◌, refl, sym, ap, Bool-cases, inl, inr, true, none, List, [], ◌∷◌, map, length,
  arith, All, Text, codes, Map, lookup, lookup-insert, ◌++◌, insert, str_eq, if◌then◌else◌,
}
use zorkd.Errors.{Result, ok, err, refuse}
use zorkd.Migrations.{Migration, all}
use zorkd.Migrations.Order.{Ascending, Embedded, all-Ascending}
use zorkd.Database.Opening.{
  Driver, IsDriver, IsWal, is_beside, Os, Node, directory, regular, migrate, open_database,
}
use zorkd.Database.Opening.Migrated.{newest, migrate-newest}
use zorkd.Database.Opening.Resumed.{Outdoes, migrate-resumes}
use zorkd.Database.Opening.Disk.{Outcome, open_database-Outcome}

abbrev files : Map Text
files = (codes "2_b", codes "y") ∷ (codes "1_a", codes "x") ∷ []

abbrev steps : List Migration
steps =
    record { version = 1; name = codes "1_a"; sql = codes "x" }
    ∷ record { version = 2; name = codes "2_b"; sql = codes "y" }
    ∷ []

all-Ascending_example :
    (0 < length steps)
    × Ascending steps
    × All (Embedded files) steps
    × Perm (map (λ (m : Migration). m.name) steps) (map (λ (f : Text × Text). f.0) files)
unfolding all zorkd.Migrations.entries zorkd.Migrations.steps zorkd.Migrations.step
    zorkd.Migrations.version_of zorkd.Migrations.cut_before zorkd.Migrations.read_file
    zorkd.Go.Sort.sort_func zorkd.Go.Sort.text_after zorkd.Go.Decimal.parse_positive lookup str_eq
all-Ascending_example = all-Ascending files steps refl

-- A database is its version, and the scripts that ran, the last one first.
abbrev File : Type 0
File = ℕ × List Text

abbrev driver : Driver File
driver = record {
  empty_file = (0, []);
  new_pool = λ f. (ok tt, f);
  wal = λ a disk. insert (a ++ codes "-wal") (regular (0, [])) disk;
  take = ok tt;
  user_version = λ f. ok f.0;
  execute_script = λ sql f. ok (f.0, sql ∷ f.1);
  set_user_version = λ n f. ok (n, f.1);
}

-- A driver on a day when the script y fails.
abbrev on_bad_day : Text → File → Result File
on_bad_day sql f = if str_eq sql (codes "y") then refuse else ok (f.0, sql ∷ f.1)

abbrev bad_day : Driver File
bad_day = record driver { execute_script = on_bad_day }

abbrev version : Result File → Result ℕ
version (ok f) = ok f.0
version (err e) = err e

leaves_others :
    (a path : Text) (disk : Map (Node File))
    → is_beside a path ≡ false
    → lookup path (insert (a ++ codes "-wal") (regular (0, [])) disk) ≡ lookup path disk
leaves_others a path disk b =
    ground (arith, b, lookup-insert (a ++ codes "-wal") path (regular (0, [])) disk)

driver-IsDriver : IsDriver driver
driver-IsDriver = record { version_set = λ n f g h e. sym (ap version e) }

on_bad_day-works : (sql : Text) (f g : File) → on_bad_day sql f ≡ ok g → ok (f.0, sql ∷ f.1) ≡ ok g
on_bad_day-works sql f g e = elim (Bool-cases (str_eq sql (codes "y"))) [
  | inl p ↦ absurd (ground (arith, p, e))
  | inr p ↦ ground (arith, p, e)
]

bad_day-IsDriver : IsDriver bad_day
bad_day-IsDriver = record { version_set = λ n f g h e. sym (ap version e) }

driver-IsWal : IsWal driver
driver-IsWal = record { wal_keeps = leaves_others }

driver-Outdoes : Outdoes driver bad_day
driver-Outdoes = record {
  same_version = λ f. refl;
  same_script = on_bad_day-works;
  same_set = λ n f g e. e;
}

migrate-newest_example :
    (driver.user_version (2, codes "y" ∷ codes "x" ∷ []) ≡ ok (newest 0 steps))
    × (migrate driver (ok steps) (2, codes "y" ∷ codes "x" ∷ [])
        ≡ (ok tt, (2, codes "y" ∷ codes "x" ∷ [])))
unfolding migrate zorkd.Database.Opening.migrate_from zorkd.Database.Opening.apply
    zorkd.Database.Opening.schema_version
migrate-newest_example =
    migrate-newest driver driver-IsDriver 0 steps (0, []) (2, codes "y" ∷ codes "x" ∷ [])
      ((omega arith, tt), (tt, tt)) (omega arith, (omega arith, tt)) refl refl

migrate-resumes_example :
    migrate driver (ok steps) (migrate bad_day (ok steps) (0, [])).1
    ≡ migrate driver (ok steps) (0, [])
migrate-resumes_example =
    migrate-resumes bad_day driver bad_day-IsDriver driver-Outdoes (λ n f. ((n, f.1), refl)) 0 tt
      steps (0, []) ((omega arith, tt), (tt, tt)) (omega arith, (omega arith, tt)) refl refl

-- Every path but the root is in the root, which is the empty text.
abbrev os : Os
os = record {
  abs = λ path. ok path;
  dir = λ path. [];
  denied = λ path. none;
  create_file = λ path. ok tt;
  close_file = λ path. ok tt;
}

abbrev disk : Map (Node File)
disk = ([], directory) ∷ []

open_database-Outcome_example : Outcome os driver (ok steps) (codes "d") true disk (
  ok (codes "d"),
  ([], directory)
      ∷ (codes "d", regular (2, codes "y" ∷ codes "x" ∷ []))
      ∷ (codes "d-wal", regular (0, []))
      ∷ [],
)
unfolding open_database zorkd.Database.Opening.check_path zorkd.Database.Opening.check_parent
    zorkd.Database.Opening.stat lookup str_eq zorkd.Database.Opening.check_file
    zorkd.Errors.errors_is zorkd.Database.Opening.create_empty zorkd.Database.Opening.open_pool
    insert migrate zorkd.Database.Opening.migrate_from zorkd.Database.Opening.apply
    zorkd.Database.Opening.schema_version
open_database-Outcome_example =
    open_database-Outcome os driver (ok steps) driver-IsWal (codes "d") true disk
