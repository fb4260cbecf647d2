-- ===== src/Database/Opening.antt =====
-- database.go: opening the database, and bringing its schema up to date. Paths are texts, and a disk
-- is a map from absolute paths to what is there. A schema version below zero, and the disk changing
-- under a running Open, are left out.
pub mod Migrated
pub mod Resumed
pub mod Checks
pub mod Disk
use zorkd.Base.{
  str_eq, codes, ◌++◌, ◌||◌, ℕ, ◌<◌, ◌^◌, ◌≡◌, Bool, true, false, Option, none, some, List, [], ◌∷◌,
  if◌then◌else◌, leb, Text, Map, lookup, insert,
}
use zorkd.Errors.{
  Error, Result, ok, err, fail, refuse, ◌>>=◌, errors_is, not_exist, exist, parent_missing,
  parent_not_directory, not_regular_file,
}
use zorkd.Migrations.{Migration}

-- What os.Stat finds at a path.
pub data Node (File : Type 0) : Type 0 where
  directory special : Node File
  regular : File → Node File

-- The SQLite driver, on one database file. `take` is what Pool.Take answers. `new_pool` opens the file
-- in WAL mode, which may write its header, and `wal` is what that mode leaves beside the file.
pub record Driver (File : Type 0) : Type 0 where
  pub empty_file : File
  pub new_pool : File → Result (Unit {0}) × File
  pub wal : Text → Map (Node File) → Map (Node File)
  pub take : Result (Unit {0})
  pub user_version : File → Result ℕ
  pub execute_script : Text → File → Result File
  pub set_user_version : ℕ → File → Result File

-- What the documentation of PRAGMA user_version promises: it takes what fits a signed 32-bit
-- integer.
pub record IsDriver {File : Type 0} (d : Driver File) : Type 0 where
  pub version_set :
      (n : ℕ) (f g : File) → n < 2 ^ 31 → d.set_user_version n f ≡ ok g → d.user_version g ≡ ok n

-- The files that the documentation of WAL mode names: the log and its index, beside the database.
abbrev pub is_beside : Text → Text → Bool
is_beside abs path = str_eq (abs ++ codes "-wal") path || str_eq (abs ++ codes "-shm") path

-- WAL mode writes no other file.
pub record IsWal {File : Type 0} (d : Driver File) : Type 0 where
  pub wal_keeps :
      (abs path : Text) (disk : Map (Node File))
      → is_beside abs path ≡ false
      → lookup path (d.wal abs disk) ≡ lookup path disk

module _ {File : Type 0} (d : Driver File) where
  -- One round of the loop of DB.migrate, for a migration that is not skipped. A script that fails
  -- leaves the file as it was.
  unfoldable pub apply : Migration → File → Result (Unit {0}) × File
  apply m f = elim (d.execute_script m.sql f) [
    | err e ↦ (err e, f)
    | ok g ↦ elim (d.set_user_version m.version g) [ err e ↦ (err e, g) | ok h ↦ (ok tt, h) ]
  ]

  -- The loop
  unfoldable pub migrate_from : ℕ → List Migration → File → Result (Unit {0}) × File
  migrate_from current [] f = (ok tt, f)
  migrate_from current (m ∷ ms) f =
      if leb m.version current then migrate_from current ms f else elim (apply m f).0 [
        | err e ↦ (err e, (apply m f).1)
        | ok _ ↦ migrate_from current ms (apply m f).1
      ]

  -- DB.SchemaVersion
  unfoldable pub schema_version : File → Result ℕ
  schema_version f = do _ ← d.take; d.user_version f

  -- DB.migrate, with what migrations.All returned
  unfoldable pub migrate : Result (List Migration) → File → Result (Unit {0}) × File
  migrate (err e) f = (err e, f)
  migrate (ok all) f = elim (schema_version f) [
    | err e ↦ (err e, f)
    | ok current ↦ migrate_from current all f
  ]

-- Packages os and filepath. `denied` is an error of os.Stat other than that nothing is there.
pub record Os : Type 0 where
  pub abs : Text → Result Text
  pub dir : Text → Text
  pub denied : Text → Option Error
  pub create_file : Text → Result (Unit {0})
  pub close_file : Text → Result (Unit {0})

module _ {File : Type 0} (os : Os) (d : Driver File) where
  unfoldable pub stat : Map (Node File) → Text → Result (Node File)
  stat disk path = elim (os.denied path) [
    | some e ↦ err e
    | none ↦ elim (lookup path disk) [ none ↦ fail not_exist | some x ↦ ok x ]
  ]

  -- The two switches of checkPath.
  unfoldable pub check_parent : Result (Node File) → Result (Unit {0})
  check_parent (err e) = if errors_is e not_exist then fail parent_missing else err e
  check_parent (ok directory) = ok tt
  check_parent (ok special) = fail parent_not_directory
  check_parent (ok (regular f)) = fail parent_not_directory

  unfoldable pub check_file : Bool → Result (Node File) → Result (Unit {0})
  check_file create (err e) =
      if errors_is e not_exist then if create then ok tt else fail not_exist else err e
  check_file create (ok directory) = fail not_regular_file
  check_file create (ok special) = fail not_regular_file
  check_file create (ok (regular f)) = if create then fail exist else ok tt

  unfoldable pub check_path : Map (Node File) → Text → Bool → Result Text
  check_path disk path create = do
    abs ← os.abs path
    _ ← check_parent (stat disk (os.dir abs))
    _ ← check_file create (stat disk abs)
    ok abs

  -- os.OpenFile with O_CREATE and O_EXCL, and the Close after it.
  unfoldable pub create_empty : Text → Map (Node File) → Result (Unit {0}) × Map (Node File)
  create_empty abs disk = elim (lookup abs disk) [
    | some x ↦ (fail exist, disk)
    | none ↦ elim (os.create_file abs) [
      | err e ↦ (err e, disk)
      | ok _ ↦ (os.close_file abs, insert abs (regular d.empty_file) disk)
    ]
  ]

  -- The pool on a file, and the migrations that it runs.
  unfoldable pub open_pool :
      Result (List Migration) → Text → Map (Node File) → Result Text × Map (Node File)
  open_pool all abs disk = elim (lookup abs disk) [
    | none ↦ (refuse, disk)
    | some directory ↦ (refuse, disk)
    | some special ↦ (refuse, disk)
    | some (regular f) ↦
        let f' = (d.new_pool f).1 in
        let beside = d.wal abs disk in
        elim (d.new_pool f).0 [
          | err e ↦ (err e, insert abs (regular f') beside)
          | ok _ ↦
              let (r, g) = migrate d all f' in (r >>= (λ _. ok abs), insert abs (regular g) beside)
        ]
  ]

  -- Open. A DB is known by the path of its file.
  unfoldable pub open_database :
      Result (List Migration) → Text → Bool → Map (Node File) → Result Text × Map (Node File)
  open_database all path create disk = elim (check_path disk path create) [
    | err e ↦ (err e, disk)
    | ok abs ↦
        if create
        then elim (create_empty abs disk).0 [
          | err e ↦ (err e, (create_empty abs disk).1)
          | ok _ ↦ open_pool all abs (create_empty abs disk).1
        ]
        else open_pool all abs disk
  ]

-- DB.Close: what closing the pool answers, the first time, and whether it has been closed.
unfoldable pub close : Result (Unit {0}) → Bool → Result (Unit {0}) × Bool
close answer true = (ok tt, true)
close answer false = (answer, true)
