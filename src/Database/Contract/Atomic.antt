-- ===== src/Database/Contract/Atomic.antt =====
-- A statement of the database that fails leaves the tables as they were.
use zorkd.Base.{◌≡◌, refl, ℕ, Text, Option, none, some, arith}
use zorkd.Errors.{Error, err}
use zorkd.Game.Types.{Session, Snapshot}
use zorkd.Game.Store.{IsAtomic}
use zorkd.Database.{Sqlite, Db, RowId}
use zorkd.Database.Games.{
  load, list, delete, delete_row, update_row, write_game, insert_game, create, update,
}
use zorkd.Database.Saves.{
  create_save, saves, load_save, delete_save, drop_save, write_save, insert_save, replace_save,
  sql_store,
}

load-keeps : (u i : Text) (db : Db) → (load u i db).1 ≡ db
unfolding load
load-keeps u i db = ground arith

list-keeps : (u : Text) (db : Db) → (list u db).1 ≡ db
unfolding list
list-keeps u db = ground arith

saves-keeps : (u g : Text) (db : Db) → (saves u g db).1 ≡ db
unfolding saves
saves-keeps u g db = ground arith

pub update-fails :
    (now : ℕ) (x : Session) (db : Db) (e : Error)
    → (update now x db).0 ≡ err e
    → (update now x db).1 ≡ db
unfolding update update_row write_game
update-fails now x db e h = ground arith

delete-fails :
    (u i : Text) (db : Db) (e : Error) → (delete u i db).0 ≡ err e → (delete u i db).1 ≡ db
unfolding delete delete_row
delete-fails u i db e h = ground arith

delete_save-fails :
    (u g i : Text) (db : Db) (e : Error)
    → (delete_save u g i db).0 ≡ err e
    → (delete_save u g i db).1 ≡ db
unfolding delete_save drop_save
delete_save-fails u g i db e h = ground arith

insert_save-fails :
    (now game : ℕ) (x : Snapshot) (o : Option RowId) (db : Db) (e : Error)
    → (insert_save now game x o db).0 ≡ err e
    → (insert_save now game x o db).1 ≡ db
unfolding insert_save
insert_save-fails now game x none db e h = refl
insert_save-fails now game x (some k) db e h = cc

insert_game-fails :
    ⦃sql : Sqlite⦄ (now : ℕ) (x : Session) (owner : ℕ) (o : Option RowId) (db : Db) (e : Error)
    → (insert_game now x owner o db).0 ≡ err e
    → (insert_game now x owner o db).1 ≡ db
unfolding insert_game
insert_game-fails now x owner none db e h = refl
insert_game-fails now x owner (some k) db e h = cc

write_save-fails :
    ⦃sql : Sqlite⦄ (now game : ℕ) (x : Snapshot) (o : Option RowId) (db : Db) (e : Error)
    → (write_save now game x o db).0 ≡ err e
    → (write_save now game x o db).1 ≡ db
unfolding write_save replace_save
write_save-fails now game x (some k) db e h = ground arith
write_save-fails ⦃sql⦄ now game x none db e h = ground (arith, insert_save-fails now game x _ db e)

pub create_save-fails :
    ⦃sql : Sqlite⦄ (now : ℕ) (x : Snapshot) (db : Db) (e : Error)
    → (create_save now x db).0 ≡ err e
    → (create_save now x db).1 ≡ db
unfolding create_save
create_save-fails now x db e h = ground arith

create-fails :
    ⦃sql : Sqlite⦄ (now : ℕ) (x : Session) (db : Db) (e : Error)
    → (create now x db).0 ≡ err e
    → (create now x db).1 ≡ db
unfolding create
create-fails now x db e h = ground arith

pub sql_store-IsAtomic : ⦃sql : Sqlite⦄ → IsAtomic sql_store
unfolding load_save
sql_store-IsAtomic = record {
  load_keeps = load-keeps;
  list_keeps = list-keeps;
  saves_keeps = saves-keeps;
  load_save_keeps = λ user game id db. refl;
  create_fails = create-fails;
  update_fails = update-fails;
  delete_fails = delete-fails;
  create_save_fails = create_save-fails;
  delete_save_fails = delete_save-fails;
}
