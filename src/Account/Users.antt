-- ===== src/Account/Users.antt =====
-- users.go: the table users, whose schema keeps addresses unique, and no address and no hash empty.
use zorkd.Base.{ℕ, ◌||◌, Option, none, some, [], ◌∷◌, if◌then◌else◌, Text, str_eq}
use zorkd.Errors.{Result, ok, err, fail, refuse, email_taken, user_not_found}
use zorkd.Go.Decimal.{format_int, parse_positive}
use zorkd.Game.SaveName.{is_empty}
use zorkd.Game.Store.Calls.{Action}
use zorkd.Database.{RowId, Rows, find, keys, Sqlite}

pub record User : Type 0 where
  pub id : Text
  pub email : Text

-- auth.Record
pub record Account : Type 0 where
  pub user : User
  pub password_hash : Text

-- A row of the table users.
pub record UserRow : Type 0 where
  pub email : Text
  pub password_hash : Text

abbrev pub Users : Type 0
Users = Rows UserRow

abbrev pub user_of : ℕ → UserRow → User
user_of n r = record { id = format_int n; email = r.email }

-- The row that is registered under an address.
unfoldable pub row_by_email : Text → Users → Option (ℕ × UserRow)
row_by_email email [] = none
row_by_email email ((k, r) ∷ users) =
    let rest = row_by_email email users in if str_eq r.email email then some (k.number, r) else rest

-- UserByEmail
unfoldable pub user_by_email : Text → Users → Result Account
unfolding row_by_email
user_by_email email users = elim (row_by_email email users) [
  | none ↦ fail user_not_found
  | some (n, r) ↦ ok (record { user = user_of n r; password_hash = r.password_hash })
]

-- UserByID, with userRowID.
unfoldable pub user_by_id : Text → Users → Result User
user_by_id id users = elim (parse_positive id) [
  | none ↦ fail user_not_found
  | some n ↦ elim (find n users) [ none ↦ fail user_not_found | some r ↦ ok (user_of n r) ]
]

module _ ⦃sql : Sqlite⦄ where
  unfoldable pub insert_row : UserRow → Option RowId → Users → Result (RowId × Users)
  insert_row r none users = refuse
  insert_row r (some k) users = ok (k, (k, r) ∷ users)

  -- INSERT INTO users, under the schema.
  unfoldable pub insert_user : UserRow → Users → Result (RowId × Users)
  unfolding insert_row
  insert_user r users =
      if is_empty r.email || is_empty r.password_hash
      then refuse
      else elim (row_by_email r.email users) [
        | some _ ↦ fail email_taken
        | none ↦ insert_row r (sql.next_row (keys users)) users
      ]

  -- CreateUser
  unfoldable pub create_user : UserRow → Action Users User
  unfolding insert_user
  create_user r users = elim (insert_user r users) [
    | err e ↦ (err e, users)
    | ok (k, users') ↦ (ok (user_of k.number r), users')
  ]
