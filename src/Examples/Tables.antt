-- ===== src/Examples/Tables.antt =====
-- The theorems on accounts, invitations and the database, at small inputs.
use zorkd.Base.{
  subst, ℕ, zero, suc, sym, ◌+◌, ◌-◌, ◌<◌, ◌≡◌, ◌≢◌, ◌⊎◌, refl, ap, ◌∙◌, Bool, true, false,
  Bool-cases, inl, inr, Option, none, some, List, [], ◌∷◌, ◌++◌, arith, length, All, Text, codes,
  replicate, map, if◌then◌else◌, ◌==◌,
}
use zorkd.Errors.{Error, Result, ok, err, fail, not_invited, invalid_credentials}
use zorkd.Go.Decimal.{format_int}
use zorkd.Database.{has_key, RowId}
use zorkd.Database.{Db, GameRow}
use zorkd.Database.Saves.{create_save, count_saves}
use zorkd.Database.Integrity.{shelved, Write-IsWhole}
use zorkd.Database.Integrity.Whole.{IsWhole}
use zorkd.Game.Types.{Snapshot}
use zorkd.Database.{has_key}
use zorkd.Account.Password.{
  default_params, Crypto, HashParams, hash_with, verify_password, decode_hash,
}
use zorkd.Account.Password.Verify.{IsParams, decode_hash-hash_with, verify_password-hash_with}
use zorkd.Account.{normalize_email}
use zorkd.Account.Users.{Account, user_by_email, User, UserRow, Users, user_of}
use zorkd.Account.Service.{register, authenticate, user}
use zorkd.Account.Service.Admitted.{authenticate-ok}
use mathlib.Core.List.{Memᴰ}
use zorkd.Account.Service.Laws.{
  default_params-IsParams, Readable, authenticate-register, authenticate-fails,
}
use zorkd.Account.Service.Table.{verify_password-Readable, IsAccounts}
use zorkd.Examples.{unicode, game}
use zorkd.Examples.Parts.{first, sqlite, fill, letters, crypto, salt, parse}

abbrev pub small : HashParams
small = record { memory = 8; time = 1; threads = 1; salt_len = 16; key_len = 2 }

small-IsParams : IsParams small
small-IsParams = record {
  memory_pos = omega arith;
  memory_fits = omega arith;
  time_pos = omega arith;
  time_fits = omega arith;
  threads_pos = omega arith;
  threads_fits = omega arith;
  key_pos = omega arith;
}

-- "$argon2id$v=19$m=8,t=1,p=1$AAAAAAAAAAAAAAAA$no", with the salt and the key as they are encoded.
abbrev pub stored_hash : Text
stored_hash = codes "$argon2id$v=19$m=8,t=1,p=1$" ++ letters salt ++ b'$' ∷ letters (codes "xy")

decode_hash-hash_with_example :
    decode_hash ⦃crypto = crypto⦄ stored_hash ≡ ok (small, salt, codes "xy")
unfolding hash_with format_int
decode_hash-hash_with_example =
    decode_hash-hash_with ⦃crypto = crypto⦄ (codes "xyzzy") small salt stored_hash small-IsParams
      refl (omega arith) refl

abbrev pub row : UserRow
row = record {
  email = codes "a@b";
  password_hash =
      codes "$argon2id$v=19$m=9216,t=4,p=1$"
      ++ letters salt
      ++ b'$' ∷ letters (fill (codes "xyzzy123") 32);
}

abbrev pub users : Users
users = (first, row) ∷ []

abbrev pub account : User
account = record { id = codes "1"; email = codes "a@b" }

registers :
    register ⦃u = unicode⦄ ⦃crypto = crypto⦄ ⦃sql = sqlite⦄ parse
      (codes "a@b")
      (codes "xyzzy123")
      (ok salt)
      []
    ≡ (ok account, users)
unfolding register zorkd.Account.Service.credentials normalize_email zorkd.Game.SaveName.is_empty
    zorkd.Go.Space.trim_space zorkd.Go.Space.equal_fold zorkd.Base.str_eq
    zorkd.Account.Password.check_password_length zorkd.Account.Password.hash_password hash_with
    zorkd.Go.Space.to_lower_text zorkd.Account.Users.row_by_email has_key format_int
registers = refl

authenticate-register_example :
    authenticate ⦃u = unicode⦄ ⦃crypto = crypto⦄ parse
      (codes " A@B")
      (codes "xyzzy123")
      (register ⦃u = unicode⦄ ⦃crypto = crypto⦄ ⦃sql = sqlite⦄ parse
        (codes "a@b")
        (codes "xyzzy123")
        (ok salt)
        []).1
    ≡ ok account
unfolding normalize_email zorkd.Go.Space.trim_space zorkd.Game.SaveName.is_empty
    zorkd.Go.Space.equal_fold zorkd.Go.Space.to_lower_text
authenticate-register_example =
    authenticate-register ⦃u = unicode⦄ ⦃crypto = crypto⦄ ⦃sql = sqlite⦄ parse (codes "a@b")
      (codes " A@B") (codes "xyzzy123") salt [] account refl refl
      (ap (λ (p : Result User × Users). p.0) registers)

verified : verify_password ⦃crypto = crypto⦄ row.password_hash (codes "xyzzy123") ≡ ok tt
unfolding hash_with format_int
verified =
    verify_password-hash_with ⦃crypto = crypto⦄ (codes "xyzzy123") default_params salt
      row.password_hash default_params-IsParams refl (omega arith) refl

readable : Readable ⦃crypto = crypto⦄ row.password_hash
readable = verify_password-Readable ⦃crypto = crypto⦄ row.password_hash (codes "xyzzy123") verified

pub users-IsAccounts : IsAccounts ⦃crypto = crypto⦄ users
unfolding zorkd.Account.Users.row_by_email has_key
users-IsAccounts = (refl, refl, readable, tt)

pub logs_in :
    authenticate ⦃u = unicode⦄ ⦃crypto = crypto⦄ parse (codes "a@b") (codes "xyzzy123") users
    ≡ ok account
logs_in =
    subst
      (λ (x : Users).
        authenticate ⦃u = unicode⦄ ⦃crypto = crypto⦄ parse (codes "a@b") (codes "xyzzy123") x
        ≡ ok account)
      (ap (λ (p : Result User × Users). p.1) registers)
      (authenticate-register ⦃u = unicode⦄ ⦃crypto = crypto⦄ ⦃sql = sqlite⦄ parse (codes "a@b")
        (codes "a@b") (codes "xyzzy123") salt [] account refl refl
        (ap (λ (p : Result User × Users). p.0) registers))

authenticate-ok_example :
    (k : RowId) × (r : UserRow) × (p : HashParams) × (salt : List ℕ) × (key : List ℕ) × Memᴰ
      (k, r)
      users
    × (account ≡ user_of k.number r)
    × (normalize_email ⦃u = unicode⦄ parse (codes "a@b") ≡ ok r.email)
    × (decode_hash ⦃crypto = crypto⦄ r.password_hash ≡ ok (p, salt, key))
    × (crypto.id_key (codes "xyzzy123") salt p.time p.memory p.threads p.key_len ≡ key)
authenticate-ok_example =
    authenticate-ok ⦃u = unicode⦄ ⦃crypto = crypto⦄ parse (codes "a@b") (codes "xyzzy123") users
      account logs_in

authenticate-fails_example : (invalid_credentials ∷ []) ≡ invalid_credentials ∷ []
unfolding authenticate normalize_email zorkd.Game.SaveName.is_empty zorkd.Go.Space.trim_space
    zorkd.Go.Space.equal_fold zorkd.Base.str_eq zorkd.Go.Space.to_lower_text zorkd.Errors.errors_is
authenticate-fails_example =
    authenticate-fails ⦃u = unicode⦄ ⦃crypto = crypto⦄ ⦃sql = sqlite⦄ parse (codes "c@d")
      (codes "xyzzy123") users (invalid_credentials ∷ []) (readable, tt) refl

abbrev played : GameRow
played = record {
  user_id = 7;
  story_key = codes "key";
  state = codes "0";
  transcript = codes "Hello.";
  turn = 0;
  version = 1;
  halted = false;
  status = game.status;
  updated_at = 0;
}

abbrev one_game : Db
one_game = record { games = (first, played) ∷ []; saves = []; users = 7 ∷ [] }

one_game-IsWhole : IsWhole one_game
unfolding has_key count_saves
one_game-IsWhole = record { table = tt; bounded = λ n. omega arith; owned = tt }

abbrev snapshot : Snapshot
snapshot = record {
  id = [];
  user_id = codes "7";
  game_id = codes "1";
  name = codes "troll";
  story_key = codes "key";
  state = codes "0";
  transcript = codes "Hello.";
  status = game.status;
  turn = 0;
  created_at = 0;
}

Write-IsWhole_example : IsWhole (create_save ⦃sql = sqlite⦄ 5 snapshot one_game).1
Write-IsWhole_example =
    Write-IsWhole ⦃sql = sqlite⦄ one_game (create_save ⦃sql = sqlite⦄ 5 snapshot one_game).1
      (shelved 5 snapshot one_game) one_game-IsWhole
