-- ===== src/Account.antt =====
-- internal/auth/auth.go: the form in which an address is stored and compared.
pub mod Password
pub mod Users
pub mod Service
use zorkd.Base.{ℕ, ◌||◌, not, Option, none, some, ltb, if◌then◌else◌, length, Text}
use zorkd.Errors.{Result, ok, fail, invalid_email}
use zorkd.Go.Space.{Unicode, trim_space, to_lower_text, equal_fold}
use zorkd.Game.SaveName.{is_empty}

abbrev pub max_email_length : ℕ
max_email_length = 254

-- `parse_address` is net/mail.ParseAddress: the address part of what it reads.
unfoldable pub normalize_email : ⦃u : Unicode⦄ → (Text → Option Text) → Text → Result Text
normalize_email parse_address email =
    let trimmed = trim_space email in
    if is_empty trimmed || ltb max_email_length (length trimmed)
    then fail invalid_email
    else elim (parse_address trimmed) [
      | none ↦ fail invalid_email
      | some address ↦
          if not (equal_fold address trimmed)
          then fail invalid_email
          else ok (to_lower_text address)
    ]
