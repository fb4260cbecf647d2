-- ===== src/Account/Password.antt =====
-- internal/auth/password.go: the strings that password hashes are stored as, in the PHC format.
mod Strings
pub mod Verify
use zorkd.Base.{
  ℕ, ◌*◌, ◌^◌, ◌<◌, Bool, true, false, ◌&&◌, ◌||◌, not, ◌≡◌, ◌≢◌, Option, none, some, List, [], ◌∷◌,
  ◌++◌, All, if◌then◌else◌, ltb, ◌==◌, length, Text, codes, str_eq,
}
use zorkd.Errors.{Result, ok, err, fail, refuse, ◌>>=◌, weak_password, password_mismatch}
use zorkd.Go.Utf8.{Rune, runes, text_of}
use zorkd.Go.Space.{blank}
use zorkd.Go.Split.{split, join}
use zorkd.Go.Decimal.{format_int, digits_value, is_digit}
use zorkd.Game.SaveName.{is_empty}

abbrev pub min_password_length : ℕ
min_password_length = 8

abbrev pub max_password_length : ℕ
max_password_length = 1024

-- Package argon2, and base64.RawStdEncoding, which writes letters, digits, `+` and `/` only, and
-- reads back what it wrote.
pub record Crypto : Type 0 where
  pub version : ℕ
  pub id_key : Text → List ℕ → ℕ → ℕ → ℕ → ℕ → List ℕ
  pub encode : List ℕ → Text
  pub decode : Text → Result (List ℕ)
  pub version-fits : version < 2 ^ 63
  pub length-id_key : (p : Text) (s : List ℕ) (t m l n : ℕ) → length (id_key p s t m l n) ≡ n
  pub decode-encode : (b : List ℕ) → decode (encode b) ≡ ok b
  pub encode-plain : (b : List ℕ) → All (λ c. c ≢ b'$') (encode b)

-- A uint32 is below 2 ^ 32, and a uint8 below 2 ^ 8.
pub record HashParams : Type 0 where
  pub memory : ℕ
  pub time : ℕ
  pub threads : ℕ
  pub salt_len : ℕ
  pub key_len : ℕ

abbrev pub default_params : HashParams
default_params = record { memory = 9 * 1024; time = 4; threads = 1; salt_len = 16; key_len = 32 }

unfoldable pub check_password_length : Text → Result (Unit {0})
check_password_length password =
    if ltb (length password) min_password_length
    then fail weak_password
    else if ltb max_password_length (length password)
    then fail weak_password
    else ok tt

-- The white space that fmt.Sscanf passes over before a number: not a newline.
unfoldable pub skip_blanks : List Rune → List Rune
skip_blanks [] = []
skip_blanks (r ∷ rs) =
    let rest = skip_blanks rs in if blank r && not (r.value == 0x0A) then rest else r ∷ rs

unfoldable pub span_digits : Text → Text × Text
span_digits [] = ([], [])
span_digits (c ∷ s) =
    let (digits, rest) = span_digits s in if is_digit c then (c ∷ digits, rest) else ([], c ∷ s)

-- The number below a bound that a row of digits stands for, before what is left.
unfoldable pub number_of : ℕ → Text × Text → Option (ℕ × Text)
number_of bound (digits, rest) = if is_empty digits then none else elim (digits_value 0 digits) [
  | none ↦ none
  | some n ↦ if ltb n bound then some (n, rest) else none
]

-- The verb %d of fmt.Sscanf for an unsigned integer below a bound, and what is left.
unfoldable pub scan_number : ℕ → Text → Option (ℕ × Text)
scan_number bound s = number_of bound (span_digits (text_of (skip_blanks (runes s))))

-- What a literal of the format leaves of a text that starts with it.
unfoldable pub scan_literal : Text → Text → Option Text
scan_literal [] s = some s
scan_literal (c ∷ l) [] = none
scan_literal (c ∷ l) (d ∷ s) = let rest = scan_literal l s in if c == d then rest else none

-- A literal of the format and a number.
unfoldable pub field : Text → ℕ → Text → Option (ℕ × Text)
field l bound s = elim (scan_literal l s) [ none ↦ none | some rest ↦ scan_number bound rest ]

-- The verb %d for an int. A negative one is none, which decodeHash refuses like one that is not the
-- version of this build.
unfoldable pub signed : Text → Option ℕ
signed [] = none
signed (c ∷ s) =
    if c == b'+' || c == b'-'
    then elim (number_of (2 ^ 63) (span_digits s)) [
      | none ↦ none
      | some (n, _) ↦ if c == b'-' && not (n == 0) then none else some n
    ]
    else elim (number_of (2 ^ 63) (span_digits (c ∷ s))) [ none ↦ none | some (n, _) ↦ some n ]

-- Sscanf(s, "v=%d", &version)
unfoldable pub scan_version : Text → Option ℕ
unfolding signed
scan_version s = elim (scan_literal (codes "v=") s) [
  | none ↦ none
  | some rest ↦ signed (text_of (skip_blanks (runes rest)))
]

-- Sscanf(s, "m=%d,t=%d,p=%d", &memory, &time, &threads)
unfoldable pub scan_params : Text → Option (ℕ × ℕ × ℕ)
scan_params s = elim (field (codes "m=") (2 ^ 32) s) [
  | none ↦ none
  | some (m, s') ↦ elim (field (codes ",t=") (2 ^ 32) s') [
    | none ↦ none
    | some (t, s'') ↦ elim (field (codes ",p=") (2 ^ 8) s'') [
      | none ↦ none
      | some (p, _) ↦ some (m, t, p)
    ]
  ]
]

module _ ⦃crypto : Crypto⦄ where
  unfoldable pub version_field : Text
  version_field = codes "v=" ++ format_int crypto.version

  unfoldable pub params_field : HashParams → Text
  params_field p =
      codes "m="
      ++ (format_int p.memory
          ++ (codes ",t=" ++ (format_int p.time ++ (codes ",p=" ++ format_int p.threads))))

  -- hashWith. `salt` is what crypto/rand answered: salt_len bytes, or its error.
  unfoldable pub hash_with : Text → HashParams → Result (List ℕ) → Result Text
  unfolding join version_field params_field
  hash_with password p (err e) = err e
  hash_with password p (ok salt) =
      let key = crypto.id_key password salt p.time p.memory p.threads p.key_len in
      ok (
        join b'$' (
          []
          ∷ codes "argon2id"
          ∷ version_field
          ∷ params_field p
          ∷ crypto.encode salt
          ∷ crypto.encode key
          ∷ []))

  unfoldable pub hash_password : Text → Result (List ℕ) → Result Text
  unfolding check_password_length
  hash_password password salt = do
    _ ← check_password_length password
    hash_with password default_params salt

  -- The two last fields of decodeHash.
  unfoldable pub decode_bytes : ℕ × ℕ × ℕ → Text → Text → Result (HashParams × List ℕ × List ℕ)
  decode_bytes (m, t, p) salt_field key_field = do
    salt ← crypto.decode salt_field
    key ← crypto.decode key_field
    if length salt == 0 || length key == 0
        then refuse
        else ok (
          record {
            memory = m;
            time = t;
            threads = p;
            salt_len = length salt;
            key_len = length key;
          },
          salt,
          key,
        )

  -- The fields of decodeHash, after the algorithm.
  unfoldable pub decode_fields : Text → Text → Text → Text → Result (HashParams × List ℕ × List ℕ)
  unfolding scan_version scan_params decode_bytes
  decode_fields version params salt key = elim (scan_version version) [
    | none ↦ refuse
    | some v ↦
        if v == crypto.version
        then elim (scan_params params) [
          | none ↦ refuse
          | some (m, t, p) ↦
              if m == 0 || t == 0 || p == 0 then refuse else decode_bytes (m, t, p) salt key
        ]
        else refuse
  ]

  unfoldable pub decode_pieces : List Text → Result (HashParams × List ℕ × List ℕ)
  unfolding decode_fields
  decode_pieces (start ∷ algorithm ∷ version ∷ params ∷ salt ∷ key ∷ []) =
      if is_empty start && str_eq algorithm (codes "argon2id")
      then decode_fields version params salt key
      else refuse
  decode_pieces _ = refuse

  unfoldable pub decode_hash : Text → Result (HashParams × List ℕ × List ℕ)
  unfolding decode_pieces split
  decode_hash encoded = decode_pieces (split b'$' encoded)

  -- VerifyPassword
  unfoldable pub verify_password : Text → Text → Result (Unit {0})
  unfolding decode_hash
  verify_password encoded password = elim (decode_hash encoded) [
    | err e ↦ err e
    | ok (p, salt, want) ↦
        if str_eq (crypto.id_key password salt p.time p.memory p.threads p.key_len) want
        then ok tt
        else fail password_mismatch
  ]
