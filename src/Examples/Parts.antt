-- ===== src/Examples/Parts.antt =====
-- A database that gives each table two keys, and a hash of passwords.
use zorkd.Base.{
  ℕ, zero, suc, sym, ◌+◌, ◌-◌, ◌<◌, ◌≡◌, ◌≢◌, refl, ap, ◌∙◌, false, Bool-cases, inl, inr, Option,
  none, some, List, [], ◌∷◌, arith, length, All, Text, replicate, if◌then◌else◌,
}
use zorkd.Errors.{ok}
use zorkd.Database.{RowId, Sqlite, has_key}
use zorkd.Account.Password.{Crypto}

-- Two keys for each table.
abbrev pub row_id : (n : ℕ) → 0 < n → n < 9 → RowId
row_id n p q = record { number = n; positive = p; fits = omega arith }

abbrev pub first : RowId
first = row_id 1 (omega arith) (omega arith)

abbrev pub second : RowId
second = row_id 2 (omega arith) (omega arith)

abbrev pub next_of : List RowId → Option RowId
next_of ks = if has_key 1 ks then (if has_key 2 ks then none else some second) else some first

pub next_of-fresh :
    (ks : List RowId) (k : RowId) → next_of ks ≡ some k → has_key k.number ks ≡ false
next_of-fresh ks k e = elim (Bool-cases (has_key 1 ks)) [
  | inr p ↦
      let same : first ≡ k = ground (arith, p, e) in
      ap (λ (x : RowId). has_key x.number ks) (sym same) ∙ p
  | inl p ↦ elim (Bool-cases (has_key 2 ks)) [
    | inr q ↦
        let same : second ≡ k = ground (arith, p, q, e) in
        ap (λ (x : RowId). has_key x.number ks) (sym same) ∙ q
    | inl q ↦ absurd (ground (arith, p, q, e))
  ]
]

abbrev pub sqlite : Sqlite
sqlite = record { next_row = next_of; next_row-fresh = next_of-fresh }

-- A key is the password, cut and padded; a byte is written as the letter that far after `@`.
abbrev pub fill : Text → ℕ → List ℕ
fill s zero = []
fill [] (suc n) = 0 ∷ fill [] n
fill (c ∷ s) (suc n) = c ∷ fill s n

pub length-fill : (s : Text) (n : ℕ) → length (fill s n) ≡ n
length-fill s zero = refl
length-fill [] (suc n) = ap suc (length-fill [] n)
length-fill (c ∷ s) (suc n) = ap suc (length-fill s n)

abbrev pub letters : List ℕ → Text
letters [] = []
letters (b ∷ bs) = (64 + b) ∷ letters bs

abbrev pub bytes_of : Text → List ℕ
bytes_of [] = []
bytes_of (c ∷ s) = (c - 64) ∷ bytes_of s

pub bytes_of-letters : (b : List ℕ) → bytes_of (letters b) ≡ b
bytes_of-letters [] = refl
bytes_of-letters (b ∷ bs) = ground (arith, bytes_of-letters bs)

pub letters-plain : (b : List ℕ) → All (λ c. c ≢ b'$') (letters b)
letters-plain [] = tt
letters-plain (b ∷ bs) = (λ e. absurd (omega arith), letters-plain bs)

abbrev pub crypto : Crypto
crypto = record {
  version = 19;
  id_key = λ password salt t m l n. fill password n;
  encode = letters;
  decode = λ s. ok (bytes_of s);
  version-fits = omega arith;
  length-id_key = λ password s t m l n. length-fill password n;
  decode-encode = λ b. ap (λ (x : List ℕ). ok x) (bytes_of-letters b);
  encode-plain = letters-plain;
}

abbrev pub salt : List ℕ
salt = replicate 16 1

-- Every text is an address.
abbrev pub parse : Text → Option Text
parse s = some s
