-- ===== src/Account/Password/Verify.antt =====
-- A stored hash is read back as it was written, so it verifies the password that it was made from.
use zorkd.Base.{
  ℕ, ◌<◌, ◌≡◌, refl, ap, sym, ◌∙◌, ◌^◌, true, some, List, [], ◌∷◌, ◌++◌, All, All-append, ==_refl,
  length, Text, codes, str_eq, str_eq_refl, arith,
}
use mathlib.Core.List.{append-nil}
use zorkd.Errors.{ok}
use zorkd.Go.Decimal.{format_int, is_digit, format_int-digits}
use zorkd.Game.SaveName.{is_empty}
use zorkd.Account.Password.{
  Crypto, HashParams, scan_version, scan_params, version_field, params_field, hash_with,
  decode_bytes, decode_fields, decode_pieces, decode_hash, verify_password,
}
use zorkd.Account.Password.Strings.{
  Plain, scan_literal-append, signed-format_int, field-format_int, split-join,
}

-- Parameters that decodeHash accepts, within the widths of their types, for a key that is not empty.
pub record IsParams (p : HashParams) : Type 0 where
  pub memory_pos : 0 < p.memory
  pub memory_fits : p.memory < 2 ^ 32
  pub time_pos : 0 < p.time
  pub time_fits : p.time < 2 ^ 32
  pub threads_pos : 0 < p.threads
  pub threads_fits : p.threads < 2 ^ 8
  pub key_pos : 0 < p.key_len

digits-Plain : (s : Text) → All (λ c. is_digit c ≡ true) s → Plain b'$' s
digits-Plain [] h = tt
digits-Plain (c ∷ s) h = (λ e. absurd (ground (arith, h.0)), digits-Plain s h.1)

format_int-Plain : (n : ℕ) → Plain b'$' (format_int n)
format_int-Plain n = digits-Plain (format_int n) (format_int-digits n).0

module _ ⦃crypto : Crypto⦄ where
  version_field-Plain : Plain b'$' version_field
  unfolding version_field
  version_field-Plain =
      All-append _ (codes "v=") (format_int crypto.version) (omega arith, (omega arith, tt))
        (format_int-Plain crypto.version)

  params_field-Plain : (p : HashParams) → Plain b'$' (params_field p)
  unfolding params_field
  params_field-Plain p =
      All-append _ (codes "m=") _ (omega arith, (omega arith, tt))
        (All-append _ (format_int p.memory) _ (format_int-Plain p.memory) (
          All-append _ (codes ",t=") _ (omega arith, (omega arith, (omega arith, tt)))
            (All-append _ (format_int p.time) _ (format_int-Plain p.time) (
              All-append _ (codes ",p=") (format_int p.threads)
                (omega arith, (omega arith, (omega arith, tt))) (format_int-Plain p.threads)))))

  scan_version-field : scan_version version_field ≡ some crypto.version
  unfolding scan_version version_field
  scan_version-field =
      rw (scan_literal-append (codes "v=") (format_int crypto.version), scan_version)
        (signed-format_int crypto.version crypto.version-fits)

  scan_params-field :
      (p : HashParams)
      → IsParams p
      → scan_params (params_field p) ≡ some (p.memory, p.time, p.threads)
  unfolding scan_params params_field
  scan_params-field p h =
      let last = format_int p.threads ++ [] in
      ap
        (λ (t : Text). scan_params (
          codes "m="
          ++ (format_int p.memory ++ (codes ",t=" ++ (format_int p.time ++ (codes ",p=" ++ t))))))
        (sym (append-nil (format_int p.threads)))
      ∙ rw
          (
            field-format_int (codes "m=") (2 ^ 32) p.memory
                (codes ",t=" ++ (format_int p.time ++ (codes ",p=" ++ last))) h.memory_fits refl,
            field-format_int (codes ",t=") (2 ^ 32) p.time (codes ",p=" ++ last) h.time_fits refl,
            field-format_int (codes ",p=") (2 ^ 8) p.threads [] h.threads_fits tt,
            scan_params,
          )
          refl

  decode_bytes-encode :
      (p : HashParams) (salt key : List ℕ)
      → length salt ≡ p.salt_len
      → length key ≡ p.key_len
      → 0 < p.salt_len
      → 0 < p.key_len
      → decode_bytes (p.memory, p.time, p.threads) (crypto.encode salt) (crypto.encode key)
        ≡ ok (p, salt, key)
  unfolding decode_bytes
  decode_bytes-encode p salt key a b c d =
      rw (crypto.decode-encode salt, crypto.decode-encode key) (ground (arith, a, b, c, d))

  algorithm-Plain : Plain b'$' (codes "argon2id")
  algorithm-Plain = (
    omega arith,
    (
      omega arith,
      (omega arith, (omega arith, (omega arith, (omega arith, (omega arith, (omega arith, tt)))))),
    ),
  )

  decode_fields-encode :
      (p : HashParams) (salt key : List ℕ)
      → IsParams p
      → length salt ≡ p.salt_len
      → length key ≡ p.key_len
      → 0 < p.salt_len
      → decode_fields version_field (params_field p) (crypto.encode salt) (crypto.encode key)
        ≡ ok (p, salt, key)
  unfolding decode_fields
  decode_fields-encode p salt key h a b c =
      rw (scan_version-field, decode_fields)
        (rw (==_refl crypto.version) (
          rw (scan_params-field p h) (
            ground (
              arith,
              h.memory_pos,
              h.time_pos,
              h.threads_pos,
              decode_bytes-encode p salt key a b c h.key_pos,
            ))))

  decode_hash-pieces :
      (password : Text) (p : HashParams) (salt : List ℕ)
      → IsParams p
      → length salt ≡ p.salt_len
      → 0 < p.salt_len
      → (encoded : Text) × (hash_with password p (ok salt) ≡ ok encoded)
        × (decode_hash encoded
            ≡ ok (p, salt, crypto.id_key password salt p.time p.memory p.threads p.key_len))
  unfolding hash_with decode_hash decode_pieces is_empty str_eq
  decode_hash-pieces password p salt h a b =
      let key = crypto.id_key password salt p.time p.memory p.threads p.key_len in
      (
        _,
        refl,
        rw
            (
              split-join b'$' []
                  (codes "argon2id"
                    ∷ version_field
                    ∷ params_field p
                    ∷ crypto.encode salt
                    ∷ crypto.encode key
                    ∷ [])
                  (
                    tt,
                    (
                      algorithm-Plain,
                      (
                        version_field-Plain,
                        (
                          params_field-Plain p,
                          (crypto.encode-plain salt, (crypto.encode-plain key, tt)),
                        ),
                      ),
                    ),
                  ),
              decode_hash,
            )
            (decode_fields-encode p salt key h a
              (crypto.length-id_key password salt p.time p.memory p.threads p.key_len) b),
      )

  -- A hash that was written is read back: its parameters, its salt and its key, for parameters
  -- within the widths of their types, none of them zero, and a salt of the length that they say.
  pub decode_hash-hash_with :
      (password : Text) (p : HashParams) (salt : List ℕ) (encoded : Text)
      → IsParams p
      → length salt ≡ p.salt_len
      → 0 < p.salt_len
      → hash_with password p (ok salt) ≡ ok encoded
      → decode_hash encoded
        ≡ ok (p, salt, crypto.id_key password salt p.time p.memory p.threads p.key_len)
  decode_hash-hash_with password p salt encoded h a b e =
      let (text, w, d) = decode_hash-pieces password p salt h a b in cc (e, w, d)

  -- A password verifies against the hash that was made from it.
  pub verify_password-hash_with :
      (password : Text) (p : HashParams) (salt : List ℕ) (encoded : Text)
      → IsParams p
      → length salt ≡ p.salt_len
      → 0 < p.salt_len
      → hash_with password p (ok salt) ≡ ok encoded
      → verify_password encoded password ≡ ok tt
  unfolding verify_password
  verify_password-hash_with password p salt encoded h a b e =
      rw (decode_hash-hash_with password p salt encoded h a b e, verify_password)
        (rw (str_eq_refl (crypto.id_key password salt p.time p.memory p.threads p.key_len)) refl)
