-- ===== src/Errors.antt =====
-- Errors. A Go error is modelled by the sentinels that `errors.Is` finds in its chain; the text of
-- its message is left out. `fmt.Errorf` with `%w` keeps the chain, and `errors.New` has none.
use zorkd.Base.{ℕ, Bool, false, ◌||◌, ◌≡◌, refl, ◌⊎◌, inl, inr, List, [], ◌∷◌, ◌==◌}

pub data Sentinel : Type 0 where
  -- package context
  canceled deadline_exceeded : Sentinel
  -- the engine
  execution_limit invalid_state invalid_story execution_fault invalid_opcode memory_access
        invalid_text :
      Sentinel
  -- internal/game
  session_not_found version_conflict game_over story_unavailable save_not_found invalid_save_name
        too_many_saves save_mismatch :
      Sentinel
  -- internal/auth, internal/invite, internal/session
  invalid_credentials email_taken user_not_found invalid_email weak_password password_mismatch
        not_invited no_session :
      Sentinel
  -- package fs, internal/database
  not_exist exist parent_missing parent_not_directory not_regular_file : Sentinel

abbrev number : Sentinel → ℕ
number canceled = 0
number deadline_exceeded = 1
number execution_limit = 2
number invalid_state = 3
number invalid_story = 4
number execution_fault = 5
number invalid_opcode = 6
number memory_access = 7
number invalid_text = 8
number session_not_found = 9
number version_conflict = 10
number game_over = 11
number story_unavailable = 12
number save_not_found = 13
number invalid_save_name = 14
number too_many_saves = 15
number save_mismatch = 16
number invalid_credentials = 17
number email_taken = 18
number user_not_found = 19
number invalid_email = 20
number weak_password = 21
number password_mismatch = 22
number not_invited = 23
number no_session = 24
number not_exist = 25
number exist = 26
number parent_missing = 27
number parent_not_directory = 28
number not_regular_file = 29

abbrev pub Error : Type 0
Error = List Sentinel

-- errors.Is
unfoldable pub errors_is : Error → Sentinel → Bool
errors_is [] s = false
errors_is (t ∷ e) s = number t == number s || errors_is e s

-- What a Go function returns beside its error.
pub data Result {ℓ} (A : Type ℓ) : Type ℓ where
  ok : A → Result A
  err : Error → Result A

-- An error with one sentinel, and one with none.
abbrev pub fail {ℓ} : {A : Type ℓ} → Sentinel → Result A
fail s = err (s ∷ [])

abbrev pub refuse {ℓ} : {A : Type ℓ} → Result A
refuse = err []

infixl 5 ◌>>=◌
abbrev pub ◌>>=◌ {ℓ κ} : {A : Type ℓ} {B : Type κ} → Result A → (A → Result B) → Result B
ok a >>= f = f a
err e >>= f = err e

pub Result-cases {ℓ} :
    {A : Type ℓ} (r : Result A) → ((a : A) × (r ≡ ok a)) ⊎ ((e : Error) × (r ≡ err e))
Result-cases (ok a) = inl (a, refl)
Result-cases (err e) = inr (e, refl)
