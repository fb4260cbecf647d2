-- ===== src/Web/Turns.antt =====
-- What a line from a browser does to the games.
use zorkd.Base.{
  ◌≤◌, ◌≡◌, ◌⊎◌, refl, ◌∙◌, some, ltb, length, Text, arith, codes, str_eq, Bool-cases, Option-cases,
  inl, inr,
}
use zorkd.Errors.{Result, ok, err, Result-cases}
use zorkd.Go.Space.{Unicode, trim_space}
use zorkd.Game.Runner.{max_command_bytes}
use zorkd.Game.Screen.{Turn}
use zorkd.Game.SaveName.{is_empty}
use zorkd.Game.Store.{IsAtomic}
use zorkd.Game.Service
use zorkd.Game.Service.{Service, Call}
use zorkd.Game.Service.Failure.{play-Atomic}
use zorkd.Web.{Request, first_line, play_turn, line_played, turn_answered, ask_about}

module _ ⦃u : Unicode⦄ {S Story Machine : Type 0} (service : Service S Story Machine)
    (contract : IsAtomic service.store) (call : Call) where
  pub saves-keeps : (user id : Text) (s : S) → (Service.saves service call user id s).1 ≡ s
  unfolding Service.saves
  saves-keeps user id s = elim (Bool-cases (is_empty user)) [
    | inl p ↦ rw p refl
    | inr p ↦ rw p (contract.saves_keeps user id s)
  ]

  ask_about-keeps :
      (r : Request) (user id command mode : Text) (s : S)
      → (ask_about service call r user id command mode s).1 ≡ s
  unfolding ask_about
  ask_about-keeps r user id command mode s = elim (Bool-cases r.htmx) [
    | inl p ↦ elim (Bool-cases (str_eq mode (codes "restart"))) [
      | inl q ↦ rw p (rw q refl)
      | inr q ↦ rw p (rw q (saves-keeps user id s))
    ]
    | inr p ↦ elim (Bool-cases (str_eq mode (codes "restart"))) [
      | inl q ↦ rw p (rw q refl)
      | inr q ↦ rw p (rw q refl)
    ]
  ]

  turn_answered-keeps :
      (r : Request) (user id command : Text) (t : Turn) (s : S)
      → (turn_answered service call r user id command t s).1 ≡ s
  unfolding turn_answered
  turn_answered-keeps r user id command t s = elim (Bool-cases t.asked) [
    | inl p ↦ rw p (ask_about-keeps r user id command _ s)
    | inr p ↦ rw p refl
  ]

  pub line_played-keeps :
      (r : Request) (user id command : Text) (m : Result Turn × S)
      → (line_played service call r user id command m).1 ≡ m.1
  unfolding line_played
  line_played-keeps r user id command (ok t, s) = turn_answered-keeps r user id command t s
  line_played-keeps r user id command (err d, s) = refl

  -- Over a store whose reads and failed writes change nothing, a line from a browser changes the
  -- games only as the service answers it without an error, where the line is the first one that
  -- was sent, trimmed, and no longer than a command may be; what is answered to the browser, and
  -- whether htmx drives it, changes nothing.
  pub play_turn-accepted :
      (r : Request) (user id : Text) (s : S)
      → ((play_turn service call r user id s).1 ≡ s)
        ⊎ ((field : Text) × (t : Turn) × (r.command ≡ some field)
            × (length (trim_space (first_line field)) ≤ max_command_bytes)
            × ((Service.play service call user id (trim_space (first_line field)) s).0 ≡ ok t)
            × ((play_turn service call r user id s).1
                ≡ (Service.play service call user id (trim_space (first_line field)) s).1))
  unfolding play_turn
  play_turn-accepted r user id s = elim (Option-cases r.command) [
    | inl p ↦ inl (rw (p, play_turn) refl)
    | inr (field, p) ↦
        elim (Bool-cases (ltb max_command_bytes (length (trim_space (first_line field))))) [
          | inl q ↦ inl (rw (p, play_turn) (rw q refl))
          | inr q ↦
              elim (Result-cases
                (Service.play service call user id (trim_space (first_line field)) s).0) [
                  | inr (e, w) ↦ inl (
                      rw (p, play_turn)
                        (rw q (
                          line_played-keeps r user id _ _
                          ∙ (play-Atomic service contract call user id
                                (trim_space (first_line field))).at
                              s e w)))
                  | inl (t, w) ↦ inr (
                    field,
                    t,
                    p,
                    ground (arith, q),
                    w,
                    rw (p, play_turn) (rw q (line_played-keeps r user id _ _)),
                  )
                ]
        ]
  ]
