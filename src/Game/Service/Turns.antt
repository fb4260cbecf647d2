-- ===== src/Game/Service/Turns.antt =====
-- What a line does to a durable store.
use zorkd.Base.{
  ℕ, suc, ◌+◌, true, false, ◌≡◌, refl, ap, sym, ◌∙◌, none, some, arith, Text, Option-cases,
  Bool-cases, inl, inr,
}
use zorkd.Errors.{Error, Result, ok, err, fail, version_conflict, story_unavailable, game_over}
use zorkd.Go.Space.{Unicode}
use zorkd.Game.Types.{Session, EngineResult, status_of, is_halted}
use zorkd.Game.Transcript.{append_transcript}
use zorkd.Game.Command.{Intent}
use zorkd.Game.Runner
use zorkd.Game.Runner.{Runner, Engine, Entry}
use zorkd.Game.Library.{find_key}
use zorkd.Game.Screen.{Turn, after_turn}
use zorkd.Game.Store.{Store, IsAtomic, IsDurable}
use zorkd.Game.Store.Calls.{return, continue, ◌>>=◌, >>=-ok}
use zorkd.Game.Service.{Service, Call, play_story, run_turn}

-- Of two updates that were made from one read of a session, a durable store refuses the second.
pub no_lost_update :
    {S : Type 0} (store : Store S) (d : IsDurable store) (at later : ℕ) (x z y : Session) (s : S)
    → (store.update at x s).0 ≡ ok y
    → z.user_id ≡ x.user_id
    → z.id ≡ x.id
    → z.version ≡ x.version
    → (store.update later z (store.update at x s).1).0 ≡ fail version_conflict
no_lost_update store d at later x z y s e pu pi pv =
    let (w, seen, moved) = d.update_moved at x y s e in
    d.update_stale later z w (store.update at x s).1
      (ap (λ u. d.session (store.update at x s).1 u z.id) pu
        ∙ ap (d.session (store.update at x s).1 x.user_id) pi
        ∙ seen)
      (λ q. absurd (omega (arith, pv, moved, q)))

load_ok :
    {S : Type 0} (store : Store S) (d : IsDurable store) (u i : Text) (s : S) (x : Session)
    → (store.load u i s).0 ≡ ok x
    → d.session s u i ≡ some x
load_ok store d u i s x e = elim (Option-cases (d.session s u i)) [
  | inl p ↦ cc (d.load_missing u i s p)
  | inr (y, p) ↦ cc (d.load_found u i s y p)
]

module _ ⦃u : Unicode⦄ {S Story Machine : Type 0} (service : Service S Story Machine) (c : Call)
    (law : IsAtomic service.store) (d : IsDurable service.store) where
  open service use {store, runner, library, engine}

  -- What a turn of the story did: it ran the stored state of a game that had not ended, stored what
  -- the engine returned, and shows what is stored.
  pub record Played (user id command : Text) (s s' : S) (t : Turn) : Type 0 where
    pub before : Session
    pub entry : Entry Story
    pub result : EngineResult
    pub was_stored : d.session s user id ≡ some before
    pub was_running : before.halted ≡ false
    pub of_story : find_key library before.story_key ≡ some entry
    pub ran : Runner.run engine runner (c.clock 0) c.context entry before.state command ≡ ok result
    pub shown : Session
    pub answered : t.result ≡ some result
    pub shows : t.session ≡ some shown
    pub is_stored : d.session s' before.user_id before.id ≡ some shown
    -- What is then stored is of the engine and of the game, field by field.
    pub stored_state : shown.state ≡ result.state
    pub stored_status : shown.status ≡ status_of result.status_line
    pub stored_halted : shown.halted ≡ is_halted result.status
    pub stored_transcript :
        shown.transcript ≡ append_transcript before.transcript command result.output
    pub stored_turn : shown.turn ≡ before.turn + 1
    pub stored_version : shown.version ≡ before.version + 1
    pub same_story : shown.story_key ≡ before.story_key
    pub same_names : (shown.user_id ≡ before.user_id) × (shown.id ≡ before.id)

  abbrev played : EngineResult → Result Session → Result Turn
  played result (err e) = err e
  played result (ok y) = ok (record {
    intent = Intent.play;
    session = some y;
    result = some result;
    save = none;
    replaced = false;
    asked = false;
  })

  run_turn-over :
      (command : Text) (x : Session) (s : S)
      → x.halted ≡ true
      → run_turn service c command x s ≡ (fail game_over, s)
  unfolding run_turn
  run_turn-over command x s p = rw p refl

  run_turn-homeless :
      (command : Text) (x : Session) (s : S)
      → x.halted ≡ false
      → find_key library x.story_key ≡ none
      → run_turn service c command x s ≡ (fail story_unavailable, s)
  unfolding run_turn
  run_turn-homeless command x s p q = rw (p, q) refl

  run_turn-failed :
      (command : Text) (x : Session) (s : S) (entry : Entry Story) (e : Error)
      → x.halted ≡ false
      → find_key library x.story_key ≡ some entry
      → Runner.run engine runner (c.clock 0) c.context entry x.state command ≡ err e
      → run_turn service c command x s ≡ (err e, s)
  unfolding run_turn
  run_turn-failed command x s entry e p q r = rw (p, q) (rw r refl)

  continue-played :
      (result : EngineResult) (r : Result Session) (s : S)
      → continue r
          (λ y. return (record {
            intent = Intent.play;
            session = some y;
            result = some result;
            save = none;
            replaced = false;
            asked = false;
          }))
          s
        ≡ (played result r, s)
  continue-played result (ok y) s = refl
  continue-played result (err e) s = refl

  run_turn-ran :
      (command : Text) (x : Session) (s : S) (entry : Entry Story) (result : EngineResult)
      → x.halted ≡ false
      → find_key library x.story_key ≡ some entry
      → Runner.run engine runner (c.clock 0) c.context entry x.state command ≡ ok result
      → let u = store.update (c.clock 1) (after_turn x command result) s in
        run_turn service c command x s ≡ (played result u.0, u.1)
  unfolding run_turn
  run_turn-ran command x s entry result p q r = rw (p, q) (rw r (continue-played result _ _))

  stored_turn :
      (user id command : Text) (x : Session) (s : S) (t : Turn) (entry : Entry Story)
      (result : EngineResult)
      → d.session s user id ≡ some x
      → x.halted ≡ false
      → find_key library x.story_key ≡ some entry
      → Runner.run engine runner (c.clock 0) c.context entry x.state command ≡ ok result
      → let u = store.update (c.clock 1) (after_turn x command result) s in
        (r : Result Session) → u.0 ≡ r → played result r ≡ ok t → Played user id command s u.1 t
  unfolding after_turn
  stored_turn user id command x s t entry result p q f g (err e) v h = cc
  stored_turn user id command x s t entry result p q f g (ok y) v h =
      let w = d.update_ok (c.clock 1) (after_turn x command result) y s v in
      let shows : t.session ≡ some y = cc in
      record {
        before = x;
        entry = entry;
        result = result;
        was_stored = p;
        was_running = q;
        of_story = f;
        ran = g;
        shown = record (after_turn x command result) { version = suc x.version };
        answered = cc;
        shows = shows ∙ ap some w;
        stored_state = refl;
        stored_status = refl;
        stored_halted = refl;
        stored_transcript = refl;
        stored_turn = refl;
        stored_version = omega arith;
        same_story = refl;
        same_names = (refl, refl);
        is_stored =
            ap
              (λ (z : Session).
                d.session (store.update (c.clock 1) (after_turn x command result) s).1 z.user_id
                  z.id)
              (sym w)
            ∙ d.update_stored (c.clock 1) user id (after_turn x command result) y x s p refl refl
                refl v
            ∙ ap some w;
      }

  ran_turn :
      (user id command : Text) (x : Session) (s : S) (t : Turn) (entry : Entry Story)
      → d.session s user id ≡ some x
      → x.halted ≡ false
      → find_key library x.story_key ≡ some entry
      → (r : Result EngineResult)
      → Runner.run engine runner (c.clock 0) c.context entry x.state command ≡ r
      → (run_turn service c command x s).0 ≡ ok t
      → Played user id command s (run_turn service c command x s).1 t
  ran_turn user id command x s t entry p q f (err e) g h =
      cc (run_turn-failed command x s entry e q f g)
  ran_turn user id command x s t entry p q f (ok result) g h =
      let steps = run_turn-ran command x s entry result q f g in
      rw steps (stored_turn user id command x s t entry result p q f g _ refl (rw steps at h))

  run_turn-ok :
      (user id command : Text) (x : Session) (s : S) (t : Turn)
      → d.session s user id ≡ some x
      → (run_turn service c command x s).0 ≡ ok t
      → Played user id command s (run_turn service c command x s).1 t
  run_turn-ok user id command x s t p h = elim (Bool-cases x.halted) [
    | inl over ↦ cc (run_turn-over command x s over)
    | inr running ↦ elim (Option-cases (find_key library x.story_key)) [
      | inl f ↦ cc (run_turn-homeless command x s running f)
      | inr (entry, f) ↦ ran_turn user id command x s t entry p running f _ refl h
    ]
  ]

  play_story-bind :
      (user id command : Text)
      → play_story service c user id command ≡ (store.load user id >>= run_turn service c command)
  unfolding play_story
  play_story-bind user id command = refl

  loaded_turn :
      (user id command : Text) (s : S) (t : Turn)
      → ((store.load user id >>= run_turn service c command) s).0 ≡ ok t
      → Played user id command s ((store.load user id >>= run_turn service c command) s).1 t
  loaded_turn user id command s t h =
      let (x, p, q) = >>=-ok (store.load user id) (run_turn service c command) s t h in
      let e = q ∙ ap (run_turn service c command x) (law.load_keeps user id s) in
      rw e (
        run_turn-ok user id command x s t (load_ok store d user id s x p)
          (sym (ap (λ (r : Result Turn × S). r.0) e) ∙ h))

  -- Over a durable store whose failed writes write nothing, every line that the story answered is
  -- a whole turn: the game was stored and had not ended, the engine ran its stored state, and
  -- what the user sees stored afterwards, and is answered, has the state, the status and the
  -- ending that the engine returned, its output at the end of the transcript, one turn more and
  -- one version more, and else the names and the story of before.
  pub play_story-Played :
      (user id command : Text) (s : S) (t : Turn)
      → (play_story service c user id command s).0 ≡ ok t
      → Played user id command s (play_story service c user id command s).1 t
  play_story-Played user id command s t =
      rw (play_story-bind user id command) (loaded_turn user id command s t)
