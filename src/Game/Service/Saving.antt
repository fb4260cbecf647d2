-- ===== src/Game/Service/Saving.antt =====
-- What a written save leaves on the shelf.
use zorkd.Base.{
  subst, ℕ, Bool, true, false, ◌≡◌, ◌≢◌, refl, ap, sym, ◌∙◌, [], arith, ◌==◌, length, Text, codes,
  Bool-cases, inl, inr,
}
use zorkd.Errors.{Error, Result, ok, err, fail, game_over, Result-cases}
use zorkd.Go.Space.{Unicode}
use zorkd.Game.Types.{Session, Save}
use zorkd.Game.SaveName.{is_empty, clean_save_name}
use zorkd.Game.Screen.{snapshot_of, saved_notice}
use zorkd.Game.Transcript.{append_notice}
use zorkd.Game.Store.{IsAtomic, IsShelf}
use zorkd.Game.Store.Calls.{Action, return, ◌>>=◌, >>=-ok}
use zorkd.Game.Service.{Service, Call, record_notice, write_save, save, save_named}

abbrev answer_named : {S : Type 0} → Session × Save × Bool → Action S (Save × Bool)
answer_named (y, v, r) = return (v, r)

module _ ⦃u : Unicode⦄ {S Story Machine : Type 0} (service : Service S Story Machine)
    (law : IsAtomic service.store) (shelf : IsShelf service.store) where
  open service use {store}

  -- What a written save left on the shelf.
  pub record Shelved (user game : Text) (x : Session) (s' : S) (v : Save) : Type 0 where
    pub name : Text
    pub at : ℕ
    pub resumable : length x.state ≢ 0
    pub on_shelf :
        (store.load_save user game v.id s').0
        ≡ ok (record (snapshot_of user game name x) { id = v.id; created_at = at })

  record_notice-keeps :
      (c : Call) (x : Session) (s : S) (user game id : Text)
      → (store.load_save user game id (record_notice service c x s).1).0
        ≡ (store.load_save user game id s).0
  unfolding record_notice
  record_notice-keeps c x s user game id = shelf.update_keeps_saves (c.clock 1) x s user game id

  write_save-empty :
      (c : Call) (user game name echo : Text) (x : Session) (s : S)
      → (length x.state == 0) ≡ true
      → write_save service c user game name echo x s ≡ (fail game_over, s)
  unfolding write_save
  write_save-empty c user game name echo x s p = rw p refl

  write_save-fails :
      (c : Call) (user game name echo : Text) (x : Session) (s : S) (e : Error)
      → (length x.state == 0) ≡ false
      → (store.create_save (c.clock 0) (snapshot_of user game name x) s).0 ≡ err e
      → (write_save service c user game name echo x s).0 ≡ err e
  unfolding write_save
  write_save-fails c user game name echo x s e p q = rw p (rw q refl)

  write_save-writes :
      (c : Call) (user game name echo : Text) (x : Session) (s : S) (v : Save) (r : Bool)
      → (length x.state == 0) ≡ false
      → (store.create_save (c.clock 0) (snapshot_of user game name x) s).0 ≡ ok (v, r)
      → (y z : Session) × (write_save service c user game name echo x s ≡ (
        ok (y, v, r),
        (record_notice service c z
            (store.create_save (c.clock 0) (snapshot_of user game name x) s).1).1,
      ))
  unfolding write_save
  write_save-writes c user game name echo x s v r p q =
      let s' = (store.create_save (c.clock 0) (snapshot_of user game name x) s).1 in
      let z : Session = record x {
        transcript = append_notice x.transcript echo (saved_notice v.name r);
      } in
      let y : Session = elim (store.update (c.clock 1) z s').0 [
        | ok updated ↦ updated
        | err e ↦ z
      ] in
      (y, z, rw p (rw q refl))

  write_save-Shelved :
      (c : Call) (user game name echo : Text) (x : Session) (s : S) (y : Session) (v : Save)
      (r : Bool)
      → (write_save service c user game name echo x s).0 ≡ ok (y, v, r)
      → Shelved user game x (write_save service c user game name echo x s).1 v
  unfolding snapshot_of
  write_save-Shelved c user game name echo x s y v r h = elim (Bool-cases (length x.state == 0)) [
    | inl p ↦ cc (write_save-empty c user game name echo x s p)
    | inr p ↦
        elim (Result-cases (store.create_save (c.clock 0) (snapshot_of user game name x) s).0) [
          | inl ((w, b), q) ↦
              let (y', z, e) = write_save-writes c user game name echo x s w b p q in
              let same : w ≡ v = cc in
              rw e (record {
                name = name;
                at = c.clock 0;
                resumable = ground arith;
                on_shelf =
                    record_notice-keeps c z _ user game v.id
                    ∙ subst
                        (λ (t : Save).
                          (store.load_save user game t.id
                            (store.create_save (c.clock 0) (snapshot_of user game name x) s).1).0
                          ≡ ok (record (snapshot_of user game name x) {
                            id = t.id;
                            created_at = c.clock 0;
                          }))
                        same (shelf.saved (c.clock 0) (snapshot_of user game name x) s w b q);
              })
          | inr (e, q) ↦ cc (write_save-fails c user game name echo x s e p q)
        ]
  ]

  save-bind :
      (c : Call) (user game name echo : Text)
      → save service c user game name echo
        ≡ (store.load user game >>= write_save service c user game name echo)
  unfolding save
  save-bind c user game name echo = refl

  save_named-bind :
      (c : Call) (user game name clean : Text) (s : S)
      → is_empty user ≡ false
      → clean_save_name name ≡ ok clean
      → save_named service c user game name s
        ≡ (save service c user game clean (codes "save") >>= answer_named) s
  unfolding save_named
  save_named-bind c user game name clean s p q = rw p (rw q refl)

  save_named-nobody :
      (c : Call) (user game name : Text) (s : S)
      → is_empty user ≡ true
      → save_named service c user game name s ≡ (err [], s)
  unfolding save_named
  save_named-nobody c user game name s p = rw p refl

  save_named-unusable :
      (c : Call) (user game name : Text) (s : S) (e : Error)
      → is_empty user ≡ false
      → clean_save_name name ≡ err e
      → save_named service c user game name s ≡ (err e, s)
  unfolding save_named
  save_named-unusable c user game name s e p q = rw p (rw q refl)

  save-Shelved :
      (c : Call) (user game name echo : Text) (s : S) (y : Session) (v : Save) (r : Bool)
      → ((store.load user game >>= write_save service c user game name echo) s).0 ≡ ok (y, v, r)
      → (x : Session) × ((store.load user game s).0 ≡ ok x)
        × Shelved user game x
            ((store.load user game >>= write_save service c user game name echo) s).1
            v
  save-Shelved c user game name echo s y v r h =
      let (x, p, q) =
        >>=-ok (store.load user game) (write_save service c user game name echo) s (y, v, r) h in
      (
        x,
        p,
        rw q (
            write_save-Shelved c user game name echo x _ y v r
              (sym (ap (λ (t : Result (Session × Save × Bool) × S). t.0) q) ∙ h)),
      )

  saved_as :
      (c : Call) (user game clean : Text) (s : S) (v : Save) (r : Bool)
      → ((save service c user game clean (codes "save") >>= answer_named) s).0 ≡ ok (v, r)
      → (x : Session) × ((store.load user game s).0 ≡ ok x)
        × Shelved user game x
            ((save service c user game clean (codes "save") >>= answer_named) s).1
            v
  saved_as c user game clean s v r h =
      let (t, p, q) =
        >>=-ok (save service c user game clean (codes "save")) answer_named s (v, r) h in
      let same : t.1 ≡ v = cc (ap (λ (o : Result (Save × Bool) × S). o.0) q) in
      let (x, l, shelved) =
        save-Shelved c user game clean (codes "save") s t.0 t.1 t.2
          (rw (← save-bind c user game clean (codes "save")) p) in
      (x, l, rw (q, save-bind c user game clean (codes "save"), ← same) shelved)

  -- A save that was written is on the shelf, with the state of the game at that time.
  pub save_named-Shelved :
      (c : Call) (user game name : Text) (s : S) (v : Save) (r : Bool)
      → (save_named service c user game name s).0 ≡ ok (v, r)
      → (x : Session) × ((store.load user game s).0 ≡ ok x)
        × Shelved user game x (save_named service c user game name s).1 v
  save_named-Shelved c user game name s v r h = elim (Bool-cases (is_empty user)) [
    | inl nobody ↦ cc (save_named-nobody c user game name s nobody)
    | inr somebody ↦ elim (Result-cases (clean_save_name name)) [
      | inr (e, p) ↦ cc (save_named-unusable c user game name s e somebody p)
      | inl (clean, p) ↦
          let b = save_named-bind c user game name clean s somebody p in
          rw b (saved_as c user game clean s v r (rw b at h))
    ]
  ]

  pub is_somebody :
      (c : Call) (user game name : Text) (s : S) (v : Save) (r : Bool)
      → (save_named service c user game name s).0 ≡ ok (v, r)
      → is_empty user ≡ false
  is_somebody c user game name s v r h = elim (Bool-cases (is_empty user)) [
    | inl nobody ↦ cc (save_named-nobody c user game name s nobody)
    | inr somebody ↦ somebody
  ]
