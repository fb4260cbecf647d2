-- ===== src/Game/Memory/Shelf.antt =====
-- The memory store shelves what it is given: a save is read back as it was written.
use zorkd.Base.{
  subst, ℕ, suc, Bool, true, false, ◌≡◌, refl, ap, sym, ◌∙◌, Option, none, some, arith,
  if◌then◌else◌, ◌==◌, leb, Text, str_eq, str_eq_iff, lookup, insert, lookup-insert, Option-cases,
  Bool-cases, inl, inr, ◌⊎◌,
}
use zorkd.Errors.{Result, ok, fail, session_not_found, save_not_found}
use zorkd.Go.Space.{Unicode}
use zorkd.Go.Decimal.{format_int}
use zorkd.Game.Types.{Session, Save, Snapshot}
use zorkd.Game.Store.{IsShelf}
use zorkd.Game.Memory.{
  MemoryStore, memory_store, visible, owned_by, load, update, create_save, store_save, held,
  load_save, reachable, of_game, summarize, max_saves_per_game,
}
use zorkd.Game.Memory.Laws.{create_save_missing, create_save_found}

abbrev is_some : Option Session → Bool
is_some none = false
is_some (some x) = true

pub visible-some :
    (m : MemoryStore) (user id : Text) (y : Session)
    → visible m user id ≡ some y
    → (lookup id m.sessions ≡ some y) × (y.user_id ≡ user)
unfolding visible
visible-some m user id y e = ground (arith, str_eq_iff y.user_id user)

-- An owner's game written again is the same owner's game.
owned-insert :
    (x y z : Session) (user : Text) (b : Bool) (o : Option Session)
    → z.user_id ≡ x.user_id
    → y.user_id ≡ x.user_id
    → (b ≡ true → o ≡ some y)
    → is_some (owned_by user (if b then some z else o)) ≡ is_some (owned_by user o)
unfolding owned_by
owned-insert x y z user true o p q h = rw (h refl) (
    ap (λ (i : Text). is_some (if str_eq i user then some z else none)) (p ∙ sym q)
    ∙ same (str_eq y.user_id user))
  where
    same : (b : Bool) → is_some (if b then some z else none) ≡ is_some (if b then some y else none)
    same true = refl
    same false = refl
owned-insert x y z user false o p q h = refl

-- An update writes nothing, or writes one session again for the owner of the stored one.
update_state :
    (now : ℕ) (x : Session) (m : MemoryStore)
    → ((update now x m).1 ≡ m)
      ⊎ ((y : Session) × (visible m x.user_id x.id ≡ some y)
          × ((update now x m).1.sessions
              ≡ insert x.id (record x { version = suc x.version }) m.sessions)
          × ((update now x m).1.saves ≡ m.saves))
unfolding update
update_state now x m = elim (Option-cases (visible m x.user_id x.id)) [
  | inl e ↦ inl (rw (e, update) refl)
  | inr (y, e) ↦ elim (Bool-cases (y.version == x.version)) [
    | inl p ↦ inr (y, e, rw (e, update) (rw p refl), rw (e, update) (rw p refl))
    | inr p ↦ inl (rw (e, update) (rw p refl))
  ]
]

rewritten :
    (m m' : MemoryStore) (x y : Session) (user game : Text)
    → visible m x.user_id x.id ≡ some y
    → m'.sessions ≡ insert x.id (record x { version = suc x.version }) m.sessions
    → is_some (visible m' user game) ≡ is_some (visible m user game)
unfolding visible
rewritten m m' x y user game e w =
    let z : Session = record x { version = suc x.version } in
    let (found, owner) = visible-some m x.user_id x.id y e in
    ap (λ ss. is_some (owned_by user (lookup game ss))) w
    ∙ ap (λ o. is_some (owned_by user o)) (lookup-insert x.id game z m.sessions)
    ∙ owned-insert x y z user (str_eq x.id game) (lookup game m.sessions) refl owner
        (λ h. ap (λ i. lookup i m.sessions) (sym ((str_eq_iff x.id game).0 h)) ∙ found)

reachable-eq :
    (m m' : MemoryStore) (user game id : Text)
    → is_some (visible m' user game) ≡ is_some (visible m user game)
    → m'.saves ≡ m.saves
    → reachable m' user game id ≡ reachable m user game id
unfolding reachable
reachable-eq m m' user game id e q = by_cases (visible m' user game) (visible m user game) e
  where
    by_cases :
        (o o' : Option Session)
        → is_some o ≡ is_some o'
        → (elim o [
          | none ↦ fail session_not_found
          | some _ ↦ elim (of_game game (lookup id m'.saves)) [
            | none ↦ fail save_not_found
            | some x ↦ ok x
          ]
        ])
          ≡ (let r : Result Snapshot = elim o' [
            | none ↦ fail session_not_found
            | some _ ↦ elim (of_game game (lookup id m.saves)) [
              | none ↦ fail save_not_found
              | some x ↦ ok x
            ]
          ] in
              r)
    by_cases none none h = refl
    by_cases none (some y) h = cc
    by_cases (some x) none h = cc
    by_cases (some x) (some y) h = rw q refl

update_keeps_saves :
    (now : ℕ) (x : Session) (m : MemoryStore) (user game id : Text)
    → (load_save user game id (update now x m).1).0 ≡ (load_save user game id m).0
unfolding load_save
update_keeps_saves now x m user game id = elim (update_state now x m) [
  | inl e ↦ ap (λ s. reachable s user game id) e
  | inr (y, p, w, q) ↦
      reachable-eq m (update now x m).1 user game id
        (rewritten m (update now x m).1 x y user game p w) q
]

-- What is written on the shelf of a visible game can be taken from it.
shelved :
    (m m' : MemoryStore) (x y : Snapshot) (owner : Session)
    → visible m x.user_id x.game_id ≡ some owner
    → m'.sessions ≡ m.sessions
    → m'.saves ≡ insert y.id y m.saves
    → y.game_id ≡ x.game_id
    → reachable m' x.user_id x.game_id y.id ≡ ok y
unfolding reachable visible
shelved m m' x y owner e p q g =
    ground (
      arith,
      lookup-insert y.id y.id y m.saves,
      str_eq_iff y.id y.id,
      str_eq_iff y.game_id x.game_id,
    )

store_save-saved :
    ⦃u : Unicode⦄ (m : MemoryStore) (x : Snapshot) (o : Option Text) (owner : Session) (v : Save)
    (r : Bool)
    → visible m x.user_id x.game_id ≡ some owner
    → (store_save m x o).0 ≡ ok (v, r)
    → reachable (store_save m x o).1 x.user_id x.game_id v.id ≡ ok (record x { id = v.id })
unfolding store_save
store_save-saved m x none owner v r e h =
    elim (Bool-cases (leb max_saves_per_game (held x.game_id m.saves))) [
      | inl full ↦ ground arith
      | inr room ↦
          let y : Snapshot = record x { id = format_int (suc m.next_save) } in
          let m' : MemoryStore = record m {
            next_save = suc m.next_save;
            saves = insert y.id y m.saves;
          } in
          let same : v ≡ summarize y = ground arith in
          rw room (
            subst
              (λ (w : Save). reachable m' x.user_id x.game_id w.id ≡ ok (record x { id = w.id }))
              (sym same) (shelved m m' x y owner e refl refl refl))
    ]
store_save-saved m x (some i) owner v r e h =
    let y : Snapshot = record x { id = i } in
    let m' : MemoryStore = record m { saves = insert i y m.saves } in
    let same : v ≡ summarize y = ground arith in
    subst (λ (w : Save). reachable m' x.user_id x.game_id w.id ≡ ok (record x { id = w.id }))
      (sym same) (shelved m m' x y owner e refl refl refl)

saved :
    ⦃u : Unicode⦄ (now : ℕ) (x : Snapshot) (m : MemoryStore) (v : Save) (r : Bool)
    → (create_save now x m).0 ≡ ok (v, r)
    → (load_save x.user_id x.game_id v.id (create_save now x m).1).0
      ≡ ok (record x { id = v.id; created_at = now })
unfolding load_save
saved now x m v r h = elim (Option-cases (visible m x.user_id x.game_id)) [
  | inl p ↦ cc (create_save_missing now x m p)
  | inr (owner, p) ↦
      let e = create_save_found now x owner m p in
      rw e (store_save-saved m (record x { created_at = now }) _ owner v r p (rw e at h))
]

store_save-sessions :
    ⦃u : Unicode⦄ (m : MemoryStore) (x : Snapshot) (o : Option Text)
    → (store_save m x o).1.sessions ≡ m.sessions
unfolding store_save
store_save-sessions m x none = ground arith
store_save-sessions m x (some i) = refl

create_save-sessions :
    ⦃u : Unicode⦄ (now : ℕ) (x : Snapshot) (m : MemoryStore)
    → (create_save now x m).1.sessions ≡ m.sessions
create_save-sessions now x m = elim (Option-cases (visible m x.user_id x.game_id)) [
  | inl p ↦ rw (create_save_missing now x m p) refl
  | inr (owner, p) ↦ rw (create_save_found now x owner m p) (store_save-sessions m _ _)
]

load-sessions :
    (user id : Text) (m m' : MemoryStore)
    → m'.sessions ≡ m.sessions
    → (load user id m').0 ≡ (load user id m).0
unfolding load
load-sessions user id m m' e =
    by_cases (visible m' user id) (visible m user id)
      (unfold visible in ap (λ ss. owned_by user (lookup id ss)) e)
  where
    by_cases :
        (o o' : Option Session)
        → o ≡ o'
        → (let p : Result Session × MemoryStore = elim o [
          | none ↦ (fail session_not_found, m')
          | some x ↦ (ok x, m')
        ] in
            p.0)
          ≡ (let p : Result Session × MemoryStore = elim o' [
            | none ↦ (fail session_not_found, m)
            | some x ↦ (ok x, m)
          ] in
              p.0)
    by_cases none none h = refl
    by_cases none (some y) h = cc
    by_cases (some x) none h = cc
    by_cases (some x) (some y) h = cc

-- A save is read back as it was written, and sessions and saves are written apart.
pub memory_store-IsShelf : ⦃u : Unicode⦄ → IsShelf memory_store
memory_store-IsShelf = record {
  saved = saved;
  save_keeps_sessions = λ now x m user id.
      load-sessions user id m (create_save now x m).1 (create_save-sessions now x m);
  update_keeps_saves = update_keeps_saves;
}
