-- ===== src/Game/Service/Snapshots.antt =====
-- A save brings back the game as it was.
use zorkd.Base.{
  arith, suc, Bool, true, false, ◌≡◌, refl, ap, sym, ◌∙◌, some, [], Text, codes, str_eq_iff,
}
use zorkd.Errors.{Result, ok, err}
use zorkd.Go.Space.{Unicode}
use zorkd.Game.Types.{Session, Save, Snapshot}
use zorkd.Game.SaveName.{is_empty}
use zorkd.Game.Screen.{snapshot_of, after_restore}
use zorkd.Game.Store.{IsAtomic, IsDurable, IsShelf}
use zorkd.Game.Store.Calls.{Action, ◌>>=◌, >>=-step}
use zorkd.Game.Service.{Service, Call, save_named, promote, restore_save}
use zorkd.Game.Service.Saving.{save_named-Shelved, is_somebody}

module _ ⦃u : Unicode⦄ {S Story Machine : Type 0} (service : Service S Story Machine)
    (law : IsAtomic service.store) (shelf : IsShelf service.store) where
  open service use {store}

  restore_save-bind :
      (c : Call) (user game id : Text)
      → is_empty user ≡ false
      → restore_save service c user game id ≡ (
          store.load user game >>= λ x.
          store.load_save user game id >>= λ y. promote service c x y (codes "restore"))
  unfolding restore_save
  restore_save-bind c user game id p = rw p refl

  restore_save-nobody :
      (c : Call) (user game id : Text) (s : S)
      → is_empty user ≡ true
      → (restore_save service c user game id s).0 ≡ err []
  unfolding restore_save
  restore_save-nobody c user game id s p = rw p refl

  promote-writes :
      (c : Call) (x y : Session) (snapshot : Snapshot) (echo : Text) (s : S)
      → snapshot.story_key ≡ x.story_key
      → (store.update (c.clock 0) (after_restore x snapshot echo) s).0 ≡ ok y
      → (v : Save) × (promote service c x snapshot echo s
          ≡ (ok (y, v), (store.update (c.clock 0) (after_restore x snapshot echo) s).1))
  unfolding promote
  promote-writes c x y snapshot echo s p q = (
    record {
      id = snapshot.id;
      name = snapshot.name;
      turn = snapshot.turn;
      created_at = snapshot.created_at;
    },
    rw ((str_eq_iff snapshot.story_key x.story_key).1 p) (rw q refl),
  )

  restore_steps :
      (c : Call) (user game id : Text) (s : S) (x : Session) (snapshot : Snapshot)
      → is_empty user ≡ false
      → (store.load user game s).0 ≡ ok x
      → (store.load_save user game id s).0 ≡ ok snapshot
      → restore_save service c user game id s ≡ promote service c x snapshot (codes "restore") s
  restore_steps c user game id s x snapshot p l k =
      ap (λ (m : Action S (Session × Save)). m s) (restore_save-bind c user game id p)
      ∙ >>=-step (store.load user game) _ s s x l (law.load_keeps user game s)
      ∙ >>=-step (store.load_save user game id) _ s s snapshot k
          (law.load_save_keeps user game id s)

  -- Over a store that keeps its contract, once the user has saved a game by name, and in every
  -- later state in which that save is still on the shelf and the game is stored for the user with
  -- the same story, restoring the save succeeds; and the game that is then answered, and that is
  -- then stored for the user, has the state, the status bar and the turn count of the moment it was
  -- saved, is not over, and is one version on.
  pub restore_brings_back :
      (d : IsDurable store) (c c' : Call) (user game name : Text) (s s' : S) (v : Save) (r : Bool)
      (x' : Session)
      → (save_named service c user game name s).0 ≡ ok (v, r)
      → (store.load_save user game v.id s').0
        ≡ (store.load_save user game v.id (save_named service c user game name s).1).0
      → d.session s' user game ≡ some x'
      → x'.user_id ≡ user
      → x'.id ≡ game
      → ((x : Session) → (store.load user game s).0 ≡ ok x → x'.story_key ≡ x.story_key)
      → (x y : Session) × (w : Save) × ((store.load user game s).0 ≡ ok x)
        × ((restore_save service c' user game v.id s').0 ≡ ok (y, w))
        × (d.session (restore_save service c' user game v.id s').1 user game ≡ some y)
        × (y.state ≡ x.state)
        × (y.status ≡ x.status)
        × (y.turn ≡ x.turn)
        × (y.halted ≡ false)
        × (y.version ≡ suc x'.version)
  unfolding after_restore snapshot_of
  restore_brings_back d c c' user game name s s' v r x' h kept stored owner key story =
      let (x, l, shelved) = save_named-Shelved service law shelf c user game name s v r h in
      let snapshot : Snapshot = record (snapshot_of user game shelved.name x) {
        id = v.id;
        created_at = shelved.at;
      } in
      let z : Session = after_restore x' snapshot (codes "restore") in
      let y : Session = record z { version = suc z.version } in
      let mine : d.session s' z.user_id z.id ≡ some x' =
        ap (λ i. d.session s' i x'.id) owner ∙ ap (d.session s' user) key ∙ stored in
      let written =
        d.update_fresh (c'.clock 0) z x' s' mine refl (ground (arith, shelved.resumable)) in
      let after = (store.update (c'.clock 0) z s').1 in
      let (w, done) =
        promote-writes c' x' y snapshot (codes "restore") s' (sym (story x l)) written in
      let steps =
        restore_steps c' user game v.id s' x' snapshot
          (is_somebody service law shelf c user game name s v r h)
          (d.load_found user game s' x' stored) (kept ∙ shelved.on_shelf) in
      (
        x,
        y,
        w,
        l,
        ap (λ (t : Result (Session × Save) × S). t.0) (steps ∙ done),
        ap (λ (t : Result (Session × Save) × S). d.session t.1 user game) (steps ∙ done)
            ∙ ap (λ i. d.session after i game) (sym owner)
            ∙ ap (d.session after x'.user_id) (sym key)
            ∙ d.update_stored (c'.clock 0) user game z y x' s' stored refl refl refl written,
        refl,
        refl,
        refl,
        refl,
        refl,
      )
