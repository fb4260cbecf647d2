-- ===== src/Game/Memory/Scoped.antt =====
-- The memory store makes, lists and deletes games, and shows them to their owner only.
use mathlib.Core.List.{Mem, mem-cons_self, mem-cons_of_mem}
use zorkd.Base.{
  subst, ℕ, suc, Bool, ◌≤◌, ◌≡◌, ◌≢◌, refl, ap, sym, ◌∙◌, true, false, none, some, List, arith,
  ◌==◌, Text, str_eq_refl, insert, delete, lookup-insert, lookup-delete, Bool-cases, Option-cases,
  inl, inr, Map, lookup, [], ◌∷◌, str_eq, str_eq_iff,
}
use zorkd.Errors.{Result, ok}
use zorkd.Go.Space.{Unicode}
use zorkd.Go.Decimal.{format_int}
use zorkd.Go.Sort.{sort_func-Falling, mem-sort_func}
use zorkd.Game.Types.{Session, Save, Snapshot, Summary}
use zorkd.Game.SaveName.{is_empty}
use zorkd.Game.Store.{IsScoped, NewestFirst, summary_at}
use zorkd.Game.Memory.{
  MemoryStore, memory_store, visible, owned_by, create, list, delete_session, newer_game, summaries,
  load_save, delete_save, reachable, drop_game, create_save, time_of,
}
use zorkd.Game.Memory.Shelf.{visible-some}

ok-injective {ℓ} : {A : Type ℓ} → (a b : A) → ok a ≡ ok b → a ≡ b
ok-injective a b e = cc

-- A game that is on the map under its owner's name.
inserted_visible :
    (x : Session) (m m' : MemoryStore)
    → m'.sessions ≡ insert x.id x m.sessions
    → visible m' x.user_id x.id ≡ some x
unfolding visible owned_by
inserted_visible x m m' e =
    ground (arith, e, lookup-insert x.id x.id x m.sessions, str_eq_refl x.id, str_eq_refl x.user_id)

-- What a creation left, of the game that it answered.
abbrev Created : Session → MemoryStore → Session → Type 0
Created x m y =
    (y ≡ record x { id = y.id; version = 1 })
    × ((w : Text) × (visible m y.user_id y.id ≡ some (record y { user_id = w })))

created :
    (now : ℕ) (x y : Session) (m : MemoryStore)
    → (create now x m).0 ≡ ok y
    → Created x (create now x m).1 y
unfolding create
created now x y m e = elim (Bool-cases (is_empty x.user_id)) [
  | inl p ↦ absurd (ground (arith, p, e))
  | inr p ↦
      let z : Session = record x { id = format_int (suc m.next_id); version = 1 } in
      let m' : MemoryStore = record m {
        next_id = suc m.next_id;
        sessions = insert z.id z m.sessions;
        updated = insert z.id now m.updated;
      } in
      let out : create now x m ≡ (ok z, m') = rw (p, create) refl in
      subst (Created x (create now x m).1)
        (ok-injective z y (sym (ap (λ (r : Result Session × MemoryStore). r.0) out) ∙ e))
        (
          refl,
          (
            z.user_id,
            ap (λ (r : Result Session × MemoryStore). visible r.1 z.user_id z.id) out
                ∙ inserted_visible z m m' refl,
          ),
        )
]

deleted_answer :
    (user id : Text) (m : MemoryStore) (x : Session)
    → visible m user id ≡ some x
    → delete_session user id m ≡ (
      ok tt,
      record m {
        sessions = delete id m.sessions;
        updated = delete id m.updated;
        saves = drop_game id m.saves;
      },
    )
unfolding delete_session
deleted_answer user id m x e = rw (e, delete_session) refl

deleted_visible :
    (user id : Text) (m : MemoryStore) (x : Session)
    → visible m user id ≡ some x
    → visible (delete_session user id m).1 user id ≡ none
deleted_visible user id m x e = rw (deleted_answer user id m x e) (
    unfold visible in
    rw (lookup-delete id id m.sessions) (rw (str_eq_refl id) (unfold owned_by in refl)))

unreachable :
    (user game id : Text) (m : MemoryStore) (x : Snapshot)
    → visible m user game ≡ none
    → (load_save user game id m).0 ≢ ok x
unfolding load_save reachable
unreachable user game id m x p e = absurd (ground (arith, p, e))

deleted_save :
    (user game id : Text) (m : MemoryStore) (v : Save) (x : Snapshot)
    → (delete_save user game id m).0 ≡ ok v
    → (load_save user game id (delete_save user game id m).1).0 ≢ ok x
unfolding delete_save load_save reachable visible
deleted_save user game id m v x e f =
    absurd (ground (arith, lookup-delete id id m.saves, str_eq_refl id, e, f))

newer-yes : (a b : Summary) → newer_game a b ≡ true → b.updated_at ≤ a.updated_at
newer-yes a b e = elim (Bool-cases (a.updated_at == b.updated_at)) [
  | inl p ↦ ground (arith, p)
  | inr p ↦ ground (arith, p, e)
]

newer-no : (a b : Summary) → newer_game a b ≡ false → a.updated_at ≤ b.updated_at
newer-no a b e = elim (Bool-cases (a.updated_at == b.updated_at)) [
  | inl p ↦ ground (arith, p)
  | inr p ↦ ground (arith, p, e)
]

listed :
    (user : Text) (m : MemoryStore) (xs : List Summary) → (list user m).0 ≡ ok xs → NewestFirst xs
unfolding list
listed user m xs e = subst NewestFirst (ok-injective _ xs e) (
    sort_func-Falling (λ (x : Summary). x.updated_at) newer_game newer-yes newer-no
      (summaries m.updated user m.sessions))

summaries-all :
    (updated : Map ℕ) (user id : Text) (m : Map Session) (x : Session)
    → lookup id m ≡ some x
    → x.user_id ≡ user
    → Mem (summary_at id (time_of (lookup id updated)) x) (summaries updated user m)
unfolding summaries lookup
summaries-all updated user id [] x e p = absurd cc
summaries-all updated user id ((i, y) ∷ m) x e p = elim (Bool-cases (str_eq i id)) [
  | inl q ↦
      let same : y ≡ x = ground (arith, q, e) in
      let owned : str_eq y.user_id user ≡ true =
        (str_eq_iff y.user_id user).1 (ap (λ (z : Session). z.user_id) same ∙ p) in
      rw (owned, summaries)
        (subst
          (λ j.
            Mem (summary_at id (time_of (lookup id updated)) x)
              (summary_at j (time_of (lookup j updated)) y ∷ summaries updated user m))
          (sym ((str_eq_iff i id).0 q))
          (subst
            (λ z.
              Mem (summary_at id (time_of (lookup id updated)) x)
                (summary_at id (time_of (lookup id updated)) z ∷ summaries updated user m))
            (sym same) mem-cons_self))
  | inr q ↦
      let rest = summaries-all updated user id m x (ground (arith, q, e)) p in
      elim (Bool-cases (str_eq y.user_id user)) [
        | inl r ↦ rw (r, summaries) (mem-cons_of_mem _ rest)
        | inr r ↦ rw (r, summaries) rest
      ]
]

load_save_scoped :
    (user game id : Text) (m : MemoryStore) (v : Snapshot)
    → (load_save user game id m).0 ≡ ok v
    → (x : Session) × (visible m user game ≡ some x)
unfolding load_save reachable
load_save_scoped user game id m v e = elim (Option-cases (visible m user game)) [
  | inl p ↦ absurd (ground (arith, p, e))
  | inr seen ↦ seen
]

create_save_scoped :
    ⦃u : Unicode⦄ (now : ℕ) (x : Snapshot) (m : MemoryStore) (v : Save × Bool)
    → (create_save now x m).0 ≡ ok v
    → (y : Session) × (visible m x.user_id x.game_id ≡ some y)
unfolding create_save
create_save_scoped now x m v e = elim (Option-cases (visible m x.user_id x.game_id)) [
  | inl p ↦ absurd (ground (arith, p, e))
  | inr seen ↦ seen
]

delete_save_scoped :
    (user game id : Text) (m : MemoryStore) (v : Save)
    → (delete_save user game id m).0 ≡ ok v
    → (x : Session) × (visible m user game ≡ some x)
unfolding delete_save reachable
delete_save_scoped user game id m v e = elim (Option-cases (visible m user game)) [
  | inl p ↦ absurd (ground (arith, p, e))
  | inr seen ↦ seen
]

pub memory_store-IsScoped : ⦃u : Unicode⦄ → IsScoped memory_store visible
unfolding list
memory_store-IsScoped = record {
  owner_only = λ user id m x e. inl (sym (visible-some m user id x e).1);
  created = created;
  deleted = λ user id m x e. (
    ap (λ (r : Result (Unit {0}) × MemoryStore). r.0) (deleted_answer user id m x e),
    deleted_visible user id m x e,
    λ g v. unreachable user id g (delete_session user id m).1 v (deleted_visible user id m x e),
  );
  delete_missing = λ user id m e. unfold delete_session in ground (arith, e);
  deleted_save = deleted_save;
  listed = listed;
  listed_all = λ user id m x xs e f.
      let (found, owner) = visible-some m user id x e in
      (
        id,
        time_of (lookup id m.updated),
        inl refl,
        subst (Mem _) (ok-injective _ xs f) (
            mem-sort_func newer_game _ _
              (summaries-all m.updated user id m.sessions x found owner)),
      );
  load_save_scoped = load_save_scoped;
  create_save_scoped = create_save_scoped;
  delete_save_scoped = delete_save_scoped;
}
