-- ===== src/Database/Privacy.antt =====
-- What a user can see of the tables, and that the statements for others leave it alone.
pub mod Filters
pub mod Views
pub mod Writes
use zorkd.Base.{
  ℕ, suc, ◌≡◌, ◌≢◌, refl, sym, ◌∙◌, ap, true, false, ◌&&◌, Option, none, some, Text, arith,
  Option-cases, Bool-cases, inl, inr,
}
use zorkd.Errors.{ok, err, Result-cases}
use zorkd.Go.Decimal.{format_int, parse_positive, parse_positive-format_int}
use zorkd.Game.Types.{Session, Snapshot}
use zorkd.Game.SaveName.{is_empty}
use zorkd.Game.Store.{is_resumable}
use zorkd.Game.Store.Private.{IsPrivate, SameView}
use zorkd.Login.Rows.{is_user}
use zorkd.Database.{Db, Sqlite, keys}
use zorkd.Database.Games
use zorkd.Database.Games.{create, update, delete, load, visible}
use zorkd.Database.Contract.Written.{visible-Seen}
use zorkd.Database.Contract.Durable.{names}
use zorkd.Database.Saves.{
  create_save, delete_save, drop_save, sql_store, owns_game, save_id_by_name, reachable,
}
use zorkd.Database.Integrity.{Write, created, updated, deleted, shelved, removed, Write-IsWhole}
use Views.{IsTidy, View, View-SameView, IsTable-IsKeyed}
use Writes.{
  Left, unchanged, insert_game-Left, update_row-Left, delete_row-Left, write_save-Left,
  remove_save-Left,
}

-- Two identifiers that are not of one user.
abbrev pub Apart : Text → Text → Type 0
Apart v u = parse_positive v ≢ parse_positive u

other_than : {owner other : ℕ} {o : Option ℕ} → o ≡ some other → some owner ≢ o → other ≢ owner
other_than p d e = d (ap (λ (i : ℕ). some i) (sym e) ∙ sym p)

another : (o : Option ℕ) → (owner : ℕ) × (some owner ≢ o)
another none = (0, λ e. cc)
another (some n) = (suc n, λ e. absurd (ground (arith, e)))

-- A save that can be reached is one of a game of the user.
record Reached (u g i : Text) (db : Db) : Type 0 where
  owner : ℕ
  game : ℕ
  number : ℕ
  of_user : parse_positive u ≡ some owner
  of_game : parse_positive g ≡ some game
  of_save : parse_positive i ≡ some number
  owned : owns_game owner game db ≡ true

reachable-Reached :
    (u g i : Text) (db : Db) (x : Snapshot) → reachable u g i db ≡ ok x → Reached u g i db
unfolding reachable
reachable-Reached u g i db x e = elim (Option-cases (parse_positive u)) [
  | inl p ↦ absurd (ground arith)
  | inr (owner, p) ↦ elim (Option-cases (parse_positive g)) [
    | inl q ↦ absurd (ground arith)
    | inr (game, q) ↦ elim (Option-cases (parse_positive i)) [
      | inl r ↦ absurd (ground arith)
      | inr (n, r) ↦ record {
        owner = owner;
        game = game;
        number = n;
        of_user = p;
        of_game = q;
        of_save = r;
        owned = ground arith;
      }
    ]
  ]
]

module _ ⦃sql : Sqlite⦄ where
  create-Left :
      (now : ℕ) (x : Session) (owner : ℕ) (db : Db)
      → some owner ≢ parse_positive x.user_id
      → IsTidy db
      → Left owner db (create now x db).1
  unfolding create
  create-Left now x owner db d h = elim (Option-cases (parse_positive x.user_id)) [
    | inl p ↦ rw (p, create) (unchanged owner db h.keyed)
    | inr (other, p) ↦ elim (Bool-cases (is_user other db.users && is_resumable x)) [
      | inr q ↦ rw (p, create) (rw q (unchanged owner db h.keyed))
      | inl q ↦
          rw (p, create)
            (rw q (
              insert_game-Left owner other (other_than p d) now x (sql.next_row (keys db.games)) db
                (sql.next_row-fresh (keys db.games)) h.keyed))
    ]
  ]

  update-Left :
      (now : ℕ) (x : Session) (owner : ℕ) (db : Db)
      → some owner ≢ parse_positive x.user_id
      → IsTidy db
      → Left owner db (update now x db).1
  unfolding update
  update-Left now x owner db d h = elim (Option-cases (parse_positive x.user_id)) [
    | inl p ↦ rw (p, update) (unchanged owner db h.keyed)
    | inr (other, p) ↦ elim (Option-cases (parse_positive x.id)) [
      | inl q ↦ rw (p, update) (rw q (unchanged owner db h.keyed))
      | inr (n, q) ↦
          rw (p, update) (rw q (update_row-Left owner other (other_than p d) now x n db h.keyed))
    ]
  ]

  delete-Left :
      (u i : Text) (owner : ℕ) (db : Db)
      → some owner ≢ parse_positive u
      → IsTidy db
      → Left owner db (delete u i db).1
  unfolding delete
  delete-Left u i owner db d h = elim (Option-cases (parse_positive u)) [
    | inl p ↦ rw (p, delete) (unchanged owner db h.keyed)
    | inr (other, p) ↦ elim (Option-cases (parse_positive i)) [
      | inl q ↦ rw (p, delete) (rw q (unchanged owner db h.keyed))
      | inr (n, q) ↦
          rw (p, delete) (rw q (delete_row-Left owner other (other_than p d) n db h.keyed))
    ]
  ]

  create_save-Left :
      (now : ℕ) (x : Snapshot) (owner : ℕ) (db : Db)
      → some owner ≢ parse_positive x.user_id
      → IsTidy db
      → Left owner db (create_save now x db).1
  unfolding create_save
  create_save-Left now x owner db d h = elim (Option-cases (parse_positive x.user_id)) [
    | inl p ↦ rw (p, create_save) (unchanged owner db h.keyed)
    | inr (other, p) ↦ elim (Option-cases (parse_positive x.game_id)) [
      | inl q ↦ rw (p, create_save) (rw q (unchanged owner db h.keyed))
      | inr (game, q) ↦ elim (Bool-cases (is_empty x.state)) [
        | inl r ↦ rw (p, create_save) (rw q (rw r (unchanged owner db h.keyed)))
        | inr r ↦ elim (Bool-cases (owns_game other game db)) [
          | inr w ↦ rw (p, create_save) (rw q (rw r (rw w (unchanged owner db h.keyed))))
          | inl w ↦
              rw (p, create_save)
                (rw q (
                  rw r (
                    rw w (
                      write_save-Left owner other (other_than p d) game db w now x
                        (save_id_by_name game x.name db.saves) refl h.keyed
                        (IsTable-IsKeyed db.saves h.whole.table)))))
        ]
      ]
    ]
  ]

  delete_save-Left :
      (u g i : Text) (owner : ℕ) (db : Db)
      → some owner ≢ parse_positive u
      → IsTidy db
      → Left owner db (delete_save u g i db).1
  unfolding delete_save drop_save
  delete_save-Left u g i owner db d h = elim (Result-cases (reachable u g i db)) [
    | inr (e, p) ↦ rw (p, delete_save) (unchanged owner db h.keyed)
    | inl (x, p) ↦
        let r = reachable-Reached u g i db x p in
        rw (p, delete_save)
          (rw (r.of_save, drop_save)
            (rw r.of_game (
              remove_save-Left owner r.owner (other_than r.of_user d) r.game db r.owned r.number
                h.keyed)))
  ]

  -- A write that the owner of a view does not see, and that keeps the tables tidy.
  kept :
      (v u : Text) (a b : Db)
      → Write a b
      → Apart v u
      → IsTidy a
      → ((owner : ℕ) → some owner ≢ parse_positive u → Left owner a b)
      → IsTidy b × SameView sql_store v a b
  kept v u a b w d h f =
      let (stranger, e) = another (parse_positive u) in
      let tidy : IsTidy b = record {
        whole = Write-IsWhole a b w h.whole;
        keyed = (f stranger e).keyed;
      } in
      (tidy, View-SameView v a b h tidy (λ owner e. (f owner (λ q. d (e ∙ q))).view))

  load-Apart :
      (v u i : Text) (db : Db) (x : Session)
      → Apart v u
      → (load u i db).0 ≡ ok x
      → Apart v x.user_id
  unfolding load
  load-Apart v u i db x d e = elim (Option-cases (visible db u i)) [
    | inl p ↦ absurd (ground (arith, p, e))
    | inr (y, p) ↦
        let same : y ≡ x = ground (arith, p, e) in
        let s = visible-Seen db u i y p in
        let (_, user) = names db u i y s in
        λ q.
          d (q ∙ ap (λ (z : Session). parse_positive z.user_id) (sym same) ∙ user ∙ sym s.of_user)
  ]

  pub sql_store-IsPrivate : IsPrivate sql_store Apart IsTidy
  sql_store-IsPrivate = record {
    owner = load-Apart;
    create_keeps = λ now x v db d h.
        kept v x.user_id db _ (created now x db) d h (λ o e. create-Left now x o db e h);
    update_keeps = λ now x v db d h.
        kept v x.user_id db _ (updated now x db) d h (λ o e. update-Left now x o db e h);
    delete_keeps =
        λ u i v db d h. kept v u db _ (deleted u i db) d h (λ o e. delete-Left u i o db e h);
    create_save_keeps = λ now x v db d h.
        kept v x.user_id db _ (shelved now x db) d h (λ o e. create_save-Left now x o db e h);
    delete_save_keeps = λ u g i v db d h.
        kept v u db _ (removed u g i db) d h (λ o e. delete_save-Left u g i o db e h);
  }
