-- ===== src/Database/Privacy/Views.antt =====
-- The reads of a user see the rows of the user's games, and the rows of their saves.
use zorkd.Base.{
  ℕ, ◌≡◌, refl, sym, ap, ◌∙◌, true, none, some, Text, arith, Option-cases, Bool-cases, inl, inr, [],
  ◌∷◌,
}
use zorkd.Go.Decimal.{parse_positive}
use zorkd.Game.Store.Private.{SameView}
use zorkd.Database.{Db, Rows, SaveRow, Sqlite, find}
use zorkd.Database.Games.{games_of, owned_row, load_session, visible, load, list}
use zorkd.Database.Saves.{
  saves_of, owns_game, game_row, saves, select_save, reachable, load_save, sql_store,
}
use zorkd.Database.Integrity.Shelves.{IsTable}
use zorkd.Database.Integrity.Whole.{IsWhole}
use zorkd.Database.Privacy.Filters.{IsKeyed, owned_row-games_of, of_game-saves_of}

-- Tables whose rows have keys of their own.
pub record IsTidy (db : Db) : Type 0 where
  pub whole : IsWhole db
  pub keyed : IsKeyed db.games

pub IsTable-IsKeyed : (rows : Rows SaveRow) → IsTable rows → IsKeyed rows
IsTable-IsKeyed [] h = tt
IsTable-IsKeyed (e ∷ rows) h = (h.0, IsTable-IsKeyed rows h.2)

pub record View (owner : ℕ) (a b : Db) : Type 0 where
  pub games : games_of owner b.games ≡ games_of owner a.games
  pub saves : (g : ℕ) → owns_game owner g a ≡ true → saves_of g b.saves ≡ saves_of g a.saves

module _ (owner : ℕ) (a b : Db) (left : IsTidy a) (right : IsTidy b) (same : View owner a b) where
  owned : (n : ℕ) → owned_row owner (find n b.games) ≡ owned_row owner (find n a.games)
  owned n =
      owned_row-games_of owner n b.games right.keyed
      ∙ ap (find n) same.games
      ∙ sym (owned_row-games_of owner n a.games left.keyed)

  owns : (g : ℕ) → owns_game owner g b ≡ owns_game owner g a
  unfolding owns_game
  owns g = rw (owned g, owns_game) refl

  selected :
      (user id : Text) (g n : ℕ)
      → owns_game owner g a ≡ true
      → select_save user id g n b ≡ select_save user id g n a
  unfolding select_save
  selected user id g n h =
      let e =
        of_game-saves_of g n b.saves (IsTable-IsKeyed b.saves right.whole.table)
        ∙ ap (find n) (same.saves g h)
        ∙ sym (of_game-saves_of g n a.saves (IsTable-IsKeyed a.saves left.whole.table)) in
      rw (e, select_save) refl

  module _ (v : Text) (of_user : parse_positive v ≡ some owner) where
    visible-View : (i : Text) → visible b v i ≡ visible a v i
    unfolding visible load_session
    visible-View i = elim (Option-cases (parse_positive i)) [
      | inl q ↦ rw (of_user, visible) (rw q refl)
      | inr (n, q) ↦ rw (of_user, visible) (rw q (rw (owned n, load_session) refl))
    ]

    load-View : (i : Text) → (load v i b).0 ≡ (load v i a).0
    unfolding load
    load-View i = elim (Option-cases (visible a v i)) [
      | inl q ↦ rw (visible-View i ∙ q, q, load) refl
      | inr (x, q) ↦ rw (visible-View i ∙ q, q, load) refl
    ]

    list-View : (list v b).0 ≡ (list v a).0
    unfolding list
    list-View = rw (of_user, list) (rw same.games refl)

    saves-View : (i : Text) → (saves v i b).0 ≡ (saves v i a).0
    unfolding saves game_row
    saves-View i = elim (Option-cases (parse_positive i)) [
      | inl q ↦ rw (of_user, saves, game_row) (rw q refl)
      | inr (g, q) ↦ elim (Bool-cases (owns_game owner g a)) [
        | inl w ↦ ground (arith, of_user, q, owns g, w, same.saves g w)
        | inr w ↦ ground (arith, of_user, q, owns g, w)
      ]
    ]

    reachable-View : (i save : Text) → reachable v i save b ≡ reachable v i save a
    unfolding reachable
    reachable-View i save = elim (Option-cases (parse_positive i)) [
      | inl q ↦ rw (of_user, reachable) (rw q refl)
      | inr (g, q) ↦ elim (Option-cases (parse_positive save)) [
        | inl r ↦ rw (of_user, reachable) (rw q (rw r refl))
        | inr (n, r) ↦ elim (Bool-cases (owns_game owner g a)) [
          | inl w ↦ ground (arith, of_user, q, r, owns g, w, selected v i g n w)
          | inr w ↦ ground (arith, of_user, q, r, owns g, w)
        ]
      ]
    ]

    view_of_owner : ⦃sql : Sqlite⦄ → SameView sql_store v a b
    unfolding load_save
    view_of_owner = record {
      games = list-View;
      session = load-View;
      shelf = saves-View;
      snapshot = reachable-View;
    }

module _ ⦃sql : Sqlite⦄ where
  -- Who is nobody's number sees nothing.
  view_of_nobody : (v : Text) (a b : Db) → parse_positive v ≡ none → SameView sql_store v a b
  unfolding list load visible saves game_row load_save reachable
  view_of_nobody v a b e = record {
    games = rw (e, list) refl;
    session = λ i. rw (e, load, visible) refl;
    shelf = λ g. rw (e, saves, game_row) refl;
    snapshot = λ g i. rw (e, load_save, reachable) refl;
  }

  pub View-SameView :
      (v : Text) (a b : Db)
      → IsTidy a
      → IsTidy b
      → ((owner : ℕ) → parse_positive v ≡ some owner → View owner a b)
      → SameView sql_store v a b
  View-SameView v a b left right h = elim (Option-cases (parse_positive v)) [
    | inl e ↦ view_of_nobody v a b e
    | inr (owner, e) ↦ view_of_owner owner a b left right (h owner e) v e
  ]
