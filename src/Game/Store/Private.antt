-- ===== src/Game/Store/Private.antt =====
-- What the calls of one user do to what another user sees, one rule for each way to build a call.
use zorkd.Base.{ℕ, Bool, true, false, ◌≡◌, refl, ◌∙◌, if◌then◌else◌, Text}
use zorkd.Errors.{Error, Result, ok, err}
use zorkd.Game.Types.{Session, Snapshot}
use zorkd.Game.Store.{Store}
use zorkd.Game.Store.Calls.{Action, return, lift, throw, continue, ◌>>=◌}

-- A user is answered the same in both states, by every read.
pub record SameView {S : Type 0} (store : Store S) (v : Text) (s t : S) : Type 0 where
  pub games : (store.list v t).0 ≡ (store.list v s).0
  pub session : (i : Text) → (store.load v i t).0 ≡ (store.load v i s).0
  pub shelf : (g : Text) → (store.saves v g t).0 ≡ (store.saves v g s).0
  pub snapshot : (g i : Text) → (store.load_save v g i t).0 ≡ (store.load_save v g i s).0

pub SameView-refl : {S : Type 0} (store : Store S) (v : Text) (s : S) → SameView store v s s
SameView-refl store v s = record {
  games = refl;
  session = λ i. refl;
  shelf = λ g. refl;
  snapshot = λ g i. refl;
}

pub SameView-trans :
    {S : Type 0} (store : Store S) (v : Text) (r s t : S)
    → SameView store v r s
    → SameView store v s t
    → SameView store v r t
SameView-trans store v r s t a b = record {
  games = b.games ∙ a.games;
  session = λ i. b.session i ∙ a.session i;
  shelf = λ g. b.shelf g ∙ a.shelf g;
  snapshot = λ g i. b.snapshot g i ∙ a.snapshot g i;
}

-- `Apart` tells users apart by their identifiers; `IsValid` holds of every state that the store
-- comes to.
pub record IsPrivate {S : Type 0} (store : Store S) (Apart : Text → Text → Type 0)
    (IsValid : S → Type 0) : Type 0 where
  pub owner :
      (v u i : Text) (s : S) (x : Session)
      → Apart v u
      → (store.load u i s).0 ≡ ok x
      → Apart v x.user_id
  pub create_keeps :
      (at : ℕ) (x : Session) (v : Text) (s : S)
      → Apart v x.user_id
      → IsValid s
      → IsValid (store.create at x s).1 × SameView store v s (store.create at x s).1
  pub update_keeps :
      (at : ℕ) (x : Session) (v : Text) (s : S)
      → Apart v x.user_id
      → IsValid s
      → IsValid (store.update at x s).1 × SameView store v s (store.update at x s).1
  pub delete_keeps :
      (u i v : Text) (s : S)
      → Apart v u
      → IsValid s
      → IsValid (store.delete u i s).1 × SameView store v s (store.delete u i s).1
  pub create_save_keeps :
      (at : ℕ) (x : Snapshot) (v : Text) (s : S)
      → Apart v x.user_id
      → IsValid s
      → IsValid (store.create_save at x s).1 × SameView store v s (store.create_save at x s).1
  pub delete_save_keeps :
      (u g i v : Text) (s : S)
      → Apart v u
      → IsValid s
      → IsValid (store.delete_save u g i s).1 × SameView store v s (store.delete_save u g i s).1

module _ {S : Type 0} (store : Store S) (Apart : Text → Text → Type 0) (IsValid : S → Type 0)
    (law : IsPrivate store Apart IsValid) (v : Text) where
  -- `m` keeps to valid states, and `v` sees nothing of it.
  pub record Private {A : Type 0} (m : Action S A) : Type 0 where
    pub at : (s : S) → IsValid s → IsValid (m s).1 × SameView store v s (m s).1

  pub Private-keeps : {A : Type 0} (m : Action S A) → ((s : S) → (m s).1 ≡ s) → Private m
  Private-keeps m h = record { at = λ s w. rw (h s) (w, SameView-refl store v s) }

  pub Private-lift : {A : Type 0} (r : Result A) → Private (lift r)
  Private-lift r = Private-keeps (lift r) (λ s. refl)

  pub Private-throw : {A : Type 0} (e : Error) → Private (throw {A = A} e)
  Private-throw e = Private-keeps (throw e) (λ s. refl)

  pub Private-return : {A : Type 0} (a : A) → Private (return a)
  Private-return a = Private-keeps (return a) (λ s. refl)

  pub Private-if :
      {A : Type 0} (b : Bool) (m n : Action S A)
      → Private m
      → Private n
      → Private (if b then m else n)
  Private-if true m n p q = p
  Private-if false m n p q = q

  continue-Private :
      {A B : Type 0} (f : A → Action S B) (s t : S) (r : Result A)
      → IsValid t × SameView store v s t
      → ((a : A) → r ≡ ok a → Private (f a))
      → IsValid (continue r f t).1 × SameView store v s (continue r f t).1
  continue-Private f s t (ok a) p q =
      let (w, e) = (q a refl).at t p.0 in (w, SameView-trans store v s t _ p.1 e)
  continue-Private f s t (err d) p q = p

  pub Private-bind :
      {A B : Type 0} (m : Action S A) (f : A → Action S B)
      → Private m
      → ((a : A) → Private (f a))
      → Private (m >>= f)
  unfolding ◌>>=◌
  Private-bind m f p q = record {
    at = λ s w. continue-Private f s (m s).1 (m s).0 (p.at s w) (λ a e. q a);
  }

  -- A game that was loaded is its user's.
  pub Private-load :
      {B : Type 0} (u i : Text) (f : Session → Action S B)
      → ((s : S) → (store.load u i s).1 ≡ s)
      → Apart v u
      → ((x : Session) → Apart v x.user_id → Private (f x))
      → Private (store.load u i >>= f)
  unfolding ◌>>=◌
  Private-load u i f k apart q = record {
    at = λ s w.
        continue-Private f s (store.load u i s).1 (store.load u i s).0
          (rw (k s) (w, SameView-refl store v s)) (λ x e. q x (law.owner v u i s x apart e));
  }
