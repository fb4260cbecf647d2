-- ===== src/Game/Store/Atomic.antt =====
-- Calls that change nothing when they fail, one rule for each way to build one.
use zorkd.Base.{Bool, true, false, ◌≡◌, ◌≢◌, refl, ◌∙◌, if◌then◌else◌}
use zorkd.Errors.{Error, Result, ok, err}
use zorkd.Game.Store.Calls.{Action, return, lift, throw, continue, ◌>>=◌}

-- `m` writes nothing.
pub record Quiet {S A : Type 0} (m : Action S A) : Type 0 where
  pub at : (s : S) → (m s).1 ≡ s

-- `m` writes nothing if it fails.
pub record Atomic {S A : Type 0} (m : Action S A) : Type 0 where
  pub at : (s : S) (e : Error) → (m s).0 ≡ err e → (m s).1 ≡ s

-- `m` does not fail.
pub record Succeeds {S A : Type 0} (m : Action S A) : Type 0 where
  pub at : (s : S) (e : Error) → (m s).0 ≢ err e

module _ {S A : Type 0} where
  pub Quiet-lift : (r : Result A) → Quiet {S = S} (lift r)
  Quiet-lift r = record { at = λ s. refl }

  pub Atomic-throw : (e : Error) → Atomic {S = S} {A = A} (throw e)
  Atomic-throw e = record { at = λ s d h. refl }

  pub Atomic-return : (a : A) → Atomic {S = S} (return a)
  Atomic-return a = record { at = λ s d h. refl }

  pub Succeeds-return : (a : A) → Succeeds {S = S} (return a)
  Succeeds-return a = record { at = λ s d h. cc }

  pub Atomic-Quiet : (m : Action S A) → Quiet m → Atomic m
  Atomic-Quiet m q = record { at = λ s e h. q.at s }

  pub Atomic-if : (b : Bool) (m n : Action S A) → Atomic m → Atomic n → Atomic (if b then m else n)
  Atomic-if true m n p q = p
  Atomic-if false m n p q = q

module _ {S A B : Type 0} where
  continue-Atomic :
      (f : A → Action S B) (s : S) (r : Result A) (t : S) (e : Error)
      → t ≡ s
      → ((a : A) → Atomic (f a))
      → (continue r f t).0 ≡ err e
      → (continue r f t).1 ≡ s
  continue-Atomic f s (ok a) t e p q h = (q a).at t e h ∙ p
  continue-Atomic f s (err d) t e p q h = p

  -- A read, and then anything atomic.
  pub Atomic-read :
      (m : Action S A) (f : A → Action S B) → Quiet m → ((a : A) → Atomic (f a)) → Atomic (m >>= f)
  unfolding ◌>>=◌
  Atomic-read m f p q = record { at = λ s e h. continue-Atomic f s (m s).0 (m s).1 e (p.at s) q h }

  continue-fails :
      (f : A → Action S B) (r : Result A) (s t : S) (e : Error)
      → ((d : Error) → r ≡ err d → t ≡ s)
      → ((a : A) → Succeeds (f a))
      → (continue r f t).0 ≡ err e
      → (continue r f t).1 ≡ s
  continue-fails f (ok a) s t e p q h = absurd ((q a).at t e h)
  continue-fails f (err d) s t e p q h = p d refl

  -- A write that is atomic, and then what cannot fail.
  pub Atomic-write :
      (m : Action S A) (f : A → Action S B)
      → Atomic m
      → ((a : A) → Succeeds (f a))
      → Atomic (m >>= f)
  unfolding ◌>>=◌
  Atomic-write m f p q = record { at = λ s e h. continue-fails f (m s).0 s (m s).1 e (p.at s) q h }

  continue-Succeeds :
      (f : A → Action S B) (r : Result A) (t : S) (e : Error)
      → ((d : Error) → r ≢ err d)
      → ((a : A) → Succeeds (f a))
      → (continue r f t).0 ≢ err e
  continue-Succeeds f (ok a) t e p q = (q a).at t e
  continue-Succeeds f (err d) t e p q = λ _. p d refl

  pub Succeeds-bind :
      (m : Action S A) (f : A → Action S B)
      → Succeeds m
      → ((a : A) → Succeeds (f a))
      → Succeeds (m >>= f)
  unfolding ◌>>=◌
  Succeeds-bind m f p q = record { at = λ s e. continue-Succeeds f (m s).0 (m s).1 e (p.at s) q }

pub ruleset atomic_rules = (
  Quiet-lift, Atomic-throw, Atomic-return, Succeeds-return, Atomic-if, Atomic-read, Atomic-write,
  Succeeds-bind,
)
