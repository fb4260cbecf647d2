-- ===== src/Game/Store/Calls.antt =====
-- Calls that read and write a store and may fail. What was written before a failure stays written,
-- so the state comes back beside the error too.
use mathlib.Core.Path.{ap₂}
use zorkd.Base.{◌≡◌, refl, Option, none, some}
use zorkd.Errors.{Sentinel, Error, Result, ok, err, fail}

abbrev pub Action : Type 0 → Type 0 → Type 0
Action S A = S → Result A × S

abbrev pub return : {S A : Type 0} → A → Action S A
return a s = (ok a, s)

-- A step that touches no store.
abbrev pub lift : {S A : Type 0} → Result A → Action S A
lift r s = (r, s)

abbrev pub throw : {S A : Type 0} → Error → Action S A
throw e s = (err e, s)

abbrev pub or_else : {A : Type 0} → Option A → Sentinel → Result A
or_else none e = fail e
or_else (some a) e = ok a

abbrev pub continue : {S A B : Type 0} → Result A → (A → Action S B) → Action S B
continue (ok a) f s = f a s
continue (err e) f s = (err e, s)

infixl 10 ◌>>=◌
unfoldable pub ◌>>=◌ : {S A B : Type 0} → Action S A → (A → Action S B) → Action S B
◌>>=◌ m f s = let (r, s') = m s in continue r f s'

module _ {S A B : Type 0} where
  continue-ok :
      (r : Result A) (f : A → Action S B) (s : S) (b : B)
      → (continue r f s).0 ≡ ok b
      → (a : A) × (r ≡ ok a) × (continue r f s ≡ f a s)
  continue-ok (ok a) f s b h = (a, refl, refl)
  continue-ok (err e) f s b h = cc

  -- A chain that returned: its first step did, and the rest made the outcome.
  pub >>=-ok :
      (m : Action S A) (f : A → Action S B) (s : S) (b : B)
      → ((m >>= f) s).0 ≡ ok b
      → (a : A) × ((m s).0 ≡ ok a) × ((m >>= f) s ≡ f a (m s).1)
  unfolding ◌>>=◌
  >>=-ok m f s b h = continue-ok (m s).0 f (m s).1 b h

pub or_else-ok :
    {A : Type 0} (o : Option A) (e : Sentinel) (a : A) → or_else o e ≡ ok a → o ≡ some a
or_else-ok none e a h = cc
or_else-ok (some b) e a h = cc

-- A chain whose first step is known.
pub >>=-step :
    {S A B : Type 0} (m : Action S A) (f : A → Action S B) (s t : S) (a : A)
    → (m s).0 ≡ ok a
    → (m s).1 ≡ t
    → (m >>= f) s ≡ f a t
unfolding ◌>>=◌
>>=-step m f s t a p q = ap₂ (λ r s'. continue r f s') p q
