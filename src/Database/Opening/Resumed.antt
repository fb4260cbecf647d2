-- ===== src/Database/Opening/Resumed.antt =====
-- A run of the migrations that stopped is taken up by the next one.
use zorkd.Base.{
  ℕ, ◌≤◌, ◌≡◌, refl, sym, ap, subst, ◌∙◌, Text, List, [], ◌∷◌, arith, leb, Bool-cases, inl, inr,
}
use zorkd.Errors.{Error, Result, ok, err, Result-cases}
use zorkd.Migrations.{Migration}
use zorkd.Migrations.Order.{Ascending}
use zorkd.Database.Opening.{Driver, IsDriver, apply, migrate_from, migrate}
use zorkd.Database.Opening.Migrated.{
  Pending, Fits, above, pending, round-skip, round-apply, round-stop, migrate_from-between,
  migrate-eq, migrate-busy, apply-version,
}

-- The second driver does what the first one does, wherever the first one does it.
pub record Outdoes {File : Type 0} (better worse : Driver File) : Type 0 where
  pub same_version : (f : File) → better.user_version f ≡ worse.user_version f
  pub same_script :
      (sql : Text) (f g : File)
      → worse.execute_script sql f ≡ ok g
      → better.execute_script sql f ≡ ok g
  pub same_set :
      (n : ℕ) (f g : File) → worse.set_user_version n f ≡ ok g → better.set_user_version n f ≡ ok g

module _ {File : Type 0} (worse better : Driver File) (law : IsDriver worse)
    (outdoes : Outdoes better worse)
    (sets : (n : ℕ) (f : File) → (g : File) × (worse.set_user_version n f ≡ ok g)) where
  apply-same :
      (m : Migration) (f : File) (t : Unit {0})
      → (apply worse m f).0 ≡ ok t
      → apply better m f ≡ (ok tt, (apply worse m f).1)
  unfolding apply
  apply-same m f t e = elim (Result-cases (worse.execute_script m.sql f)) [
    | inr (x, p) ↦ absurd (ground (arith, p, e))
    | inl (g, p) ↦ elim (Result-cases (worse.set_user_version m.version g)) [
      | inr (x, q) ↦ absurd (ground (arith, p, q, e))
      | inl (k, q) ↦
          ground (arith, p, q, outdoes.same_script m.sql f g p, outdoes.same_set m.version g k q)
    ]
  ]

  apply-stopped :
      (m : Migration) (f : File) (e : Error) → (apply worse m f).0 ≡ err e → (apply worse m f).1 ≡ f
  unfolding apply
  apply-stopped m f e h = elim (Result-cases (worse.execute_script m.sql f)) [
    | inr (x, p) ↦ ground (arith, p)
    | inl (g, p) ↦ let (k, q) = sets m.version g in absurd (ground (arith, p, q, h))
  ]

  abbrev after : Result (Unit {0}) × File → File
  after r = r.1

  -- Where a run with the first driver stops, the second one takes it up.
  abbrev Resumed : ℕ → ℕ → List Migration → File → File → Type 0
  Resumed current v ms f g =
      (w : ℕ) × (worse.user_version g ≡ ok w)
      × (v ≤ w)
      × (migrate_from better w ms g ≡ migrate_from better current ms f)

  resumed :
      (current v : ℕ) (ms : List Migration) (f : File)
      → Pending current v ms
      → Ascending ms
      → Fits ms
      → worse.user_version f ≡ ok v
      → Resumed current v ms f (migrate_from worse current ms f).1
  resumed current v [] f h a s u =
      (v, unfold migrate_from in u, omega arith, unfold migrate_from in refl)
  resumed current v (m ∷ ms) f h a s u = elim (Bool-cases (leb m.version current)) [
    | inl p ↦
        let (w, uw, vw, e) = resumed current v ms f (h.0, h.1.1) a.1 s.1 u in
        subst (Resumed current v (m ∷ ms) f) (sym (ap after (round-skip worse current m ms f p))) (
          w,
          uw,
          vw,
          round-skip better w m ms _ (ground (arith, p, h.0, vw))
              ∙ e
              ∙ sym (round-skip better current m ms f p),
        )
    | inr p ↦ elim (Result-cases (apply worse m f).0) [
      | inr (x, q) ↦
          subst (Resumed current v (m ∷ ms) f)
            (sym (apply-stopped m f x q) ∙ sym (ap after (round-stop worse current m ms f x p q)))
            (v, u, omega arith, migrate_from-between better current v (m ∷ ms) f h)
      | inl (t, q) ↦
          let g = (apply worse m f).1 in
          let (w, uw, vw, e) =
            resumed current m.version ms g (ground (arith, p), above current m.version ms a.0) a.1
              s.1 (apply-version worse law m f t s.0 q) in
          subst (Resumed current v (m ∷ ms) f)
            (sym (ap after (round-apply worse current m ms f t p q)))
            (
              w,
              uw,
              ground (arith, p, h.1.0, vw),
              round-skip better w m ms _ (ground (arith, vw))
                  ∙ e
                  ∙ sym (
                      round-apply better current m ms f tt p
                        (ap (λ (r : Result (Unit {0}) × File). r.0) (apply-same m f t q))
                      ∙ ap (λ (r : Result (Unit {0}) × File). migrate_from better current ms r.1)
                          (apply-same m f t q)),
            )
    ]
  ]

  -- Where a run of the migrations ends, in a script that fails or at their end, a later run takes
  -- them up: the two together do what the later one would have done alone. Scripts that failed in
  -- the first run may succeed in the later one, but recording a version must not have failed in the
  -- first. The versions ascend and fit a signed 32-bit integer.
  pub migrate-resumes :
      (v : ℕ) (t : Unit {0}) (all : List Migration) (f : File)
      → Ascending all
      → Fits all
      → worse.user_version f ≡ ok v
      → better.take ≡ ok t
      → migrate better (ok all) (migrate worse (ok all) f).1 ≡ migrate better (ok all) f
  migrate-resumes v t all f a s u b = elim (Result-cases worse.take) [
    | inr (x, p) ↦ ap (λ (g : File). migrate better (ok all) g) (migrate-busy worse all f x p)
    | inl (k, p) ↦
        let (w, uw, vw, e) = resumed v v all f (omega arith, pending v all) a s u in
        let first : (migrate worse (ok all) f).1 ≡ (migrate_from worse v all f).1 =
          ap after (migrate-eq worse v all f k p u) in
        ap (λ (g : File). migrate better (ok all) g) first
        ∙ migrate-eq better w all _ t b (outdoes.same_version _ ∙ uw)
        ∙ e
        ∙ sym (migrate-eq better v all f t b (outdoes.same_version f ∙ u))
  ]
