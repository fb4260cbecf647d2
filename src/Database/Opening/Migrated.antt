-- ===== src/Database/Opening/Migrated.antt =====
-- What the migrations do to a database: they bring it to the newest version, once.
use zorkd.Base.{
  ℕ, ◌<◌, ◌≤◌, ◌^◌, max, ◌≡◌, refl, ap, subst, ◌∙◌, true, false, List, [], ◌∷◌, arith, All, leb,
  Bool-cases, inl, inr,
}
use zorkd.Errors.{Error, Result, ok, err, Result-cases}
use zorkd.Migrations.{Migration}
use zorkd.Migrations.Order.{Ascending}
use zorkd.Database.Opening.{Driver, IsDriver, apply, migrate_from, migrate, schema_version}

-- The version that a database at a version is brought to.
abbrev pub newest : ℕ → List Migration → ℕ
newest v [] = v
newest v (m ∷ ms) = newest (max v m.version) ms

-- What the file is at, while the loop runs: above what it started from, and below what is left of
-- the migrations that are not skipped.
abbrev pub Pending : ℕ → ℕ → List Migration → Type 0
Pending current v ms =
    (current ≤ v) × All (λ (n : Migration). current < n.version → v < n.version) ms

abbrev pub Fits : List Migration → Type 0
Fits ms = All (λ (n : Migration). n.version < 2 ^ 31) ms

pub above :
    (current n : ℕ) (ms : List Migration)
    → All (λ (x : Migration). n < x.version) ms
    → All (λ (x : Migration). current < x.version → n < x.version) ms
above current n [] a = tt
above current n (m ∷ ms) a = (λ _. a.0, above current n ms a.1)

pub pending :
    (current : ℕ) (ms : List Migration)
    → All (λ (n : Migration). current < n.version → current < n.version) ms
pending current [] = tt
pending current (m ∷ ms) = (λ h. h, pending current ms)

newest-bound :
    (v : ℕ) (ms : List Migration)
    → (v ≤ newest v ms) × All (λ (n : Migration). n.version ≤ newest v ms) ms
newest-bound v [] = (omega arith, tt)
newest-bound v (m ∷ ms) =
    let (h, t) = newest-bound (max v m.version) ms in (omega (arith, h), (omega (arith, h), t))

module _ {File : Type 0} (d : Driver File) where
  pub round-skip :
      (c : ℕ) (m : Migration) (ms : List Migration) (f : File)
      → leb m.version c ≡ true
      → migrate_from d c (m ∷ ms) f ≡ migrate_from d c ms f
  unfolding migrate_from
  round-skip c m ms f p = rw p refl

  pub round-apply :
      (c : ℕ) (m : Migration) (ms : List Migration) (f : File) (t : Unit {0})
      → leb m.version c ≡ false
      → (apply d m f).0 ≡ ok t
      → migrate_from d c (m ∷ ms) f ≡ migrate_from d c ms (apply d m f).1
  unfolding migrate_from
  round-apply c m ms f t p q = rw p (rw q refl)

  pub round-stop :
      (c : ℕ) (m : Migration) (ms : List Migration) (f : File) (e : Error)
      → leb m.version c ≡ false
      → (apply d m f).0 ≡ err e
      → migrate_from d c (m ∷ ms) f ≡ (err e, (apply d m f).1)
  unfolding migrate_from
  round-stop c m ms f e p q = rw p (rw q refl)

  -- A database that is not below any migration is left as it is.
  skipped :
      (current : ℕ) (ms : List Migration) (f : File)
      → All (λ (n : Migration). n.version ≤ current) ms
      → migrate_from d current ms f ≡ (ok tt, f)
  unfolding migrate_from
  skipped current [] f a = refl
  skipped current (m ∷ ms) f a =
      let low : leb m.version current ≡ true = ground (arith, a.0) in
      rw low (skipped current ms f a.1)

  -- The loop does the same from any version that no pending migration is between.
  pub migrate_from-between :
      (current v : ℕ) (ms : List Migration) (f : File)
      → Pending current v ms
      → migrate_from d v ms f ≡ migrate_from d current ms f
  unfolding migrate_from
  migrate_from-between current v [] f h = refl
  migrate_from-between current v (m ∷ ms) f h = elim (Bool-cases (leb m.version current)) [
    | inl p ↦
        let low : leb m.version v ≡ true = ground (arith, p, h.0) in
        rw (p, low) (migrate_from-between current v ms f (h.0, h.1.1))
    | inr p ↦
        let high : leb m.version v ≡ false = ground (arith, p, h.1.0) in
        elim (Result-cases (apply d m f).0) [
          | inl (t, q) ↦
              rw (p, high) (rw q (migrate_from-between current v ms (apply d m f).1 (h.0, h.1.1)))
          | inr (e, q) ↦ rw (p, high) (rw q refl)
        ]
  ]

  pub migrate-eq :
      (v : ℕ) (all : List Migration) (f : File) (t : Unit {0})
      → d.take ≡ ok t
      → d.user_version f ≡ ok v
      → migrate d (ok all) f ≡ migrate_from d v all f
  unfolding migrate schema_version
  migrate-eq v all f t p u = ground (arith, p, u)

  pub migrate-busy :
      (all : List Migration) (f : File) (e : Error) → d.take ≡ err e → (migrate d (ok all) f).1 ≡ f
  unfolding migrate schema_version
  migrate-busy all f e p = ground (arith, p)

  module _ (law : IsDriver d) where
    pub apply-version :
        (m : Migration) (f : File) (t : Unit {0})
        → m.version < 2 ^ 31
        → (apply d m f).0 ≡ ok t
        → d.user_version (apply d m f).1 ≡ ok m.version
    unfolding apply
    apply-version m f t h e = elim (Result-cases (d.execute_script m.sql f)) [
      | inr (x, p) ↦ absurd (ground (arith, p, e))
      | inl (g, p) ↦ elim (Result-cases (d.set_user_version m.version g)) [
        | inr (x, q) ↦ absurd (ground (arith, p, q, e))
        | inl (k, q) ↦ rw (p, apply) (rw (q, apply) (law.version_set m.version g k h q))
      ]
    ]

    migrated :
        (current v : ℕ) (ms : List Migration) (f g : File)
        → Pending current v ms
        → Ascending ms
        → Fits ms
        → d.user_version f ≡ ok v
        → migrate_from d current ms f ≡ (ok tt, g)
        → d.user_version g ≡ ok (newest v ms)
    unfolding migrate_from
    migrated current v [] f g h a s u e =
        subst (λ (x : File). d.user_version x ≡ ok v) (ap (λ (p : Result (Unit {0}) × File). p.1) e)
          u
    migrated current v (m ∷ ms) f g h a s u e = elim (Bool-cases (leb m.version current)) [
      | inl p ↦
          let same : v ≡ max v m.version = ground (arith, p, h.0) in
          migrated current v ms f g (h.0, h.1.1) a.1 s.1 u (ground (arith, p, e))
          ∙ ap (λ (x : ℕ). ok (newest x ms)) same
      | inr p ↦ elim (Result-cases (apply d m f).0) [
        | inr (x, q) ↦ absurd (ground (arith, p, q, e))
        | inl (t, q) ↦
            let high : m.version ≡ max v m.version = ground (arith, p, h.1.0) in
            migrated current m.version ms (apply d m f).1 g
              (ground (arith, p), above current m.version ms a.0) a.1 s.1
              (apply-version m f t s.0 q) (ground (arith, p, q, e))
            ∙ ap (λ (x : ℕ). ok (newest x ms)) high
      ]
    ]

    -- A run of the migrations that reports no error leaves the database at the newest of their
    -- versions, or at its own if that is newer; and a second run finds nothing to do. The versions
    -- ascend, as All sees to, and fit a signed 32-bit integer.
    pub migrate-newest :
        (v : ℕ) (all : List Migration) (f g : File)
        → Ascending all
        → Fits all
        → d.user_version f ≡ ok v
        → migrate d (ok all) f ≡ (ok tt, g)
        → (d.user_version g ≡ ok (newest v all)) × (migrate d (ok all) g ≡ (ok tt, g))
    unfolding migrate schema_version
    migrate-newest v all f g a s u e = elim (Result-cases d.take) [
      | inr (x, p) ↦ absurd (ground (arith, p, e))
      | inl (t, p) ↦
          let n =
            migrated v v all f g (omega arith, pending v all) a s u (ground (arith, p, u, e)) in
          (
            n,
            migrate-eq (newest v all) all g t p n
                ∙ skipped (newest v all) all g (newest-bound v all).1,
          )
    ]
