-- ===== src/Migrations/Order.antt =====
-- The migrations that All returns are in order, and all of them.
use mathlib.Core.List.{Perm}
use zorkd.Base.{
  ℕ, ◌<◌, false, length, ◌≡◌, refl, sym, ap, subst, ◌∙◌, Option, none, some, List, [], ◌∷◌, map,
  arith, All, Text, Map, lookup, Option-cases, Bool-cases, inl, inr,
}
use zorkd.Errors.{ok, Result-cases}
use zorkd.Go.Sort.{sort_func-perm}
use zorkd.Go.Decimal.{parse_positive, parse_positive-range}
use zorkd.Migrations.{
  Migration, cut_before, not_after, version_of, some_embedded, step, steps, entries, all, read_file,
}

-- Each version is below all that follow it.
abbrev pub Ascending : List Migration → Type 0
Ascending [] = Unit {0}
Ascending (m ∷ ms) = All (λ (n : Migration). m.version < n.version) ms × Ascending ms

abbrev pub Embedded : Map Text → Migration → Type 0
Embedded files m =
    (version_of m.name ≡ ok m.version) × (0 < m.version) × (lookup m.name files ≡ some m.sql)

abbrev Follows : Option Migration → Migration → Type 0
Follows none m = Unit {0}
Follows (some last) m = last.version < m.version

version_of-range : (name : Text) (n : ℕ) → version_of name ≡ ok n → 0 < n
unfolding version_of
version_of-range name n e = elim (Option-cases (cut_before b'_' name)) [
  | inl p ↦ ground (arith, p, e)
  | inr (prefix, p) ↦ elim (Option-cases (parse_positive prefix)) [
    | inl q ↦ ground (arith, p, q, e)
    | inr (v, q) ↦ ground (arith, p, q, e, parse_positive-range prefix v q)
  ]
]

ok-injective {ℓ} : {A : Type ℓ} → (a b : A) → ok a ≡ ok b → a ≡ b
ok-injective a b e = cc

not_after-Follows :
    (last : Option Migration) (v : ℕ) (name sql : Text)
    → not_after last v ≡ false
    → Follows last (record { version = v; name = name; sql = sql })
not_after-Follows none v name sql e = tt
not_after-Follows (some l) v name sql e = ground arith

step-ok :
    (files : Map Text) (last : Option Migration) (name : Text) (m : Migration)
    → step files last name ≡ ok m
    → (m.name ≡ name) × Embedded files m × Follows last m
unfolding step read_file
step-ok files last name m e = elim (Result-cases (version_of name)) [
  | inl (v, p) ↦ elim (Bool-cases (not_after last v)) [
    | inl q ↦ absurd (ground (arith, p, q, e))
    | inr q ↦ elim (Option-cases (lookup name files)) [
      | inl r ↦ absurd (ground (arith, p, q, r, e))
      | inr (sql, r) ↦
          subst (λ (x : Migration). (x.name ≡ name) × Embedded files x × Follows last x)
            (ok-injective (record { version = v; name = name; sql = sql }) m
              (ground (arith, p, q, r, e)))
            (refl, (p, version_of-range name v p, r), not_after-Follows last v name sql q)
    ]
  ]
  | inr (d, p) ↦ absurd (ground (arith, p, e))
]

Follows-trans :
    (last : Option Migration) (m : Migration) (ms : List Migration)
    → Follows last m
    → All (Follows (some m)) ms
    → All (Follows last) ms
Follows-trans last m [] h a = tt
Follows-trans none m (n ∷ ms) h a = (tt, Follows-trans none m ms h a.1)
Follows-trans (some l) m (n ∷ ms) h a = (omega (arith, h, a.0), Follows-trans (some l) m ms h a.1)

-- What the rounds append, after what is out.
abbrev Appended : Map Text → Option Migration → List Text → List Migration → Type 0
Appended files last names ms =
    (map (λ (m : Migration). m.name) ms ≡ names)
    × All (Embedded files) ms
    × All (Follows last) ms
    × Ascending ms

steps-ok :
    (files : Map Text) (last : Option Migration) (names : List Text) (ms : List Migration)
    → steps files last names ≡ ok ms
    → Appended files last names ms
unfolding steps
steps-ok files last [] ms e =
    subst (Appended files last []) (ok-injective [] ms e) (refl, tt, tt, tt)
steps-ok files last (name ∷ names) ms e = elim (Result-cases (step files last name)) [
  | inr (d, p) ↦ absurd (ground (arith, p, e))
  | inl (m, p) ↦ elim (Result-cases (steps files (some m) names)) [
    | inr (d, q) ↦ absurd (ground (arith, p, q, e))
    | inl (out, q) ↦
        let h = step-ok files last name m p in
        let t = steps-ok files (some m) names out q in
        subst (Appended files last (name ∷ names))
          (ok-injective (m ∷ out) ms (ground (arith, p, q, e)))
          (
            ap (◌∷◌ m.name) t.0 ∙ ap (λ (x : Text). x ∷ names) h.0,
            (h.1, t.1),
            (h.2, Follows-trans last m out h.2 t.2),
            (t.2, t.3),
          )
  ]
]

some_embedded-ok :
    (out ms : List Migration) → some_embedded out ≡ ok ms → (out ≡ ms) × (0 < length out)
some_embedded-ok [] ms e = absurd cc
some_embedded-ok (m ∷ out) ms e = (ok-injective (m ∷ out) ms e, omega arith)

-- What All returns is not empty; each version is above zero and below all that follow; each is the
-- number that its file's name begins with, and carries that file's text; and every embedded file is
-- there, exactly once.
pub all-Ascending :
    (files : Map Text) (ms : List Migration)
    → all files ≡ ok ms
    → (0 < length ms)
      × Ascending ms
      × All (Embedded files) ms
      × Perm (map (λ (m : Migration). m.name) ms) (map (λ (f : Text × Text). f.0) files)
unfolding all entries
all-Ascending files ms e = elim (Result-cases (steps files none (entries files))) [
  | inr (d, p) ↦ absurd (ground (arith, p, e))
  | inl (out, p) ↦
      let s = some_embedded-ok out ms (ground (arith, p, e)) in
      let t = steps-ok files none (entries files) ms (p ∙ ap (λ (x : List Migration). ok x) s.0) in
      (
        subst (λ (x : List Migration). 0 < length x) s.0 s.1,
        t.3,
        t.1,
        subst (λ names. Perm names (map (λ (f : Text × Text). f.0) files)) (sym t.0)
            (sort_func-perm _ (map (λ (f : Text × Text). f.0) files)),
      )
]
