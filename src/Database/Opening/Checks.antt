-- ===== src/Database/Opening/Checks.antt =====
-- What the checks of Open know of a path that they let pass.
use zorkd.Base.{
  ◌≡◌, refl, subst, Bool, false, some, arith, Text, Map, lookup, Bool-cases, Option-cases, inl, inr,
}
use zorkd.Errors.{Result, ok, err, Result-cases, errors_is, not_exist}
use zorkd.Database.Opening.{
  Driver, Os, Node, directory, special, regular, stat, check_parent, check_file, check_path,
}

module _ {File : Type 0} (os : Os) (d : Driver File) where
  pub stat-ok :
      (disk : Map (Node File)) (p : Text) (x : Node File)
      → stat os d disk p ≡ ok x
      → lookup p disk ≡ some x
  unfolding stat
  stat-ok disk p x e = elim (Option-cases (os.denied p)) [
    | inr (y, q) ↦ absurd (ground (arith, q, e))
    | inl q ↦ elim (Option-cases (lookup p disk)) [
      | inl r ↦ absurd (ground (arith, q, r, e))
      | inr (y, r) ↦ ground (arith, q, r, e)
    ]
  ]

  check_parent-ok :
      (r : Result (Node File)) (t : Unit {0}) → check_parent os d r ≡ ok t → r ≡ ok directory
  unfolding check_parent
  check_parent-ok (ok directory) t e = refl
  check_parent-ok (ok special) t e = absurd cc
  check_parent-ok (ok (regular f)) t e = absurd cc
  check_parent-ok (err x) t e = elim (Bool-cases (errors_is x not_exist)) [
    | inl p ↦ absurd (ground (arith, p, e))
    | inr p ↦ absurd (ground (arith, p, e))
  ]

  pub check_file-ok :
      (r : Result (Node File)) (t : Unit {0})
      → check_file os d false r ≡ ok t
      → (f : File) × (r ≡ ok (regular f))
  unfolding check_file
  check_file-ok (ok directory) t e = absurd cc
  check_file-ok (ok special) t e = absurd cc
  check_file-ok (ok (regular f)) t e = (f, refl)
  check_file-ok (err x) t e = elim (Bool-cases (errors_is x not_exist)) [
    | inl p ↦ absurd (ground (arith, p, e))
    | inr p ↦ absurd (ground (arith, p, e))
  ]

  pub check_path-ok :
      (disk : Map (Node File)) (path : Text) (create : Bool) (a : Text)
      → check_path os d disk path create ≡ ok a
      → (os.abs path ≡ ok a)
        × (lookup (os.dir a) disk ≡ some directory)
        × ((t : Unit {0}) × (check_file os d create (stat os d disk a) ≡ ok t))
  unfolding check_path
  check_path-ok disk path create a e = elim (Result-cases (os.abs path)) [
    | inr (x, p) ↦ absurd (ground (arith, p, e))
    | inl (b, p) ↦ elim (Result-cases (check_parent os d (stat os d disk (os.dir b)))) [
      | inr (x, q) ↦ absurd (ground (arith, p, q, e))
      | inl (t, q) ↦ elim (Result-cases (check_file os d create (stat os d disk b))) [
        | inr (x, r) ↦ absurd (ground (arith, p, q, r, e))
        | inl (k, r) ↦
            let same : b ≡ a = ground (arith, p, q, r, e) in
            subst
              (λ (c : Text).
                (os.abs path ≡ ok c)
                × (lookup (os.dir c) disk ≡ some directory)
                × ((t : Unit {0}) × (check_file os d create (stat os d disk c) ≡ ok t)))
              same (p, stat-ok disk (os.dir b) directory (check_parent-ok _ t q), (k, r))
      ]
    ]
  ]
