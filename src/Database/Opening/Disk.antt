-- ===== src/Database/Opening/Disk.antt =====
-- What opening a database does to the disk.
use zorkd.Base.{
  ◌≡◌, ◌<◌, ◌++◌, length, codes, refl, sym, ap, subst, ◌∙◌, ◌⊎◌, Bool, true, false, Option, none,
  some, List, [], ◌∷◌, arith, Text, Map, lookup, insert, Bool-cases, Option-cases, if◌then◌else◌,
  inl, inr, lookup-insert, str_eq, eq_of_str_eq, str_eq_refl,
}
use zorkd.Errors.{Error, Result, ok, err, Result-cases, ◌>>=◌, errors_is, not_exist}
use zorkd.Migrations.{Migration}
use zorkd.Database.Opening.{
  Driver, Os, Node, directory, regular, migrate, stat, check_file, check_path, create_empty,
  open_pool, open_database, is_beside, IsWal,
}
use zorkd.Database.Opening.Checks.{stat-ok, check_file-ok, check_path-ok}

-- A path is not the one of the files beside it.
longer : (a t : Text) → 0 < length t → str_eq (a ++ t) a ≡ false
unfolding str_eq
longer [] [] h = absurd (omega arith)
longer [] (c ∷ t) h = refl
longer (b ∷ a) t h = ground (arith, longer a t h)

not_beside : (a : Text) → is_beside a a ≡ false
not_beside a =
    ground (arith, longer a (codes "-wal") (omega arith), longer a (codes "-shm") (omega arith))

module _ {File : Type 0} (os : Os) (d : Driver File) (all : Result (List Migration)) where
  abbrev Disk : Type 0
  Disk = Map (Node File)

  -- The file that Open starts from: what is there, or an empty one where nothing is.
  abbrev pub Start : Bool → Option (Node File) → File → Type 0
  Start true x f = (x ≡ none) × (f ≡ d.empty_file)
  Start false x f = x ≡ some (regular f)

  -- A result, and what is then left of the file: an error with the file as it was, as the pool or
  -- as migrating left it, or the path with the file migrated.
  abbrev pub Ends : Text → File → Result Text → File → Type 0
  Ends a f r g =
      let f' = (d.new_pool f).1 in
      ((e : Error) × (r ≡ err e) × ((g ≡ f) ⊎ ((g ≡ f') ⊎ (g ≡ (migrate d all f').1))))
      ⊎ ((r ≡ ok a) × (migrate d all f' ≡ (ok tt, g)))

  -- Every other path of the disk is as it was, but for the files of WAL mode.
  abbrev pub OnlyAt : Text → File → Disk → Disk → Type 0
  OnlyAt a g disk after =
      (p : Text)
      → is_beside a p ≡ false
      → lookup p after ≡ (if str_eq a p then some (regular g) else lookup p disk)

  -- What Open may do: fail and touch nothing, or see a file through at the absolute path.
  abbrev pub Outcome : Text → Bool → Disk → Result Text × Disk → Type 0
  Outcome path create disk out =
      ((e : Error) × (out ≡ (err e, disk)))
      ⊎ ((a : Text) × (f : File) × (g : File) × (os.abs path ≡ ok a)
          × (lookup (os.dir a) disk ≡ some directory)
          × Start create (lookup a disk) f
          × Ends a f out.0 g
          × OnlyAt a g disk out.1)

  insert-OnlyAt : (a : Text) (f : File) (disk : Disk) → OnlyAt a f disk (insert a (regular f) disk)
  insert-OnlyAt a f disk p b = lookup-insert a p (regular f) disk

  there-OnlyAt :
      (a : Text) (f : File) (disk : Disk) → lookup a disk ≡ some (regular f) → OnlyAt a f disk disk
  there-OnlyAt a f disk e p b = elim (Bool-cases (str_eq a p)) [
    | inl q ↦ rw q (ap (λ (x : Text). lookup x disk) (sym (eq_of_str_eq a p q)) ∙ e)
    | inr q ↦ rw q refl
  ]

  module _ (law : IsWal d) where
    again-OnlyAt :
        (a : Text) (f g : File) (disk disk' : Disk)
        → OnlyAt a f disk disk'
        → OnlyAt a g disk (insert a (regular g) (d.wal a disk'))
    again-OnlyAt a f g disk disk' h p b =
        ground (arith, insert-OnlyAt a g (d.wal a disk') p b, h p b, law.wal_keeps a p disk' b)

    -- A file that Open sees through.
    abbrev Seen : Text → File → Disk → Result Text × Disk → Type 0
    Seen a f disk out = (g : File) × Ends a f out.0 g × OnlyAt a g disk out.1

    open_pool-Seen :
        (a : Text) (f : File) (disk disk' : Disk)
        → OnlyAt a f disk disk'
        → Seen a f disk (open_pool os d all a disk')
    unfolding open_pool
    open_pool-Seen a f disk disk' h =
        let there : lookup a disk' ≡ some (regular f) =
          ground (arith, h a (not_beside a), str_eq_refl a) in
        let f' = (d.new_pool f).1 in
        let g = (migrate d all f').1 in
        let after = insert a (regular g) (d.wal a disk') in
        elim (Result-cases (d.new_pool f).0) [
          | inr (e, p) ↦
              let out : open_pool os d all a disk'
                  ≡ (err e, insert a (regular f') (d.wal a disk')) =
                ground (arith, there, p) in
              subst (Seen a f disk) (sym out)
                (f', inl (e, refl, inr (inl refl)), again-OnlyAt a f f' disk disk' h)
          | inl (t, p) ↦ elim (Result-cases (migrate d all f').0) [
            | inr (e, q) ↦
                let out : open_pool os d all a disk' ≡ (err e, after) =
                  ground (arith, there, p, q) in
                subst (Seen a f disk) (sym out)
                  (g, inl (e, refl, inr (inr refl)), again-OnlyAt a f g disk disk' h)
            | inl (k, q) ↦
                let out : open_pool os d all a disk' ≡ (ok a, after) =
                  ground (arith, there, p, q) in
                subst (Seen a f disk) (sym out) (
                  g,
                  inr (refl, ap (λ (r : Result (Unit {0})). (r, g)) q),
                  again-OnlyAt a f g disk disk' h,
                )
          ]
        ]

    -- What Open does with a path that its checks let pass.
    abbrev Passed : Bool → Text → Disk → Result Text × Disk → Type 0
    Passed create a disk out =
        ((e : Error) × (out ≡ (err e, disk)))
        ⊎ ((f : File) × Start create (lookup a disk) f × Seen a f disk out)

    abbrev opened_new : Text → Disk → Result Text × Disk
    opened_new a disk = elim (create_empty os d a disk).0 [
      | err e ↦ (err e, (create_empty os d a disk).1)
      | ok _ ↦ open_pool os d all a (create_empty os d a disk).1
    ]

    opened_new-Passed : (a : Text) (disk : Disk) → Passed true a disk (opened_new a disk)
    unfolding create_empty
    opened_new-Passed a disk = elim (Option-cases (lookup a disk)) [
      | inr (x, p) ↦ inl (zorkd.Errors.exist ∷ [], ground (arith, p))
      | inl p ↦ elim (Result-cases (os.create_file a)) [
        | inr (e, q) ↦ inl (e, ground (arith, p, q))
        | inl (t, q) ↦
            let made = insert a (regular d.empty_file) disk in
            elim (Result-cases (os.close_file a)) [
              | inr (e, r) ↦
                  let out : opened_new a disk ≡ (err e, made) = ground (arith, p, q, r) in
                  subst (Passed true a disk) (sym out) (
                    inr (
                      d.empty_file,
                      (p, refl),
                      (d.empty_file, inl (e, refl, inl refl), insert-OnlyAt a d.empty_file disk),
                    ))
              | inl (k, r) ↦
                  let out : opened_new a disk ≡ open_pool os d all a made =
                    ground (arith, p, q, r) in
                  subst (Passed true a disk) (sym out) (
                    inr (
                      d.empty_file,
                      (p, refl),
                      open_pool-Seen a d.empty_file disk made (insert-OnlyAt a d.empty_file disk),
                    ))
            ]
      ]
    ]

    opened : Bool → Text → Disk → Result Text × Disk
    opened true a disk = opened_new a disk
    opened false a disk = open_pool os d all a disk

    opened-Passed :
        (create : Bool) (a : Text) (disk : Disk) (t : Unit {0})
        → check_file os d create (stat os d disk a) ≡ ok t
        → Passed create a disk (opened create a disk)
    unfolding opened
    opened-Passed true a disk t e = opened_new-Passed a disk
    opened-Passed false a disk t e =
        let (f, q) = check_file-ok os d _ t e in
        let there = stat-ok os d disk a (regular f) q in
        inr (f, there, open_pool-Seen a f disk disk (there-OnlyAt a f disk there))

    open_database-opened :
        (path : Text) (create : Bool) (disk : Disk) (a : Text)
        → check_path os d disk path create ≡ ok a
        → open_database os d all path create disk ≡ opened create a disk
    unfolding open_database opened
    open_database-opened path true disk a p = rw (p, open_database) refl
    open_database-opened path false disk a p = rw (p, open_database) refl

    -- Where WAL mode writes no files of its own but the -wal and the -shm file beside a database,
    -- opening a database either fails and leaves the disk as it was, or it sees one file through: the
    -- one at the absolute path, whose directory is there; with `create` a new one where nothing was,
    -- without it the one that was there. It then answers the path exactly with that file migrated, or
    -- an error with the file as it was, as opening it left it or as far as it was migrated; and in
    -- either case nothing else on the disk changes, but for those two files beside it.
    pub open_database-Outcome :
        (path : Text) (create : Bool) (disk : Disk)
        → Outcome path create disk (open_database os d all path create disk)
    unfolding open_database
    open_database-Outcome path create disk =
        elim (Result-cases (check_path os d disk path create)) [
          | inr (e, p) ↦ inl (e, ground (arith, p))
          | inl (a, p) ↦
              let (there, parent, (t, file)) = check_path-ok os d disk path create a p in
              subst (Outcome path create disk) (sym (open_database-opened path create disk a p))
                (elim (opened-Passed create a disk t file) [
                  | inl (e, q) ↦ inl (e, q)
                  | inr (f, start, (g, ends, only)) ↦
                      inr (a, f, g, there, parent, start, ends, only)
                ])
        ]
