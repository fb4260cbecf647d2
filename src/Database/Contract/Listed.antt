-- ===== src/Database/Contract/Listed.antt =====
-- The database lists the games of a user, all of them, the last played first.
use mathlib.Core.List.{Mem, mem-cons_self, mem-cons_of_mem, mem-map_of_mem}
use zorkd.Base.{
  subst, ℕ, ◌≤◌, ◌≡◌, ap, sym, ◌∙◌, true, false, some, List, [], ◌∷◌, map, arith, ◌==◌, ==_refl,
  Text, All, Option-cases, Bool-cases, inl, inr,
}
use zorkd.Errors.{ok}
use zorkd.Go.Decimal.{format_int, parse_positive, parse_positive-format_int}
use zorkd.Go.Sort.{sort_func, Falling, sort_func-Falling, mem-sort_func}
use zorkd.Game.Types.{Session, Summary}
use zorkd.Game.Store.{SameName, NewestFirst, summary_at}
use zorkd.Database.{RowId, Rows, Db, GameRow, find}
use zorkd.Database.Games.{session_of, visible, games_of, newer_row, summary_of, list}
use zorkd.Database.Contract.Written.{visible-Seen}

newer-yes : (a b : RowId × GameRow) → newer_row a b ≡ true → b.1.updated_at ≤ a.1.updated_at
newer-yes a b e = elim (Bool-cases (a.1.updated_at == b.1.updated_at)) [
  | inl p ↦ ground (arith, p)
  | inr p ↦ ground (arith, p, e)
]

newer-no : (a b : RowId × GameRow) → newer_row a b ≡ false → a.1.updated_at ≤ b.1.updated_at
newer-no a b e = elim (Bool-cases (a.1.updated_at == b.1.updated_at)) [
  | inl p ↦ ground (arith, p)
  | inr p ↦ ground (arith, p, e)
]

-- Summaries are of the times of their rows.
map-Falling :
    (rows : Rows GameRow)
    → Falling (λ (e : RowId × GameRow). e.1.updated_at) rows
    → NewestFirst (map summary_of rows)
unfolding summary_of
map-Falling [] h = tt
map-Falling (e ∷ rows) h = (below e.1.updated_at rows h.0, map-Falling rows h.1)
  where
    below :
        (t : ℕ) (l : Rows GameRow)
        → All (λ (b : RowId × GameRow). b.1.updated_at ≤ t) l
        → All (λ (y : Summary). y.updated_at ≤ t) (map summary_of l)
    below t [] a = tt
    below t (b ∷ l) a = (a.0, below t l a.1)

ok-injective {ℓ} : {A : Type ℓ} → (a b : A) → ok a ≡ ok b → a ≡ b
ok-injective a b e = cc

pub listed : (user : Text) (db : Db) (xs : List Summary) → (list user db).0 ≡ ok xs → NewestFirst xs
unfolding list
listed user db xs e = elim (Option-cases (parse_positive user)) [
  | inl p ↦ subst NewestFirst (ok-injective [] xs (ground (arith, p, e))) tt
  | inr (owner, p) ↦
      subst NewestFirst
        (ok-injective (map summary_of (sort_func newer_row (games_of owner db.games))) xs
          (ground (arith, p, e)))
        (map-Falling _ (
          sort_func-Falling (λ (e : RowId × GameRow). e.1.updated_at) newer_row newer-yes newer-no
            (games_of owner db.games)))
]

-- The row that a lookup finds is among the rows of its user.
games_of-all :
    (owner n : ℕ) (rows : Rows GameRow) (r : GameRow)
    → find n rows ≡ some r
    → r.user_id ≡ owner
    → (k : RowId) × (k.number ≡ n) × Mem (k, r) (games_of owner rows)
unfolding find games_of
games_of-all owner n [] r e p = absurd cc
games_of-all owner n ((k, w) ∷ rows) r e p = elim (Bool-cases (k.number == n)) [
  | inl q ↦
      let same : w ≡ r = ground (arith, q, e) in
      let owned : (w.user_id == owner) ≡ true =
        ap (λ (z : GameRow). z.user_id == owner) same ∙ ap (λ m. m == owner) p ∙ ==_refl owner in
      (
        k,
        ground (arith, q),
        rw (owned, games_of)
            (subst (λ z. Mem (k, r) ((k, z) ∷ games_of owner rows)) (sym same) mem-cons_self),
      )
  | inr q ↦
      let (j, h, rest) = games_of-all owner n rows r (ground (arith, q, e)) p in
      (
        j,
        h,
        elim (Bool-cases (w.user_id == owner)) [
          | inl o ↦ rw (o, games_of) (mem-cons_of_mem _ rest)
          | inr o ↦ rw (o, games_of) rest
        ],
      )
]

pub listed_all :
    (user id : Text) (db : Db) (x : Session) (xs : List Summary)
    → visible db user id ≡ some x
    → (list user db).0 ≡ ok xs
    → (j : Text) × (t : ℕ) × SameName id j × Mem (summary_at j t x) xs
unfolding list summary_of session_of
listed_all user id db x xs e f =
    let s = visible-Seen db user id x e in
    let (k, h, found) = games_of-all s.owner s.number db.games s.row s.found s.owned in
    let listing = map summary_of (sort_func newer_row (games_of s.owner db.games)) in
    (
      format_int k.number,
      s.row.updated_at,
      inr (s.number, s.of_id, parse_positive-format_int k.number k.positive k.fits ∙ ap some h),
      subst (λ z. Mem (summary_at (format_int k.number) s.row.updated_at z) xs) (sym s.reads)
          (subst (Mem _) (ok-injective listing xs (ground (arith, s.of_user, f)))
            (mem-map_of_mem summary_of (mem-sort_func newer_row _ _ found))),
    )
