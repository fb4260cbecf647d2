-- ===== src/Database/Integrity/Replaced.antt =====
-- The table of saves under replaceSave, which keeps the key, the game and the name, but for case, of its row.
use zorkd.Base.{
  ℕ, ◌≡◌, ◌↔◌, refl, ap, sym, ◌∙◌, true, false, ◌&&◌, none, some, [], ◌∷◌, map, ◌==◌, ==_refl, Text,
  str_eq_iff, arith, Bool-cases, inl, inr, All, ◌⊎◌,
}
use zorkd.Go.Space.{ascii_lower}
use zorkd.Database.{RowId, Rows, SaveRow, put, keys, has_key, same_nocase}
use zorkd.Database.Saves.{save_id_by_name, count_saves}
use zorkd.Database.Integrity.Shelves.{IsTable}

-- UPDATE keeps the keys, and writes nothing where the key is missing.
pub keys-put : {V : Type 0} (n : ℕ) (v : V) (rows : Rows V) → keys (put n v rows) ≡ keys rows
unfolding put
keys-put n v [] = refl
keys-put n v ((k, w) ∷ rows) = ground (arith, keys-put n v rows)

put-missing :
    (n : ℕ) (v : SaveRow) (rows : Rows SaveRow)
    → has_key n (keys rows) ≡ false
    → put n v rows ≡ rows
unfolding put has_key
put-missing n v [] h = refl
put-missing n v ((k, w) ∷ rows) h = ground (arith, put-missing n v rows)

has_key-save_id :
    (game : ℕ) (name : Text) (rows : Rows SaveRow) (k : RowId)
    → save_id_by_name game name rows ≡ some k
    → has_key k.number (keys rows) ≡ true
unfolding save_id_by_name has_key
has_key-save_id game name [] k e = absurd cc
has_key-save_id game name ((j, r) ∷ rows) k e =
    ground (arith, ==_refl k.number, has_key-save_id game name rows k)

pub All-put :
    (P : RowId × SaveRow → Type 0) (n : ℕ) (v : SaveRow) (rows : Rows SaveRow)
    → ((k : RowId) → P (k, v))
    → All P rows
    → All P (put n v rows)
unfolding put
All-put P n v [] f h = tt
All-put P n v ((k, w) ∷ rows) f h = elim (Bool-cases (k.number == n)) [
  | inl p ↦ rw p (f k, All-put P n v rows f h.1)
  | inr p ↦ rw p (h.0, All-put P n v rows f h.1)
]

same_nocase_iff : (s t : Text) → (same_nocase s t ≡ true) ↔ (map ascii_lower s ≡ map ascii_lower t)
unfolding same_nocase
same_nocase_iff s t = str_eq_iff (map ascii_lower s) (map ascii_lower t)

-- Names that are the same but for case name the same save.
save_id_by_name-nocase :
    (game : ℕ) (a b : Text) (rows : Rows SaveRow)
    → same_nocase a b ≡ true
    → save_id_by_name game a rows ≡ save_id_by_name game b rows
unfolding save_id_by_name
save_id_by_name-nocase game a b [] h = refl
save_id_by_name-nocase game a b ((k, r) ∷ rows) h = ground (
  arith,
  save_id_by_name-nocase game a b rows h,
  same_nocase_iff r.name a,
  same_nocase_iff r.name b,
  same_nocase_iff a b,
)

save_id_by_name-put :
    (game n : ℕ) (name : Text) (v : SaveRow) (rows : Rows SaveRow)
    → save_id_by_name game name rows ≡ none
    → (v.game_id == game && same_nocase v.name name) ≡ false
    → save_id_by_name game name (put n v rows) ≡ none
unfolding save_id_by_name put
save_id_by_name-put game n name v [] e h = refl
save_id_by_name-put game n name v ((k, r) ∷ rows) e h =
    ground (arith, save_id_by_name-put game n name v rows, h)

-- The row that a name was found by, or another one under another key.
record IsHead (v : SaveRow) (j : RowId) (r : SaveRow) (k : RowId) (rows : Rows SaveRow)
    : Type 0 where
  same : j ≡ k
  game : r.game_id ≡ v.game_id
  name : same_nocase r.name v.name ≡ true
  rest : put k.number v rows ≡ rows

record IsLater (v : SaveRow) (j : RowId) (r : SaveRow) (k : RowId) (rows : Rows SaveRow)
    : Type 0 where
  found : save_id_by_name v.game_id v.name rows ≡ some k
  other : (j.number == k.number) ≡ false
  unlike : (v.game_id == r.game_id && same_nocase v.name r.name) ≡ false

found-cases :
    (v : SaveRow) (j : RowId) (r : SaveRow) (rows : Rows SaveRow) (k : RowId)
    → IsTable ((j, r) ∷ rows)
    → save_id_by_name v.game_id v.name ((j, r) ∷ rows) ≡ some k
    → IsHead v j r k rows ⊎ IsLater v j r k rows
unfolding save_id_by_name
found-cases v j r rows k h e =
    elim (Bool-cases (r.game_id == v.game_id && same_nocase r.name v.name)) [
      | inl p ↦
          let same : j ≡ k = ground (arith, p, e) in
          inl (record {
            same = same;
            game = ground (arith, p);
            name = ground (arith, p);
            rest =
                put-missing k.number v rows
                  (ap (λ (x : RowId). has_key x.number (keys rows)) (sym same) ∙ h.0);
          })
      | inr p ↦
          let found : save_id_by_name v.game_id v.name rows ≡ some k = ground (arith, p, e) in
          inr (record {
            found = found;
            other = ground (arith, has_key-save_id v.game_id v.name rows k found, h.0);
            unlike =
                ground (arith, p, same_nocase_iff r.name v.name, same_nocase_iff v.name r.name);
          })
    ]

-- The row that a name was found by is the only one that replacing it writes.
pub put-IsTable :
    (v : SaveRow) (rows : Rows SaveRow) (k : RowId)
    → IsTable rows
    → save_id_by_name v.game_id v.name rows ≡ some k
    → IsTable (put k.number v rows)
unfolding put
put-IsTable v [] k h e = tt
put-IsTable v ((j, r) ∷ rows) k h e = elim (found-cases v j r rows k h e) [
  | inl c ↦ rw c.same (
      rw (==_refl k.number) (
        rw c.rest (
          ap (λ (x : RowId). has_key x.number (keys rows)) (sym c.same) ∙ h.0,
          ap (λ n. save_id_by_name n v.name rows) (sym c.game)
              ∙ sym (save_id_by_name-nocase r.game_id r.name v.name rows c.name)
              ∙ h.1,
          h.2,
        )))
  | inr c ↦ rw c.other (
    ap (has_key j.number) (keys-put k.number v rows) ∙ h.0,
    save_id_by_name-put r.game_id k.number r.name v rows h.1 c.unlike,
    put-IsTable v rows k h.2 c.found,
  )
]

pub count_saves-put :
    (game : ℕ) (v : SaveRow) (rows : Rows SaveRow) (k : RowId)
    → IsTable rows
    → save_id_by_name v.game_id v.name rows ≡ some k
    → count_saves game (put k.number v rows) ≡ count_saves game rows
unfolding put count_saves
count_saves-put game v [] k h e = refl
count_saves-put game v ((j, r) ∷ rows) k h e = elim (found-cases v j r rows k h e) [
  | inl c ↦ rw c.same (rw (==_refl k.number) (rw (c.rest, c.game) refl))
  | inr c ↦ rw c.other (rw (count_saves-put game v rows k h.2 c.found) refl)
]
