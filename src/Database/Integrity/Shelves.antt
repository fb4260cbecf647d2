-- ===== src/Database/Integrity/Shelves.antt =====
-- The table of saves under the statements that write it.
use zorkd.Base.{
  ℕ, ◌≤◌, ◌≡◌, refl, false, ◌&&◌, none, [], ◌∷◌, ◌==◌, Text, arith, Bool-cases, inl, inr, All,
}
use zorkd.Database.{RowId, Rows, SaveRow, keys, has_key}
use zorkd.Database.Games.{cascade}
use zorkd.Database.Saves.{save_id_by_name, count_saves, remove_save}

-- No two saves share a key, and no two of one game a name but for the case of ASCII letters.
abbrev pub IsTable : Rows SaveRow → Type 0
IsTable [] = Unit
IsTable ((k, r) ∷ rows) =
    (has_key k.number (keys rows) ≡ false)
    × (save_id_by_name r.game_id r.name rows ≡ none)
    × IsTable rows

-- The rows that a DELETE leaves.
pub data Sublist : Rows SaveRow → Rows SaveRow → Type 0 where
  empty : Sublist [] []
  drop : (x : RowId × SaveRow) (a b : Rows SaveRow) → Sublist a b → Sublist a (x ∷ b)
  keep : (x : RowId × SaveRow) (a b : Rows SaveRow) → Sublist a b → Sublist (x ∷ a) (x ∷ b)

pub cascade-Sublist : (game : ℕ) (rows : Rows SaveRow) → Sublist (cascade game rows) rows
unfolding cascade
cascade-Sublist game [] = empty
cascade-Sublist game ((k, r) ∷ rows) = elim (Bool-cases (r.game_id == game)) [
  | inl p ↦ rw p (drop (k, r) _ rows (cascade-Sublist game rows))
  | inr p ↦ rw p (keep (k, r) _ rows (cascade-Sublist game rows))
]

pub remove_save-Sublist :
    (n game : ℕ) (rows : Rows SaveRow) → Sublist (remove_save n game rows) rows
unfolding remove_save
remove_save-Sublist n game [] = empty
remove_save-Sublist n game ((k, r) ∷ rows) =
    elim (Bool-cases (k.number == n && r.game_id == game)) [
      | inl p ↦ rw p (drop (k, r) _ rows (remove_save-Sublist n game rows))
      | inr p ↦ rw p (keep (k, r) _ rows (remove_save-Sublist n game rows))
    ]

has_key-Sublist :
    (n : ℕ) (a b : Rows SaveRow)
    → Sublist a b
    → has_key n (keys b) ≡ false
    → has_key n (keys a) ≡ false
unfolding has_key
has_key-Sublist n _ _ empty h = refl
has_key-Sublist n _ _ (drop x a b s) h = has_key-Sublist n a b s (ground arith)
has_key-Sublist n _ _ (keep x a b s) h = ground (arith, has_key-Sublist n a b s)

save_id_by_name-Sublist :
    (game : ℕ) (name : Text) (a b : Rows SaveRow)
    → Sublist a b
    → save_id_by_name game name b ≡ none
    → save_id_by_name game name a ≡ none
unfolding save_id_by_name
save_id_by_name-Sublist game name _ _ empty h = refl
save_id_by_name-Sublist game name _ _ (drop x a b s) h =
    save_id_by_name-Sublist game name a b s (ground arith)
save_id_by_name-Sublist game name _ _ (keep x a b s) h =
    ground (arith, save_id_by_name-Sublist game name a b s)

pub IsTable-Sublist : (a b : Rows SaveRow) → Sublist a b → IsTable b → IsTable a
IsTable-Sublist _ _ empty h = tt
IsTable-Sublist _ _ (drop x a b s) h = IsTable-Sublist a b s h.2
IsTable-Sublist _ _ (keep (k, r) a b s) h = (
  has_key-Sublist k.number a b s h.0,
  save_id_by_name-Sublist r.game_id r.name a b s h.1,
  IsTable-Sublist a b s h.2,
)

pub count_saves-Sublist :
    (game : ℕ) (a b : Rows SaveRow) → Sublist a b → count_saves game a ≤ count_saves game b
unfolding count_saves
count_saves-Sublist game _ _ empty = omega arith
count_saves-Sublist game _ _ (drop x a b s) = ground (arith, count_saves-Sublist game a b s)
count_saves-Sublist game _ _ (keep x a b s) = ground (arith, count_saves-Sublist game a b s)

pub All-Sublist :
    (P : RowId × SaveRow → Type 0) (a b : Rows SaveRow) → Sublist a b → All P b → All P a
All-Sublist P _ _ empty h = tt
All-Sublist P _ _ (drop x a b s) h = All-Sublist P a b s h.1
All-Sublist P _ _ (keep x a b s) h = (h.0, All-Sublist P a b s h.1)
