-- ===== src/Login/Rows.antt =====
-- authsessions.go: the statements on the table auth_sessions, whose schema keeps token hashes of 32
-- bytes unique and names existing users only.
use zorkd.Base.{
  ℕ, ◌-◌, Bool, true, false, ◌&&◌, Option, none, some, List, [], ◌∷◌, ltb, ◌==◌, if◌then◌else◌,
  length, Text, Map, lookup, delete,
}
use zorkd.Errors.{Result, ok, fail, refuse, user_not_found}
use zorkd.Go.Decimal.{parse_positive}

pub record Row : Type 0 where
  pub user_id : ℕ
  pub expires_at : ℕ

-- The table, and the rows of users that its foreign key can name.
pub record Table : Type 0 where
  pub sessions : Map Row
  pub users : List ℕ

unfoldable pub is_user : ℕ → List ℕ → Bool
is_user n [] = false
is_user n (k ∷ ks) = if k == n then true else is_user n ks

-- userRowID, and INSERT under the constraints of the schema.
unfoldable pub create_session : Text → Text → ℕ → Table → Result Table
create_session hash user expires t = elim (parse_positive user) [
  | none ↦ fail user_not_found
  | some n ↦ elim (lookup hash t.sessions) [
    | some _ ↦ refuse
    | none ↦
        if length hash == 32 && is_user n t.users
        then ok (record t {
          sessions = (hash, record { user_id = n; expires_at = expires }) ∷ t.sessions;
        })
        else refuse
  ]
]

unfoldable pub session_by_token : Text → Table → Option Row
session_by_token hash t = lookup hash t.sessions

unfoldable pub delete_session : Text → Table → Table
delete_session hash t = record t { sessions = delete hash t.sessions }

-- DELETE ... WHERE expires_at < before
unfoldable pub unexpired : ℕ → Map Row → Map Row
unexpired before [] = []
unexpired before ((h, row) ∷ m) =
    let rest = unexpired before m in if ltb row.expires_at before then rest else (h, row) ∷ rest

unfoldable pub delete_expired : ℕ → Table → ℕ × Table
delete_expired before t =
    let kept = unexpired before t.sessions in
    (length t.sessions - length kept, record t { sessions = kept })
