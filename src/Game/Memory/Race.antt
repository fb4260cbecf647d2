-- ===== src/Game/Memory/Race.antt =====
-- Two writers that read one version of a session.
use zorkd.Base.{ℕ, ◌≡◌}
use zorkd.Errors.{ok, fail, version_conflict}
use zorkd.Go.Space.{Unicode}
use zorkd.Game.Types.{Session}
use zorkd.Game.Memory.{MemoryStore, memory_store, update}
use zorkd.Game.Memory.Laws.{memory_store-IsDurable}
use zorkd.Game.Service.Turns.{no_lost_update}

-- Once the memory store has accepted an update of a session, an update that carries the same owner,
-- the same name and the same version is refused with a version conflict.
pub update-update :
    ⦃u : Unicode⦄ (at later : ℕ) (x z y : Session) (m : MemoryStore)
    → (update at x m).0 ≡ ok y
    → z.user_id ≡ x.user_id
    → z.id ≡ x.id
    → z.version ≡ x.version
    → (update later z (update at x m).1).0 ≡ fail version_conflict
update-update = no_lost_update memory_store memory_store-IsDurable
