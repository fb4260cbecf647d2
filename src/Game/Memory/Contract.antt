-- ===== src/Game/Memory/Contract.antt =====
-- The memory store keeps what the interface Store promises.
use zorkd.Go.Space.{Unicode}
use zorkd.Game.Store.{IsAtomic, IsDurable, IsScoped, IsShelf}
use zorkd.Game.Memory.{memory_store}
use zorkd.Game.Memory.Laws.{memory_store-IsAtomic, memory_store-IsDurable}
use zorkd.Game.Memory.Scoped.{memory_store-IsScoped}
use zorkd.Game.Memory.Shelf.{memory_store-IsShelf}

pub memory_store-contract :
    ⦃u : Unicode⦄
    → IsAtomic memory_store
      × ((d : IsDurable memory_store) × IsScoped memory_store d.session)
      × IsShelf memory_store
memory_store-contract =
    (memory_store-IsAtomic, (memory_store-IsDurable, memory_store-IsScoped), memory_store-IsShelf)
