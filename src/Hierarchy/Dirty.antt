-- ===== src/Hierarchy/Dirty.antt =====
-- What becomes of the dirty lines of the first level of riscv/cache_hierarchy.cc.
use spike_online.Cache.{Cache}
use spike_online.Cache.Dirty.{IsDirty}
use spike_online.Hierarchy.{Hierarchy}
use spike_online.Base.{ℕ}

-- The second level holds a dirty line for an address.
pub HoldsDirty : Cache → ℕ → Type 0
HoldsDirty c addr = (w : ℕ) × IsDirty c addr w
