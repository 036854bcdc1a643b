-- ===== src/Frontend/Dispatch.antt =====
-- The reads `gbm->...`, `bo->gbm->...` and `surf->gbm->...` of a function pointer in gbm.c.
use libgbm.Base.{ℕ}
use libgbm.Types.{Ptr}
use libgbm.Machine.{M, pure, ◌>>=◌, load_device, load_bo, load_surface}
use libgbm.DeviceOps.{DeviceOps}

-- The static tables of the backends that are loaded, by the number that a device keeps.
abbrev pub Tables : Type 0
Tables = ℕ → DeviceOps

module _ (tables : Tables) where
  abbrev pub device_ops : (gbm : Ptr) → M DeviceOps
  device_ops gbm = do dev ← load_device gbm; pure (tables dev.table)

  abbrev pub bo_ops : (bo : Ptr) → M DeviceOps
  bo_ops bo = do b ← load_bo bo; device_ops b.base.gbm

  abbrev pub surface_ops : (surf : Ptr) → M DeviceOps
  surface_ops surf = do f ← load_surface surf; device_ops f.base.gbm
