-- ===== src/Frontend/Creation.antt =====
-- Of gbm.c: creation and import of buffer objects.
use libgbm.Base.{ℕ, Bool, not, ◌&&◌, ◌||◌, ◌==◌, if◌then◌else◌}
use libgbm.Types.{Ptr, null, ImportBuffer}
use libgbm.Machine.{M, pure, set_errno, ◌>>=◌, ◌>>◌}
use libgbm.Frontend.Dispatch.{Tables, device_ops}
use libgbm.Kms.Formats.{einval}

-- `(count && !modifiers) || (modifiers && !count)`.
abbrev pub modifiers_mismatch : (modifiers : Ptr) → (count : ℕ) → Bool
modifiers_mismatch modifiers count =
    (not (count == 0) && (modifiers == null)) || (not (modifiers == null) && (count == 0))

module _ (tables : Tables) where
  unfoldable pub gbm_bo_create : (gbm : Ptr) → (width height format usage : ℕ) → M Ptr
  gbm_bo_create gbm width height format usage =
      if (width == 0) || (height == 0)
      then (set_errno einval >> pure null)
      else (do ops ← device_ops tables gbm; ops.bo_create gbm width height format usage null 0)

  unfoldable pub gbm_bo_create_with_modifiers :
      (gbm : Ptr) → (width height format : ℕ) → (modifiers : Ptr) → (count : ℕ) → M Ptr
  gbm_bo_create_with_modifiers gbm width height format modifiers count =
      if (width == 0) || (height == 0)
      then (set_errno einval >> pure null)
      else if modifiers_mismatch modifiers count
      then (set_errno einval >> pure null)
      else (do ops ← device_ops tables gbm; ops.bo_create gbm width height format 0 modifiers count)

  unfoldable pub gbm_bo_import : (gbm : Ptr) → (type : ℕ) → ImportBuffer → (usage : ℕ) → M Ptr
  gbm_bo_import gbm type buffer usage = do
    ops ← device_ops tables gbm
    ops.bo_import gbm type buffer usage
