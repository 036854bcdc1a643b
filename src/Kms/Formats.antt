-- ===== src/Kms/Formats.antt =====
-- Of backend_kms.c: the formats that the backend supports.
use libgbm.Base.{ℕ, ◌-◌, ◌^◌, ℤ, pos, negsuc, Bool, true, false, not, ◌||◌, ◌==◌, if◌then◌else◌}
use libgbm.Types.{Ptr}
use libgbm.Machine.{Env, M, pure, set_errno, ◌>>=◌, ◌>>◌}
use libgbm.Format.{gbm_format_canonicalize, xrgb8888, argb8888}

abbrev pub einval : ℤ
einval = pos 22

-- The file's own fallback for the invalid modifier of drm_fourcc.h.
abbrev pub mod_invalid : ℕ
mod_invalid = 2 ^ 56 - 1

-- The cases of the switches in `gbm_kms_get_format_plane_count` and `gbm_kms_bo_create`.
abbrev pub is_32bpp : ℕ → Bool
is_32bpp fourcc = (fourcc == argb8888) || (fourcc == xrgb8888)

unfoldable pub gbm_kms_get_format_plane_count : ℕ → M ℤ
gbm_kms_get_format_plane_count format =
    if is_32bpp (gbm_format_canonicalize format)
    then pure (pos 1)
    else (set_errno einval >> pure (negsuc 0))

-- Comparison of an `int` with -1.
abbrev is_minus_one : ℤ → Bool
is_minus_one (pos n) = false
is_minus_one (negsuc n) = n == 0

abbrev of_bool : Bool → ℤ
of_bool true = pos 1
of_bool false = pos 0

unfoldable pub gbm_kms_is_format_supported : (gbm : Ptr) → (format usage : ℕ) → M ℤ
gbm_kms_is_format_supported gbm format usage = do
  count ← gbm_kms_get_format_plane_count format
  pure (of_bool (not (is_minus_one count)))

unfoldable pub gbm_kms_get_format_modifier_plane_count :
    Env → (gbm : Ptr) → (format modifier : ℕ) → M ℤ
gbm_kms_get_format_modifier_plane_count env gbm format modifier =
    if modifier == env.format_mod_linear
    then gbm_kms_get_format_plane_count format
    else (set_errno einval >> pure (negsuc 0))
