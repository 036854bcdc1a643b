-- ===== src/Tests/Names.antt =====
-- Names of formats.
use libgbm.Base.{◌≡◌, arith, [], ◌∷◌, refl}
use libgbm.Format.{gbm_format_get_name, gbm_format_canonicalize, fourcc}
use libgbm.Format.Names.{code_of, get_name-code_of}

get_name-code_of_example : code_of (gbm_format_get_name 1) ≡ gbm_format_canonicalize 1
get_name-code_of_example = get_name-code_of 1 (omega arith)

-- The name of the format 1 is "AR24".
argb_name : gbm_format_get_name 1 ≡ b'A' ∷ b'R' ∷ b'2' ∷ b'4' ∷ 0 ∷ []
unfolding gbm_format_get_name gbm_format_canonicalize fourcc
argb_name = refl
