-- ===== src/Format/Names.antt =====
-- The names that `gbm_format_get_name` prints, read back.
use libgbm.Base.{ℕ, ◌+◌, ◌*◌, ◌/◌, ◌%◌, ◌^◌, ◌<◌, List, [], ◌∷◌, ◌≡◌, arith}
use libgbm.Format.{fourcc, gbm_format_canonicalize, gbm_format_get_name}

-- The code whose bytes, the lowest first, are those of the name.
abbrev pub code_of : List ℕ → ℕ
code_of [] = 0
code_of (c ∷ name) = c + 256 * code_of name

canonicalize-lt : (f : ℕ) → f < 2 ^ 32 → gbm_format_canonicalize f < 2 ^ 32
unfolding gbm_format_canonicalize fourcc
canonicalize-lt f lt = ground (arith, lt)

bytes-code_of :
    (f : ℕ)
    → f < 2 ^ 32
    → code_of (f % 256 ∷ f / 2 ^ 8 % 256 ∷ f / 2 ^ 16 % 256 ∷ f / 2 ^ 24 % 256 ∷ 0 ∷ []) ≡ f
bytes-code_of f lt = omega arith

-- The name of a format of 32 bits determines its canonical code: the bytes of the name, read back
-- with the lowest first, are the code that `gbm_format_canonicalize` gives.
pub get_name-code_of :
    (f : ℕ) → f < 2 ^ 32 → code_of (gbm_format_get_name f) ≡ gbm_format_canonicalize f
unfolding gbm_format_get_name
get_name-code_of f lt = bytes-code_of (gbm_format_canonicalize f) (canonicalize-lt f lt)
