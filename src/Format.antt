-- ===== src/Format.antt =====
-- The format codes of gbm.h, `gbm_format_canonicalize` of gbmint.h, and of gbm.c the switch of
-- `gbm_bo_get_bpp` and `gbm_format_get_name`.
pub mod Names
use libgbm.Base.{ℕ, ◌*◌, ◌/◌, ◌%◌, ◌^◌, bit_or, List, [], ◌∷◌, ◌==◌, if◌then◌else◌, elem}

-- `__gbm_fourcc_code`, with the shift of a byte written as a product.
unfoldable pub fourcc : ℕ → ℕ → ℕ → ℕ → ℕ
fourcc a b c d = bit_or (bit_or (bit_or a (b * 2 ^ 8)) (c * 2 ^ 16)) (d * 2 ^ 24)

-- `enum gbm_bo_format`.
abbrev pub bo_format_xrgb8888 : ℕ
bo_format_xrgb8888 = 0

abbrev pub bo_format_argb8888 : ℕ
bo_format_argb8888 = 1

abbrev pub xrgb8888 : ℕ
unfolding fourcc
xrgb8888 = fourcc b'X' b'R' b'2' b'4'

abbrev pub argb8888 : ℕ
unfolding fourcc
argb8888 = fourcc b'A' b'R' b'2' b'4'

-- The formats of one byte: one colour index, one red, and the orders of 3:3:2.
unfoldable pub formats_8 : List ℕ
unfolding fourcc
formats_8 =
    fourcc b'C' b'8' b' ' b' '
    ∷ fourcc b'R' b'8' b' ' b' '
    ∷ fourcc b'R' b'G' b'B' b'8'
    ∷ fourcc b'B' b'G' b'R' b'8'
    ∷ []

-- GR88, then the orders of 4:4:4:4, of 1:5:5:5 and of 5:6:5.
unfoldable pub formats_16 : List ℕ
unfolding fourcc
formats_16 =
    fourcc b'G' b'R' b'8' b'8'
    ∷ fourcc b'X' b'R' b'1' b'2'
    ∷ fourcc b'X' b'B' b'1' b'2'
    ∷ fourcc b'R' b'X' b'1' b'2'
    ∷ fourcc b'B' b'X' b'1' b'2'
    ∷ fourcc b'A' b'R' b'1' b'2'
    ∷ fourcc b'A' b'B' b'1' b'2'
    ∷ fourcc b'R' b'A' b'1' b'2'
    ∷ fourcc b'B' b'A' b'1' b'2'
    ∷ fourcc b'X' b'R' b'1' b'5'
    ∷ fourcc b'X' b'B' b'1' b'5'
    ∷ fourcc b'R' b'X' b'1' b'5'
    ∷ fourcc b'B' b'X' b'1' b'5'
    ∷ fourcc b'A' b'R' b'1' b'5'
    ∷ fourcc b'A' b'B' b'1' b'5'
    ∷ fourcc b'R' b'A' b'1' b'5'
    ∷ fourcc b'B' b'A' b'1' b'5'
    ∷ fourcc b'R' b'G' b'1' b'6'
    ∷ fourcc b'B' b'G' b'1' b'6'
    ∷ []

-- RGB888, BGR888.
unfoldable pub formats_24 : List ℕ
unfolding fourcc
formats_24 = fourcc b'R' b'G' b'2' b'4' ∷ fourcc b'B' b'G' b'2' b'4' ∷ []

-- The orders of 8:8:8:8 and of 2:10:10:10.
unfoldable pub formats_32 : List ℕ
unfolding fourcc
formats_32 =
    fourcc b'X' b'R' b'2' b'4'
    ∷ fourcc b'X' b'B' b'2' b'4'
    ∷ fourcc b'R' b'X' b'2' b'4'
    ∷ fourcc b'B' b'X' b'2' b'4'
    ∷ fourcc b'A' b'R' b'2' b'4'
    ∷ fourcc b'A' b'B' b'2' b'4'
    ∷ fourcc b'R' b'A' b'2' b'4'
    ∷ fourcc b'B' b'A' b'2' b'4'
    ∷ fourcc b'X' b'R' b'3' b'0'
    ∷ fourcc b'X' b'B' b'3' b'0'
    ∷ fourcc b'R' b'X' b'3' b'0'
    ∷ fourcc b'B' b'X' b'3' b'0'
    ∷ fourcc b'A' b'R' b'3' b'0'
    ∷ fourcc b'A' b'B' b'3' b'0'
    ∷ fourcc b'R' b'A' b'3' b'0'
    ∷ fourcc b'B' b'A' b'3' b'0'
    ∷ []

-- XBGR16161616F, ABGR16161616F.
unfoldable pub formats_64 : List ℕ
unfolding fourcc
formats_64 = fourcc b'X' b'B' b'4' b'H' ∷ fourcc b'A' b'B' b'4' b'H' ∷ []

unfoldable pub gbm_format_canonicalize : ℕ → ℕ
gbm_format_canonicalize gbm_format =
    if gbm_format == bo_format_xrgb8888
    then xrgb8888
    else if gbm_format == bo_format_argb8888
    then argb8888
    else gbm_format

-- The switch of `gbm_bo_get_bpp`.
unfoldable pub bits_per_pixel : ℕ → ℕ
unfolding formats_8 formats_16 formats_24 formats_32 formats_64
bits_per_pixel format =
    if elem format formats_8
    then 8
    else if elem format formats_16
    then 16
    else if elem format formats_24
    then 24
    else if elem format formats_32
    then 32
    else if elem format formats_64
    then 64
    else 0

-- The five bytes of `desc->name`.
unfoldable pub gbm_format_get_name : ℕ → List ℕ
unfolding gbm_format_canonicalize
gbm_format_get_name gbm_format =
    let f = gbm_format_canonicalize gbm_format in
    f % 256 ∷ f / 2 ^ 8 % 256 ∷ f / 2 ^ 16 % 256 ∷ f / 2 ^ 24 % 256 ∷ 0 ∷ []
