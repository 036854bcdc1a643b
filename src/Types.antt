-- ===== src/Types.antt =====
-- The structures of gbm.h, gbmint.h and gbm_kmsint.h, and the objects that the heap holds.
-- A pointer is a number, NULL is 0. `uint32_t`, `uint64_t` and `unsigned` are natural numbers,
-- reduced where the code's arithmetic wraps; an `int` is an integer.
use libgbm.Base.{ℕ, ℤ, pos, int_leb, ◌&&◌, Bool, false, Option, none, List, [], ◌∷◌}

abbrev pub Ptr : Type 0
Ptr = ℕ

abbrev pub null : Ptr
null = 0

-- A C string without its terminator, as its bytes.
abbrev pub CString : Type 0
CString = List ℕ

-- `union gbm_bo_handle`, read through its member `u32`.
abbrev pub BoHandle : Type 0
BoHandle = ℕ

-- What the code reads of `struct stat`.
pub record Stat : Type 0 where
  pub is_chr : Bool
  pub st_rdev : ℕ

-- `struct gbm_bo`. `destroy_user_data` is the callback's address, NULL if there is none.
pub record Bo : Type 0 where
  pub gbm : Ptr
  pub width : ℕ
  pub height : ℕ
  pub stride : ℕ
  pub format : ℕ
  pub handle : BoHandle
  pub user_data : Ptr
  pub destroy_user_data : Ptr

-- `struct gbm_kms_plane`.
pub record KmsPlane : Type 0 where
  pub handle : ℕ
  pub stride : ℕ

abbrev pub max_planes : ℕ
max_planes = 3

-- `struct gbm_kms_bo`; `planes` has `max_planes` entries.
pub record KmsBo : Type 0 where
  pub base : Bo
  pub bo : Ptr
  pub addr : Ptr
  pub map_ref : ℤ
  pub fd : ℤ
  pub locked : ℤ
  pub size : ℕ
  pub allocated : Bool
  pub allocated_handle : Bool
  pub num_planes : ℤ
  pub planes : List KmsPlane

-- `bo->num_planes == 1`.
abbrev pub has_one_plane : KmsBo → Bool
has_one_plane b = int_leb b.num_planes (pos 1) && int_leb (pos 1) b.num_planes

-- `struct gbm_surface`; its unused member for modifiers is left out.
pub record Surface : Type 0 where
  pub gbm : Ptr
  pub width : ℕ
  pub height : ℕ
  pub format : ℕ
  pub flags : ℕ

-- `struct gbm_kms_surface`: `bo0` and `bo1` are the array `bo[2]`, and `set_bo` is the one function
-- that is ever stored there.
pub record KmsSurface : Type 0 where
  pub base : Surface
  pub bo0 : Ptr
  pub bo1 : Ptr
  pub front : ℤ

-- `struct gbm_kms_device` with its `struct gbm_device`. The function pointers are copied whole from
-- a backend's static table, so `table` names that table. `dummy` says whether the member `dummy`
-- holds `gbm_create_device`.
pub record KmsDevice : Type 0 where
  pub dummy : Bool
  pub fd : ℤ
  pub name : CString
  pub refcount : ℕ
  pub stat : Stat
  pub table : ℕ
  pub kms : Ptr

-- `struct gbm_import_fd_data`.
pub record ImportFdData : Type 0 where
  pub fd : ℤ
  pub width : ℕ
  pub height : ℕ
  pub stride : ℕ
  pub format : ℕ

-- `struct gbm_import_fd_modifier_data`, its arrays as lists of `GBM_MAX_PLANES` = 4 entries.
pub record ImportFdModifierData : Type 0 where
  pub width : ℕ
  pub height : ℕ
  pub format : ℕ
  pub num_fds : ℕ
  pub fds : List ℤ
  pub strides : List ℤ
  pub offsets : List ℤ
  pub modifier : ℕ

-- What the code reads of wayland-kms's `struct wl_kms_buffer`.
pub record WlKmsBuffer : Type 0 where
  pub width : ℕ
  pub height : ℕ
  pub format : ℕ
  pub stride : ℕ
  pub handle : ℕ
  pub num_planes : ℤ
  pub planes : List KmsPlane

-- The `void *buffer` of an import, by what the caller says that it points to.
pub data ImportBuffer : Type 0 where
  wl_buffer : Ptr → ImportBuffer
  fd_data : ImportFdData → ImportBuffer
  fd_modifier_data : ImportFdModifierData → ImportBuffer

-- What a map call returns, and what it stores through `stride` and `map_data`.
pub record MapOut : Type 0 where
  pub address : Ptr
  pub stride : Option ℕ
  pub map_data : Option Ptr

abbrev pub no_mapping : MapOut
no_mapping = record { address = null; stride = none; map_data = none }

pub data Object : Type 0 where
  a_bo : KmsBo → Object
  a_surface : KmsSurface → Object
  a_device : KmsDevice → Object

-- What `calloc(1, sizeof(...))` leaves.
abbrev pub zero_bo : KmsBo
zero_bo = record {
  base = record {
    gbm = null;
    width = 0;
    height = 0;
    stride = 0;
    format = 0;
    handle = 0;
    user_data = null;
    destroy_user_data = null;
  };
  bo = null;
  addr = null;
  map_ref = pos 0;
  fd = pos 0;
  locked = pos 0;
  size = 0;
  allocated = false;
  allocated_handle = false;
  num_planes = pos 0;
  planes = zero_plane ∷ zero_plane ∷ zero_plane ∷ [];
}
  where
    zero_plane : KmsPlane
    zero_plane = record { handle = 0; stride = 0 }

abbrev pub zero_surface : KmsSurface
zero_surface = record {
  base = record { gbm = null; width = 0; height = 0; format = 0; flags = 0 };
  bo0 = null;
  bo1 = null;
  front = pos 0;
}

abbrev pub zero_device : KmsDevice
zero_device = record {
  dummy = false;
  fd = pos 0;
  name = [];
  refcount = 0;
  stat = record { is_chr = false; st_rdev = 0 };
  table = 0;
  kms = null;
}
