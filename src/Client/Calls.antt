-- ===== src/Client/Calls.antt =====
-- The calls of gbm.c that a client makes on buffer objects, and when it may make them.
use libgbm.Base.{ℤ, pos, negsuc, List, [], ◌∷◌, ℕ, ◌≤◌, true, ◌≡◌, ◌≢◌, some, length}
use libgbm.Types.{
  Ptr, null, KmsBo, ImportBuffer, wl_buffer, fd_data, fd_modifier_data, WlKmsBuffer, a_bo,
}
use libgbm.Machine.{Env, State, M, pure, ◌>>=◌, ◌>>◌}
use libgbm.Frontend.Dispatch.{Tables}
use libgbm.Frontend.Buffer.{
  gbm_bo_get_fd, gbm_bo_get_fd_for_plane, gbm_bo_set_user_data, gbm_bo_write, gbm_bo_map,
  gbm_bo_unmap, gbm_bo_destroy,
}
use libgbm.Frontend.Creation.{gbm_bo_create, gbm_bo_create_with_modifiers, gbm_bo_import}
use libgbm.Kms.Import.{import_wl_buffer, import_fd, import_fd_modifier}
use libgbm.Kms.Import.WlPlanes.{HasPlanes}
use libgbm.Client.Effects.{Effect, quiet, makes, tells, unmaps, removes}
use libgbm.Client.Questions.{Question, DeviceQuestion, ask, ask_device}
use libgbm.Frontend.UserData.{noted}

pub data Call : Type 0 where
  create : (width height format usage : ℕ) → Call
  create_with_modifiers : (width height format : ℕ) → (modifiers : Ptr) → (count : ℕ) → Call
  import : (type : ℕ) → ImportBuffer → (usage : ℕ) → Call
  map : (bo : Ptr) → (x y width height flags : ℕ) → (stride map_data : Ptr) → Call
  unmap : (bo map_data : Ptr) → Call
  write : (bo buf : Ptr) → (count : ℕ) → Call
  set_user_data : (bo data' destroy_user_data : Ptr) → Call
  export : (bo : Ptr) → Call
  export_plane : (bo : Ptr) → (plane : ℤ) → Call
  question : (bo : Ptr) → Question → Call
  device_question : DeviceQuestion → Call
  destroy : (bo : Ptr) → Call

-- An export hands out a descriptor, if it is not negative.
abbrev pub handed : ℤ → List ℤ
handed (pos n) = pos n ∷ []
handed (negsuc n) = []

-- What the call does, with the descriptors that it hands to the client; its other results are left
-- aside. A callback of the client takes notice of its call.
abbrev pub perform : Env → Tables → (gbm : Ptr) → Call → M (List ℤ)
perform env tables gbm (create width height format usage) =
    gbm_bo_create tables gbm width height format usage >> pure []
perform env tables gbm (create_with_modifiers width height format modifiers count) =
    gbm_bo_create_with_modifiers tables gbm width height format modifiers count >> pure []
perform env tables gbm (import type buffer usage) =
    gbm_bo_import tables gbm type buffer usage >> pure []
perform env tables gbm (map bo x y width height flags stride map_data) =
    gbm_bo_map tables bo x y width height flags stride map_data >> pure []
perform env tables gbm (unmap bo map_data) = gbm_bo_unmap tables bo map_data >> pure []
perform env tables gbm (write bo buf count) = gbm_bo_write tables bo buf count >> pure []
perform env tables gbm (set_user_data bo data' f) = gbm_bo_set_user_data bo data' f >> pure []
perform env tables gbm (export bo) = gbm_bo_get_fd tables bo >>= λ fd. pure (handed fd)
perform env tables gbm (export_plane bo plane) =
    gbm_bo_get_fd_for_plane tables bo plane >>= λ fd. pure (handed fd)
perform env tables gbm (question bo q) = ask tables bo q >> pure []
perform env tables gbm (device_question q) = ask_device tables gbm q >> pure []
perform env tables gbm (destroy bo) = gbm_bo_destroy tables (noted env) bo >> pure []

-- What the call does to the buffer objects that there are.
abbrev pub effect : Call → Effect
effect (set_user_data bo data' f) = tells bo data'
effect (destroy bo) = removes bo
effect (create width height format usage) = makes
effect (create_with_modifiers width height format modifiers count) = makes
effect (import type buffer usage) = makes
effect (map bo x y width height flags stride map_data) = quiet
effect (unmap bo map_data) = unmaps bo
effect (write bo buf count) = quiet
effect (export bo) = quiet
effect (export_plane bo plane) = quiet
effect (question bo q) = quiet
effect (device_question q) = quiet

-- The address of a live buffer object of the device.
abbrev pub IsLive : (gbm : Ptr) → State → Ptr → Type 0
IsLive gbm s bo = (b : KmsBo) × (s.heap bo ≡ some (a_bo b)) × (bo ≢ null) × (b.base.gbm ≡ gbm)

-- The same, of an object that the backend allocated.
abbrev pub IsAllocated : (gbm : Ptr) → State → Ptr → Type 0
IsAllocated gbm s bo =
    (b : KmsBo) × (s.heap bo ≡ some (a_bo b))
    × (bo ≢ null)
    × (b.base.gbm ≡ gbm)
    × (b.allocated ≡ true)

-- The data of an import is what its type says, and its arrays are as long as it says.
abbrev pub IsShaped : Env → State → (type : ℕ) → ImportBuffer → Type 0
IsShaped env s type (wl_buffer p) =
    (type ≡ import_wl_buffer)
    × ((buffer : WlKmsBuffer)
        → env.wayland_kms_buffer_get s.trace p ≡ some buffer
        → HasPlanes buffer)
IsShaped env s type (fd_data f) = type ≡ import_fd
IsShaped env s type (fd_modifier_data m) =
    (type ≡ import_fd_modifier) × (m.num_fds ≤ length m.fds) × (m.num_fds ≤ length m.strides)

-- A client passes live objects, maps only objects that the backend allocated, and passes imports
-- what they ask for. Nothing else is asked of it.
abbrev pub IsAllowed : Env → (gbm : Ptr) → State → Call → Type 0
IsAllowed env gbm s (create width height format usage) = Unit {0}
IsAllowed env gbm s (create_with_modifiers width height format modifiers count) = Unit {0}
IsAllowed env gbm s (import type buffer usage) = IsShaped env s type buffer
IsAllowed env gbm s (map bo x y width height flags stride map_data) = IsAllocated gbm s bo
IsAllowed env gbm s (unmap bo map_data) = IsAllocated gbm s bo
IsAllowed env gbm s (write bo buf count) = IsLive gbm s bo
IsAllowed env gbm s (set_user_data bo data' f) = IsLive gbm s bo
IsAllowed env gbm s (export bo) = IsLive gbm s bo
IsAllowed env gbm s (export_plane bo plane) = IsLive gbm s bo
IsAllowed env gbm s (device_question q) = Unit {0}
IsAllowed env gbm s (question bo q) = IsLive gbm s bo
IsAllowed env gbm s (destroy bo) = IsLive gbm s bo
