-- ===== src/Client/Orders.antt =====
-- What a client orders, by creation or by the import of descriptors, and what it can foretell of
-- the object that it gets.
pub mod Placing
pub mod Answers
use libgbm.Base.{
  map, take, to_u32, ◌≤◌, ℕ, ℤ, pos, List, [], ◌∷◌, Option, none, some, length, ◌≡◌, ◌≢◌, ◌⊎◌, inl,
  inr, refl, ap, ◌∙◌, sym, ◌||◌, ◌==◌, arith, Bool-cases,
}
use libgbm.Types.{
  Ptr, null, KmsDevice, KmsBo, ImportFdData, ImportFdModifierData, fd_data, fd_modifier_data,
  a_device, a_bo,
}
use libgbm.Machine.{
  Env, IsLawful, State, M, ok, write_self, Returns, returns, Returns-mono, Returns-ok,
}
use libgbm.Format.{gbm_format_canonicalize, bits_per_pixel}
use libgbm.Kms.Import.{import_fd, import_fd_modifier, gbm_kms_bo_import}
use libgbm.Kms.Lifetime.{gbm_kms_bo_create}
use libgbm.Kms.Lifetime.Stages.{Created, IsNew, failed, made}
use libgbm.Kms.Lifetime.Creation.{bo_create-Created}
use libgbm.Kms.Import.Single.{Imported, HasFdData, import_fd-Imported}
use libgbm.Kms.Import.Multiple.{HasModifierData}
use libgbm.Kms.Table.{kms_gbm_device}
use libgbm.Frontend.Dispatch.{Tables}
use libgbm.Frontend.Creation.{
  gbm_bo_create, gbm_bo_create_with_modifiers, gbm_bo_import, modifiers_mismatch,
}
use libgbm.Client.Importing.{import_fd_modifier-Returns}
use libgbm.Client.Questions.{
  Question, width_of, height_of, format_of, bpp_of, device_of, first_handle, user_data_of,
  first_stride, stride_of, handle_of, offset_of, plane_count, modifier_of, ask,
}
use libgbm.Client.Asking.{says}
use libgbm.Client.Asking.{stride_at}
use libgbm.Client.Calls.{Call, create, create_with_modifiers, import, perform, IsAllowed}
use libgbm.Client.Reach.{IsFresh, Reach, Reach-Ledger, perform-Settled}
use libgbm.Client.Stability.{Spares, still, Reach-says}

pub data Order : Type 0 where
  by_size : (width height format usage : ℕ) → Order
  by_modifiers : (width height format : ℕ) → (modifiers : Ptr) → (count : ℕ) → Order
  by_fd : ImportFdData → (usage : ℕ) → Order
  by_fds : ImportFdModifierData → (usage : ℕ) → Order

abbrev pub call_of : Order → Call
call_of (by_size width height format usage) = create width height format usage
call_of (by_modifiers width height format modifiers count) =
    create_with_modifiers width height format modifiers count
call_of (by_fd f usage) = import import_fd (fd_data f) usage
call_of (by_fds m usage) = import import_fd_modifier (fd_modifier_data m) usage

-- The call, with the object that it returns.
abbrev pub place : Tables → (gbm : Ptr) → Order → M Ptr
place tables gbm (by_size width height format usage) =
    gbm_bo_create tables gbm width height format usage
place tables gbm (by_modifiers width height format modifiers count) =
    gbm_bo_create_with_modifiers tables gbm width height format modifiers count
place tables gbm (by_fd f usage) = gbm_bo_import tables gbm import_fd (fd_data f) usage
place tables gbm (by_fds m usage) =
    gbm_bo_import tables gbm import_fd_modifier (fd_modifier_data m) usage

-- The arrays of an import by several descriptors are as long as it says.
abbrev pub IsComplete : Order → Type 0
IsComplete (by_size width height format usage) = Unit {0}
IsComplete (by_modifiers width height format modifiers count) = Unit {0}
IsComplete (by_fd f usage) = Unit {0}
IsComplete (by_fds m usage) = (m.num_fds ≤ length m.fds) × (m.num_fds ≤ length m.strides)

abbrev pub ordered_width : Order → ℕ
ordered_width (by_size width height format usage) = width
ordered_width (by_modifiers width height format modifiers count) = width
ordered_width (by_fd f usage) = f.width
ordered_width (by_fds m usage) = m.width

abbrev pub ordered_height : Order → ℕ
ordered_height (by_size width height format usage) = height
ordered_height (by_modifiers width height format modifiers count) = height
ordered_height (by_fd f usage) = f.height
ordered_height (by_fds m usage) = m.height

abbrev pub ordered_format : Order → ℕ
ordered_format (by_size width height format usage) = gbm_format_canonicalize format
ordered_format (by_modifiers width height format modifiers count) = gbm_format_canonicalize format
ordered_format (by_fd f usage) = gbm_format_canonicalize f.format
ordered_format (by_fds m usage) = gbm_format_canonicalize m.format

abbrev pub ordered_planes : Order → ℕ
ordered_planes (by_size width height format usage) = 1
ordered_planes (by_modifiers width height format modifiers count) = 1
ordered_planes (by_fd f usage) = 1
ordered_planes (by_fds m usage) = m.num_fds

-- The strides that an import names, one for each plane; the backend chooses those of the objects
-- that it creates.
abbrev pub ordered_strides : Order → Option (List ℕ)
ordered_strides (by_size width height format usage) = none
ordered_strides (by_modifiers width height format modifiers count) = none
ordered_strides (by_fd f usage) = some (f.stride ∷ [])
ordered_strides (by_fds m usage) = some (map to_u32 (take m.num_fds m.strides))

abbrev pub stride_answer : Option (List ℕ) → (plane : ℤ) → Option ℤ
stride_answer none plane = none
stride_answer (some strides) plane = some (pos (stride_at strides plane))

-- The answers that a client can foretell of an object that it orders; none for the others.
abbrev pub ordered : Env → (gbm : Ptr) → Order → Question → Option ℤ
ordered env gbm o width_of = some (pos (ordered_width o))
ordered env gbm o height_of = some (pos (ordered_height o))
ordered env gbm o format_of = some (pos (ordered_format o))
ordered env gbm o bpp_of = some (pos (bits_per_pixel (ordered_format o)))
ordered env gbm o device_of = some (pos gbm)
ordered env gbm o plane_count = some (pos (ordered_planes o))
ordered env gbm o (offset_of plane) = some (pos 0)
ordered env gbm o modifier_of = some (pos env.format_mod_linear)
ordered env gbm o first_handle = none
ordered env gbm o user_data_of = none
ordered env gbm o first_stride = stride_answer (ordered_strides o) (pos 0)
ordered env gbm o (stride_of plane) = stride_answer (ordered_strides o) plane
ordered env gbm o (handle_of plane) = none
