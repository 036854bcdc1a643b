-- ===== src/Tests/Imports.antt =====
-- Imports on the bench, and on one that refuses a descriptor.
use libgbm.Base.{
  ℕ, ℤ, pos, negsuc, ◌≡◌, ◌≢◌, ◌⊎◌, inr, refl, some, none, if◌then◌else◌, ◌==◌, [], ◌∷◌, arith,
}
use libgbm.Types.{Ptr, KmsBo, a_bo, null, ImportFdData, ImportFdModifierData}
use libgbm.Machine.{Env, Event, Returns, Holds, Out}
use libgbm.Kms.Formats.{mod_invalid}
use libgbm.Kms.Lifetime.{gbm_kms_bo_destroy}
use libgbm.Kms.Lifetime.Ownership.{Undone}
use libgbm.Kms.Import.{gbm_kms_import_fd, gbm_kms_import_fd_modifier, gbm_kms_import_wl_buffer}
use libgbm.Kms.Import.Handles.{handles_held}
use libgbm.Kms.Import.Single.{Imported, HasFdData, import_fd-Imported, import_fd-bo_destroy}
use libgbm.Kms.Import.Sharing.{import_fd-shared_handle}
use libgbm.Kms.Import.Multiple.{HasModifierData, import_fd_modifier-Imported}
use libgbm.Kms.Import.Errors.{import_fd_modifier-leak}
use libgbm.Kms.Import.Wayland.{FromBuffer, import_wl_buffer-bo_destroy}
use libgbm.Tests.Bench.{client_buffer, bench, bench-fresh, bench-IsLawful, card, start}

abbrev frame : ImportFdData
frame = record { fd = pos 8; width = 64; height = 32; stride = 256; format = 0 }

import_fd-Imported_example :
    Returns
      (Imported (HasFdData frame) 1 (pos 3) (frame.fd ∷ []) start)
      (gbm_kms_import_fd bench 1 frame start)
import_fd-Imported_example = import_fd-Imported bench-IsLawful 1 card frame start refl

import_fd-bo_destroy_example :
    Returns
      (λ p u. (p ≡ null) ⊎ Returns (λ _ v. Undone start.heap [] v) (gbm_kms_bo_destroy bench p u))
      (gbm_kms_import_fd bench 1 frame start)
import_fd-bo_destroy_example = import_fd-bo_destroy bench-IsLawful 1 card frame start refl

-- Two planes.
abbrev planar : ImportFdModifierData
planar = record {
  width = 64;
  height = 32;
  format = 0;
  num_fds = 2;
  fds = pos 8 ∷ pos 9 ∷ pos 0 ∷ pos 0 ∷ [];
  strides = pos 256 ∷ pos 128 ∷ pos 0 ∷ pos 0 ∷ [];
  offsets = pos 0 ∷ pos 0 ∷ pos 0 ∷ pos 0 ∷ [];
  modifier = mod_invalid;
}

-- The kernel knows descriptor 8 and no other.
abbrev only_8 : ℤ → Out ℕ
only_8 (pos n) =
    if n == 8 then record { ret = pos 0; out = some 7 } else record { ret = negsuc 0; out = none }
only_8 (negsuc n) = record { ret = negsuc 0; out = none }

abbrev strict_bench : Env
strict_bench = record bench { prime_fd_to_handle = λ t dev_fd fd. only_8 fd }

import_fd_modifier-leak_example :
    Returns
      (λ p u. (p ≡ null) × (u.heap ≡ start.heap) × Holds (handles_held (pos 3) (7 ∷ [])) [] u.trace)
      (gbm_kms_import_fd_modifier strict_bench 1 planar start)
import_fd_modifier-leak_example =
    import_fd_modifier-leak strict_bench 1 card planar (pos 8) (pos 9) (pos 0 ∷ pos 0 ∷ []) 7 start
      refl refl refl refl refl (λ t. refl) (λ t. refl)

import_wl_buffer-bo_destroy_example :
    Returns
      (λ p u.
        ((p ≡ null) × ((q : Ptr) → u.heap q ≡ start.heap q))
        ⊎ ((p ≢ null)
            × ((b : KmsBo) × (u.heap p ≡ some (a_bo b)) × FromBuffer 1 client_buffer b)
            × Returns
                (λ _ v. ((q : Ptr) → v.heap q ≡ start.heap q) × (v.trace ≡ u.trace))
                (gbm_kms_bo_destroy bench p u)))
      (gbm_kms_import_wl_buffer bench 1 9 start)
import_wl_buffer-bo_destroy_example =
    import_wl_buffer-bo_destroy bench-IsLawful 1 9 client_buffer start refl (omega arith)

import_fd_modifier-Imported_example :
    Returns
      (Imported (HasModifierData planar) 1 (pos 3) planar.fds start)
      (gbm_kms_import_fd_modifier bench 1 planar start)
import_fd_modifier-Imported_example =
    import_fd_modifier-Imported 1 planar bench-IsLawful card start refl (inr refl) (omega arith)
      (omega arith) (omega arith) (omega arith)

-- The kernel names the handle 9 for every descriptor, as for those of one buffer.
abbrev sharing : Env
sharing = record bench { prime_fd_to_handle = λ t dev_fd fd. record { ret = pos 0; out = some 9 } }

import_fd-shared_handle_example :
    Returns
      (λ p u.
        (p ≡ null)
        ⊎ Returns
            (λ q v.
              (q ≡ null)
              ⊎ Returns
                  (λ _ w.
                    (w.trace ≡ Event.gem_close (pos 3) 9 ∷ v.trace)
                    × ((b : KmsBo) × (w.heap q ≡ some (a_bo b)) × (b.base.handle ≡ 9))
                    × Returns
                        (λ _ x. x.trace ≡ Event.gem_close (pos 3) 9 ∷ w.trace)
                        (gbm_kms_bo_destroy sharing q w))
                  (gbm_kms_bo_destroy sharing p v))
            (gbm_kms_import_fd sharing 1 frame u))
      (gbm_kms_import_fd sharing 1 frame start)
import_fd-shared_handle_example =
    import_fd-shared_handle sharing bench-fresh 1 card 9 (λ e. absurd (omega (arith, e)))
      (λ t fd. refl) frame frame start refl
