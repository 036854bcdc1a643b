-- ===== src/Tests/Mappings.antt =====
-- Mapping, writing and the queries of a buffer object on the bench.
use libgbm.Base.{true, is_neg, ℕ, pos, negsuc, ◌≡◌, ◌⊎◌, inl, refl, some, [], ◌∷◌, arith}
use libgbm.Types.{null, KmsBo, a_bo}
use libgbm.Machine.{State, Returns, write, Holds-refl}
use libgbm.Kms.Lifetime.{new_bo}
use libgbm.Kms.Mapping.Sessions.{Session, Counter, map, unmap, run_mappings, run_mappings-Counter}
use libgbm.Kms.Query.Export.{Exported, get_plane_fd_lem}
use libgbm.Kms.Query.{gbm_kms_bo_get_plane_fd}
use libgbm.Frontend.Equivalences.{create_with_modifiers-create, get_fd-get_fd_for_plane}
use libgbm.Frontend.Buffer.{gbm_bo_get_fd, gbm_bo_get_fd_for_plane}
use libgbm.Frontend.Creation.{gbm_bo_create, gbm_bo_create_with_modifiers}
use libgbm.Frontend.SurfaceApi.{gbm_surface_create, gbm_surface_create_with_modifiers}
use libgbm.Tests.Stack.{tables}
use libgbm.Tests.Bench.{card, bench, bench-IsLawful, start}

abbrev buffer : KmsBo
buffer = new_bo 1 60 64 32 875713112 7 256

-- The buffer object stands at address 2.
abbrev held : State
held = record start { heap = write start.heap 2 (some (a_bo buffer)) }

-- The same object while it is mapped.
abbrev writable : KmsBo
writable = record buffer { addr = 4096; map_ref = pos 1 }

abbrev mapped_state : State
mapped_state = record start { heap = write start.heap 2 (some (a_bo writable)) }

unmapped : Session held.heap [] 2 buffer 0 held
unmapped = record {
  addr = null;
  map_ref = pos 0;
  mapped = record { count = refl; idle = λ e. refl; busy = λ ne. absurd (ne refl) };
  at = λ q. ground arith;
  holds = Holds-refl [];
}

run_mappings-Counter_example :
    Returns
      (λ _ u. (m : ℕ) × Counter (map ∷ map ∷ unmap ∷ []) 0 m × Session held.heap [] 2 buffer m u)
      (run_mappings bench 2 (map ∷ map ∷ unmap ∷ []) held)
run_mappings-Counter_example =
    run_mappings-Counter bench-IsLawful held.heap [] 2 buffer (map ∷ map ∷ unmap ∷ []) 0 held
      (omega arith) unmapped

get_plane_fd_lem_example :
    Returns
      (Exported (pos 3) held (some (record { handle = 7; stride = 256 })))
      (gbm_kms_bo_get_plane_fd bench 2 (pos 0) held)
get_plane_fd_lem_example =
    get_plane_fd_lem bench-IsLawful 2 buffer card 1 held refl refl refl (inl refl) (pos 0)

create_with_modifiers-create_example :
    (gbm_bo_create_with_modifiers tables 1 64 32 1 900 2 held
      ≡ gbm_bo_create tables 1 64 32 1 0 held)
    × (gbm_surface_create_with_modifiers tables 1 64 32 1 900 2 held
        ≡ gbm_surface_create tables 1 64 32 1 0 held)
create_with_modifiers-create_example =
    create_with_modifiers-create bench tables 1 card held refl refl 64 32 1 900 2 refl

get_fd-get_fd_for_plane_example :
    Returns
      (λ a u.
        Returns
          (λ c v. (u ≡ v) × ((a ≡ c) ⊎ ((is_neg a ≡ true) × (c ≡ negsuc 0))))
          (gbm_bo_get_fd_for_plane tables 2 (pos 0) held))
      (gbm_bo_get_fd tables 2 held)
get_fd-get_fd_for_plane_example =
    get_fd-get_fd_for_plane bench-IsLawful tables 2 buffer card held refl refl refl refl
