-- ===== src/Tests/Sessions.antt =====
-- A whole session on the bench: a device is opened beside two others, an object is made and
-- destroyed on it and on one of these, and the device is closed.
use libgbm.Base.{inl, inr, ◌+◌, pos, ◌≡◌, refl, [], arith}
use libgbm.Types.{Ptr}
use libgbm.Machine.{
  free, State, Run, ok, fault, Returns, descriptor, acquired, released, unit_of_driver,
}
use libgbm.Format.{gbm_format_canonicalize, fourcc}
use libgbm.Kms.Lifetime.{
  gbm_kms_bo_create, create_storage, create_export, create_mapping, gbm_kms_bo_destroy,
  release_allocated,
}
use libgbm.Kms.Table.{kms_device_create}
use libgbm.Frontend.Device.{gbm_create_device, gbm_device_destroy, character_device}
use libgbm.Frontend.Creation.{gbm_bo_create}
use libgbm.Frontend.Buffer.{gbm_bo_destroy}
use libgbm.Client.Ledger.{client_held}
use libgbm.Client.Pool.{IsWithout, Only}
use libgbm.Client.Calls.{Call, perform}
use libgbm.Client.Reach.{Reach, Step}
use libgbm.Client.Session.{Also, create_device-Reach-device_destroy}
use libgbm.Tests.Bench.{bench, bench-IsLawful}
use libgbm.Tests.Clients.{Cards, pair, pair-IsFresh, other, start-IsWithout}
use libgbm.Tests.Stack.{tables}

-- The devices that were open before, and the new one.
abbrev Devices : Ptr → Type 0
Devices = Also Cards 101

abbrev after : {A : Type 0} → Run A → State
after (ok a s) = s
after fault = pair

opened : State
unfolding gbm_create_device character_device kms_device_create
opened = after (gbm_create_device bench (kms_device_create bench) (pos 3) pair)

created : State
unfolding opened gbm_bo_create gbm_kms_bo_create create_storage create_export create_mapping
    gbm_format_canonicalize fourcc
created = after (perform bench tables 101 (Call.create 64 32 1 0) opened)

to_created : Reach bench tables Devices opened [] created
unfolding created
to_created = Reach.next Reach.here (Step.call 101 (inr refl) (Call.create 64 32 1 0) tt refl)

-- Another object, on a device that was open before.
doubled : State
unfolding created gbm_bo_create gbm_kms_bo_create create_storage create_export create_mapping
    gbm_format_canonicalize fourcc
doubled = after (perform bench tables 3 (Call.create 64 32 1 0) created)

to_doubled : Reach bench tables Devices opened [] doubled
unfolding doubled
to_doubled = Reach.next to_created (Step.call 3 (inl other) (Call.create 64 32 1 0) tt refl)

halved : State
unfolding doubled gbm_bo_destroy gbm_kms_bo_destroy release_allocated free
halved = after (perform bench tables 101 (Call.destroy 102) doubled)

to_halved : Reach bench tables Devices opened [] halved
unfolding halved
to_halved = Reach.next to_doubled (
    Step.call 101 (inr refl) (Call.destroy 102) (_, refl, (λ e. absurd (omega (arith, e))), refl)
      refl)

destroyed : State
unfolding halved gbm_bo_destroy gbm_kms_bo_destroy release_allocated free
destroyed = after (perform bench tables 3 (Call.destroy 106) halved)

to_destroyed : Reach bench tables Devices opened [] destroyed
unfolding destroyed
to_destroyed = Reach.next to_halved (
    Step.call 3 (inl other) (Call.destroy 106) (_, refl, (λ e. absurd (omega (arith, e))), refl)
      refl)

nothing_left : IsWithout Devices destroyed.heap
unfolding destroyed
nothing_left q b e = start-IsWithout Devices q b (ground (arith, e))

create_device-Reach-device_destroy_example :
    Returns
      (λ _ x.
        ((q : Ptr) → x.heap q ≡ pair.heap q)
        × (acquired (descriptor (pos 6)) x.trace + released (descriptor (pos 6)) []
            ≡ released (descriptor (pos 6)) x.trace
              + acquired (descriptor (pos 6)) []
              + client_held [] (descriptor (pos 6))
              + unit_of_driver (descriptor (pos 6)) 50))
      (gbm_device_destroy tables 101 destroyed)
unfolding opened
create_device-Reach-device_destroy_example =
    create_device-Reach-device_destroy bench-IsLawful tables refl (pos 3) 101 _ pair
      (descriptor (pos 6)) refl pair-IsFresh
      (λ q b e. start-IsWithout (Only 101) q b (ground (arith, e))) refl
      (λ e. absurd (omega (arith, e))) refl to_destroyed nothing_left
