-- ===== src/Tests/Systems.antt =====
-- A system on the bench: two devices are opened, an object is made and destroyed on each, and both
-- are closed, the calls on the one between those on the other.
use libgbm.Base.{◌+◌, true, false, pos, ◌≡◌, ◌≢◌, refl, none, [], arith}
use libgbm.Types.{Ptr, null}
use libgbm.Machine.{free, write, State, Run, ok, fault, Returns, descriptor, acquired, released}
use libgbm.Format.{gbm_format_canonicalize, fourcc}
use libgbm.Kms.Lifetime.{
  gbm_kms_bo_create, create_storage, create_export, create_mapping, gbm_kms_bo_destroy,
  release_allocated,
}
use libgbm.Kms.Table.{kms_device_create, gbm_kms_destroy}
use libgbm.Frontend.Device.{gbm_create_device, gbm_device_destroy, character_device}
use libgbm.Frontend.Creation.{gbm_bo_create}
use libgbm.Frontend.Buffer.{gbm_bo_destroy}
use libgbm.Client.Ledger.{client_held}
use libgbm.Client.Pool.{IsWithout, Only}
use libgbm.Client.Calls.{Call, perform}
use libgbm.Client.Reach.{Step}
use libgbm.Client.System.{
  Book, no_devices, entered, IsClear, System, begins, opens, calls, closes, drivers_of,
  drivers_held,
}
use libgbm.Client.System.Safety.{act, close_device, System-act, System-closed}
use libgbm.Tests.Bench.{bench, bench-IsLawful}
use libgbm.Tests.Stack.{tables}

abbrev blank : State
blank = record { heap = λ p. none; errno = pos 0; trace = [] }

blank-IsClear : IsClear blank
blank-IsClear q b e = cc

abbrev after : {A : Type 0} → Run A → State
after (ok a s) = s
after fault = blank

nonzero : (n : Ptr) → (n + 1) ≢ null
nonzero n e = omega (arith, e)

first : State
unfolding gbm_create_device character_device kms_device_create
first = after (gbm_create_device bench (kms_device_create bench) (pos 3) blank)

both : State
unfolding first gbm_create_device character_device kms_device_create
both = after (gbm_create_device bench (kms_device_create bench) (pos 4) first)

abbrev two_devices : Book
two_devices = entered (entered no_devices 101 true) 103 true

to_both : System bench tables blank two_devices [] both
unfolding both
to_both = opens (pos 4) 103 (opens (pos 3) 101 begins refl (nonzero 100)) refl (nonzero 102)

created : State
unfolding both gbm_bo_create gbm_kms_bo_create create_storage create_export create_mapping
    gbm_format_canonicalize fourcc
created = after (perform bench tables 101 (Call.create 64 32 1 0) both)

doubled : State
unfolding created gbm_bo_create gbm_kms_bo_create create_storage create_export create_mapping
    gbm_format_canonicalize fourcc
doubled = after (perform bench tables 103 (Call.create 64 32 1 0) created)

to_doubled : System bench tables blank two_devices [] doubled
unfolding doubled
to_doubled =
    calls (calls to_both (Step.call 101 refl (Call.create 64 32 1 0) tt refl))
      (Step.call 103 refl (Call.create 64 32 1 0) tt refl)

halved : State
unfolding doubled gbm_bo_destroy gbm_kms_bo_destroy release_allocated free
halved = after (perform bench tables 101 (Call.destroy 104) doubled)

to_halved : System bench tables blank two_devices [] halved
unfolding halved
to_halved =
    calls to_doubled (Step.call 101 refl (Call.destroy 104) (_, refl, nonzero 103, refl) refl)

left_half : IsWithout (Only 101) halved.heap
unfolding halved
left_half q b e = λ z. ground (arith, e, z)

-- One device is closed while the other has an object.
half_closed : State
unfolding halved gbm_device_destroy gbm_kms_destroy free
half_closed = after (gbm_device_destroy tables 101 halved)

to_half_closed : System bench tables blank (entered two_devices 101 false) [] half_closed
unfolding half_closed
to_half_closed = closes 101 to_halved refl left_half refl

destroyed : State
unfolding half_closed gbm_bo_destroy gbm_kms_bo_destroy release_allocated free
destroyed = after (perform bench tables 103 (Call.destroy 108) half_closed)

to_destroyed : System bench tables blank (entered two_devices 101 false) [] destroyed
unfolding destroyed
to_destroyed =
    calls to_half_closed (Step.call 103 refl (Call.destroy 108) (_, refl, nonzero 107, refl) refl)

left_none : IsWithout (Only 103) destroyed.heap
unfolding destroyed
left_none q b e = λ z. ground (arith, e, z)

closed : State
unfolding destroyed gbm_device_destroy gbm_kms_destroy free
closed = after (gbm_device_destroy tables 103 destroyed)

abbrev all_closed : Book
all_closed = entered (entered two_devices 101 false) 103 false

to_closed : System bench tables blank all_closed [] closed
unfolding closed
to_closed = closes 103 to_destroyed refl left_none refl

System-act_example :
    Returns
      (λ _ v. (q : Ptr) → v.heap q ≡ write destroyed.heap 103 none q)
      (act bench tables (close_device 103) destroyed)
System-act_example =
    System-act bench-IsLawful tables refl (close_device 103) blank-IsClear to_destroyed
      (refl, left_none)

System-closed_example :
    ((q : Ptr) → closed.heap q ≡ blank.heap q)
    × (acquired (descriptor (pos 8)) closed.trace + released (descriptor (pos 8)) []
        ≡ released (descriptor (pos 8)) closed.trace
          + acquired (descriptor (pos 8)) []
          + client_held [] (descriptor (pos 8))
          + drivers_held (drivers_of to_closed) (descriptor (pos 8)))
System-closed_example =
    System-closed bench-IsLawful tables refl (descriptor (pos 8)) refl blank-IsClear to_closed
      (λ p. ground arith)
