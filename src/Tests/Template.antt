-- ===== src/Tests/Template.antt =====
-- The example backend under gbm.c.
use libgbm.Base.{pos, ◌≡◌, ◌≢◌, ◌⊎◌, refl, some, arith}
use libgbm.Types.{null, Stat, a_device}
use libgbm.Machine.{Trace, Returns, fault}
use libgbm.Frontend.Dispatch.{Tables}
use libgbm.Frontend.Device.{gbm_create_device, gbm_device_destroy}
use libgbm.Example.{example_device_create, example_gbm_device}
use libgbm.Example.Defects.{
  example_device, example_device_create-fault, create_device-device_destroy_leak,
}
use libgbm.Tests.Bench.{bench, bench-IsLawful, start}

abbrev example_tables : Tables
example_tables n = example_gbm_device

create_device-device_destroy_leak_example :
    Returns
      (λ p u.
        (p ≡ null)
        ⊎ ((buf : Stat) × (p ≢ null)
            × (u.heap p ≡ some (a_device (example_device (pos 3) buf 1)))
            × Returns
                (λ _ v. v.heap p ≡ some (a_device (example_device (pos 3) buf 0)))
                (gbm_device_destroy example_tables p u)))
      (gbm_create_device bench (example_device_create bench) (pos 3) start)
create_device-device_destroy_leak_example =
    create_device-device_destroy_leak bench-IsLawful example_tables (pos 3) refl start spare
  where
    spare : (t : Trace) → bench.calloc start.heap t ≢ null
    spare t = ground arith

example_device_create_out_of_memory :
    example_device_create (record bench { calloc = λ h t. null }) (pos 3) start ≡ fault
example_device_create_out_of_memory =
    example_device_create-fault (record bench { calloc = λ h t. null }) (pos 3) start refl
