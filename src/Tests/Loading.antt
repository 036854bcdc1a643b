-- ===== src/Tests/Loading.antt =====
-- The loader and the udev helper on the bench.
use libgbm.Base.{subst, ◌∙◌, ◌⊎◌, inl, inr, pos, ◌≡◌, ◌≢◌, refl, true, some, [], ◌∷◌}
use libgbm.Types.{null, KmsDevice, a_device, CString, Stat}
use libgbm.Machine.{Returns, returns, Returns-mono, write_self}
use libgbm.Kms.Table.{gbm_backend}
use libgbm.Loader.{DynamicLoader, gbm_create_device_from_backend}
use libgbm.Loader.Order.{first_of, candidates, create_device-first_of}
use libgbm.Udev.{
  UdevLibrary, gbm_fd_get_device_name, gbm_udev_device_new_from_fd, udev_device_from_devnum,
  new_udev,
}
use libgbm.Udev.Leaks.{Looked, contexts_returned, device_name-Looked}
use libgbm.Frontend.Device.{gbm_create_device}
use libgbm.Frontend.Devices.{kms_device_create-Opened, failed, made}
use libgbm.Frontend.Totality.{create_device-Returns}
use libgbm.Loader.Totality.{IsDeviceOrNull, IsResponsive}
use libgbm.Tests.Bench.{bench, bench-IsLawful, start}

-- GBM_BACKEND is "x"; only the built-in module can be loaded.
abbrev loader : DynamicLoader
loader = record {
  moduledir = b'm' ∷ [];
  path_max = 4096;
  getenv_gbm_backend = some (b'x' ∷ []);
  dlopen = λ t path. (elim t [ [] ↦ null | _ ∷ _ ↦ 77 ]);
  dlsym_gbm_backend = λ t library. some (gbm_backend bench);
}

create_device-first_of_example :
    gbm_create_device_from_backend bench loader (pos 3) start
    ≡ first_of bench loader (pos 3) (candidates bench loader (pos 3)) start
create_device-first_of_example = create_device-first_of bench loader (pos 3) start

abbrev card_stat : Stat
card_stat = record { is_chr = true; st_rdev = 57856 }

abbrev node : CString
node = b'c' ∷ b'0' ∷ []

-- A udev that finds every device, and one that finds none.
abbrev udev_library : UdevLibrary
udev_library = record {
  udev_new = λ t. 70;
  udev_device_new_from_devnum = λ t udev devnum. 71;
  udev_device_get_devnode = λ t device. some node;
  strdup = λ t name. some name;
}

abbrev blind_udev : UdevLibrary
blind_udev = record udev_library { udev_device_new_from_devnum = λ t udev devnum. null }

device_name-Looked_example :
    Returns
      (λ name u. Looked start name 1 0 u ⊎ Looked start name 0 1 u)
      (gbm_fd_get_device_name bench udev_library (pos 3) start)
device_name-Looked_example = device_name-Looked bench-IsLawful udev_library (pos 3) start

-- Where udev knows no device, a context is lost.
blind_leak :
    Returns
      (λ name u. contexts_returned u.trace ≡ 0)
      (gbm_fd_get_device_name bench blind_udev (pos 3) start)
unfolding gbm_fd_get_device_name gbm_udev_device_new_from_fd udev_device_from_devnum new_udev
blind_leak = returns refl

-- The KMS backend is the one that the loader of the bench finds.
found-IsResponsive : IsResponsive loader (pos 3)
found-IsResponsive t library b e s =
    subst (λ c. Returns IsDeviceOrNull (c.create_device (pos 3) s))
      (let same : gbm_backend bench ≡ b = cc in same)
      (Returns-mono (kms_device_create-Opened bench-IsLawful (pos 3) s) λ p u r. elim r [
        | failed n same bal ↦ inl n
        | made d n unused is at bal ↦ inr (n, (d, at p ∙ write_self s.heap p (some (a_device d))))
      ])

create_device-Returns_example :
    Returns
      (λ p u.
        (p ≡ null)
        ⊎ ((p ≢ null)
            × ((d : KmsDevice) × (u.heap p ≡ some (a_device d))
                × (d.dummy ≡ true)
                × (d.refcount ≡ 1))))
      (gbm_create_device bench (gbm_create_device_from_backend bench loader) (pos 3) start)
create_device-Returns_example =
    create_device-Returns bench-IsLawful loader (pos 3) found-IsResponsive start
