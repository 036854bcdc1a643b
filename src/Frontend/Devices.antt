-- ===== src/Frontend/Devices.antt =====
-- Devices through gbm.c over the KMS backend: counting of references, and creation with
-- destruction.
use libgbm.Base.{
  ap, ◌∙◌, ℕ, suc, ◌+◌, ◌<◌, ◌-◌, ◌^◌, ◌%◌, ℤ, is_zero, is_neg, true, false, ◌≡◌, ◌≢◌, refl, some,
  none, Option, ◌⊎◌, inl, inr, arith, ◌==◌, Bool-cases,
}
use libgbm.Types.{Ptr, null, KmsDevice, a_device, zero_device}
use libgbm.Machine.{
  Balanced, Holds, Holds-refl, Resource, unit_of_driver, unit_of_driver_out, Env, IsLawful, State,
  ok, write, write_self, ne-null, free-Returns, Returns, returns, Returns-bind, Returns-mono,
}
use libgbm.Kms.Table.{kms_gbm_device, kms_device_create, gbm_kms_destroy, kms_name, kms_table}
use libgbm.Kms.Lifetime.{stored}
use libgbm.Frontend.Dispatch.{Tables}
use libgbm.Frontend.Device.{gbm_device_destroy, gbm_create_device, character_device}

-- The device that `kms_device_create` fills in.
abbrev pub kms_device : (fd : ℤ) → (driver : Ptr) → KmsDevice
kms_device fd driver = record zero_device {
  name = kms_name;
  table = kms_table;
  fd = fd;
  kms = driver;
}

module _ (tables : Tables) (gbm : Ptr) (d : KmsDevice) (s : State)
    (live : s.heap gbm ≡ some (a_device d)) where
  -- A device that has two references or more, below the wrap-around, is only counted down by
  -- `gbm_device_destroy`: it stays, with one reference less, and nothing is called.
  pub device_destroy-counted :
      (n : ℕ)
      → d.refcount ≡ suc (suc n)
      → suc (suc n) < 2 ^ 32
      → gbm_device_destroy tables gbm s
        ≡ ok tt
            (record s { heap = write s.heap gbm (some (a_device (record d { refcount = suc n }))) })
  unfolding gbm_device_destroy
  device_destroy-counted n e lt = rw (live, e) (rw count (rw more refl))
    where
      count : (suc (suc n) + 2 ^ 32 - 1) % 2 ^ 32 ≡ suc n
      count = omega arith

      more : (suc n == 0) ≡ false
      more = ground arith

  -- The last reference of a device of the KMS backend frees it.
  pub device_destroy-last :
      (env : Env)
      → tables d.table ≡ kms_gbm_device env
      → gbm ≢ null
      → d.refcount ≡ 1
      → Returns
          (λ _ u. (u.trace ≡ s.trace) × ((q : Ptr) → u.heap q ≡ write s.heap gbm none q))
          (gbm_device_destroy tables gbm s)
  unfolding gbm_device_destroy gbm_kms_destroy
  device_destroy-last env kms ne e =
      rw (live, e)
        (rw (write_self s.heap gbm (some (a_device (record d { refcount = 0 })))) (
          rw kms (
            Returns-mono
              (free-Returns gbm (a_device (record d { refcount = 0 })) _ ne
                (write_self s.heap gbm (some (a_device (record d { refcount = 0 })))))
              λ _ u (e', at). (e', λ q. ground (arith, at)))))

-- A call that may make a device: NULL with the heap as it was, or a device at an unused address.
-- Nothing more is held than before but the driver of the device that was made.
pub data Opened (P : KmsDevice → Type 0) (s : State) (p : Ptr) (u : State) : Type 0 where
  failed : p ≡ null → ((q : Ptr) → u.heap q ≡ s.heap q) → Balanced s.trace u.trace → Opened P s p u
  made :
      (d : KmsDevice)
      → p ≢ null
      → s.heap p ≡ none
      → P d
      → ((q : Ptr) → u.heap q ≡ write s.heap p (some (a_device d)) q)
      → Holds (λ r. unit_of_driver r d.kms) s.trace u.trace
      → Opened P s p u

driver_out :
    (r : Resource) (o : Option Ptr) → unit_of_driver_out r o ≡ unit_of_driver r (stored o null)
driver_out r none = refl
driver_out r (some p) = refl

-- The device is filled in by `kms_device_create`, and has no reference yet.
abbrev pub IsKmsDevice : (fd : ℤ) → KmsDevice → Type 0
IsKmsDevice fd d = (driver : Ptr) × (d ≡ kms_device fd driver)

-- The device has the backend's table and one reference.
pub record IsOpen (fd : ℤ) (d : KmsDevice) : Type 0 where
  pub descriptor : d.fd ≡ fd
  pub table : d.table ≡ kms_table
  pub counted : d.refcount ≡ 1

module _ {env : Env} (law : IsLawful env) where
  pub kms_device_create-Opened :
      (fd : ℤ) (s : State) → Returns (Opened (IsKmsDevice fd) s) (kms_device_create env fd s)
  unfolding kms_device_create
  kms_device_create-Opened fd s = elim (Bool-cases (dev == 0)) [
    | inl z ↦ rw z (returns (failed refl (λ q. refl) (Holds-refl s.trace)))
    | inr z ↦
        let ne : dev ≢ null = ground arith in
        let unused = law.fresh s.heap s.trace ne in
        rw (z, z)
          (elim (Bool-cases (is_zero (env.kms_create s.trace fd).ret)) [
            | inl k ↦ rw k (
                returns (
                  made (kms_device fd driver) ne unused (driver, refl) (λ q. ground arith)
                    (λ r. rw k (omega (arith, driver_out r (env.kms_create s.trace fd).out)))))
            | inr k ↦ rw k (
                Returns-bind
                  (free-Returns dev (a_device (kms_device fd driver)) _ ne (ground arith))
                  λ _ u (t, at). returns (
                    failed refl (λ q. ground (arith, at, unused)) (rw t (λ r. rw k (omega arith)))))
          ])
  ]
    where
      dev : Ptr
      dev = env.calloc s.heap s.trace

      driver : Ptr
      driver = stored (env.kms_create s.trace fd).out null

  -- `gbm_create_device` on the KMS backend.
  pub create_device-Opened :
      (fd : ℤ) (s : State)
      → Returns (Opened (IsOpen fd) s) (gbm_create_device env (kms_device_create env) fd s)
  unfolding gbm_create_device character_device
  create_device-Opened fd s = elim (Bool-cases (is_neg fd)) [
    | inl z ↦ rw z (returns (failed refl (λ q. refl) (Holds-refl s.trace)))
    | inr z ↦ rw z (elim (law.stated s.trace fd) [
      | inl e ↦ rw e (returns (failed refl (λ q. refl) (λ r. omega arith)))
      | inr (e, (buf, o)) ↦
          rw (e, o)
            (elim (Bool-cases buf.is_chr) [
              | inr c ↦ simp c (returns (failed refl (λ q. refl) (λ r. omega arith)))
              | inl c ↦ simp c (
                  Returns-bind (kms_device_create-Opened fd _) λ p u r. elim r [
                    | failed n same bal ↦
                        rw n (returns (failed refl same (λ r. omega (arith, bal r))))
                    | made d n unused (driver, is) at bal ↦
                        rw (ne-null p n, at p, write_self s.heap p (some (a_device d)))
                          (returns (
                            made (record d { dummy = true; stat = buf; refcount = 1 }) n unused
                              (record {
                                descriptor = rw is refl;
                                table = rw is refl;
                                counted = refl;
                              })
                              (λ q. ground (arith, at q)) (λ r. omega (arith, bal r))))
                  ])
            ])
    ])
  ]

  -- Where the devices of the KMS backend have its table, `gbm_create_device` on that backend never
  -- faults. It returns NULL and leaves the heap as it was, or a device such that one call of
  -- `gbm_device_destroy` puts the heap back.
  pub create_device-device_destroy :
      (tables : Tables) (kms : tables kms_table ≡ kms_gbm_device env) (fd : ℤ) (s : State)
      → Returns
          (λ p u.
            ((p ≡ null) × ((q : Ptr) → u.heap q ≡ s.heap q))
            ⊎ ((p ≢ null)
                × Returns (λ _ v. (q : Ptr) → v.heap q ≡ s.heap q) (gbm_device_destroy tables p u)))
          (gbm_create_device env (kms_device_create env) fd s)
  create_device-device_destroy tables kms fd s = Returns-mono (create_device-Opened fd s) λ p u r.
      elim r [
        | failed n same bal ↦ inl (n, same)
        | made d n unused is at bal ↦ inr (
          n,
          Returns-mono
              (device_destroy-last tables p d u (at p ∙ write_self s.heap p (some (a_device d))) env
                (ap tables is.table ∙ kms) n is.counted)
              λ _ v (_, gone). λ q. ground (arith, gone q, at q, unused),
        )
      ]
