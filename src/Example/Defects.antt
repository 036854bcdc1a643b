-- ===== src/Example/Defects.antt =====
-- What a backend that starts from backend_example.c does under gbm.c.
use libgbm.Base.{ℕ, ℤ, is_neg, true, ◌≡◌, ◌≢◌, ◌⊎◌, inl, inr, refl, some, Bool-cases, arith}
use libgbm.Types.{Ptr, null, KmsDevice, Stat, a_device, zero_device}
use libgbm.Machine.{
  Env, Trace, IsLawful, NoMemory, State, fault, write_self, ne-null, Returns, returns, Returns-bind,
}
use libgbm.Frontend.Dispatch.{Tables}
use libgbm.Frontend.Device.{gbm_create_device, gbm_device_destroy, character_device}
use libgbm.Example.{
  example_device_create, example_gbm_device, example_table, example_name, gbm_example_destroy,
  gles_init,
}

-- A device that `example_device_create` filled in, with `n` references.
abbrev pub example_device : (fd : ℤ) → (buf : Stat) → (n : ℕ) → KmsDevice
example_device fd buf n = record zero_device {
  dummy = true;
  fd = fd;
  name = example_name;
  refcount = n;
  stat = buf;
  table = example_table;
}

-- When memory runs out, `example_device_create` faults: it stores through the NULL that calloc
-- returned.
pub example_device_create-fault :
    (env : Env) (fd : ℤ) (s : State) → NoMemory env s → example_device_create env fd s ≡ fault
unfolding example_device_create
example_device_create-fault env fd s none' = rw none' refl

-- The device as `example_device_create` returns it.
abbrev bare_device : (fd : ℤ) → KmsDevice
bare_device fd = record zero_device { fd = fd; table = example_table; name = example_name }

created_device :
    (env : Env) (fd : ℤ) (s : State)
    → env.calloc s.heap s.trace ≢ null
    → Returns
        (λ p u. (p ≢ null) × (u.heap p ≡ some (a_device (bare_device fd))))
        (example_device_create env fd s)
unfolding example_device_create gles_init
created_device env fd s ne = rw (ne-null _ ne, ne-null _ ne) (returns (ne, ground arith))

undestroyed :
    (tables : Tables) (fd : ℤ) (buf : Stat) (p : Ptr) (s : State)
    → tables example_table ≡ example_gbm_device
    → s.heap p ≡ some (a_device (example_device fd buf 1))
    → Returns
        (λ _ v. v.heap p ≡ some (a_device (example_device fd buf 0)))
        (gbm_device_destroy tables p s)
unfolding gbm_device_destroy gbm_example_destroy
undestroyed tables fd buf p s ops at = rw at (
    rw (write_self s.heap p (some (a_device (example_device fd buf 0))))
      (rw ops (returns (write_self s.heap p _))))

-- A device of the example backend is never freed: let fstat keep what its manual says and there be
-- memory. Then `gbm_create_device` over that backend returns NULL, or a device of which
-- `gbm_device_destroy` ends with the device still in the heap, with no reference left.
pub create_device-device_destroy_leak :
    {env : Env} (law : IsLawful env) (tables : Tables) (fd : ℤ)
    → tables example_table ≡ example_gbm_device
    → (s : State) → ((t : Trace) → env.calloc s.heap t ≢ null)
    → Returns
        (λ p u.
          (p ≡ null)
          ⊎ ((buf : Stat) × (p ≢ null)
              × (u.heap p ≡ some (a_device (example_device fd buf 1)))
              × Returns
                  (λ _ v. v.heap p ≡ some (a_device (example_device fd buf 0)))
                  (gbm_device_destroy tables p u)))
        (gbm_create_device env (example_device_create env) fd s)
unfolding gbm_create_device character_device
create_device-device_destroy_leak {env} law tables fd ops s roomy = elim (Bool-cases (is_neg fd)) [
  | inl z ↦ rw z (returns (inl refl))
  | inr z ↦ rw z (elim (law.stated s.trace fd) [
    | inl e ↦ rw e (returns (inl refl))
    | inr (e, (buf, o)) ↦
        rw (e, o)
          (elim (Bool-cases buf.is_chr) [
            | inr c ↦ simp c (returns (inl refl))
            | inl c ↦ simp c (
                Returns-bind (created_device env fd _ (roomy _)) λ p u (n, at).
                  rw (ne-null p n, at)
                    (returns (
                      inr (
                        buf,
                        n,
                        write_self u.heap p _,
                        undestroyed tables fd buf p _ ops (write_self u.heap p _),
                      ))))
          ])
  ])
]
