-- ===== src/Udev/Leaks.antt =====
-- What `_gbm_fd_get_device_name` gives back of udev.
use libgbm.Base.{
  ℕ, ◌+◌, ℤ, pos, Option, ◌≡◌, ◌⊎◌, refl, none, [], ◌∷◌, inl, inr, arith, ◌==◌, if◌then◌else◌,
  Bool-cases, Option-cases,
}
use libgbm.Types.{Ptr, null, CString}
use libgbm.Machine.{Env, IsLawful, Event, State, Trace, Returns, returns}
use libgbm.Udev.{
  UdevLibrary, gbm_fd_get_device_name, gbm_udev_device_new_from_fd, udev_device_from_devnum,
  new_udev, device_name,
}

-- How often a udev context was asked for, and given back.
abbrev pub contexts_taken : Trace → ℕ
contexts_taken [] = 0
contexts_taken (Event.udev_new udev ∷ t) = 1 + contexts_taken t
contexts_taken (_ ∷ t) = contexts_taken t

abbrev pub contexts_returned : Trace → ℕ
contexts_returned [] = 0
contexts_returned (Event.udev_unref udev ∷ t) = 1 + contexts_returned t
contexts_returned (_ ∷ t) = contexts_returned t

-- How often a device was got from udev, and given back.
abbrev pub devices_taken : Trace → ℕ
devices_taken [] = 0
devices_taken (Event.udev_device_new udev devnum device ∷ t) =
    (if device == null then 0 else 1) + devices_taken t
devices_taken (_ ∷ t) = devices_taken t

abbrev pub devices_returned : Trace → ℕ
devices_returned [] = 0
devices_returned (Event.udev_device_unref device ∷ t) = 1 + devices_returned t
devices_returned (_ ∷ t) = devices_returned t

-- From the state `s` to `u`: `m` devices were got from udev and `lost` contexts not given back.
pub record Looked (s : State) (name : Option CString) (m lost : ℕ) (u : State) : Type 0 where
  pub asked : contexts_taken u.trace ≡ 1 + contexts_taken s.trace
  pub context : lost + contexts_returned u.trace ≡ 1 + contexts_returned s.trace
  pub got : devices_taken u.trace ≡ m + devices_taken s.trace
  pub device : devices_returned u.trace ≡ m + devices_returned s.trace
  pub heap : u.heap ≡ s.heap
  pub unnamed : m ≡ 0 → name ≡ none

module _ {env : Env} (law : IsLawful env) (lib : UdevLibrary) (fd : ℤ) (s : State) where
  -- If fstat keeps what its manual says, `_gbm_fd_get_device_name` never faults, and on each of its
  -- paths it asks for one udev context and gives each device that it gets from udev back. If it
  -- gets one, it gives the context back too; if not (fstat fails, or udev knows no device), it
  -- returns NULL and the context is never given back.
  pub device_name-Looked :
      Returns
        (λ name u. Looked s name 1 0 u ⊎ Looked s name 0 1 u)
        (gbm_fd_get_device_name env lib fd s)
  unfolding gbm_fd_get_device_name gbm_udev_device_new_from_fd udev_device_from_devnum new_udev
      device_name
  device_name-Looked = elim (law.stated begun fd) [
    | inl e ↦ rw e (
        returns (
          inr (record {
            asked = refl;
            context = omega arith;
            got = omega arith;
            device = omega arith;
            heap = refl;
            unnamed = λ e. refl;
          })))
    | inr (e, (buf, o)) ↦
        let asked = Event.fstat fd (pos 0) ∷ begun in
        let device = lib.udev_device_new_from_devnum asked udev buf.st_rdev in
        let known = Event.udev_device_new udev buf.st_rdev device ∷ asked in
        rw (e, o)
          (elim (Bool-cases (device == null)) [
            | inl z ↦ rw z (
                returns (
                  inr (record {
                    asked = refl;
                    context = omega arith;
                    got = ground (arith, z);
                    device = omega arith;
                    heap = refl;
                    unnamed = λ e. refl;
                  })))
            | inr z ↦ rw z (elim (Option-cases (lib.udev_device_get_devnode known device)) [
              | inl n ↦
                  rw (n, device_name)
                    (returns (
                      inl (record {
                        asked = refl;
                        context = omega arith;
                        got = ground (arith, z);
                        device = omega arith;
                        heap = refl;
                        unnamed = λ e. refl;
                      })))
              | inr (node, n) ↦
                  rw (n, device_name)
                    (returns (
                      inl (record {
                        asked = refl;
                        context = omega arith;
                        got = ground (arith, z);
                        device = omega arith;
                        heap = refl;
                        unnamed = λ e. absurd (omega (arith, e));
                      })))
            ])
          ])
  ]
    where
      udev : Ptr
      udev = lib.udev_new s.trace

      begun : Trace
      begun = Event.udev_new udev ∷ s.trace
