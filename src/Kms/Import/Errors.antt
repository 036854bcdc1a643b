-- ===== src/Kms/Import/Errors.antt =====
-- The imports that are refused, and an import that fails halfway.
use libgbm.Base.{
  ℕ, ◌<◌, ℤ, pos, is_neg, is_zero_of_neg, true, false, ◌≡◌, ◌≢◌, refl, some, none, List, [], ◌∷◌,
  ◌⊎◌, arith, ◌==◌, not, ◌&&◌,
}
use libgbm.Types.{Ptr, null, KmsDevice, ImportFdModifierData, ImportBuffer, a_device, max_planes}
use libgbm.Machine.{Env, Event, State, Returns, returns, Holds, ok, Trace}
use libgbm.Kms.Formats.{einval, mod_invalid}
use libgbm.Kms.Import.{
  gbm_kms_bo_import, gbm_kms_import_fd_modifier, import_handles, import_wl_buffer, import_fd,
  import_fd_modifier,
}
use libgbm.Kms.Import.Handles.{handles_held}

module _ (env : Env) (gbm : Ptr) where
  -- An import of any type but the three that the backend knows returns NULL with EINVAL, makes no
  -- call and leaves the heap as it is.
  bo_import-unknown :
      (type : ℕ) (buffer : ImportBuffer) (usage : ℕ) (s : State)
      → type ≢ import_wl_buffer
      → type ≢ import_fd
      → type ≢ import_fd_modifier
      → gbm_kms_bo_import env gbm type buffer usage s ≡ ok null (record s { errno = einval })
  unfolding gbm_kms_bo_import
  bo_import-unknown type buffer usage s a b c = ground (arith, a, b, c)

  -- An import by descriptors whose modifier is neither linear nor invalid, which has no descriptor,
  -- or which has more descriptors than an object has planes, returns NULL with EINVAL, makes no
  -- call and leaves the heap as it is.
  pub import_fd_modifier-refused :
      (data' : ImportFdModifierData) (s : State)
      → ((data'.modifier ≢ env.format_mod_linear) × (data'.modifier ≢ mod_invalid))
        ⊎ ((data'.num_fds ≡ 0) ⊎ (max_planes < data'.num_fds))
      → gbm_kms_import_fd_modifier env gbm data' s ≡ ok null (record s { errno = einval })
  unfolding gbm_kms_import_fd_modifier
  import_fd_modifier-refused data' s bad = ground (arith, bad)

module _ (env : Env) (gbm : Ptr) (d : KmsDevice) where
  -- Of an import by two descriptors, where the kernel gives a handle for the first and refuses the
  -- second, NULL is returned, the heap is as it was, and the first handle stays open.
  pub import_fd_modifier-leak :
      (data' : ImportFdModifierData) (a b : ℤ) (fds : List ℤ) (h : ℕ) (s : State)
      → s.heap gbm ≡ some (a_device d)
      → data'.modifier ≡ mod_invalid
      → data'.num_fds ≡ 2
      → data'.fds ≡ a ∷ b ∷ fds
      → env.prime_fd_to_handle s.trace d.fd a ≡ record { ret = pos 0; out = some h }
      → ((t : Trace) → is_neg (env.prime_fd_to_handle t d.fd b).ret ≡ true)
      → ((t : Trace) → (env.prime_fd_to_handle t d.fd b).out ≡ none)
      → Returns
          (λ p u.
            (p ≡ null) × (u.heap ≡ s.heap) × Holds (handles_held d.fd (h ∷ [])) s.trace u.trace)
          (gbm_kms_import_fd_modifier env gbm data' s)
  unfolding gbm_kms_import_fd_modifier import_handles
  import_fd_modifier-leak data' a b fds h s dev m n f one two out =
      rw (m, n, f)
        (rw guard (
          rw dev (
            rw one (
              rw dev (
                simp (is_zero_of_neg _ (two t))
                  (returns (refl, refl, λ q. ground (arith, out t))))))))
    where
      t : Trace
      t = Event.prime_fd_to_handle d.fd a (pos 0) (some h) ∷ s.trace

      guard : (not (mod_invalid == env.format_mod_linear) && false) ≡ false
      guard = ground arith
