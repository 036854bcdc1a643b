-- ===== src/Kms/Surfaces/Faults.antt =====
-- Where the code of the surfaces goes wrong: dangling and missing buffers, and a leak.
use libgbm.Base.{
  ℕ, ◌<◌, ℤ, pos, is_neg, int_leb, ◌||◌, false, ==-refl, ◌≡◌, ◌≢◌, some, none, arith, ◌==◌,
}
use libgbm.Types.{Ptr, null, KmsBo, KmsSurface, a_bo, a_surface}
use libgbm.Machine.{Env, State, fault, ne-null, free, free-some, Returns, returns, ◌>>◌}
use libgbm.Kms.Surfaces.{
  slot, gbm_kms_surface_set_bo, gbm_kms_surface_destroy, gbm_kms_surface_has_free_buffers,
}

module _ (env : Env) (surf : Ptr) (f : KmsSurface) (b : KmsBo) where
  -- Clearing a slot by the address NULL and the stride 0 frees the buffer but leaves its address in
  -- the surface: if the slot held a live buffer, the next call for that slot, whatever its
  -- arguments, frees it a second time, a fault.
  pub set_bo-cleared_twice :
      (n : ℕ) (fd fd' : ℤ) (addr : Ptr) (stride : ℕ) (s : State)
      → n < 2
      → s.heap surf ≡ some (a_surface f)
      → slot f (pos n) ≢ null
      → s.heap (slot f (pos n)) ≡ some (a_bo b)
      → (gbm_kms_surface_set_bo env surf (pos n) null fd 0
            >> gbm_kms_surface_set_bo env surf (pos n) addr fd' stride)
          s
        ≡ fault
  unfolding gbm_kms_surface_set_bo free
  set_bo-cleared_twice n fd fd' addr stride s lt at ne live = rw (
    guard,
    at,
    ne-null (slot f (pos n)) ne,
    live,
    apart,
    at,
    ne-null (slot f (pos n)) ne,
    ==-refl (slot f (pos n)),
  )
    where
      guard : (is_neg (pos n) || int_leb (pos 2) (pos n)) ≡ false
      guard = ground arith

      apart : (surf == slot f (pos n)) ≡ false
      apart = ground arith

-- A surface that has no buffer yet cannot be asked for a free one:
-- `gbm_kms_surface_has_free_buffers` reads through the NULL in its first slot, a fault (address 0
-- holds no object).
pub has_free_buffers-new :
    (surf : Ptr) (f : KmsSurface) (s : State)
    → s.heap null ≡ none
    → s.heap surf ≡ some (a_surface f)
    → f.bo0 ≡ null
    → gbm_kms_surface_has_free_buffers surf s ≡ fault
unfolding gbm_kms_surface_has_free_buffers
has_free_buffers-new surf f s zero' at e = rw at (simp (e, zero'))

-- Destroying a surface frees nothing but the surface: its buffers stay allocated.
pub surface_destroy-leak :
    (surf : Ptr) (f : KmsSurface) (s : State)
    → surf ≢ null
    → s.heap surf ≡ some (a_surface f)
    → Returns
        (λ _ u.
          (u.heap surf ≡ none)
          × ((p : Ptr) (b : KmsBo) → s.heap p ≡ some (a_bo b) → u.heap p ≡ some (a_bo b)))
        (gbm_kms_surface_destroy surf s)
unfolding gbm_kms_surface_destroy
surface_destroy-leak surf f s ne at =
    rw (ne-null surf ne, free-some surf (a_surface f) s ne at)
      (returns (ground arith, λ p b e. ground arith))
