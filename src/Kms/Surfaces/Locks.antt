-- ===== src/Kms/Surfaces/Locks.antt =====
-- The lock of a surface's front buffer.
use libgbm.Base.{
  ℕ, zero, suc, ◌<◌, ℤ, pos, is_zero, ◌≡◌, ◌≢◌, refl, some, inl, inr, arith, if◌then◌else◌, ◌||◌,
  ==-refl, Bool-cases,
}
use libgbm.Types.{Ptr, KmsBo, KmsSurface, a_bo, a_surface}
use libgbm.Machine.{State, ok, write, Returns, returns, ◌>>=◌, ◌>>◌}
use libgbm.Kms.Surfaces.{
  slot, gbm_kms_surface_lock_front_buffer, gbm_kms_surface_release_buffer,
  gbm_kms_surface_has_free_buffers, gbm_kms_is_bo_locked,
}

-- A surface with two buffers and a front buffer.
pub record IsDouble (surf : Ptr) (f : KmsSurface) (b0 b1 : KmsBo) (n : ℕ) (s : State) : Type 0 where
  pub at : s.heap surf ≡ some (a_surface f)
  pub first : s.heap f.bo0 ≡ some (a_bo b0)
  pub second : s.heap f.bo1 ≡ some (a_bo b1)
  pub distinct : f.bo0 ≢ f.bo1
  pub front : f.front ≡ pos n
  pub in_range : n < 2

-- The buffer at the front, and the other one.
abbrev pub front_of : ℕ → KmsBo → KmsBo → KmsBo
front_of zero b0 b1 = b0
front_of (suc n) b0 b1 = b1

abbrev pub back_of : ℕ → KmsBo → KmsBo → KmsBo
back_of zero b0 b1 = b1
back_of (suc n) b0 b1 = b0

abbrev pub locked_as : ℤ → KmsBo → KmsBo
locked_as l b = record b { locked = l }

module _ (surf : Ptr) (f : KmsSurface) (b0 b1 : KmsBo) where
  -- The front buffer is returned, and its lock is set.
  pub lock-front :
      (n : ℕ) (s : State)
      → IsDouble surf f b0 b1 n s
      → gbm_kms_surface_lock_front_buffer surf s
        ≡ ok (slot f (pos n)) (record s {
          heap = write s.heap (slot f (pos n)) (some (a_bo (locked_as (pos 1) (front_of n b0 b1))));
        })
  unfolding gbm_kms_surface_lock_front_buffer
  lock-front zero s w = rw w.at (simp w.front (rw w.first))
  lock-front (suc zero) s w = rw w.at (simp w.front (rw w.second))
  lock-front (suc (suc n)) s w = absurd (omega (arith, w.in_range))

  -- The answer is 1 if one of the two buffers is not locked, and 0 if both are.
  pub has_free_buffers_lem :
      (n : ℕ) (s : State)
      → IsDouble surf f b0 b1 n s
      → gbm_kms_surface_has_free_buffers surf s
        ≡ ok (if is_zero b0.locked || is_zero b1.locked then pos 1 else pos 0) s
  unfolding gbm_kms_surface_has_free_buffers
  has_free_buffers_lem n s w = elim (Bool-cases (is_zero b0.locked)) [
    | inl z ↦ rw w.at (rw w.first (simp z))
    | inr z ↦ rw w.at (rw w.first (simp z (rw w.second)))
  ]

-- The two buffers with the lock of the front one set to `l`.
abbrev pub first_with : ℕ → ℤ → KmsBo → KmsBo
first_with zero l b0 = locked_as l b0
first_with (suc n) l b0 = b0

abbrev pub second_with : ℕ → ℤ → KmsBo → KmsBo
second_with zero l b1 = b1
second_with (suc n) l b1 = locked_as l b1

-- A write of the front buffer's lock keeps the surface as it is.
IsDouble-locked :
    (surf : Ptr) (f : KmsSurface) (b0 b1 : KmsBo) (n : ℕ) (l : ℤ) (s : State)
    → IsDouble surf f b0 b1 n s
    → IsDouble surf f (first_with n l b0) (second_with n l b1) n (record s {
      heap = write s.heap (slot f (pos n)) (some (a_bo (locked_as l (front_of n b0 b1))));
    })
IsDouble-locked surf f b0 b1 zero l s w = record {
  at = ground (arith, w.at, w.first);
  first = ground arith;
  second = ground (arith, w.second, w.distinct);
  distinct = w.distinct;
  front = w.front;
  in_range = w.in_range;
}
IsDouble-locked surf f b0 b1 (suc zero) l s w = record {
  at = ground (arith, w.at, w.second);
  first = ground (arith, w.first, w.distinct);
  second = ground arith;
  distinct = w.distinct;
  front = w.front;
  in_range = w.in_range;
}
IsDouble-locked surf f b0 b1 (suc (suc n)) l s w = absurd (omega (arith, w.in_range))

module _ (surf : Ptr) (f : KmsSurface) (b0 b1 : KmsBo) where
  -- On a surface with two buffers, once the front buffer is locked the surface says that it has a
  -- free buffer exactly when the other one is not locked.
  pub lock-has_free_buffers :
      (n : ℕ) (s : State)
      → IsDouble surf f b0 b1 n s
      → Returns
          (λ answer u. answer ≡ (if is_zero (back_of n b0 b1).locked then pos 1 else pos 0))
          ((gbm_kms_surface_lock_front_buffer surf >> gbm_kms_surface_has_free_buffers surf) s)
  lock-has_free_buffers zero s w =
      rw
        (
          lock-front surf f b0 b1 0 s w,
          has_free_buffers_lem surf f (locked_as (pos 1) b0) b1 0 _
              (IsDouble-locked surf f b0 b1 0 (pos 1) s w),
        )
        (returns refl)
  lock-has_free_buffers (suc zero) s w =
      rw
        (
          lock-front surf f b0 b1 1 s w,
          has_free_buffers_lem surf f b0 (locked_as (pos 1) b1) 1 _
              (IsDouble-locked surf f b0 b1 1 (pos 1) s w),
        )
        (returns (ground arith))
  lock-has_free_buffers (suc (suc n)) s w = absurd (omega (arith, w.in_range))

  -- The lock is a flag and no count: when the front buffer of a surface with two buffers has been
  -- locked twice, a single release leaves it unlocked.
  pub lock_twice-release :
      (n : ℕ) (s : State)
      → IsDouble surf f b0 b1 n s
      → Returns
          (λ locked u. locked ≡ pos 0)
          ((gbm_kms_surface_lock_front_buffer surf
              >> (gbm_kms_surface_lock_front_buffer surf >>= λ p.
                  gbm_kms_surface_release_buffer surf p >> gbm_kms_is_bo_locked p))
            s)
  unfolding gbm_kms_surface_release_buffer gbm_kms_is_bo_locked
  lock_twice-release n s w =
      rw
        (
          lock-front surf f b0 b1 n s w,
          lock-front surf f (first_with n (pos 1) b0) (second_with n (pos 1) b1) n _
              (IsDouble-locked surf f b0 b1 n (pos 1) s w),
          ==-refl (slot f (pos n)),
          ==-refl (slot f (pos n)),
        )
        (returns refl)
