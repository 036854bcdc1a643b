-- ===== src/Kms/Surfaces/Frames.antt =====
-- The life of a surface: the GL stack fills its slots and chooses the front, the client locks the
-- front buffer and releases it, in any order.
pub mod Keeping
pub mod Runs
use libgbm.Base.{ℕ, zero, suc, ◌<◌, ℤ, pos, ◌≡◌, ◌≢◌, ◌⊎◌, some}
use libgbm.Types.{Ptr, null, KmsSurface, a_surface}
use libgbm.Machine.{Env, State, M, pure, ok, ◌>>=◌, ◌>>◌}
use libgbm.Kms.Surfaces.{
  slot, gbm_kms_set_bo, gbm_kms_set_front, gbm_kms_surface_lock_front_buffer,
  gbm_kms_surface_release_buffer, gbm_kms_surface_has_free_buffers,
}

pub data FrameCall : Type 0 where
  fill : (n : ℕ) → (addr : Ptr) → (fd : ℤ) → (stride : ℕ) → FrameCall
  flip : (n : ℕ) → FrameCall
  lock : FrameCall
  release : (bo : Ptr) → FrameCall
  query : FrameCall

-- The result of `set_bo`, and 0 for the calls that cannot fail.
abbrev pub perform : Env → (surf : Ptr) → FrameCall → M ℤ
perform env surf (fill n addr fd stride) = gbm_kms_set_bo env surf (pos n) addr fd stride
perform env surf (flip n) = gbm_kms_set_front surf (pos n) >> pure (pos 0)
perform env surf lock = gbm_kms_surface_lock_front_buffer surf >> pure (pos 0)
perform env surf (release bo) = gbm_kms_surface_release_buffer surf bo >> pure (pos 0)
perform env surf query = gbm_kms_surface_has_free_buffers surf >> pure (pos 0)

-- What the surface has to be for a call.
abbrev pub Suits : FrameCall → KmsSurface → Type 0
Suits (fill n addr fd stride) f = (n < 2) × ((addr ≢ null) ⊎ (stride ≢ 0))
Suits (flip n) f = (n < 2) × (slot f (pos n) ≢ null)
Suits lock f = Unit {0}
Suits (release bo) f = (bo ≢ null) × ((bo ≡ f.bo0) ⊎ (bo ≡ f.bo1))
Suits query f = (f.bo0 ≢ null) × (f.bo1 ≢ null)

-- The GL stack fills a slot with a buffer and makes only a slot that is filled the front; the
-- client releases buffers that are still in a slot, and asks for free ones when both are filled.
abbrev pub IsAllowed : (surf : Ptr) → State → FrameCall → Type 0
IsAllowed surf s c = (f : KmsSurface) × (s.heap surf ≡ some (a_surface f)) × Suits c f

module _ (env : Env) (surf : Ptr) where
  -- One allowed call that returns 0.
  pub data Step (s u : State) : Type 0 where
    frame : (c : FrameCall) → IsAllowed surf s c → perform env surf c s ≡ ok (pos 0) u → Step s u

  pub data Reach (s : State) : State → Type 0 where
    here : Reach s s
    next : {u v : State} → Reach s u → Step u v → Reach s v
