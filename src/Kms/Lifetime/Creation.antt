-- ===== src/Kms/Lifetime/Creation.antt =====
-- `gbm_kms_bo_create`: what a successful call leaves, and that a failed one leaves nothing.
use libgbm.Base.{ℕ, false, ◌≡◌, ◌≢◌, refl, some, none, ◌==◌, ◌⊎◌, inl, inr, arith, Bool-cases}
use libgbm.Types.{Ptr, null, KmsDevice, zero_bo, a_bo, a_device}
use libgbm.Machine.{
  Env, IsLawful, State, Returns, returns, Returns-bind, ◌>>=◌, Holds-refl, enomem, write,
  write_self,
}
use libgbm.Format.{gbm_format_canonicalize}
use libgbm.Kms.Formats.{is_32bpp, einval}
use libgbm.Kms.Lifetime.{gbm_kms_bo_create, gbm_kms_bo_destroy, create_failed}
use libgbm.Kms.Lifetime.Ownership.{Undone, destroy-Undone, destroy-plain}
use libgbm.Kms.Lifetime.Stages.{
  Created, failed, made, IsNew, unowned-Created, create_storage-Created,
}

module _ {env : Env} (law : IsLawful env) (gbm : Ptr) (width height format usage : ℕ) where
  -- If the libraries keep what they document and the device is live, `gbm_kms_bo_create` never
  -- faults: it returns NULL, with the heap as it was, or the address of a new object as `IsNew`
  -- says, in the canonical format. But for descriptor 0, which is not counted (the object takes it
  -- for none), each resource that a call returning NULL acquired is given back, and a new object
  -- holds exactly the resources that were acquired.
  pub bo_create-Created :
      (d : KmsDevice) (s : State)
      → s.heap gbm ≡ some (a_device d)
      → Returns
          (Created
            (IsNew env gbm width height (gbm_format_canonicalize format) usage)
            s.heap
            s.trace)
          (gbm_kms_bo_create env gbm width height format usage s)
  unfolding gbm_kms_bo_create
  bo_create-Created d s dev = elim (Bool-cases (bo == 0)) [
    | inl z ↦
        rw z (returns (failed refl (record { same = λ q. refl; balanced = Holds-refl s.trace })))
    | inr z ↦
        rw (z, z)
          (elim (Bool-cases (is_32bpp fourcc)) [
            | inl f ↦ rw f (
                create_storage-Created law gbm width height fourcc usage s.heap s.trace bo d _
                  (ground arith) (unused z) dev (λ q. refl) (Holds-refl s.trace))
            | inr f ↦ rw f (
                unowned-Created law gbm width height fourcc usage s.heap s.trace bo zero_bo _
                  (ground arith) (unused z) refl refl (λ q. refl) (Holds-refl s.trace))
          ])
  ]
    where
      bo : Ptr
      bo = env.calloc s.heap s.trace

      fourcc : ℕ
      fourcc = gbm_format_canonicalize format

      unused : (bo == 0) ≡ false → s.heap bo ≡ none
      unused z = law.fresh s.heap s.trace (ground arith)

  -- If the libraries keep what they document and the device is live, creating a buffer object and
  -- destroying what the call returned never faults, leaves the heap as it was, and gives back every
  -- resource that was acquired but descriptor 0, on every path of the creation.
  bo_create-bo_destroy :
      (d : KmsDevice) (s : State)
      → s.heap gbm ≡ some (a_device d)
      → Returns
          (λ _ u. Undone s.heap s.trace u)
          ((gbm_kms_bo_create env gbm width height format usage >>= gbm_kms_bo_destroy env) s)
  bo_create-bo_destroy d s dev = Returns-bind (bo_create-Created d s dev) λ p u c. elim c [
    | failed e un ↦ rw e (unfold gbm_kms_bo_destroy in returns un)
    | made b ne unused al new st ↦ destroy-Undone env s.heap s.trace p b u ne unused al st
  ]

  -- If the libraries keep what they document and the canonical format is neither ARGB8888 nor
  -- XRGB8888, `gbm_kms_bo_create` returns NULL with errno EINVAL, or ENOMEM where memory ran out,
  -- calls no library, and leaves the heap as it was.
  pub bo_create-unsupported :
      (s : State)
      → is_32bpp (gbm_format_canonicalize format) ≡ false
      → Returns
          (λ p u.
            (p ≡ null)
            × ((u.errno ≡ einval) ⊎ (u.errno ≡ enomem))
            × (u.trace ≡ s.trace)
            × ((q : Ptr) → u.heap q ≡ s.heap q))
          (gbm_kms_bo_create env gbm width height format usage s)
  unfolding gbm_kms_bo_create create_failed
  bo_create-unsupported s f = elim (Bool-cases (bo == 0)) [
    | inl z ↦ rw z (returns (refl, inr refl, refl, λ q. refl))
    | inr z ↦
        let ne : bo ≢ null = ground arith in
        let placed : State = record s {
          heap = write s.heap bo (some (a_bo zero_bo));
          errno = einval;
        } in
        rw
          (
            z,
            z,
            f,
            destroy-plain env bo zero_bo placed ne refl refl
                (write_self s.heap bo (some (a_bo zero_bo))),
          )
          (returns (refl, inl refl, refl, λ q. ground (arith, law.fresh s.heap s.trace ne)))
  ]
    where
      bo : Ptr
      bo = env.calloc s.heap s.trace
