-- ===== src/Frontend/Objects.antt =====
-- Buffer objects through gbm.c over the KMS backend: creation, queries and destruction.
use libgbm.Base.{
  ℕ, true, ◌≡◌, ◌≢◌, refl, ◌∙◌, ap, ◌||◌, some, ◌⊎◌, inl, inr, arith, ◌==◌, Bool-cases,
}
use libgbm.Types.{Ptr, null, KmsDevice, a_device, a_bo}
use libgbm.Machine.{
  Env, IsLawful, State, M, ok, write_self, Returns, returns, Returns-mono, Holds-refl,
}
use libgbm.Format.{
  gbm_format_canonicalize, bits_per_pixel, argb8888, xrgb8888, formats_8, formats_16, formats_24,
  formats_32, fourcc,
}
use libgbm.Kms.Formats.{einval, is_32bpp}
use libgbm.Kms.Lifetime.Ownership.{Undone, destroy-Undone}
use libgbm.Kms.Lifetime.Stages.{failed, made}
use libgbm.Kms.Lifetime.Creation.{bo_create-Created, bo_create-unsupported}
use libgbm.Kms.Table.{kms_gbm_device}
use libgbm.Frontend.Dispatch.{Tables}
use libgbm.Frontend.Buffer.{gbm_bo_destroy, gbm_bo_get_bpp}
use libgbm.Frontend.Creation.{gbm_bo_create, gbm_bo_create_with_modifiers}

module _ (tables : Tables) (gbm : Ptr) (width height format : ℕ) (s : State) where
  -- A buffer object without width or without height is refused by both functions before the
  -- backend is asked: they return NULL with EINVAL, make no call, and leave the heap as it is.
  pub bo_create-refused :
      (usage : ℕ) (modifiers : Ptr) (count : ℕ)
      → (width ≡ 0) ⊎ (height ≡ 0)
      → (gbm_bo_create tables gbm width height format usage s
          ≡ ok null (record s { errno = einval }))
        × (gbm_bo_create_with_modifiers tables gbm width height format modifiers count s
            ≡ ok null (record s { errno = einval }))
  unfolding gbm_bo_create gbm_bo_create_with_modifiers
  bo_create-refused usage modifiers count z = (ground (arith, z), ground (arith, z))

is_32bpp-bits_per_pixel : (f : ℕ) → is_32bpp f ≡ true → bits_per_pixel f ≡ 32
unfolding bits_per_pixel formats_8 formats_16 formats_24 formats_32 fourcc
is_32bpp-bits_per_pixel f z = elim (Bool-cases (f == argb8888)) [
  | inl a ↦ let e : f ≡ argb8888 = ground arith in rw e refl
  | inr a ↦ let e : f ≡ xrgb8888 = ground (arith, z, a) in rw e refl
]

module _ {env : Env} (law : IsLawful env) (tables : Tables) (gbm : Ptr) (d : KmsDevice)
    (callback : (address bo user_data : Ptr) → M (Unit {0})) (width height format usage : ℕ) where
  -- The whole stack: if the libraries keep what they document, then on a live device of the KMS
  -- backend, `gbm_bo_create` never faults. It returns NULL with the heap as it was and every
  -- resource given back, or an object such that `gbm_bo_destroy` of it runs no callback, puts the
  -- heap back, and gives back every resource.
  gbm_bo_create-gbm_bo_destroy :
      (s : State)
      → tables d.table ≡ kms_gbm_device env
      → s.heap gbm ≡ some (a_device d)
      → Returns
          (λ p u.
            ((p ≡ null) × Undone s.heap s.trace u)
            ⊎ ((p ≢ null)
                × Returns (λ _ v. Undone s.heap s.trace v) (gbm_bo_destroy tables callback p u)))
          (gbm_bo_create tables gbm width height format usage s)
  unfolding gbm_bo_create gbm_bo_destroy
  gbm_bo_create-gbm_bo_destroy s kms live = elim (Bool-cases ((width == 0) || (height == 0))) [
    | inl z ↦
        rw z (returns (inl (refl, record { same = λ q. refl; balanced = Holds-refl s.trace })))
    | inr z ↦
        rw (z, live, kms)
          (Returns-mono (bo_create-Created law gbm width height format usage d s live) λ p u c.
            elim c [
              | failed e un ↦ inl (e, un)
              | made b ne unused al new st ↦
                  let here : u.heap p ≡ some (a_bo b) =
                    st.at p ∙ write_self s.heap p (some (a_bo b)) in
                  let device : u.heap gbm ≡ some (a_device d) =
                    ground (arith, st.at gbm, live, unused) in
                  inr (
                    ne,
                    rw here (
                        simp (new.uncalled, here, new.device, device, kms)
                          (destroy-Undone env s.heap s.trace p b u ne unused al st)),
                  )
            ])
  ]

  -- If the libraries keep what they document, every object that `gbm_bo_create` makes on a device
  -- of the KMS backend has 32 bits per pixel: `gbm_bo_get_bpp` of the address that it returns,
  -- unless that is NULL, gives 32.
  gbm_bo_create-gbm_bo_get_bpp :
      (s : State)
      → tables d.table ≡ kms_gbm_device env
      → s.heap gbm ≡ some (a_device d)
      → Returns
          (λ p u. (p ≡ null) ⊎ (gbm_bo_get_bpp p u ≡ ok 32 u))
          (gbm_bo_create tables gbm width height format usage s)
  unfolding gbm_bo_create gbm_bo_get_bpp
  gbm_bo_create-gbm_bo_get_bpp s kms live = elim (Bool-cases ((width == 0) || (height == 0))) [
    | inl z ↦ rw z (returns (inl refl))
    | inr z ↦
        rw (z, live, kms)
          (elim (Bool-cases (is_32bpp (gbm_format_canonicalize format))) [
            | inr k ↦
                Returns-mono (bo_create-unsupported law gbm width height format usage s k)
                  λ p u c. inl c.0
            | inl k ↦
                Returns-mono (bo_create-Created law gbm width height format usage d s live) λ p u c.
                  elim c [
                    | failed e un ↦ inl e
                    | made b ne unused al new st ↦ inr (
                        rw (st.at p, write_self s.heap p (some (a_bo b)), new.formatted)
                          (ap (λ n. ok n u) (is_32bpp-bits_per_pixel _ k)))
                  ]
          ])
  ]
