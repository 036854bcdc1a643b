-- ===== src/Kms/Import/Multiple.antt =====
-- Import by several descriptors, one for each plane, where it succeeds.
use libgbm.Base.{
  ℕ, ◌<◌, ◌≤◌, ℤ, pos, true, false, not, ◌&&◌, ◌||◌, ltb, to_u32, ◌≡◌, ◌≢◌, ◌∙◌, refl, ap, sym,
  some, none, List, [], ◌∷◌, ◌⊎◌, inl, inr, arith, ◌==◌, length, take, map, get_elem?, Bool-cases,
}
use libgbm.Types.{
  Ptr, null, KmsDevice, KmsBo, KmsPlane, ImportFdModifierData, a_device, a_bo, max_planes, zero_bo,
}
use libgbm.Machine.{Env, IsLawful, State, Returns, returns, Returns-bind, Returns-mono, write, ok}
use libgbm.Format.{gbm_format_canonicalize}
use libgbm.Kms.Formats.{mod_invalid}
use libgbm.Kms.Query.Planes.{planes_of}
use libgbm.Kms.Import.{
  gbm_kms_import_fd_modifier, modifier_bo, copy_planes, zip_planes, imported_bo,
}
use libgbm.Kms.Import.Handles.{AllNonzero, all, partial, import_handles-Handles}
use libgbm.Kms.Import.Single.{Owns, IsImported, Imported, failed, made}

-- The members of an object that was imported by several descriptors; `planes_of` is what the
-- queries of its planes show.
pub record HasModifierData (data' : ImportFdModifierData) (hs : List ℕ) (b : KmsBo) : Type 0 where
  pub wide : b.base.width ≡ data'.width
  pub high : b.base.height ≡ data'.height
  pub formatted : b.base.format ≡ gbm_format_canonicalize data'.format
  pub counted : length hs ≡ data'.num_fds
  pub handles : map (λ p. p.handle) (planes_of (length hs) b) ≡ hs
  pub strides :
      map (λ p. p.stride) (planes_of (length hs) b) ≡ map to_u32 (take (length hs) data'.strides)

-- What `modifier_bo` returns in the state in which the handles are held.
data Made (gbm : Ptr) (data' : ImportFdModifierData) (hs : List ℕ) (s : State) (p : Ptr) (u : State)
    : Type 0 where
  no_memory : p ≡ null → u.heap ≡ s.heap → u.trace ≡ s.trace → Made gbm data' hs s p u
  object :
      (b : KmsBo)
      → p ≢ null
      → s.heap p ≡ none
      → IsImported gbm hs b
      → HasModifierData data' hs b
      → ((q : Ptr) → u.heap q ≡ write s.heap p (some (a_bo b)) q)
      → u.trace ≡ s.trace
      → Made gbm data' hs s p u

module _ (gbm : Ptr) (data' : ImportFdModifierData) where
  abbrev planar_bo : (h : ℕ) → (x : ℤ) → List KmsPlane → KmsBo
  planar_bo h x planes = record blank {
    allocated_handle = true;
    num_planes = pos data'.num_fds;
    planes = planes;
  }
    where
      blank : KmsBo
      blank =
          imported_bo gbm data'.width data'.height (gbm_format_canonicalize data'.format) (to_u32 x)
            h

  -- What the copied planes have to be.
  record Fits (hs : List ℕ) : Type 0 where
    first : ℕ
    stride : ℤ
    planes : List KmsPlane
    at_handle : get_elem? hs 0 ≡ some first
    at_stride : get_elem? data'.strides 0 ≡ some stride
    copied :
        (v : State)
        → copy_planes data'.num_fds 0 (zip_planes hs data'.strides) zero_bo.planes v ≡ ok planes v
    owns : Owns hs (planar_bo first stride planes)
    handles : map (λ p. p.handle) (planes_of (length hs) (planar_bo first stride planes)) ≡ hs
    strides :
        map (λ p. p.stride) (planes_of (length hs) (planar_bo first stride planes))
        ≡ map to_u32 (take (length hs) data'.strides)

  strides-Fits :
      (hs : List ℕ) (strides : List ℤ)
      → data'.strides ≡ strides
      → data'.num_fds ≡ length hs
      → 0 < length hs
      → length hs ≤ max_planes
      → length hs ≤ length strides
      → AllNonzero hs
      → Fits hs
  unfolding copy_planes
  strides-Fits [] strides e n low high long nz = absurd (omega arith)
  strides-Fits (h ∷ hs) [] e n low high long nz = absurd (omega arith)
  strides-Fits (h ∷ []) (x ∷ strides) e n low high long (a, _) =
      rw (e, n)
        (record {
          first = h;
          stride = x;
          planes = _;
          at_handle = refl;
          at_stride = refl;
          copied = λ v. refl;
          owns = (refl, a);
          handles = refl;
          strides = refl;
        })
  strides-Fits (h ∷ k ∷ []) (x ∷ []) e n low high long nz = absurd (omega arith)
  strides-Fits (h ∷ k ∷ []) (x ∷ y ∷ strides) e n low high long (a, (b, _)) =
      rw (e, n)
        (record {
          first = h;
          stride = x;
          planes = _;
          at_handle = refl;
          at_stride = refl;
          copied = λ v. refl;
          owns = (refl, a, (refl, b, tt));
          handles = refl;
          strides = refl;
        })
  strides-Fits (h ∷ k ∷ l ∷ []) (x ∷ []) e n low high long nz = absurd (omega arith)
  strides-Fits (h ∷ k ∷ l ∷ []) (x ∷ y ∷ []) e n low high long nz = absurd (omega arith)
  strides-Fits (h ∷ k ∷ l ∷ []) (x ∷ y ∷ z ∷ strides) e n low high long (a, (b, (c, _))) =
      rw (e, n)
        (record {
          first = h;
          stride = x;
          planes = _;
          at_handle = refl;
          at_stride = refl;
          copied = λ v. refl;
          owns = (refl, a, (refl, b, (refl, c, tt)));
          handles = refl;
          strides = refl;
        })
  strides-Fits (h ∷ k ∷ l ∷ m ∷ hs) (x ∷ strides) e n low high long nz = absurd (omega arith)

  module _ {env : Env} (law : IsLawful env) (s : State) where
    modifier_bo-Made :
        (hs : List ℕ)
        → data'.num_fds ≡ length hs
        → Fits hs
        → Returns (Made gbm data' hs s) (modifier_bo env gbm data' hs s)
    unfolding modifier_bo
    modifier_bo-Made hs n fits = elim (Bool-cases (env.calloc s.heap s.trace == 0)) [
      | inl z ↦ rw z (returns (no_memory refl refl refl))
      | inr z ↦
          rw (z, z, fits.at_stride, fits.at_handle)
            (rw (fits.copied) (
              returns (
                object (planar_bo fits.first fits.stride fits.planes) (ground arith)
                  (law.fresh s.heap s.trace (ground arith))
                  (record {
                    unowned = refl;
                    owning = refl;
                    device = refl;
                    planes = ap pos n;
                    handles = fits.owns;
                  })
                  (record {
                    wide = refl;
                    high = refl;
                    formatted = refl;
                    counted = sym n;
                    handles = fits.handles;
                    strides = fits.strides;
                  })
                  (λ q. ground arith) refl)))
    ]

  module _ {env : Env} (law : IsLawful env) (d : KmsDevice) where
    -- If the libraries keep what they document, the device is live, the modifier is linear or
    -- invalid, the descriptors are one to three and the arrays hold as many,
    -- `gbm_kms_import_fd_modifier` never faults. It returns NULL with the heap as it was and
    -- perhaps some handles that stay held, or a new object with the given size, the canonical
    -- format, and for each descriptor, in their order, a plane with the handle that the kernel gave
    -- for it and the given stride; the object holds just those handles.
    pub import_fd_modifier-Imported :
        (s : State)
        → s.heap gbm ≡ some (a_device d)
        → (data'.modifier ≡ env.format_mod_linear) ⊎ (data'.modifier ≡ mod_invalid)
        → 0 < data'.num_fds
        → data'.num_fds ≤ max_planes
        → data'.num_fds ≤ length data'.fds
        → data'.num_fds ≤ length data'.strides
        → Returns
            (Imported (HasModifierData data') gbm d.fd data'.fds s)
            (gbm_kms_import_fd_modifier env gbm data' s)
    unfolding gbm_kms_import_fd_modifier
    import_fd_modifier-Imported s dev known low high fds strides =
        rw (modifier, number)
          (Returns-bind (import_handles-Handles law gbm d data'.num_fds data'.fds s dev fds)
            λ r u x. elim x [
              | partial hs e less same holds ↦
                  rw e (returns (failed hs refl (λ q. ap (λ g. g q) same) holds))
              | all hs e len nz same holds told ↦ rw e (
                  Returns-mono
                    (modifier_bo-Made law u hs (sym len) (
                      strides-Fits hs data'.strides refl (sym len) (omega (arith, len))
                        (omega (arith, len)) (omega (arith, len)) nz))
                    λ p v y. elim y [
                      | no_memory n h t ↦ failed hs n (λ q. ground (arith, h, same)) (rw t holds)
                      | object b n unused i has at t ↦
                          made hs b n (ground (arith, unused, same)) i has
                            (λ q. ground (arith, at q, same)) (rw t holds) (t ∙ told)
                    ])
            ])
      where
        modifier :
            (not (data'.modifier == env.format_mod_linear) && not (data'.modifier == mod_invalid))
            ≡ false
        modifier = ground arith

        number : ((data'.num_fds == 0) || ltb max_planes data'.num_fds) ≡ false
        number = ground arith
