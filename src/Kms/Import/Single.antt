-- ===== src/Kms/Import/Single.antt =====
-- Imported objects: what a successful import leaves, and that destroying it gives its handles back.
use libgbm.Base.{
  ℕ, ℤ, pos, is_zero_of_neg, true, false, ◌≡◌, ◌≢◌, refl, ◌∙◌, ap, some, none, List, [], ◌∷◌, ◌⊎◌,
  inl, inr, arith, ◌==◌, length, Bool-cases,
}
use libgbm.Types.{
  has_one_plane, Ptr, null, KmsDevice, KmsBo, KmsPlane, ImportFdData, a_device, a_bo,
}
use libgbm.Machine.{
  Env, IsLawful, Event, State, Heap, Trace, write, write_self, ne-null, free-some, Returns, returns,
  Returns-bind, Returns-mono, gem_handle, unit_of, Holds,
}
use libgbm.Format.{gbm_format_canonicalize}
use libgbm.Kms.Lifetime.{gbm_kms_bo_destroy, release_handles, close_planes, gbm_kms_bo_close_handle}
use libgbm.Kms.Lifetime.Ownership.{Undone, Released, Released-trans}
use libgbm.Kms.Import.{gbm_kms_import_fd, imported_bo}
use libgbm.Kms.Import.Handles.{handles_held, asked}

-- The handles of the first planes are those of a list, none of them 0.
abbrev pub PlaneHandles : List ℕ → List KmsPlane → Type 0
PlaneHandles [] planes = Unit {0}
PlaneHandles (h ∷ hs) [] = ⊥
PlaneHandles (h ∷ hs) (p ∷ planes) = (p.handle ≡ h) × (h ≢ 0) × PlaneHandles hs planes

module _ (env : Env) (gbm : Ptr) (d : KmsDevice) where
  close_handle-Released :
      (h : ℕ) (s : State)
      → h ≢ 0
      → Returns
          (λ _ u. Released (λ r. unit_of r (gem_handle d.fd h)) s u)
          (gbm_kms_bo_close_handle env d.fd h s)
  unfolding gbm_kms_bo_close_handle
  close_handle-Released h s ne =
      rw (ne-null h ne)
        (returns (record { same = refl; kept = λ r. omega arith; given = λ r. omega arith }))

  pub close_planes-Released :
      (hs : List ℕ) (planes : List KmsPlane) (s : State)
      → s.heap gbm ≡ some (a_device d)
      → PlaneHandles hs planes
      → Returns
          (λ _ u. Released (handles_held d.fd hs) s u)
          (close_planes env gbm (length hs) planes s)
  unfolding close_planes
  close_planes-Released [] planes s dev ok' =
      returns (record { same = refl; kept = λ r. refl; given = λ r. omega arith })
  close_planes-Released (h ∷ hs) [] s dev ok' = absurd ok'
  close_planes-Released (h ∷ hs) (p ∷ planes) s dev (e, ne, ok') =
      rw (dev, e)
        (Returns-bind (close_handle-Released h s ne) λ _ u c.
          Returns-mono (close_planes-Released hs planes u (ap (λ g. g gbm) c.same ∙ dev) ok')
            λ _ v c'. Released-trans _ _ c c')

-- The handles that destroying an imported object closes: that of the object if it has one plane,
-- else those of its planes.
abbrev pub Owns : List ℕ → KmsBo → Type 0
Owns [] b = ⊥
Owns (h ∷ []) b = (b.base.handle ≡ h) × (h ≢ 0)
Owns (h ∷ k ∷ hs) b = PlaneHandles (h ∷ k ∷ hs) b.planes

-- An object that was imported by descriptors, one plane for each handle.
pub record IsImported (gbm : Ptr) (hs : List ℕ) (b : KmsBo) : Type 0 where
  pub unowned : b.allocated ≡ false
  pub owning : b.allocated_handle ≡ true
  pub device : b.base.gbm ≡ gbm
  pub planes : b.num_planes ≡ pos (length hs)
  pub handles : Owns hs b

module _ (env : Env) (gbm : Ptr) (d : KmsDevice) where
  pub release_handles-Released :
      (hs : List ℕ) (b : KmsBo) (s : State)
      → s.heap gbm ≡ some (a_device d)
      → IsImported gbm hs b
      → Returns (λ _ u. Released (handles_held d.fd hs) s u) (release_handles env b s)
  unfolding release_handles
  release_handles-Released [] b s dev i = absurd i.handles
  release_handles-Released (h ∷ []) b s dev i =
      simp (one, i.device, dev, i.handles.0)
        (Returns-mono (close_handle-Released env gbm d h s i.handles.1)
          λ _ u c. record { same = c.same; kept = c.kept; given = λ r. omega (arith, c.given r) })
    where
      one : has_one_plane b ≡ true
      one = rw i.planes
  release_handles-Released (h ∷ k ∷ hs) b s dev i =
      rw (several, i.planes, i.device)
        (close_planes-Released env gbm d (h ∷ k ∷ hs) b.planes s dev i.handles)
    where
      several : has_one_plane b ≡ false
      several = rw i.planes (ground arith)

  -- Destroying an imported object closes its handles and frees it.
  pub destroy-imported :
      (h : Heap) (t : Trace) (bo : Ptr) (hs : List ℕ) (b : KmsBo) (s : State)
      → bo ≢ null
      → h bo ≡ none
      → h gbm ≡ some (a_device d)
      → IsImported gbm hs b
      → ((q : Ptr) → s.heap q ≡ write h bo (some (a_bo b)) q)
      → Holds (handles_held d.fd hs) t s.trace
      → Returns (λ _ u. Undone h t u) (gbm_kms_bo_destroy env bo s)
  unfolding gbm_kms_bo_destroy
  destroy-imported h t bo hs b s ne unused dev i at holds =
      rw (ne-null bo ne, here)
        (simp (i.unowned, i.owning)
          (Returns-bind (release_handles-Released hs b s (ground (arith, at gbm, dev, unused)) i)
            λ _ u p. rw (free-some bo (a_bo b) u ne (ap (λ g. g bo) p.same ∙ here)) (
              returns (record {
                same = λ q. ground (arith, p.same, at q);
                balanced = λ r. omega (arith, holds r, p.kept r, p.given r);
              }))))
    where
      here : s.heap bo ≡ some (a_bo b)
      here = at bo ∙ write_self h bo (some (a_bo b))

-- What an import by descriptors returns: NULL, with the heap as it was and perhaps some handles
-- that stay held, or a new object that holds the handles that the kernel gave for the descriptors.
pub data Imported (P : List ℕ → KmsBo → Type 0) (gbm : Ptr) (dev_fd : ℤ) (fds : List ℤ) (s : State)
    (p : Ptr) (u : State) : Type 0 where
  failed :
      (hs : List ℕ)
      → p ≡ null
      → ((q : Ptr) → u.heap q ≡ s.heap q)
      → Holds (handles_held dev_fd hs) s.trace u.trace
      → Imported P gbm dev_fd fds s p u
  made :
      (hs : List ℕ) (b : KmsBo)
      → p ≢ null
      → s.heap p ≡ none
      → IsImported gbm hs b
      → P hs b
      → ((q : Ptr) → u.heap q ≡ write s.heap p (some (a_bo b)) q)
      → Holds (handles_held dev_fd hs) s.trace u.trace
      → u.trace ≡ asked dev_fd fds hs s.trace
      → Imported P gbm dev_fd fds s p u

-- The members of an object that was imported by one descriptor.
pub record HasFdData (data' : ImportFdData) (hs : List ℕ) (b : KmsBo) : Type 0 where
  pub wide : b.base.width ≡ data'.width
  pub high : b.base.height ≡ data'.height
  pub formatted : b.base.format ≡ gbm_format_canonicalize data'.format
  pub stride : b.base.stride ≡ data'.stride
  pub handle : b.base.handle ∷ [] ≡ hs

abbrev pub single_bo : Ptr → ImportFdData → ℕ → KmsBo
single_bo gbm data' h = record blank { num_planes = pos 1; allocated_handle = true }
  where
    blank : KmsBo
    blank =
        imported_bo gbm data'.width data'.height (gbm_format_canonicalize data'.format) data'.stride
          h

module _ {env : Env} (law : IsLawful env) (gbm : Ptr) (d : KmsDevice) where
  -- If the libraries keep what they document and the device is live, `gbm_kms_import_fd` never
  -- faults. It returns NULL with the heap as it was, or a new object with one plane, the given size
  -- and stride, the canonical format and the handle that the kernel gave for the descriptor, which
  -- is all that it holds.
  pub import_fd-Imported :
      (data' : ImportFdData) (s : State)
      → s.heap gbm ≡ some (a_device d)
      → Returns
          (Imported (HasFdData data') gbm d.fd (data'.fd ∷ []) s)
          (gbm_kms_import_fd env gbm data' s)
  unfolding gbm_kms_import_fd
  import_fd-Imported data' s dev = rw dev (elim (law.imported s.trace d.fd data'.fd) [
    | inr (r, out) ↦
        simp (is_zero_of_neg _ r) (returns (failed [] refl (λ q. refl) (λ q. ground (arith, out))))
    | inl (r, (h, out, nz)) ↦
        let t = Event.prime_fd_to_handle d.fd data'.fd (pos 0) (some h) ∷ s.trace in
        simp (r, out)
          (elim (Bool-cases (env.calloc s.heap t == 0)) [
            | inl z ↦ rw z (returns (failed (h ∷ []) refl (λ q. refl) (λ q. omega arith)))
            | inr z ↦
                rw (z, z)
                  (returns (
                    made (h ∷ []) (single_bo gbm data' h) (ground arith)
                      (law.fresh s.heap t (ground arith))
                      (record {
                        unowned = refl;
                        owning = refl;
                        device = refl;
                        planes = refl;
                        handles = (refl, nz);
                      })
                      (record {
                        wide = refl;
                        high = refl;
                        formatted = refl;
                        stride = refl;
                        handle = refl;
                      })
                      (λ q. ground arith) (λ q. omega arith) refl))
          ])
  ])

  -- If the libraries keep what they document and the device is live, an import by descriptor gives
  -- NULL, or an object whose destruction puts the heap back and leaves the handle that the import
  -- took closed.
  pub import_fd-bo_destroy :
      (data' : ImportFdData) (s : State)
      → s.heap gbm ≡ some (a_device d)
      → Returns
          (λ p u.
            (p ≡ null) ⊎ Returns (λ _ v. Undone s.heap s.trace v) (gbm_kms_bo_destroy env p u))
          (gbm_kms_import_fd env gbm data' s)
  import_fd-bo_destroy data' s dev = Returns-mono (import_fd-Imported data' s dev) λ p u i. elim i [
    | failed hs e same holds ↦ inl e
    | made hs b ne unused i has at holds told ↦
        inr (destroy-imported env gbm d s.heap s.trace p hs b u ne unused dev i at holds)
  ]
