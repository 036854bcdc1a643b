-- ===== src/Client/Objects.antt =====
-- What each kind of buffer object holds, and that its destruction gives exactly that back.
use libgbm.Base.{
  ℕ, ◌+◌, ◌≤◌, pos, true, false, ◌≡◌, ◌≢◌, ◌⊎◌, inl, inr, refl, ◌∙◌, ap, some, none, List, [], ◌∷◌,
  length, arith,
}
use libgbm.Types.{Ptr, null, KmsDevice, KmsBo, KmsPlane, a_device, a_bo}
use libgbm.Machine.{
  Env, State, write, ne-null, free, free-Returns, Returns, Returns-bind, Returns-mono, Resource,
  acquired, released,
}
use libgbm.Kms.Query.Planes.{HasRoom}
use libgbm.Kms.Lifetime.{gbm_kms_bo_destroy}
use libgbm.Kms.Lifetime.Ownership.{owned, Released, release_allocated-Released}
use libgbm.Kms.Mapping.Sessions.{IsMapped}
use libgbm.Kms.Import.Handles.{handles_held}
use libgbm.Kms.Import.Single.{PlaneHandles, Owns, IsImported, release_handles-Released}

-- A buffer object of the device, and the resources that are its to give back: what the backend
-- allocated, the handles of an import by descriptors, or nothing.
pub data Owner (gbm : Ptr) (d : KmsDevice) (b : KmsBo) (n : Resource → ℕ) : Type 0 where
  allocates :
      (m : ℕ)
      → b.allocated ≡ true
      → b.num_planes ≡ pos 1
      → IsMapped m b
      → ((r : Resource) → n r ≡ owned b r)
      → Owner gbm d b n
  imports :
      (hs : List ℕ)
      → IsImported gbm hs b
      → ((r : Resource) → n r ≡ handles_held d.fd hs r)
      → Owner gbm d b n
  borrows :
      b.allocated ≡ false
      → b.allocated_handle ≡ false
      → HasRoom b
      → ((r : Resource) → n r ≡ 0)
      → Owner gbm d b n

PlaneHandles-length :
    (hs : List ℕ) (planes : List KmsPlane) → PlaneHandles hs planes → length hs ≤ length planes
PlaneHandles-length [] planes x = omega arith
PlaneHandles-length (h ∷ hs) [] x = absurd x
PlaneHandles-length (h ∷ hs) (p ∷ planes) (_, _, x) = omega (arith, PlaneHandles-length hs planes x)

Owns-room : (hs : List ℕ) (b : KmsBo) → Owns hs b → (length hs ≡ 1) ⊎ (length hs ≤ length b.planes)
Owns-room [] b o = absurd o
Owns-room (h ∷ []) b o = inl refl
Owns-room (h ∷ k ∷ hs) b o = inr (PlaneHandles-length (h ∷ k ∷ hs) b.planes o)

pub Owner-HasRoom :
    {gbm : Ptr} {d : KmsDevice} {b : KmsBo} {n : Resource → ℕ} → Owner gbm d b n → HasRoom b
Owner-HasRoom (allocates m al one mapped e) = (1, one, inl refl)
Owner-HasRoom {b} (imports hs i e) = (length hs, i.planes, Owns-room hs b i.handles)
Owner-HasRoom (borrows al ah room e) = room

-- The object at `bo` is gone, and `n r` of each resource was given back.
pub record Gone (n : Resource → ℕ) (bo : Ptr) (s u : State) : Type 0 where
  pub heap : u.heap ≡ write s.heap bo none
  pub kept : (r : Resource) → acquired r u.trace ≡ acquired r s.trace
  pub given : (r : Resource) → released r u.trace ≡ released r s.trace + n r

free-Gone :
    (n m : Resource → ℕ) (bo : Ptr) (b : KmsBo) (s u : State)
    → bo ≢ null
    → s.heap bo ≡ some (a_bo b)
    → ((r : Resource) → n r ≡ m r)
    → Released m s u
    → Returns (λ _ v. Gone n bo s v) (free bo u)
free-Gone n m bo b s u ne at e p =
    Returns-mono (free-Returns bo (a_bo b) u ne (ap (λ g. g bo) p.same ∙ at)) λ _ v (t, h). record {
      heap = h ∙ ap (λ g. write g bo none) p.same;
      kept = λ r. ap (acquired r) t ∙ p.kept r;
      given = λ r. omega (arith, ap (released r) t, p.given r, e r);
    }

pub bo_destroy-Gone :
    (env : Env) (gbm : Ptr) (d : KmsDevice) (b : KmsBo) (n : Resource → ℕ) (bo : Ptr) (s : State)
    → Owner gbm d b n
    → bo ≢ null
    → s.heap bo ≡ some (a_bo b)
    → s.heap gbm ≡ some (a_device d)
    → Returns (λ _ u. Gone n bo s u) (gbm_kms_bo_destroy env bo s)
unfolding gbm_kms_bo_destroy
bo_destroy-Gone env gbm d b n bo s (allocates m al one mapped e) ne at dev =
    rw (ne-null bo ne, at)
      (simp al (
        Returns-bind (release_allocated-Released env b s)
          λ _ u p. free-Gone n (owned b) bo b s u ne at e p))
bo_destroy-Gone env gbm d b n bo s (imports hs i e) ne at dev =
    rw (ne-null bo ne, at)
      (simp (i.unowned, i.owning)
        (Returns-bind (release_handles-Released env gbm d hs b s dev i)
          λ _ u p. free-Gone n (handles_held d.fd hs) bo b s u ne at e p))
bo_destroy-Gone env gbm d b n bo s (borrows al ah room e) ne at dev =
    rw (ne-null bo ne, at)
      (simp (al, ah)
        (free-Gone n (λ r. 0) bo b s s ne at e
          (record { same = refl; kept = λ r. refl; given = λ r. omega arith })))
