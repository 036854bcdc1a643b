-- ===== src/Kms/Query/Export.antt =====
-- The descriptors that gbm_kms_bo_get_plane_fd exports, against the list of planes.
use libgbm.Base.{
  ℕ, ◌≤◌, ℤ, pos, negsuc, is_neg, true, leb, ◌≡◌, refl, some, none, Option, ◌∷◌, inl, inr, ◌⊎◌,
  length, Bool-cases,
}
use libgbm.Types.{Ptr, KmsDevice, KmsBo, KmsPlane, a_device, a_bo}
use libgbm.Machine.{Env, IsLawful, Event, State, Returns, returns, ok}
use libgbm.Kms.Formats.{einval}
use libgbm.Kms.Query.{gbm_kms_bo_get_plane_fd, export_plane, plane_handle}
use libgbm.Kms.Query.Planes.{planes_of, lookup, lookup-out, lookup-in, shown-handle}

-- What the export of a plane that may be missing leaves.
pub data Exported (dev_fd : ℤ) (s : State) (plane : Option KmsPlane) (fd : ℤ) (u : State)
    : Type 0 where
  no_plane :
      plane ≡ none → fd ≡ negsuc 0 → u ≡ record s { errno = einval } → Exported dev_fd s plane fd u
  refused :
      (p : KmsPlane) (ret : ℤ)
      → is_neg ret ≡ true
      → plane ≡ some p
      → fd ≡ negsuc 0
      → u.heap ≡ s.heap
      → u.trace ≡ Event.prime_handle_to_fd dev_fd p.handle ret none ∷ s.trace
      → Exported dev_fd s plane fd u
  exported :
      (p : KmsPlane) (n : ℕ)
      → plane ≡ some p
      → fd ≡ pos n
      → u.heap ≡ s.heap
      → u.trace ≡ Event.prime_handle_to_fd dev_fd p.handle (pos 0) (some (pos n)) ∷ s.trace
      → Exported dev_fd s plane fd u

module _ {env : Env} (law : IsLawful env) (bo : Ptr) (b : KmsBo) (d : KmsDevice) (n : ℕ) (s : State)
    (here : s.heap bo ≡ some (a_bo b)) (dev : s.heap b.base.gbm ≡ some (a_device d))
    (count : b.num_planes ≡ pos n) (room : (n ≡ 1) ⊎ (n ≤ length b.planes)) where
  pub export_lem :
      (i : ℕ) (p : KmsPlane)
      → plane_handle b (pos i) s ≡ ok p.handle s
      → Returns (Exported d.fd s (some p)) (export_plane env b (pos i) s)
  unfolding export_plane
  export_lem i p handle =
      rw (handle, dev)
        (elim (law.exported s.trace d.fd p.handle) [
          | inl (r, (m, out)) ↦ simp (r, out) (returns (exported p m refl refl refl refl))
          | inr (r, out) ↦ simp (r, out) (returns (refused p _ r refl refl refl refl))
        ])

  -- The export of a plane, if the libraries keep what they document, the object and its device are
  -- live, and the object has one plane or an array with all its planes: a number that is negative
  -- or past the planes that the object shows gives -1 with EINVAL and makes no call. Else the
  -- kernel is asked, once, for a descriptor of that plane's handle; its answer is returned, or -1
  -- when it refuses. No object changes.
  pub get_plane_fd_lem :
      (plane : ℤ)
      → Returns
          (Exported d.fd s (lookup (planes_of n b) plane))
          (gbm_kms_bo_get_plane_fd env bo plane s)
  unfolding gbm_kms_bo_get_plane_fd
  get_plane_fd_lem (negsuc i) = rw here (returns (no_plane refl refl refl))
  get_plane_fd_lem (pos i) = elim (Bool-cases (leb n i)) [
    | inl le ↦
        let (out, missing) = lookup-out b n count room i le in
        rw (here, out, missing) (returns (no_plane refl refl refl))
    | inr lt ↦
        let (within, (p, at, same)) = lookup-in b n count room i lt in
        rw (here, within, at) (export_lem i p (shown-handle b i s p same))
  ]
