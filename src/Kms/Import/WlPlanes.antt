-- ===== src/Kms/Import/WlPlanes.antt =====
-- The planes that the import of a wl_buffer copies.
use libgbm.Base.{
  ℕ, zero, suc, ◌≤◌, ℤ, pos, negsuc, rounds, int_leb, true, false, not, ◌&&◌, ◌≡◌, refl, List, [],
  ◌∷◌, inl, inr, arith, length, take, Bool, Bool-cases,
}
use libgbm.Types.{KmsBo, KmsPlane, WlKmsBuffer, zero_bo, max_planes}
use libgbm.Machine.{State, ok, Returns, returns}
use libgbm.Kms.Query.Planes.{HasRoom}
use libgbm.Kms.Import.{wl_planes, copy_planes}

-- What the loop over the planes leaves in a new object's array.
record Copied (n : ℕ) (source : List KmsPlane) : Type 0 where
  planes : List KmsPlane
  copied : (s : State) → copy_planes n 0 source zero_bo.planes s ≡ ok planes s
  shown : take n planes ≡ take n source
  room : n ≤ length planes

copy_planes-Copied :
    (n : ℕ) (source : List KmsPlane) → n ≤ length source → n ≤ max_planes → Copied n source
unfolding copy_planes
copy_planes-Copied zero source le lt = record {
  planes = _;
  copied = λ s. refl;
  shown = refl;
  room = omega arith;
}
copy_planes-Copied (suc n) [] le lt = absurd (omega arith)
copy_planes-Copied (suc zero) (p ∷ source) le lt = record {
  planes = _;
  copied = λ s. refl;
  shown = refl;
  room = omega arith;
}
copy_planes-Copied (suc (suc n)) (p ∷ []) le lt = absurd (omega arith)
copy_planes-Copied (suc (suc zero)) (p ∷ q ∷ source) le lt = record {
  planes = _;
  copied = λ s. refl;
  shown = refl;
  room = omega arith;
}
copy_planes-Copied (suc (suc (suc n))) (p ∷ q ∷ []) le lt = absurd (omega arith)
copy_planes-Copied (suc (suc (suc zero))) (p ∷ q ∷ r ∷ source) le lt = record {
  planes = _;
  copied = λ s. refl;
  shown = refl;
  room = omega arith;
}
copy_planes-Copied (suc (suc (suc (suc n)))) source le lt = absurd (omega arith)

-- The number of planes is one that the object has room for.
abbrev pub has_known_count : WlKmsBuffer → Bool
has_known_count buffer =
    not (int_leb buffer.num_planes (pos 0)) && int_leb buffer.num_planes (pos max_planes)

few :
    (n : ℤ)
    → (not (int_leb n (pos 0)) && int_leb n (pos max_planes)) ≡ true
    → (n ≡ pos (rounds n)) × (rounds n ≤ max_planes)
few (pos n) z = (refl, ground (arith, z))
few (negsuc n) z = absurd (ground (arith, z))

-- The buffer has as many planes as it says.
abbrev pub HasPlanes : WlKmsBuffer → Type 0
HasPlanes buffer = rounds buffer.num_planes ≤ length buffer.planes

-- The planes of the object: the buffer's, or one if the object has no room for as many.
pub record HasWlPlanes (buffer : WlKmsBuffer) (b : KmsBo) : Type 0 where
  pub known :
      has_known_count buffer ≡ true
      → (b.num_planes ≡ buffer.num_planes)
        × (take (rounds buffer.num_planes) b.planes ≡ take (rounds buffer.num_planes) buffer.planes)
  pub unknown : has_known_count buffer ≡ false → b.num_planes ≡ pos 1
  pub room : HasRoom b

pub wl_planes-unowned :
    (buffer : WlKmsBuffer) (b : KmsBo) (s : State)
    → b.planes ≡ zero_bo.planes
    → HasPlanes buffer
    → Returns
        (λ c u.
          (u ≡ s)
          × (c.base ≡ b.base)
          × (c.allocated ≡ b.allocated)
          × (c.allocated_handle ≡ b.allocated_handle)
          × HasWlPlanes buffer c)
        (wl_planes buffer b s)
unfolding wl_planes
wl_planes-unowned buffer b s e le = elim (Bool-cases (has_known_count buffer)) [
  | inr z ↦ rw z (
      returns (
        refl,
        refl,
        refl,
        refl,
        record {
          known = λ y. absurd (ground arith);
          unknown = λ y. refl;
          room = (1, refl, inl refl);
        },
      ))
  | inl z ↦
      let (same, lt) = few buffer.num_planes z in
      let c = copy_planes-Copied (rounds buffer.num_planes) buffer.planes le lt in
      rw (z, e)
        (rw (c.copied s) (
          returns (
            refl,
            refl,
            refl,
            refl,
            record {
              known = λ y. (refl, c.shown);
              unknown = λ y. absurd (ground arith);
              room = (rounds buffer.num_planes, same, inr c.room);
            },
          )))
]
