-- ===== src/Kms/Query/Planes.antt =====
-- The queries of a plane against the list of planes that an object shows.
use libgbm.Base.{
  ℕ, zero, suc, ◌<◌, ◌≤◌, ℤ, pos, negsuc, true, false, ◌≡◌, ◌⊎◌, refl, some, none, Option, List, [],
  ◌∷◌, get_elem?, take, length, arith, ◌==◌, Bool-cases, inl, inr, leb, if◌then◌else◌,
}
use libgbm.Types.{Ptr, KmsBo, KmsPlane, has_one_plane, a_bo}
use libgbm.Machine.{State, Run, ok}
use libgbm.Kms.Formats.{einval}
use libgbm.Kms.Query.{
  gbm_kms_bo_get_stride, gbm_kms_bo_get_handle, plane_stride, plane_handle, no_such_plane,
  no_handle,
}

-- The planes that an object shows: its own handle and stride if there is one, else its array.
abbrev pub planes_of : ℕ → KmsBo → List KmsPlane
planes_of n b =
    if n == 1
    then record { handle = b.base.handle; stride = b.base.stride } ∷ []
    else take n b.planes

-- The array is read only if there is not just one plane, and then it has them all.
abbrev pub HasRoom : KmsBo → Type 0
HasRoom b = (n : ℕ) × (b.num_planes ≡ pos n) × ((n ≡ 1) ⊎ (n ≤ length b.planes))

abbrev pub lookup : List KmsPlane → ℤ → Option KmsPlane
lookup planes (pos i) = get_elem? planes i
lookup planes (negsuc i) = none

-- The member `f` of the plane, or `default` with EINVAL.
abbrev pub answer : (KmsPlane → ℕ) → (default : ℕ) → Option KmsPlane → State → Run ℕ
answer f default none s = ok default (record s { errno = einval })
answer f default (some p) s = ok (f p) s

get_elem?-take-lt :
    (n i : ℕ) (planes : List KmsPlane)
    → i < n
    → n ≤ length planes
    → (p : KmsPlane) × (get_elem? planes i ≡ some p) × (get_elem? (take n planes) i ≡ some p)
get_elem?-take-lt zero i planes lt le = absurd (omega arith)
get_elem?-take-lt (suc n) i [] lt le = absurd (omega arith)
get_elem?-take-lt (suc n) zero (p ∷ planes) lt le = (p, refl, refl)
get_elem?-take-lt (suc n) (suc i) (p ∷ planes) lt le =
    get_elem?-take-lt n i planes (omega arith) (omega arith)

get_elem?-take-ge : (n i : ℕ) (planes : List KmsPlane) → n ≤ i → get_elem? (take n planes) i ≡ none
get_elem?-take-ge zero i planes le = refl
get_elem?-take-ge (suc n) i [] le = refl
get_elem?-take-ge (suc n) zero (p ∷ planes) le = absurd (omega arith)
get_elem?-take-ge (suc n) (suc i) (p ∷ planes) le = get_elem?-take-ge n i planes (omega arith)

past_one : (p : KmsPlane) (i : ℕ) → 1 ≤ i → get_elem? (p ∷ []) i ≡ none
past_one p zero le = absurd (omega arith)
past_one p (suc i) le = refl

-- What the functions compute for a plane in range.
abbrev shown : KmsBo → ℕ → Option KmsPlane
shown b i =
    if has_one_plane b
    then some (record { handle = b.base.handle; stride = b.base.stride })
    else get_elem? b.planes i

module _ (b : KmsBo) (n : ℕ) (count : b.num_planes ≡ pos n) (room : (n ≡ 1) ⊎ (n ≤ length b.planes))
    (i : ℕ) where
  pub lookup-out :
      leb n i ≡ true → (no_such_plane b (pos i) ≡ true) × (lookup (planes_of n b) (pos i) ≡ none)
  lookup-out le = (
    rw (count, le),
    elim (Bool-cases (n == 1)) [
      | inl z ↦ rw z (past_one _ i (ground arith))
      | inr z ↦ rw z (get_elem?-take-ge n i b.planes (ground arith))
    ],
  )

  pub lookup-in :
      leb n i ≡ false
      → (no_such_plane b (pos i) ≡ false)
        × ((p : KmsPlane) × (lookup (planes_of n b) (pos i) ≡ some p) × (shown b i ≡ some p))
  lookup-in lt = (
    rw (count, lt),
    elim (Bool-cases (n == 1)) [
      | inl z ↦
          let one : has_one_plane b ≡ true = rw count (ground (arith, z)) in
          let first : i ≡ 0 = ground arith in
          rw (z, one, first) (record { handle = b.base.handle; stride = b.base.stride }, refl, refl)
      | inr z ↦
          let several : has_one_plane b ≡ false = rw count (ground (arith, z, lt)) in
          let within : n ≤ length b.planes = elim room [ inl e ↦ ground arith | inr le ↦ le ] in
          let (p, at, taken) = get_elem?-take-lt n i b.planes (ground arith) within in
          rw (z, several) (p, taken, at)
    ],
  )

module _ (b : KmsBo) (i : ℕ) (s : State) (p : KmsPlane) (same : shown b i ≡ some p) where
  shown-stride : plane_stride b (pos i) s ≡ ok p.stride s
  unfolding plane_stride
  shown-stride = elim (Bool-cases (has_one_plane b)) [
    | inl z ↦ ground (arith, same, z)
    | inr z ↦ ground (arith, same, z)
  ]

  pub shown-handle : plane_handle b (pos i) s ≡ ok p.handle s
  unfolding plane_handle
  shown-handle = elim (Bool-cases (has_one_plane b)) [
    | inl z ↦ ground (arith, same, z)
    | inr z ↦ ground (arith, same, z)
  ]

module _ (bo : Ptr) (b : KmsBo) (n : ℕ) (s : State) (here : s.heap bo ≡ some (a_bo b))
    (count : b.num_planes ≡ pos n) (room : (n ≡ 1) ⊎ (n ≤ length b.planes)) where
  -- The stride of a plane is that of the list of planes that the object shows, and 0 with EINVAL
  -- for a number that is negative or past that list; nothing else changes. It holds of an object
  -- with one plane, and of one whose array has all its planes.
  pub get_stride_lem :
      (plane : ℤ)
      → gbm_kms_bo_get_stride bo plane s ≡ answer (λ p. p.stride) 0 (lookup (planes_of n b) plane) s
  unfolding gbm_kms_bo_get_stride plane_stride
  get_stride_lem (negsuc i) = rw here
  get_stride_lem (pos i) = elim (Bool-cases (leb n i)) [
    | inl le ↦ let (out, missing) = lookup-out b n count room i le in rw (here, out, missing) refl
    | inr lt ↦
        let (within, (p, at, same)) = lookup-in b n count room i lt in
        rw (here, within, at) (shown-stride b i s p same)
  ]

  -- The handle of a plane is that of the list of planes that the object shows, and the handle -1
  -- with EINVAL for a number that is negative or past that list; nothing else changes. It holds of
  -- an object with one plane, and of one whose array has all its planes.
  pub get_handle_lem :
      (plane : ℤ)
      → gbm_kms_bo_get_handle bo plane s
        ≡ answer (λ p. p.handle) no_handle (lookup (planes_of n b) plane) s
  unfolding gbm_kms_bo_get_handle plane_handle
  get_handle_lem (negsuc i) = rw here
  get_handle_lem (pos i) = elim (Bool-cases (leb n i)) [
    | inl le ↦ let (out, missing) = lookup-out b n count room i le in rw (here, out, missing) refl
    | inr lt ↦
        let (within, (p, at, same)) = lookup-in b n count room i lt in
        rw (here, within, at) (shown-handle b i s p same)
  ]
