-- ===== src/Kms/Surfaces/Buffers.antt =====
-- `gbm_kms_surface_set_bo`: what a call that succeeds leaves.
use libgbm.Base.{
  ℕ, zero, suc, ◌<◌, ℤ, pos, negsuc, is_neg, int_leb, ◌||◌, false, not, ◌&&◌, ◌≡◌, ◌≢◌, refl, some,
  none, ◌⊎◌, inl, inr, arith, ◌==◌, Bool-cases, if◌then◌else◌,
}
use libgbm.Types.{Ptr, null, KmsBo, KmsSurface, a_bo, a_surface}
use libgbm.Machine.{
  Env, CallocIsFresh, NoMemory, State, free, free-some, Returns, returns, Returns-bind,
  Returns-mono,
}
use libgbm.Kms.Surfaces.{slot, set_slot, surface_bo, fill_slot, gbm_kms_surface_set_bo}

-- NULL, or the address of a live buffer object.
abbrev pub IsBuffer : State → Ptr → Type 0
IsBuffer s p = (p ≡ null) ⊎ ((b : KmsBo) × (s.heap p ≡ some (a_bo b)))

-- The surface `f` stands at `surf`, and its two buffers are NULL or live and not the same.
pub record IsSound (surf : Ptr) (f : KmsSurface) (s : State) : Type 0 where
  pub at : s.heap surf ≡ some (a_surface f)
  pub first : IsBuffer s f.bo0
  pub second : IsBuffer s f.bo1
  pub distinct : (f.bo0 ≡ null) ⊎ (f.bo0 ≢ f.bo1)

abbrev Freed : Ptr → State → State → Type 0
Freed p s u =
    (u.trace ≡ s.trace)
    × ((q : Ptr) → u.heap q ≡ (if (q == p) && not (p == null) then none else s.heap q))

free-Freed : (p : Ptr) (s : State) → IsBuffer s p → Returns (λ _ u. Freed p s u) (free p s)
free-Freed p s (inl e) = unfold free in rw e (returns (refl, λ q. ground arith))
free-Freed p s (inr (b, e)) = elim (Bool-cases (p == null)) [
  | inl z ↦ unfold free in rw z (returns (refl, λ q. ground arith))
  | inr z ↦ rw (free-some p (a_bo b) s (ground arith) e) (returns (refl, λ q. ground arith))
]

-- A buffer was placed at `p`: the heap differs from that of `s` at the surface, at `p` and at the
-- old buffer, which is gone.
pub record Placed (surf : Ptr) (f g : KmsSurface) (b : KmsBo) (old p : Ptr) (s u : State)
    : Type 0 where
  pub nonnull : p ≢ null
  pub apart : p ≢ surf
  pub fresh : (p ≡ old) ⊎ (s.heap p ≡ none)
  pub heap :
      (q : Ptr)
      → u.heap q ≡ (
          if q == surf
          then some (a_surface g)
          else if q == p
          then some (a_bo b)
          else if (q == old) && not (old == null)
          then none
          else s.heap q)

module _ (env : Env) (fresh : CallocIsFresh env) (surf : Ptr) (f : KmsSurface) (n : ℤ) where
  set_bo-Placed :
      (addr : Ptr) (fd : ℤ) (stride : ℕ) (s : State)
      → (n ≡ pos 0) ⊎ (n ≡ pos 1)
      → (addr ≢ null) ⊎ (stride ≢ 0)
      → s.heap surf ≡ some (a_surface f)
      → IsBuffer s (slot f n)
      → Returns
          (λ ret u.
            ((ret ≡ negsuc 0) × NoMemory env u)
            ⊎ ((ret ≡ pos 0)
                × ((p : Ptr) × Placed surf f
                      (set_slot f n p)
                      (surface_bo f addr fd stride)
                      (slot f n)
                      p
                      s
                      u)))
          (gbm_kms_surface_set_bo env surf n addr fd stride s)
  unfolding gbm_kms_surface_set_bo fill_slot
  set_bo-Placed addr fd stride s range some' at old =
      rw (guard, at)
        (Returns-bind (free-Freed (slot f n) s old) λ _ u (_, gone).
          rw clears (elim (Bool-cases (env.calloc u.heap u.trace == 0)) [
            | inl z ↦ rw z (returns (inl (refl, ground arith)))
            | inr z ↦
                let p = env.calloc u.heap u.trace in
                let ne : p ≢ null = ground arith in
                let unused : u.heap p ≡ none = fresh u.heap u.trace ne in
                let here : u.heap surf ≡ some (a_surface f) = ground (arith, gone surf, old, at) in
                let apart : (surf == p) ≡ false = ground (arith, unused, here) in
                rw (z, z, apart, here)
                  (returns (
                    inr (
                      refl,
                      (
                        p,
                        record {
                          nonnull = ne;
                          apart = ground arith;
                          fresh = ground (arith, gone p, unused);
                          heap = λ q. ground (arith, gone q);
                        },
                      ),
                    )))
          ]))
    where
      guard : (is_neg n || int_leb (pos 2) n) ≡ false
      guard = ground arith

      clears : ((addr == null) && (stride == 0)) ≡ false
      clears = ground arith

-- The buffer that the call placed, in a surface that is sound again.
abbrev pub Replaced : Ptr → KmsSurface → ℤ → KmsBo → State → State → Type 0
Replaced surf f n b s u =
    (p : Ptr) × (p ≢ null)
    × ((p ≡ slot f n) ⊎ (s.heap p ≡ none))
    × IsSound surf (set_slot f n p) u
    × (u.heap p ≡ some (a_bo b))
    × ((q : Ptr) → q ≢ surf → q ≢ p → q ≢ slot f n → u.heap q ≡ s.heap q)

module _ (surf : Ptr) (f : KmsSurface) (b : KmsBo) (p : Ptr) (s u : State)
    (w : IsSound surf f s) where
  Placed-first :
      Placed surf f (record f { bo0 = p }) b f.bo0 p s u → IsSound surf (record f { bo0 = p }) u
  Placed-first pl = record {
    at = ground (arith, pl.heap surf);
    first = inr (b, ground (arith, pl.heap p, pl.apart));
    second = elim w.second [
      | inl e ↦ inl e
      | inr (c, e) ↦ elim (Bool-cases (f.bo1 == null)) [
        | inl z ↦ inl (ground arith)
        | inr z ↦ inr (c, ground (arith, pl.heap f.bo1, pl.fresh, pl.apart, w.at, w.distinct))
      ]
    ];
    distinct = elim w.second [
      | inl e ↦ inr (ground (arith, pl.nonnull))
      | inr (c, e) ↦ inr (ground (arith, pl.fresh, pl.nonnull, w.distinct))
    ];
  }

  Placed-second :
      Placed surf f (record f { bo1 = p }) b f.bo1 p s u → IsSound surf (record f { bo1 = p }) u
  Placed-second pl = record {
    at = ground (arith, pl.heap surf);
    first = elim w.first [
      | inl e ↦ inl e
      | inr (c, e) ↦ elim (Bool-cases (f.bo0 == null)) [
        | inl z ↦ inl (ground arith)
        | inr z ↦ inr (c, ground (arith, pl.heap f.bo0, pl.fresh, pl.apart, w.at, w.distinct))
      ]
    ];
    second = inr (b, ground (arith, pl.heap p, pl.apart));
    distinct = elim w.first [
      | inl e ↦ inl e
      | inr (c, e) ↦ elim (Bool-cases (f.bo0 == null)) [
        | inl z ↦ inl (ground arith)
        | inr z ↦ inr (ground (arith, pl.fresh, pl.nonnull, w.distinct))
      ]
    ];
  }

module _ (env : Env) (fresh : CallocIsFresh env) (surf : Ptr) (f : KmsSurface) where
  -- On a sound surface and for the index 0 or 1, a call of `gbm_kms_surface_set_bo` with an address
  -- or a stride never faults. It returns 0, and then a new buffer object with the surface's size
  -- and format and the given address, descriptor and stride stands in that slot, at an unused
  -- address or that of the old buffer, the surface is sound again, and nothing else in the heap
  -- differs but the old buffer; or it returns -1, as calloc has no memory to give.
  pub set_bo-IsSound :
      (n : ℕ) (addr : Ptr) (fd : ℤ) (stride : ℕ) (s : State)
      → n < 2
      → (addr ≢ null) ⊎ (stride ≢ 0)
      → IsSound surf f s
      → Returns
          (λ ret u.
            ((ret ≡ negsuc 0) × NoMemory env u)
            ⊎ ((ret ≡ pos 0) × Replaced surf f (pos n) (surface_bo f addr fd stride) s u))
          (gbm_kms_surface_set_bo env surf (pos n) addr fd stride s)
  set_bo-IsSound zero addr fd stride s lt some' w =
      Returns-mono
        (set_bo-Placed env fresh surf f (pos 0) addr fd stride s (inl refl) some' w.at w.first)
        λ ret u r. elim r [
          | inl e ↦ inl e
          | inr (e, (p, pl)) ↦ inr (
            e,
            (
              p,
              pl.nonnull,
              pl.fresh,
              Placed-first surf f (surface_bo f addr fd stride) p s u w pl,
              ground (arith, pl.heap p, pl.apart),
              λ q a b c. ground (arith, pl.heap q),
            ),
          )
        ]
  set_bo-IsSound (suc zero) addr fd stride s lt some' w =
      Returns-mono
        (set_bo-Placed env fresh surf f (pos 1) addr fd stride s (inr refl) some' w.at w.second)
        λ ret u r. elim r [
          | inl e ↦ inl e
          | inr (e, (p, pl)) ↦ inr (
            e,
            (
              p,
              pl.nonnull,
              pl.fresh,
              Placed-second surf f (surface_bo f addr fd stride) p s u w pl,
              ground (arith, pl.heap p, pl.apart),
              λ q a b c. ground (arith, pl.heap q),
            ),
          )
        ]
  set_bo-IsSound (suc (suc n)) addr fd stride s lt some' w = absurd (omega arith)
