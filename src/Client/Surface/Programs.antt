-- ===== src/Client/Surface/Programs.antt =====
-- Whole sequences of calls on a new surface, against its view.
use libgbm.Base.{
  ◌≢◌, ℕ, negsuc, ◌≡◌, ◌⊎◌, inl, inr, refl, sym, ap, ◌∙◌, none, some, Option, List, [], ◌∷◌, ◌==◌,
  arith, Bool-cases, Option-cases,
}
use libgbm.Types.{Ptr, null, KmsDevice, KmsSurface, a_surface, a_device, zero_surface}
use libgbm.Machine.{Env, CallocIsFresh, NoMemory, State, Returns, returns, Returns-bind}
use libgbm.Kms.Surfaces.{gbm_kms_surface_create}
use libgbm.Kms.Table.{kms_gbm_device}
use libgbm.Frontend.Dispatch.{Tables}
use libgbm.Frontend.SurfaceApi.{gbm_surface_create}
use libgbm.Client.Surface.{
  View, blank, ViewCall, Reply, ask, asks, add, follow, lock_at, act, acts, use_surface, left,
  right, Side,
}
use libgbm.Client.Surface.Shows.{Shows, SlotShows, at_side}
use libgbm.Client.Surface.Simulation.{Obeys, act-Obeys}

-- The replies are the view's, or memory ran out on the way.
abbrev Answers : Env → List Reply → Option (List Reply) → State → Type 0
Answers env rs x u = ((x ≡ none) × NoMemory env u) ⊎ (x ≡ some rs)

module _ (env : Env) (fresh : CallocIsFresh env) (tables : Tables) (d : KmsDevice)
    (kms : tables d.table ≡ kms_gbm_device env) (surf : Ptr) where
  -- The calls are answered from every state that shows a view.
  abbrev Continues : List ViewCall → Type 0
  Continues cs =
      (v : View) (f : KmsSurface) (s : State) (rs : List Reply)
      → Shows d surf f v s
      → asks cs v ≡ some rs
      → Returns (Answers env rs) (acts env tables surf cs s)

  follow-Answers :
      (c : ViewCall) (cs : List ViewCall) (s : State) (rs : List Reply) (o : Option (Reply × View))
      → Obeys env d surf o (act env tables surf c s)
      → follow o (asks cs) ≡ some rs
      → Continues cs
      → Returns (Answers env rs) (acts env tables surf (c ∷ cs) s)
  follow-Answers c cs s rs none obeys e next = absurd (ground arith)
  follow-Answers c cs s rs (some (r, v)) obeys e next = Returns-bind obeys λ x u y. elim y [
    | inl (z, full) ↦ rw z (returns (inl (refl, full)))
    | inr (z, (g, w)) ↦ elim (Option-cases (asks cs v)) [
      | inl n ↦ absurd (let q : none ≡ some rs = ap (add r) (sym n) ∙ e in ground arith)
      | inr (ys, n) ↦ rw z (
          Returns-bind (next v g u ys w n) λ a t b. elim b [
            | inl (k, full) ↦ rw k (returns (inl (refl, full)))
            | inr k ↦ rw k (returns (inr (ap (add r) (sym n) ∙ e)))
          ])
    ]
  ]

  acts-asks : (cs : List ViewCall) → Continues cs
  acts-asks [] v f s rs w e = returns (inr e)
  acts-asks (c ∷ cs) v f s rs w e =
      follow-Answers c cs s rs (ask c v) (act-Obeys env fresh tables d kms surf f c v s w) e
        (acts-asks cs)

blank-Shows :
    {d : KmsDevice} {surf : Ptr} {f : KmsSurface} {u : State}
    → u.heap surf ≡ some (a_surface f)
    → f.bo0 ≡ null
    → f.bo1 ≡ null
    → f.front ≡ negsuc 0
    → u.heap f.base.gbm ≡ some (a_device d)
    → f.base.gbm ≢ null
    → Shows d surf f blank u
blank-Shows {surf} {f} {u} at e0 e1 e dev ne = record {
  at = at;
  slots = slots;
  distinct = inl e0;
  front = e;
  device = dev;
  device_ne = ne;
}
  where
    slots : (side : Side) → SlotShows u (at_side f side) (lock_at blank side)
    slots left = e0
    slots right = e1

abbrev new_surface : (gbm : Ptr) → (width height format flags : ℕ) → KmsSurface
new_surface gbm width height format flags = record zero_surface {
  base = record { gbm = gbm; width = width; height = height; format = format; flags = flags };
  front = negsuc 0;
}

-- A surface is its view: if calloc hands out unused addresses, then on a live device of the KMS
-- backend a new surface answers any sequence of calls that has a meaning for the view (`asks`),
-- those of the GL stack and those of the client through gbm.c, with just the view's replies: which
-- slot's buffer a lock returns, and whether a buffer is free. Or memory ran out on the way, and
-- then the calls end there.
pub use_surface-asks :
    (env : Env) (fresh : CallocIsFresh env) (tables : Tables) (d : KmsDevice)
    (kms : tables d.table ≡ kms_gbm_device env) (gbm : Ptr) (width height format flags : ℕ)
    (cs : List ViewCall) (rs : List Reply) (s : State)
    → s.heap gbm ≡ some (a_device d)
    → gbm ≢ null
    → asks cs blank ≡ some rs
    → Returns
        (λ x u. ((x ≡ none) × NoMemory env u) ⊎ (x ≡ some rs))
        (use_surface env tables gbm width height format flags cs s)
unfolding gbm_surface_create gbm_kms_surface_create
use_surface-asks env fresh tables d kms gbm width height format flags cs rs s live ne e =
    rw (live, kms)
      (elim (Bool-cases (env.calloc s.heap s.trace == 0)) [
        | inl z ↦ rw z (returns (inl (refl, ground arith)))
        | inr z ↦
            let unused = fresh s.heap s.trace (ground arith) in
            rw (z, z, z)
              (acts-asks env fresh tables d kms (env.calloc s.heap s.trace) cs blank
                (new_surface gbm width height format flags) _ rs
                (blank-Shows (ground arith) refl refl refl (ground (arith, live)) ne) e)
      ])
