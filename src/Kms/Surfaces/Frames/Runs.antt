-- ===== src/Kms/Surfaces/Frames/Runs.antt =====
-- Every sequence of allowed calls on a surface, from its creation.
use libgbm.Base.{ℕ, pos, negsuc, ◌≡◌, ◌≢◌, ◌⊎◌, inl, inr, refl, sym, subst, arith, ◌==◌, Bool-cases}
use libgbm.Types.{Ptr, null, KmsSurface, zero_surface}
use libgbm.Machine.{
  Env, CallocIsFresh, NoMemory, State, ok, Returns, returns, Returns-bind, Returns-mono, Returns-ok,
}
use libgbm.Kms.Surfaces.{gbm_kms_surface_create}
use libgbm.Kms.Surfaces.Buffers.{IsBuffer}
use libgbm.Kms.Surfaces.Frames.{
  FrameCall, fill, flip, lock, release, query, perform, Suits, IsAllowed, frame, Reach,
}
use libgbm.Kms.Surfaces.Frames.Keeping.{
  IsReady, fill-IsReady, flip-IsReady, lock-IsReady, release-IsReady, query-IsReady, live_buffer,
}

-- Only the filling of a slot can fail.
abbrev pub IsFill : FrameCall → Type 0
IsFill (fill n addr fd stride) = Unit {0}
IsFill (flip n) = ⊥
IsFill lock = ⊥
IsFill (release bo) = ⊥
IsFill query = ⊥

module _ (env : Env) (fresh : CallocIsFresh env) where
  surface_create-IsReady :
      (gbm : Ptr) (width height format flags : ℕ) (s : State)
      → Returns
          (λ p u. (p ≡ null) ⊎ IsReady p u)
          (gbm_kms_surface_create env gbm width height format flags s)
  unfolding gbm_kms_surface_create
  surface_create-IsReady gbm width height format flags s =
      elim (Bool-cases (env.calloc s.heap s.trace == 0)) [
        | inl z ↦ rw z (returns (inl refl))
        | inr z ↦
            rw (z, z)
              (returns (
                inr (record {
                  surface = made;
                  sound = record {
                    at = ground arith;
                    first = inl refl;
                    second = inl refl;
                    distinct = inl refl;
                  };
                  front = inl refl;
                })))
      ]
    where
      made : KmsSurface
      made = record zero_surface {
        base = record { gbm = gbm; width = width; height = height; format = format; flags = flags };
        front = negsuc 0;
      }

  module _ (surf : Ptr) where
    Suits-IsReady :
        (c : FrameCall) (s : State) (w : IsReady surf s)
        → Suits c w.surface
        → Returns
            (λ ret u.
              ((ret ≡ negsuc 0) × IsFill c × NoMemory env u) ⊎ ((ret ≡ pos 0) × IsReady surf u))
            (perform env surf c s)
    Suits-IsReady (fill n addr fd stride) s w (lt, some') =
        Returns-mono (fill-IsReady surf s w env fresh n addr fd stride lt some')
          λ ret u r. elim r [ inl (e, full) ↦ inl (e, tt, full) | inr x ↦ inr x ]
    Suits-IsReady (flip n) s w (lt, ne) =
        Returns-bind (flip-IsReady surf s w n lt ne) λ _ u v. returns (inr (refl, v))
    Suits-IsReady lock s w ok' =
        Returns-bind (lock-IsReady surf s w) λ _ u v. returns (inr (refl, v))
    Suits-IsReady (release bo) s w (ne, inl e) =
        let (b, live) = live_buffer s bo ne (subst (λ q. IsBuffer s q) (sym e) w.sound.first) in
        Returns-bind (release-IsReady surf s w bo b live) λ _ u v. returns (inr (refl, v))
    Suits-IsReady (release bo) s w (ne, inr e) =
        let (b, live) = live_buffer s bo ne (subst (λ q. IsBuffer s q) (sym e) w.sound.second) in
        Returns-bind (release-IsReady surf s w bo b live) λ _ u v. returns (inr (refl, v))
    Suits-IsReady query s w (full0, full1) =
        Returns-bind (query-IsReady surf s w full0 full1) λ _ u v. returns (inr (refl, v))

    perform-IsReady :
        (c : FrameCall) (s : State)
        → IsAllowed surf s c
        → IsReady surf s
        → Returns
            (λ ret u.
              ((ret ≡ negsuc 0) × IsFill c × NoMemory env u) ⊎ ((ret ≡ pos 0) × IsReady surf u))
            (perform env surf c s)
    perform-IsReady c s (f, at, suits) w = Suits-IsReady c s w (subst (λ x. Suits c x) same suits)
      where
        same : f ≡ w.surface
        same = ground (arith, at, w.sound.at)

    Reach-IsReady : {s u : State} → IsReady surf s → Reach env surf s u → IsReady surf u
    Reach-IsReady w Reach.here = w
    Reach-IsReady w (Reach.next before (frame c a e)) =
        elim (Returns-ok (perform-IsReady c _ a (Reach-IsReady w before)) e) [
          | inl (z, _, _) ↦ cc
          | inr (_, v) ↦ v
        ]

  -- If calloc hands out unused addresses: on a surface that `gbm_kms_surface_create` made, after
  -- any sequence of allowed calls that return 0 (the GL stack fills slots and makes filled slots
  -- the front; the client locks the front, releases buffers that are in a slot, and, once both
  -- slots are filled, asks for a free buffer), each further allowed call returns 0 and leaves a
  -- sound surface whose front, if one was chosen, is a live buffer; or it is the filling of a slot
  -- and returns -1, as calloc has no memory to give.
  pub surface_create-perform :
      (gbm surf : Ptr) (width height format flags : ℕ) (s : State) {u v : State} (c : FrameCall)
      → gbm_kms_surface_create env gbm width height format flags s ≡ ok surf u
      → surf ≢ null
      → Reach env surf u v
      → IsAllowed surf v c
      → Returns
          (λ ret x.
            ((ret ≡ negsuc 0) × IsFill c × NoMemory env x) ⊎ ((ret ≡ pos 0) × IsReady surf x))
          (perform env surf c v)
  surface_create-perform gbm surf width height format flags s {u} {v} c e ne reach allowed =
      elim (Returns-ok (surface_create-IsReady gbm width height format flags s) e) [
        | inl z ↦ absurd (ne z)
        | inr w ↦ perform-IsReady surf c v allowed (Reach-IsReady surf w reach)
      ]
