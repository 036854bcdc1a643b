-- ===== src/Client/Surface/Simulation.antt =====
-- Each call of the code does to a surface what `ask` does to its view.
use libgbm.Base.{
  ℕ, ℤ, pos, is_zero, Bool, true, false, not, ◌&&◌, ◌≡◌, ◌⊎◌, inl, inr, refl, some, none, Option,
  arith, ◌==◌, Bool-cases, Option-cases, if◌then◌else◌,
}
use libgbm.Types.{Ptr, null, KmsDevice, KmsSurface}
use libgbm.Machine.{Env, CallocIsFresh, NoMemory, State, Run, Returns, returns, Returns-bind}
use libgbm.Kms.Surfaces.{
  gbm_kms_set_bo, gbm_kms_set_front, gbm_kms_surface_release_buffer,
  gbm_kms_surface_has_free_buffers,
}
use libgbm.Kms.Table.{kms_gbm_device}
use libgbm.Frontend.Dispatch.{Tables}
use libgbm.Frontend.SurfaceApi.{
  gbm_surface_lock_front_buffer, gbm_surface_release_buffer, gbm_surface_has_free_buffers,
}
use libgbm.Kms.Surfaces.Buffers.{set_bo-IsSound}
use libgbm.Kms.Surfaces.Frames.Keeping.{lock_slot, lock_none}
use libgbm.Client.Surface.{
  Side, left, right, index, View, view, lock_at, ViewCall, fill, flip, lock, release, query, Reply,
  free_buffers, ask, act,
}
use libgbm.Client.Surface.Shows.{
  at_side, Shows, Shows-IsSound, Shows-with_lock, Shows-set_slot, Shows-turn, filled, index_lt,
  live_slot, name_of-at_side,
}

-- The run does what the view says, or a filling ran out of memory.
abbrev pub Obeys :
    Env → KmsDevice → (surf : Ptr) → Option (Reply × View) → Run (Option Reply) → Type 0
Obeys env d surf none run = Unit {0}
Obeys env d surf (some (r, v)) run =
    Returns
      (λ x u.
        ((x ≡ none) × NoMemory env u) ⊎ ((x ≡ some r) × ((f : KmsSurface) × Shows d surf f v u)))
      run

module _ (env : Env) (fresh : CallocIsFresh env) (tables : Tables) (d : KmsDevice)
    (kms : tables d.table ≡ kms_gbm_device env) (surf : Ptr) (f : KmsSurface) where
  fill-Obeys :
      (side : Side) (addr : Ptr) (fd : ℤ) (stride : ℕ) (v : View) (s : State)
      → Shows d surf f v s
      → Obeys env d surf
          (ask (fill side addr fd stride) v)
          (act env tables surf (fill side addr fd stride) s)
  unfolding gbm_kms_set_bo
  fill-Obeys side addr fd stride v s w = elim (Bool-cases ((addr == null) && (stride == 0))) [
    | inl z ↦ rw z tt
    | inr z ↦
        rw (z, w.at)
          (Returns-bind
            (set_bo-IsSound env fresh surf f (index side) addr fd stride s (index_lt side)
              (ground arith) (Shows-IsSound w))
            λ ret u x. elim x [
              | inl (e, full) ↦ rw e (returns (inl (refl, full)))
              | inr (e, (p, ne, unused, sound, here, others)) ↦ rw e (
                  returns (
                    inr (
                      refl,
                      (_, Shows-set_slot surf f v s u side p _ w refl ne unused sound here others),
                    )))
            ])
  ]

  flip-Obeys :
      (side : Side) (v : View) (s : State)
      → Shows d surf f v s
      → Obeys env d surf (ask (flip side) v) (act env tables surf (flip side) s)
  unfolding gbm_kms_set_front
  flip-Obeys side v s w = elim (Option-cases (lock_at v side)) [
    | inl e ↦ rw e tt
    | inr (l, e) ↦
        rw (e, w.at)
          (returns (
            inr (
              refl,
              (
                record f { front = pos (index side) },
                Shows-turn surf f v s side w
                    (filled s (at_side f side) (lock_at v side) l e (w.slots side)),
              ),
            )))
  ]

  lock-Obeys :
      (v : View) (s : State)
      → Shows d surf f v s
      → Obeys env d surf (ask lock v) (act env tables surf lock s)
  unfolding gbm_surface_lock_front_buffer
  lock-Obeys (view a b none) s w =
      rw (w.at, w.device, kms)
        (rw (lock_none (Shows-IsSound w) w.front, w.at) (returns (inr (refl, (f, w)))))
  lock-Obeys (view a b (some side)) s w =
      let (e, ne) = w.front in
      let (c, here) =
        live_slot s (at_side f side) (lock_at (view a b (some side)) side) ne (w.slots side) in
      let v = Shows-with_lock surf f (view a b (some side)) s side c true (pos 1) w ne here refl in
      rw
        (
          w.at,
          w.device,
          kms,
          lock_slot (Shows-IsSound w) (index side) c (index_lt side) e here,
          v.at,
          name_of-at_side w side _ ne,
        )
        (returns (inr (refl, (f, v))))

  release-Obeys :
      (side : Side) (v : View) (s : State)
      → Shows d surf f v s
      → Obeys env d surf (ask (release side) v) (act env tables surf (release side) s)
  unfolding gbm_surface_release_buffer gbm_kms_surface_release_buffer
  release-Obeys side v s w = elim (Option-cases (lock_at v side)) [
    | inl e ↦ rw e tt
    | inr (l, e) ↦
        let ne = filled s (at_side f side) (lock_at v side) l e (w.slots side) in
        let (c, here) = live_slot s (at_side f side) (lock_at v side) ne (w.slots side) in
        rw (e, w.at, w.at, w.device, kms)
          (rw here (
            returns
              (inr (refl, (f, Shows-with_lock surf f v s side c false (pos 0) w ne here refl)))))
  ]

  query-Obeys :
      (v : View) (s : State)
      → Shows d surf f v s
      → Obeys env d surf (ask query v) (act env tables surf query s)
  unfolding gbm_surface_has_free_buffers gbm_kms_surface_has_free_buffers
  query-Obeys (view none b front) s w = tt
  query-Obeys (view (some l) none front) s w = tt
  query-Obeys (view (some false) (some m) front) s w =
      let (_, (c, here, z)) = w.slots left in
      rw (w.at, w.device, kms) (rw w.at (rw here (simp z (returns (inr (refl, (f, w)))))))
  query-Obeys (view (some true) (some m) front) s w =
      let (_, (c, here, z)) = w.slots left in
      let (_, (c1, there, y)) = w.slots right in
      rw (w.at, w.device, kms)
        (rw w.at (rw here (simp z (rw there (returns (inr (answer m c1.locked y, (f, w))))))))
    where
      answer :
          (m : Bool) (x : ℤ)
          → is_zero x ≡ not m
          → some (free_buffers (not (is_zero (if is_zero x then pos 1 else pos 0))))
            ≡ some (free_buffers (not m))
      answer true x e = rw e refl
      answer false x e = rw e refl

  -- What `ask` says of the view, the code's call does to the surface.
  pub act-Obeys :
      (c : ViewCall) (v : View) (s : State)
      → Shows d surf f v s
      → Obeys env d surf (ask c v) (act env tables surf c s)
  act-Obeys (fill side addr fd stride) v s w = fill-Obeys side addr fd stride v s w
  act-Obeys (flip side) v s w = flip-Obeys side v s w
  act-Obeys lock v s w = lock-Obeys v s w
  act-Obeys (release side) v s w = release-Obeys side v s w
  act-Obeys query v s w = query-Obeys v s w
