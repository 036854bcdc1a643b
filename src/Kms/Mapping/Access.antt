-- ===== src/Kms/Mapping/Access.antt =====
-- `gbm_kms_bo_map`, `gbm_kms_bo_unmap` and `gbm_kms_bo_write` on every branch.
use libgbm.Base.{
  ℕ, suc, is_zero-suc, ◌≤◌, ◌<◌, pos, negsuc, true, not, ◌||◌, ==-refl, ◌≡◌, ◌≢◌, refl, sym, ◌∙◌,
  some, ◌∷◌, ◌⊎◌, inl, inr, arith, ◌==◌, Bool-cases, ltb,
}
use libgbm.Types.{Ptr, null, KmsBo, a_bo, no_mapping}
use libgbm.Machine.{
  Env, IsLawful, Event, State, Heap, Trace, write, write_self, ne-null, ok, Returns, returns,
  Returns-bind, ◌>>=◌,
}
use libgbm.Kms.Formats.{einval}
use libgbm.Kms.Mapping.{
  efault, gbm_kms_bo_map_ref, count_mapping, gbm_kms_bo_map, gbm_kms_bo_unmap, gbm_kms_bo_write,
}
use libgbm.Kms.Mapping.Sessions.{Session, down, map_ref-Session, map_unref-Session}

module _ (env : Env) (bo : Ptr) (b : KmsBo) (s : State) (here : s.heap bo ≡ some (a_bo b)) where
  -- Asked for anything but the whole buffer, `gbm_kms_bo_map` returns NULL with errno EINVAL,
  -- stores nothing through its pointers, and changes nothing else.
  pub bo_map-partial :
      (x y width height flags : ℕ)
      → (x ≢ 0) ⊎ ((y ≢ 0) ⊎ ((width ≢ b.base.width) ⊎ (height ≢ b.base.height)))
      → gbm_kms_bo_map env bo x y width height flags s ≡ ok no_mapping (record s { errno = einval })
  unfolding gbm_kms_bo_map
  bo_map-partial x y width height flags p = rw (here, guard)
    where
      guard :
          (not (x == 0)
            || not (y == 0)
            || not (width == b.base.width)
            || not (height == b.base.height))
          ≡ true
      guard = ground arith

  -- `gbm_kms_bo_write` returns 0 exactly when the object is mapped and `count` does not exceed its
  -- size, and then it makes one copy of `count` bytes from `buf` to the mapping; otherwise it
  -- returns -1 with errno EFAULT for an object that is not mapped, EINVAL for too many bytes, and
  -- copies nothing. The heap stays as it was.
  pub bo_write_lem :
      (buf : Ptr) (count : ℕ)
      → Returns
          (λ ret u.
            (u.heap ≡ s.heap)
            × (((ret ≡ pos 0)
                  × (b.addr ≢ null)
                  × (count ≤ b.size)
                  × (u.trace ≡ Event.memcpy b.addr buf count ∷ s.trace))
                ⊎ ((ret ≡ negsuc 0)
                    × (u.trace ≡ s.trace)
                    × (((b.addr ≡ null) × (u.errno ≡ efault))
                        ⊎ ((b.addr ≢ null) × (b.size < count) × (u.errno ≡ einval))))))
          (gbm_kms_bo_write env bo buf count s)
  unfolding gbm_kms_bo_write
  bo_write_lem buf count = rw here (elim (Bool-cases (b.addr == null)) [
    | inl z ↦ rw z (returns (refl, inr (refl, refl, inl (ground arith, refl))))
    | inr z ↦ rw z (elim (Bool-cases (ltb b.size count)) [
      | inl l ↦ rw l (returns (refl, inr (refl, refl, inr (ground arith, ground arith, refl))))
      | inr l ↦ rw l (returns (refl, inl (refl, ground arith, ground arith, refl)))
    ])
  ])

module _ {env : Env} (law : IsLawful env) (h : Heap) (t : Trace) (bo : Ptr) (b : KmsBo) where
  -- If the libraries keep what they document: asked for the whole buffer of an object that is
  -- mapped `n` times, `gbm_kms_bo_map` either returns the address of the mapping, stores it and the
  -- stride, and leaves the object mapped once more, or it returns NULL and stores nothing; that
  -- happens only if the object was not mapped, and leaves it so.
  pub bo_map-Session :
      (n : ℕ) (flags : ℕ) (s : State)
      → Session h t bo b n s
      → Returns
          (λ m u.
            ((m.address ≢ null)
              × (m.map_data ≡ some m.address)
              × (m.stride ≡ some b.base.stride)
              × ((v : Session h t bo b (suc n) u) × (v.addr ≡ m.address)))
            ⊎ ((m ≡ no_mapping) × (n ≡ 0) × Session h t bo b 0 u))
          (gbm_kms_bo_map env bo 0 0 b.base.width b.base.height flags s)
  unfolding gbm_kms_bo_map
  bo_map-Session n flags s w =
      rw
        (
          w.at bo,
          write_self h bo (some (a_bo (record b { addr = w.addr; map_ref = w.map_ref }))),
          ==-refl b.base.width,
          ==-refl b.base.height,
        )
        (Returns-bind (map_ref-Session law h t bo b n s w) λ ret u r. elim r [
          | inl (e, v) ↦
              rw
                (
                  e,
                  v.at bo,
                  write_self h bo (some (a_bo (record b { addr = v.addr; map_ref = v.map_ref }))),
                )
                (returns (inl (v.mapped.busy (omega arith), refl, refl, (v, refl))))
          | inr (e, idle, v) ↦ rw e (
              returns (
                inr (
                  refl,
                  idle,
                  record {
                    addr = v.addr;
                    map_ref = v.map_ref;
                    mapped = v.mapped;
                    at = v.at;
                    holds = v.holds;
                  },
                )))
        ])

  module _ (n : ℕ) (s : State) (w : Session h t bo b (suc n) s) where
    abbrev now : KmsBo
    now = record b { addr = w.addr; map_ref = w.map_ref }

    abbrev more : KmsBo
    more = record b { addr = w.addr; map_ref = pos (suc (suc n)) }

    counted_session :
        Session h t bo b (suc (suc n)) (record s { heap = write s.heap bo (some (a_bo more)) })
    counted_session = record {
      addr = w.addr;
      map_ref = pos (suc (suc n));
      mapped = record {
        count = refl;
        idle = λ z. absurd (omega arith);
        busy = λ z. w.mapped.busy (omega arith);
      };
      at = λ q. ground (arith, w.at q);
      holds = w.holds;
    }

    -- Mapped once more, the object keeps its address.
    pub bo_map-again :
        (flags : ℕ)
        → Returns
            (λ m u.
              (m.address ≡ w.addr) × ((v : Session h t bo b (suc (suc n)) u) × (v.addr ≡ w.addr)))
            (gbm_kms_bo_map env bo 0 0 b.base.width b.base.height flags s)
    unfolding gbm_kms_bo_map gbm_kms_bo_map_ref count_mapping counted_session
    bo_map-again flags =
        rw (w.at bo, write_self h bo (some (a_bo now)), ==-refl b.base.width, ==-refl b.base.height)
          (rw (w.at bo, write_self h bo (some (a_bo now)))
            (simp (w.mapped.count, is_zero-suc n)
              (rw (write_self s.heap bo (some (a_bo more)))
                (returns (refl, (counted_session, refl))))))

  unmap-Session :
      (n : ℕ) (s : State)
      → (w : Session h t bo b n s) → w.addr ≢ null
      → Returns (λ _ u. Session h t bo b (down n) u) (gbm_kms_bo_unmap env bo w.addr s)
  unfolding gbm_kms_bo_unmap
  unmap-Session n s w ne =
      rw
        (
          w.at bo,
          write_self h bo (some (a_bo (record b { addr = w.addr; map_ref = w.map_ref }))),
          ne-null w.addr ne,
          ==-refl w.addr,
        )
        (map_unref-Session law h t bo b n s w)

  unmap-null : (n : ℕ) (s : State) → Session h t bo b n s → gbm_kms_bo_unmap env bo null s ≡ ok tt s
  unfolding gbm_kms_bo_unmap
  unmap-null n s w =
      rw (w.at bo, write_self h bo (some (a_bo (record b { addr = w.addr; map_ref = w.map_ref }))))

  -- If the libraries keep what they document, mapping the whole buffer of an object that is mapped
  -- `n` times, and unmapping the address that came back, NULL included, leaves the object mapped
  -- `n` times, whether or not the mapping was granted: nothing of the heap differs but that, and no
  -- mapping is lost or left over.
  bo_map-bo_unmap :
      (n : ℕ) (flags : ℕ) (s : State)
      → Session h t bo b n s
      → Returns
          (λ _ u. Session h t bo b n u)
          ((gbm_kms_bo_map env bo 0 0 b.base.width b.base.height flags >>= λ m.
              gbm_kms_bo_unmap env bo m.address)
            s)
  bo_map-bo_unmap n flags s w = Returns-bind (bo_map-Session n flags s w) λ m u r. elim r [
    | inl (ne, stored, wide, (v, e)) ↦ rw (← e) (unmap-Session (suc n) u v (λ z. ne (sym e ∙ z)))
    | inr (e, idle, v) ↦ rw (e, unmap-null 0 u v) (returns (rw idle v))
  ]
