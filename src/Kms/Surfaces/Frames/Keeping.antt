-- ===== src/Kms/Surfaces/Frames/Keeping.antt =====
-- Each call on a surface keeps it sound, with a front that is a buffer.
use libgbm.Base.{
  ℕ, zero, suc, ◌<◌, ℤ, pos, negsuc, is_zero, ◌≡◌, ◌≢◌, ◌⊎◌, inl, inr, refl, some, arith, ◌==◌,
  Bool-cases,
}
use libgbm.Types.{Ptr, null, KmsBo, KmsSurface, a_bo, a_surface}
use libgbm.Machine.{
  Env, CallocIsFresh, NoMemory, State, write, write_self, ok, Returns, returns, Returns-mono,
}
use libgbm.Kms.Surfaces.{
  slot, set_slot, gbm_kms_set_bo, gbm_kms_set_front, gbm_kms_surface_lock_front_buffer,
  gbm_kms_surface_release_buffer, gbm_kms_surface_has_free_buffers,
}
use libgbm.Kms.Surfaces.Buffers.{IsSound, IsBuffer, set_bo-IsSound}

-- No front yet, or the number of a slot with a buffer.
abbrev pub HasFront : KmsSurface → Type 0
HasFront f =
    (f.front ≡ negsuc 0) ⊎ ((n : ℕ) × (f.front ≡ pos n) × (n < 2) × (slot f (pos n) ≢ null))

pub record IsReady (surf : Ptr) (s : State) : Type 0 where
  pub surface : KmsSurface
  pub sound : IsSound surf surface s
  pub front : HasFront surface

abbrev pub with_lock : State → Ptr → KmsBo → ℤ → State
with_lock s p b l = record s { heap = write s.heap p (some (a_bo (record b { locked = l }))) }

-- A buffer stays one when the lock of a buffer is written.
IsBuffer-with_lock :
    (s : State) (q p : Ptr) (b : KmsBo) (l : ℤ) → IsBuffer s q → IsBuffer (with_lock s p b l) q
IsBuffer-with_lock s q p b l (inl e) = inl e
IsBuffer-with_lock s q p b l (inr (c, e)) = elim (Bool-cases (q == p)) [
  | inl z ↦ inr (record b { locked = l }, ground arith)
  | inr z ↦ inr (c, ground arith)
]

pub live_buffer :
    (s : State) (p : Ptr) → p ≢ null → IsBuffer s p → (b : KmsBo) × (s.heap p ≡ some (a_bo b))
live_buffer s p ne (inl e) = absurd (ne e)
live_buffer s p ne (inr x) = x

set_slot-HasFront :
    (n : ℕ) (p : Ptr) → p ≢ null → (f : KmsSurface) → HasFront f → HasFront (set_slot f (pos n) p)
set_slot-HasFront zero p ne f (inl e) = inl e
set_slot-HasFront zero p ne f (inr (zero, e, lt, o)) = inr (0, e, lt, ne)
set_slot-HasFront zero p ne f (inr (suc k, e, lt, o)) = inr (suc k, e, lt, λ z. o (ground arith))
set_slot-HasFront (suc n) p ne f (inl e) = ground arith
set_slot-HasFront (suc n) p ne f (inr (zero, e, lt, o)) =
    inr (0, ground arith, lt, λ z. o (ground arith))
set_slot-HasFront (suc n) p ne f (inr (suc k, e, lt, o)) =
    inr (suc k, ground arith, lt, λ z. ne (ground arith))

module _ {surf : Ptr} {f : KmsSurface} {s : State} (w : IsSound surf f s) where
  slot-IsBuffer : (n : ℕ) → n < 2 → IsBuffer s (slot f (pos n))
  slot-IsBuffer zero lt = w.first
  slot-IsBuffer (suc zero) lt = w.second
  slot-IsBuffer (suc (suc n)) lt = absurd (omega arith)

  IsSound-with_lock :
      (p : Ptr) (b : KmsBo) (l : ℤ) → s.heap p ≡ some (a_bo b) → IsSound surf f (with_lock s p b l)
  IsSound-with_lock p b l here = record {
    at = ground (arith, w.at, here);
    first = IsBuffer-with_lock s f.bo0 p b l w.first;
    second = IsBuffer-with_lock s f.bo1 p b l w.second;
    distinct = w.distinct;
  }

  -- The front buffer is locked, and is what is returned.
  pub lock_slot :
      (n : ℕ) (b : KmsBo)
      → n < 2
      → f.front ≡ pos n
      → s.heap (slot f (pos n)) ≡ some (a_bo b)
      → gbm_kms_surface_lock_front_buffer surf s
        ≡ ok (slot f (pos n)) (with_lock s (slot f (pos n)) b (pos 1))
  unfolding gbm_kms_surface_lock_front_buffer
  lock_slot zero b lt e live = rw w.at (simp e (rw live))
  lock_slot (suc zero) b lt e live = rw w.at (simp e (rw live))
  lock_slot (suc (suc n)) b lt e live = absurd (omega arith)

  pub lock_none : f.front ≡ negsuc 0 → gbm_kms_surface_lock_front_buffer surf s ≡ ok null s
  unfolding gbm_kms_surface_lock_front_buffer
  lock_none e = rw w.at (simp e refl)

module _ (surf : Ptr) (s : State) (w : IsReady surf s) where
  pub lock-IsReady : Returns (λ _ u. IsReady surf u) (gbm_kms_surface_lock_front_buffer surf s)
  lock-IsReady = elim w.front [
    | inl e ↦ rw (lock_none w.sound e) (returns w)
    | inr (n, e, lt, ne) ↦
        let (b, live) = live_buffer s (slot w.surface (pos n)) ne (slot-IsBuffer w.sound n lt) in
        rw (lock_slot w.sound n b lt e live) (
          returns (record {
            surface = w.surface;
            sound = IsSound-with_lock w.sound (slot w.surface (pos n)) b (pos 1) live;
            front = w.front;
          }))
  ]

  pub release-IsReady :
      (bo : Ptr) (b : KmsBo)
      → s.heap bo ≡ some (a_bo b)
      → Returns (λ _ u. IsReady surf u) (gbm_kms_surface_release_buffer surf bo s)
  unfolding gbm_kms_surface_release_buffer
  release-IsReady bo b live = rw live (
      returns (record {
        surface = w.surface;
        sound = IsSound-with_lock w.sound bo b (pos 0) live;
        front = w.front;
      }))

  pub flip-IsReady :
      (n : ℕ)
      → n < 2
      → slot w.surface (pos n) ≢ null
      → Returns (λ _ u. IsReady surf u) (gbm_kms_set_front surf (pos n) s)
  unfolding gbm_kms_set_front
  flip-IsReady n lt ne = rw w.sound.at (
      returns (record {
        surface = record w.surface { front = pos n };
        sound = record {
          at = write_self s.heap surf (some (a_surface (record w.surface { front = pos n })));
          first = kept w.surface.bo0 w.sound.first;
          second = kept w.surface.bo1 w.sound.second;
          distinct = w.sound.distinct;
        };
        front = inr (n, refl, lt, ne);
      }))
    where
      flipped : State
      flipped = record s {
        heap = write s.heap surf (some (a_surface (record w.surface { front = pos n })));
      }

      kept : (q : Ptr) → IsBuffer s q → IsBuffer flipped q
      kept q (inl e) = inl e
      kept q (inr (b, e)) = inr (b, ground (arith, w.sound.at))

  pub query-IsReady :
      w.surface.bo0 ≢ null
      → w.surface.bo1 ≢ null
      → Returns (λ _ u. IsReady surf u) (gbm_kms_surface_has_free_buffers surf s)
  unfolding gbm_kms_surface_has_free_buffers
  query-IsReady full0 full1 =
      let (b0, live0) = live_buffer s w.surface.bo0 full0 w.sound.first in
      let (b1, live1) = live_buffer s w.surface.bo1 full1 w.sound.second in
      rw w.sound.at (
        rw live0 (elim (Bool-cases (is_zero b0.locked)) [
          | inl z ↦ simp z (returns w)
          | inr z ↦ simp z (rw live1 (returns w))
        ]))

  pub fill-IsReady :
      (env : Env) (fresh : CallocIsFresh env) (n : ℕ) (addr : Ptr) (fd : ℤ) (stride : ℕ)
      → n < 2
      → (addr ≢ null) ⊎ (stride ≢ 0)
      → Returns
          (λ ret u. ((ret ≡ negsuc 0) × NoMemory env u) ⊎ ((ret ≡ pos 0) × IsReady surf u))
          (gbm_kms_set_bo env surf (pos n) addr fd stride s)
  unfolding gbm_kms_set_bo
  fill-IsReady env fresh n addr fd stride lt some' = rw w.sound.at (
      Returns-mono (set_bo-IsSound env fresh surf w.surface n addr fd stride s lt some' w.sound)
        λ ret u r. elim r [
          | inl e ↦ inl e
          | inr (e, (p, ne, _, sound, _, _)) ↦ inr (
            e,
            record {
              surface = set_slot w.surface (pos n) p;
              sound = sound;
              front = set_slot-HasFront n p ne w.surface w.front;
            },
          )
        ])
