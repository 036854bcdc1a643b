-- ===== src/Client/Surface/Shows.antt =====
-- When a surface shows a view, and how a change of one slot or of the front shows.
use libgbm.Base.{
  ◌<◌, ℤ, pos, negsuc, is_zero, Bool, false, not, ◌≡◌, ◌≢◌, ◌⊎◌, inl, inr, refl, ◌∙◌, some, none,
  Option, arith, ◌==◌, ==-refl,
}
use libgbm.Types.{Ptr, null, KmsBo, KmsSurface, KmsDevice, a_bo, a_surface, a_device}
use libgbm.Machine.{State, write, write_self, ne-null, ok}
use libgbm.Kms.Surfaces.{slot, set_slot}
use libgbm.Kms.Surfaces.Buffers.{IsSound}
use libgbm.Kms.Surfaces.Frames.Keeping.{with_lock}
use libgbm.Client.Surface.{
  Side, left, right, index, View, view, lock_at, front_of, put, turn, shown, name_of,
}

abbrev pub at_side : KmsSurface → Side → Ptr
at_side f side = slot f (pos (index side))

-- The pointer of a slot, for the lock that the view has there.
abbrev pub SlotShows : State → Ptr → Option Bool → Type 0
SlotShows s p none = p ≡ null
SlotShows s p (some l) =
    (p ≢ null) × ((b : KmsBo) × (s.heap p ≡ some (a_bo b)) × (is_zero b.locked ≡ not l))

abbrev pub FrontShows : KmsSurface → Option Side → Type 0
FrontShows f none = f.front ≡ negsuc 0
FrontShows f (some side) = (f.front ≡ pos (index side)) × (at_side f side ≢ null)

-- The surface, on the live device `d`.
pub record Shows (d : KmsDevice) (surf : Ptr) (f : KmsSurface) (v : View) (s : State) : Type 0 where
  pub at : s.heap surf ≡ some (a_surface f)
  pub slots : (side : Side) → SlotShows s (at_side f side) (lock_at v side)
  pub distinct : (f.bo0 ≡ null) ⊎ (f.bo0 ≢ f.bo1)
  pub front : FrontShows f (front_of v)
  pub device : s.heap f.base.gbm ≡ some (a_device d)
  pub device_ne : f.base.gbm ≢ null

SlotShows-kept :
    (s u : State) (p : Ptr) (l : Option Bool)
    → SlotShows s p l
    → ((b : KmsBo) → s.heap p ≡ some (a_bo b) → p ≢ null → u.heap p ≡ s.heap p)
    → SlotShows u p l
SlotShows-kept s u p none e same = e
SlotShows-kept s u p (some l) (ne, (b, here, z)) same = (ne, (b, same b here ne ∙ here, z))

-- A buffer stays what it is when another one's lock is written.
SlotShows-buffer :
    (s : State) (p : Ptr) (l : Option Bool)
    → SlotShows s p l
    → (p ≡ null) ⊎ ((b : KmsBo) × (s.heap p ≡ some (a_bo b)))
SlotShows-buffer s p none e = inl e
SlotShows-buffer s p (some l) (ne, (b, here, z)) = inr (b, here)

pub live_slot :
    (s : State) (p : Ptr) (l : Option Bool)
    → p ≢ null
    → SlotShows s p l
    → (b : KmsBo) × (s.heap p ≡ some (a_bo b))
live_slot s p none ne e = absurd (ne e)
live_slot s p (some l) ne (_, (b, here, z)) = (b, here)

module _ {d : KmsDevice} {surf : Ptr} {f : KmsSurface} {v : View} {s : State}
    (w : Shows d surf f v s) where
  pub Shows-IsSound : IsSound surf f s
  Shows-IsSound = record {
    at = w.at;
    first = SlotShows-buffer s f.bo0 (lock_at v left) (w.slots left);
    second = SlotShows-buffer s f.bo1 (lock_at v right) (w.slots right);
    distinct = w.distinct;
  }

  device_slot : (side : Side) → f.base.gbm ≢ at_side f side
  device_slot side = elim (SlotShows-buffer s (at_side f side) (lock_at v side) (w.slots side)) [
    | inl e ↦ λ z. w.device_ne (z ∙ e)
    | inr (b, e) ↦ λ z. absurd (ground (arith, w.device))
  ]

  device_apart :
      (side : Side) (p : Ptr) → p ≢ null → (p ≡ at_side f side) ⊎ (s.heap p ≡ none) → f.base.gbm ≢ p
  device_apart side p ne (inl e) = λ z. device_slot side (z ∙ e)
  device_apart side p ne (inr e) = λ z. absurd (ground (arith, w.device))

  pub name_of-at_side :
      (side : Side) (u : State)
      → at_side f side ≢ null
      → name_of f (at_side f side) u ≡ ok (shown (some side)) u
  name_of-at_side left u ne = rw (ne-null f.bo0 ne, ==-refl f.bo0) refl
  name_of-at_side right u ne = rw (ne-null f.bo1 ne, other, ==-refl f.bo1) refl
    where
      other : (f.bo1 == f.bo0) ≡ false
      other = ground (arith, w.distinct)

-- Writing the lock of a slot's buffer.
pub Shows-with_lock :
    {d : KmsDevice} (surf : Ptr) (f : KmsSurface) (v : View) (s : State) (side : Side) (b : KmsBo)
    (l : Bool) (x : ℤ)
    → Shows d surf f v s
    → at_side f side ≢ null
    → s.heap (at_side f side) ≡ some (a_bo b)
    → is_zero x ≡ not l
    → Shows d surf f (put v side l) (with_lock s (at_side f side) b x)
Shows-with_lock surf f (view p q front) s left b l x w ne here z = record {
  at = ground (arith, w.at);
  slots = sides;
  distinct = w.distinct;
  front = w.front;
  device = ground (arith, w.device);
  device_ne = w.device_ne;
}
  where
    sides :
        (side : Side)
        → SlotShows (with_lock s f.bo0 b x) (at_side f side) (lock_at (view (some l) q front) side)
    sides left = (ne, (record b { locked = x }, write_self s.heap f.bo0 _, z))
    sides right =
        SlotShows-kept s (with_lock s f.bo0 b x) f.bo1 q (w.slots right)
          λ c _ e. ground (arith, w.distinct)
Shows-with_lock surf f (view p q front) s right b l x w ne here z = record {
  at = ground (arith, w.at);
  slots = sides;
  distinct = w.distinct;
  front = w.front;
  device = ground (arith, w.device);
  device_ne = w.device_ne;
}
  where
    sides :
        (side : Side)
        → SlotShows (with_lock s f.bo1 b x) (at_side f side) (lock_at (view p (some l) front) side)
    sides left =
        SlotShows-kept s (with_lock s f.bo1 b x) f.bo0 p (w.slots left)
          λ c _ e. ground (arith, w.distinct)
    sides right = (ne, (record b { locked = x }, write_self s.heap f.bo1 _, z))

FrontShows-set_slot :
    (f : KmsSurface) (front : Option Side) (side : Side) (p : Ptr)
    → p ≢ null
    → FrontShows f front
    → FrontShows (set_slot f (pos (index side)) p) front
FrontShows-set_slot f none left p ne e = e
FrontShows-set_slot f none right p ne e = e
FrontShows-set_slot f (some left) left p ne (e, _) = (e, ne)
FrontShows-set_slot f (some left) right p ne x = x
FrontShows-set_slot f (some right) left p ne x = x
FrontShows-set_slot f (some right) right p ne (e, _) = (e, ne)

-- A new buffer in a slot.
pub Shows-set_slot :
    {d : KmsDevice} (surf : Ptr) (f : KmsSurface) (v : View) (s u : State) (side : Side) (p : Ptr)
    (b : KmsBo)
    → Shows d surf f v s
    → b.locked ≡ pos 0
    → p ≢ null
    → (p ≡ at_side f side) ⊎ (s.heap p ≡ none)
    → IsSound surf (set_slot f (pos (index side)) p) u
    → u.heap p ≡ some (a_bo b)
    → ((q : Ptr) → q ≢ surf → q ≢ p → q ≢ at_side f side → u.heap q ≡ s.heap q)
    → Shows d surf (set_slot f (pos (index side)) p) (put v side false) u
Shows-set_slot surf f (view x y front) s u left p b w free ne unused sound here others = record {
  at = sound.at;
  slots = sides;
  distinct = sound.distinct;
  front = FrontShows-set_slot f front left p ne w.front;
  device =
      others f.base.gbm (ground (arith, w.at, w.device)) (device_apart w left p ne unused)
        (device_slot w left)
      ∙ w.device;
  device_ne = w.device_ne;
}
  where
    sides :
        (side : Side)
        → SlotShows u
            (at_side (set_slot f (pos 0) p) side)
            (lock_at (view (some false) y front) side)
    sides left = (ne, (b, here, rw free))
    sides right = SlotShows-kept s u f.bo1 y (w.slots right) λ c e n.
        others f.bo1 (ground (arith, w.at)) (ground (arith, sound.distinct))
          (ground (arith, w.distinct))
Shows-set_slot surf f (view x y front) s u right p b w free ne unused sound here others = record {
  at = sound.at;
  slots = sides;
  distinct = sound.distinct;
  front = FrontShows-set_slot f front right p ne w.front;
  device =
      others f.base.gbm (ground (arith, w.at, w.device)) (device_apart w right p ne unused)
        (device_slot w right)
      ∙ w.device;
  device_ne = w.device_ne;
}
  where
    sides :
        (side : Side)
        → SlotShows u
            (at_side (set_slot f (pos 1) p) side)
            (lock_at (view x (some false) front) side)
    sides left = SlotShows-kept s u f.bo0 x (w.slots left) λ c e n.
        others f.bo0 (ground (arith, w.at)) (ground (arith, sound.distinct))
          (ground (arith, w.distinct))
    sides right = (ne, (b, here, rw free))

pub Shows-turn :
    {d : KmsDevice} (surf : Ptr) (f : KmsSurface) (v : View) (s : State) (side : Side)
    → Shows d surf f v s
    → at_side f side ≢ null
    → Shows d surf
        (record f { front = pos (index side) })
        (turn v side)
        (record s {
          heap = write s.heap surf (some (a_surface (record f { front = pos (index side) })));
        })
Shows-turn surf f (view a b front) s side w ne = record {
  at = write_self s.heap surf _;
  slots = sides;
  distinct = w.distinct;
  front = (refl, ne);
  device = ground (arith, w.at, w.device);
  device_ne = w.device_ne;
}
  where
    turned : State
    turned = record s {
      heap = write s.heap surf (some (a_surface (record f { front = pos (index side) })));
    }

    sides : (q : Side) → SlotShows turned (at_side f q) (lock_at (view a b (some side)) q)
    sides left = SlotShows-kept s turned f.bo0 a (w.slots left) λ c e _. ground (arith, w.at)
    sides right = SlotShows-kept s turned f.bo1 b (w.slots right) λ c e _. ground (arith, w.at)

pub index_lt : (side : Side) → index side < 2
index_lt left = omega arith
index_lt right = omega arith

-- A slot that shows a lock is not NULL.
pub filled :
    (s : State) (p : Ptr) (o : Option Bool) (l : Bool) → o ≡ some l → SlotShows s p o → p ≢ null
filled s p none l e x = absurd (ground arith)
filled s p (some m) l e x = x.0
