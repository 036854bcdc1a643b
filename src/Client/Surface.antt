-- ===== src/Client/Surface.antt =====
-- A surface as its users see it: two slots that are empty or hold a buffer, locked or not, and a
-- front. What the calls do to it, and the code's calls with their answers in the same terms.
pub mod Shows
pub mod Simulation
pub mod Programs
use libgbm.Base.{
  ℕ, ℤ, pos, is_zero, Bool, true, false, not, ◌&&◌, ◌||◌, Option, none, some, List, [], ◌∷◌, ◌==◌,
  if◌then◌else◌,
}
use libgbm.Types.{Ptr, null, KmsSurface}
use libgbm.Machine.{Env, M, pure, crash, load_surface, ◌>>=◌, ◌>>◌}
use libgbm.Kms.Surfaces.{slot, gbm_kms_set_bo, gbm_kms_set_front}
use libgbm.Frontend.Dispatch.{Tables}
use libgbm.Frontend.SurfaceApi.{
  gbm_surface_create, gbm_surface_lock_front_buffer, gbm_surface_release_buffer,
  gbm_surface_has_free_buffers,
}

pub data Side : Type 0 where
  left : Side
  right : Side

abbrev pub index : Side → ℕ
index left = 0
index right = 1

-- The locks of the two slots, none for an empty one, and the front.
pub data View : Type 0 where
  view : (a b : Option Bool) → (front : Option Side) → View

abbrev pub blank : View
blank = view none none none

abbrev pub lock_at : View → Side → Option Bool
lock_at (view a b front) left = a
lock_at (view a b front) right = b

abbrev pub front_of : View → Option Side
front_of (view a b front) = front

-- A buffer in the slot, with its lock.
abbrev pub put : View → Side → Bool → View
put (view a b front) left l = view (some l) b front
put (view a b front) right l = view a (some l) front

abbrev pub turn : View → Side → View
turn (view a b front) side = view a b (some side)

pub data ViewCall : Type 0 where
  fill : Side → (addr : Ptr) → (fd : ℤ) → (stride : ℕ) → ViewCall
  flip : Side → ViewCall
  lock : ViewCall
  release : Side → ViewCall
  query : ViewCall

pub data Reply : Type 0 where
  done : Reply
  shown : Option Side → Reply
  free_buffers : Bool → Reply

abbrev pub if_filled : Option Bool → View → Option (Reply × View)
if_filled none v = none
if_filled (some l) v = some (done, v)

-- The reply and the new view; none if the call has no meaning: a buffer without address and stride,
-- an empty slot as the front or to be released, a question for free buffers before both slots are
-- filled.
abbrev pub ask : ViewCall → View → Option (Reply × View)
ask (fill side addr fd stride) v =
    if (addr == null) && (stride == 0) then none else some (done, put v side false)
ask (flip side) v = if_filled (lock_at v side) (turn v side)
ask lock v = elim (front_of v) [
  | none ↦ some (shown none, v)
  | some side ↦ some (shown (some side), put v side true)
]
ask (release side) v = if_filled (lock_at v side) (put v side false)
ask query (view none b front) = none
ask query (view (some l) none front) = none
ask query (view (some l) (some m) front) =
    some (free_buffers (not l || not m), view (some l) (some m) front)

abbrev pub add : Reply → Option (List Reply) → Option (List Reply)
add r none = none
add r (some rs) = some (r ∷ rs)

abbrev pub follow : Option (Reply × View) → (View → Option (List Reply)) → Option (List Reply)
follow none next = none
follow (some (r, v)) next = add r (next v)

abbrev pub asks : List ViewCall → View → Option (List Reply)
asks [] v = some []
asks (c ∷ cs) v = follow (ask c v) (asks cs)

-- The slot that a pointer from the surface is; a pointer that is none of them is an error.
abbrev pub name_of : KmsSurface → Ptr → M Reply
name_of f p =
    if p == null
    then pure (shown none)
    else if p == f.bo0
    then pure (shown (some left))
    else if p == f.bo1
    then pure (shown (some right))
    else crash

-- The code's call, by the GL stack on the surface or by the client through gbm.c; none if it
-- returns -1.
abbrev pub act : Env → Tables → (surf : Ptr) → ViewCall → M (Option Reply)
act env tables surf (fill side addr fd stride) = do
  ret ← gbm_kms_set_bo env surf (pos (index side)) addr fd stride
  pure (if is_zero ret then some done else none)
act env tables surf (flip side) = gbm_kms_set_front surf (pos (index side)) >> pure (some done)
act env tables surf lock = do
  p ← gbm_surface_lock_front_buffer tables surf
  f ← load_surface surf
  name ← name_of f p
  pure (some name)
act env tables surf (release side) = do
  f ← load_surface surf
  gbm_surface_release_buffer tables surf (slot f (pos (index side)))
  pure (some done)
act env tables surf query = do
  ret ← gbm_surface_has_free_buffers tables surf
  pure (some (free_buffers (not (is_zero ret))))

-- The calls in turn, up to the first that returns -1.
abbrev pub acts : Env → Tables → (surf : Ptr) → List ViewCall → M (Option (List Reply))
acts env tables surf [] = pure (some [])
acts env tables surf (c ∷ cs) = do
  x ← act env tables surf c
  elim x [
    | none ↦ pure none
    | some r ↦ do
      ys ← acts env tables surf cs
      elim ys [ none ↦ pure none | some rs ↦ pure (some (r ∷ rs)) ]
  ]

-- A new surface, and the calls on it.
abbrev pub use_surface :
    Env
    → Tables
    → (gbm : Ptr) → (width height format flags : ℕ) → List ViewCall
    → M (Option (List Reply))
use_surface env tables gbm width height format flags cs = do
  surf ← gbm_surface_create tables gbm width height format flags
  if surf == null then pure none else acts env tables surf cs
