-- ===== src/Tests/Surfaces.antt =====
-- Surfaces on the bench.
use libgbm.Base.{
  List, [], ◌∷◌, pos, negsuc, Option, ◌≢◌, ◌≡◌, ◌⊎◌, inl, inr, refl, some, none, arith,
}
use libgbm.Types.{Object, Ptr, null, KmsBo, KmsSurface, a_bo, a_surface, zero_bo, zero_surface}
use libgbm.Machine.{
  Env, Heap, CallocIsFresh, NoMemory, Run, free, ok, State, Returns, fault, write, ◌>>=◌, ◌>>◌,
}
use libgbm.Kms.Surfaces.{
  gbm_kms_surface_create, gbm_kms_set_bo, fill_slot, gbm_kms_surface_set_bo,
  gbm_kms_surface_lock_front_buffer, gbm_kms_surface_release_buffer,
  gbm_kms_surface_has_free_buffers, gbm_kms_surface_destroy, gbm_kms_is_bo_locked, surface_bo,
}
use libgbm.Kms.Surfaces.Buffers.{Replaced, set_bo-IsSound}
use libgbm.Kms.Surfaces.Locks.{IsDouble, lock_twice-release}
use libgbm.Kms.Surfaces.Faults.{set_bo-cleared_twice, has_free_buffers-new, surface_destroy-leak}
use libgbm.Kms.Surfaces.Frames.{fill, flip, perform, Reach, frame}
use libgbm.Kms.Surfaces.Frames.Keeping.{IsReady}
use libgbm.Kms.Surfaces.Frames.Runs.{IsFill, surface_create-perform}
use libgbm.Kms.Table.{kms_gbm_device}
use libgbm.Frontend.Dispatch.{Tables}
use libgbm.Client.Surface.{ViewCall, Reply, left, use_surface}
use libgbm.Client.Surface.Programs.{use_surface-asks}
use libgbm.Tests.Bench.{card, bench, bench-fresh, start}

abbrev window : KmsSurface
window = record zero_surface { bo0 = 3; bo1 = 4 }

-- A surface at address 2 with its buffers at 3 and 4.
abbrev double : State
double = record start {
  heap =
      write (write (write start.heap 2 (some (a_surface window))) 3 (some (a_bo zero_bo))) 4
        (some (a_bo zero_bo));
}

-- The same surface before it has a buffer.
abbrev empty : State
empty = record start { heap = write start.heap 2 (some (a_surface zero_surface)) }

set_bo-IsSound_example :
    Returns
      (λ ret u.
        ((ret ≡ negsuc 0) × NoMemory bench u)
        ⊎ ((ret ≡ pos 0) × Replaced 2 window (pos 1) (surface_bo window 4096 (pos 9) 256) double u))
      (gbm_kms_surface_set_bo bench 2 (pos 1) 4096 (pos 9) 256 double)
set_bo-IsSound_example =
    set_bo-IsSound bench bench-fresh 2 window 1 4096 (pos 9) 256 double (omega arith)
      (inl (λ e. absurd (omega (arith, e))))
      (record {
        at = refl;
        first = inr (zero_bo, refl);
        second = inr (zero_bo, refl);
        distinct = inr (λ e. absurd (omega (arith, e)));
      })

double-IsDouble : IsDouble 2 window zero_bo zero_bo 0 double
double-IsDouble = record {
  at = refl;
  first = refl;
  second = refl;
  distinct = λ e. absurd (omega (arith, e));
  front = refl;
  in_range = omega arith;
}

lock_twice-release_example :
    Returns
      (λ locked u. locked ≡ pos 0)
      ((gbm_kms_surface_lock_front_buffer 2
          >> (gbm_kms_surface_lock_front_buffer 2 >>= λ p.
              gbm_kms_surface_release_buffer 2 p >> gbm_kms_is_bo_locked p))
        double)
lock_twice-release_example = lock_twice-release 2 window zero_bo zero_bo 0 double double-IsDouble

set_bo-cleared_twice_example :
    (gbm_kms_surface_set_bo bench 2 (pos 0) null (pos 5) 0
        >> gbm_kms_surface_set_bo bench 2 (pos 0) 4096 (pos 6) 256)
      double
    ≡ fault
set_bo-cleared_twice_example =
    set_bo-cleared_twice bench 2 window zero_bo 0 (pos 5) (pos 6) 4096 256 double (omega arith) refl
      (λ e. absurd (omega (arith, e))) refl

has_free_buffers-new_example : gbm_kms_surface_has_free_buffers 2 empty ≡ fault
has_free_buffers-new_example = has_free_buffers-new 2 zero_surface empty refl refl refl

surface_destroy-leak_example :
    Returns
      (λ _ u.
        (u.heap 2 ≡ none)
        × ((p : Ptr) (b : KmsBo) → double.heap p ≡ some (a_bo b) → u.heap p ≡ some (a_bo b)))
      (gbm_kms_surface_destroy 2 double)
surface_destroy-leak_example =
    surface_destroy-leak 2 window double (λ e. absurd (omega (arith, e))) refl

-- Memory for a surface and one of its buffers.
abbrev pick : Option Object → Option Object → Ptr
pick none _ = 100
pick (some o) none = 101
pick (some o) (some q) = null

abbrev desk : Env
desk = record bench { calloc = λ h t. pick (h 100) (h 101) }

pick-none :
    (h : Heap) (a b : Option Object) → h 100 ≡ a → h 101 ≡ b → pick a b ≢ null → h (pick a b) ≡ none
pick-none h none b ea eb ne = ea
pick-none h (some o) none ea eb ne = eb
pick-none h (some o) (some q) ea eb ne = absurd (ne refl)

desk-fresh : CallocIsFresh desk
desk-fresh h t ne = pick-none h (h 100) (h 101) refl refl ne

abbrev after : {A : Type 0} → Run A → State
after (ok a s) = s
after fault = start

-- A new surface, and the same once its first slot is filled.
shown : State
unfolding gbm_kms_surface_create
shown = after (gbm_kms_surface_create desk 1 64 32 0 0 start)

drawn : State
unfolding shown gbm_kms_set_bo gbm_kms_surface_set_bo fill_slot free
drawn = after (perform desk 100 (fill 0 4096 (pos 9) 256) shown)

to_drawn : Reach desk 100 shown drawn
unfolding drawn
to_drawn = Reach.next Reach.here (
    frame (fill 0 4096 (pos 9) 256) (_, refl, (omega arith, inl (λ e. absurd (omega (arith, e)))))
      refl)

surface_create-perform_example :
    Returns
      (λ ret x.
        ((ret ≡ negsuc 0) × IsFill (flip 0) × NoMemory desk x) ⊎ ((ret ≡ pos 0) × IsReady 100 x))
      (perform desk 100 (flip 0) drawn)
unfolding drawn
surface_create-perform_example =
    surface_create-perform desk desk-fresh 1 100 64 32 0 0 start (flip 0) refl
      (λ e. absurd (omega (arith, e))) to_drawn
      (_, refl, (omega arith, (λ e. absurd (omega (arith, e)))))

-- The first slot is filled and becomes the front; the front is locked and released.
abbrev frame_calls : List ViewCall
frame_calls =
    ViewCall.fill left 4096 (pos 9) 256
    ∷ ViewCall.flip left
    ∷ ViewCall.lock
    ∷ ViewCall.release left
    ∷ []

abbrev frame_replies : List Reply
frame_replies = Reply.done ∷ Reply.done ∷ Reply.shown (some left) ∷ Reply.done ∷ []

-- Every table is the KMS backend's.
abbrev desk_tables : Tables
desk_tables n = kms_gbm_device desk

use_surface-asks_example :
    Returns
      (λ x u. ((x ≡ none) × NoMemory desk u) ⊎ (x ≡ some frame_replies))
      (use_surface desk desk_tables 1 64 32 0 0 frame_calls start)
use_surface-asks_example =
    use_surface-asks desk desk-fresh desk_tables card refl 1 64 32 0 0 frame_calls frame_replies
      start refl (λ e. absurd (omega (arith, e))) refl
