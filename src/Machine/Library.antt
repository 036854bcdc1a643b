-- ===== src/Machine/Library.antt =====
-- The libraries that the code calls, as functions of the calls made so far; `IsLawful` is what
-- their documentation says of them.
use libgbm.Base.{ℕ, ℤ, pos, is_neg, is_zero, ◌≡◌, ◌≢◌, ◌⊎◌, true, Option, none, some, List}
use libgbm.Types.{Ptr, null, Stat, WlKmsBuffer}
use libgbm.Machine.Events.{Event, KmsAttr}
use libgbm.Machine.Store.{Heap, Trace, State}

-- The returned number, and what the call stored through its result pointer, if anything.
pub record Out (A : Type 0) : Type 0 where
  pub ret : ℤ
  pub out : Option A

pub record Env : Type 0 where
  -- `DRM_FORMAT_MOD_LINEAR` of drm_fourcc.h
  pub format_mod_linear : ℕ
  pub calloc : Heap → Trace → Ptr
  -- what a call leaves in errno, if it writes it
  pub errno_after : Trace → Event → Option ℤ
  pub kms_create : Trace → (fd : ℤ) → Out Ptr
  pub kms_bo_create : Trace → (kms : Ptr) → List KmsAttr → Out Ptr
  pub kms_bo_get_prop : Trace → (bo : Ptr) → (key : KmsAttr) → Option ℕ
  pub kms_bo_map : Trace → (bo : Ptr) → Out Ptr
  pub prime_handle_to_fd : Trace → (dev_fd : ℤ) → (handle : ℕ) → Out ℤ
  pub prime_fd_to_handle : Trace → (dev_fd fd : ℤ) → Out ℕ
  pub wayland_kms_buffer_get : Trace → Ptr → Option WlKmsBuffer
  pub fstat : Trace → (fd : ℤ) → Out Stat

-- calloc returns NULL or an unused address.
abbrev pub CallocIsFresh : Env → Type 0
CallocIsFresh env = (h : Heap) (t : Trace) → env.calloc h t ≢ null → h (env.calloc h t) ≡ none

-- calloc has nothing to give.
abbrev pub NoMemory : Env → State → Type 0
NoMemory env s = env.calloc s.heap s.trace ≡ null

-- What the manuals promise of the calls: 0 means success and a negative number failure, a
-- successful call stores its result, which is not NULL, not the handle 0 and not a negative
-- descriptor (it may be descriptor 0), and a failed one that hands out resources stores nothing.
pub record IsLawful (env : Env) : Type 0 where
  pub fresh : CallocIsFresh env
  pub created :
      (t : Trace) (kms : Ptr) (attr : List KmsAttr)
      → is_zero (env.kms_bo_create t kms attr).ret ≡ true
      → (p : Ptr) × ((env.kms_bo_create t kms attr).out ≡ some p) × (p ≢ null)
  pub mapped :
      (t : Trace) (bo : Ptr)
      → ((env.kms_bo_map t bo).ret ≡ pos 0)
          × ((a : Ptr) × ((env.kms_bo_map t bo).out ≡ some a) × (a ≢ null))
        ⊎ ((is_neg (env.kms_bo_map t bo).ret ≡ true) × ((env.kms_bo_map t bo).out ≡ none))
  pub exported :
      (t : Trace) (dev_fd : ℤ) (handle : ℕ)
      → ((env.prime_handle_to_fd t dev_fd handle).ret ≡ pos 0)
          × ((n : ℕ) × ((env.prime_handle_to_fd t dev_fd handle).out ≡ some (pos n)))
        ⊎ ((is_neg (env.prime_handle_to_fd t dev_fd handle).ret ≡ true)
            × ((env.prime_handle_to_fd t dev_fd handle).out ≡ none))
  pub imported :
      (t : Trace) (dev_fd fd : ℤ)
      → ((env.prime_fd_to_handle t dev_fd fd).ret ≡ pos 0)
          × ((h : ℕ) × ((env.prime_fd_to_handle t dev_fd fd).out ≡ some h) × (h ≢ 0))
        ⊎ ((is_neg (env.prime_fd_to_handle t dev_fd fd).ret ≡ true)
            × ((env.prime_fd_to_handle t dev_fd fd).out ≡ none))
  pub stated :
      (t : Trace) (fd : ℤ)
      → (is_neg (env.fstat t fd).ret ≡ true)
        ⊎ (((env.fstat t fd).ret ≡ pos 0) × ((buf : Stat) × ((env.fstat t fd).out ≡ some buf)))
