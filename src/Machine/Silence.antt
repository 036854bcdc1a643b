-- ===== src/Machine/Silence.antt =====
-- The calls of the libraries call no callback of the client.
use libgbm.Base.{ℕ, ℤ, List, ◌∷◌, ◌≡◌, refl, ◌==◌, Bool-cases, inl, inr}
use libgbm.Types.{Ptr, Object}
use libgbm.Machine.Events.{Event, KmsAttr}
use libgbm.Machine.Store.{Trace, pure, set_errno, ◌>>◌}
use libgbm.Machine.Library.{Env}
use libgbm.Machine.Calls.{
  emit, calloc, kms_bo_create, kms_bo_get_prop, kms_bo_map, prime_handle_to_fd, prime_fd_to_handle,
  wayland_kms_buffer_get,
}
use libgbm.Machine.Callbacks.{callbacks, IsSilent}

pub calloc-IsSilent : (env : Env) (o : Object) → IsSilent (calloc env o)
calloc-IsSilent env o = record {
  calls_none = λ s. elim (Bool-cases (env.calloc s.heap s.trace == 0)) [
    | inl z ↦ rw z refl
    | inr z ↦ rw z refl
  ];
}

pub emit-IsSilent :
    (env : Env) (e : Event)
    → ((t : Trace) → callbacks (e ∷ t) ≡ callbacks t)
    → IsSilent (emit env e)
emit-IsSilent env e none' = record { calls_none = λ s. none' s.trace }

pub kms_bo_create-IsSilent :
    (env : Env) (kms : Ptr) (attr : List KmsAttr) → IsSilent (kms_bo_create env kms attr)
kms_bo_create-IsSilent env kms attr = record { calls_none = λ s. refl }

pub kms_bo_get_prop-IsSilent :
    (env : Env) (kms_bo : Ptr) (key : KmsAttr) → IsSilent (kms_bo_get_prop env kms_bo key)
kms_bo_get_prop-IsSilent env kms_bo key = record { calls_none = λ s. refl }

pub kms_bo_map-IsSilent : (env : Env) (kms_bo : Ptr) → IsSilent (kms_bo_map env kms_bo)
kms_bo_map-IsSilent env kms_bo = record { calls_none = λ s. refl }

pub prime_handle_to_fd-IsSilent :
    (env : Env) (fd : ℤ) (handle : ℕ) → IsSilent (prime_handle_to_fd env fd handle)
prime_handle_to_fd-IsSilent env fd handle = record { calls_none = λ s. refl }

pub prime_fd_to_handle-IsSilent : (env : Env) (fd x : ℤ) → IsSilent (prime_fd_to_handle env fd x)
prime_fd_to_handle-IsSilent env fd x = record { calls_none = λ s. refl }

pub wl_buffer_get-IsSilent : (env : Env) (p : Ptr) → IsSilent (wayland_kms_buffer_get env p)
wl_buffer_get-IsSilent env p = record { calls_none = λ s. refl }

-- A refusal with errno.
pub refuse-IsSilent : {A : Type 0} (e : ℤ) (a : A) → IsSilent (set_errno e >> pure a)
refuse-IsSilent e a = record { calls_none = λ s. refl }
