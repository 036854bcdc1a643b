-- ===== src/Loader/Totality.antt =====
-- The loader ends on every path: whatever can be loaded, and whatever was asked for.
use libgbm.Base.{
  ℤ, ◌≡◌, ◌≢◌, ◌⊎◌, inl, inr, refl, arith, some, none, Option, List, [], ◌∷◌, ◌==◌, Bool-cases,
}
use libgbm.Types.{Ptr, null, CString, KmsDevice, a_device}
use libgbm.Machine.{Env, State, M, pure, ◌>>=◌, Trace, Returns, returns, Returns-bind}
use libgbm.DeviceOps.{GbmBackend}
use libgbm.Loader.{
  DynamicLoader, backends, module_path, load_backend, try_backends, preferred_backend,
  gbm_create_device_from_backend,
}

-- NULL, or the address of a live device.
abbrev pub IsDeviceOrNull : Ptr → State → Type 0
IsDeviceOrNull p u = (p ≡ null) ⊎ ((p ≢ null) × ((d : KmsDevice) × (u.heap p ≡ some (a_device d))))

-- Each backend that the loader finds keeps gbmint.h's contract for `create_device`: it returns NULL
-- or a device.
abbrev pub IsResponsive : DynamicLoader → (fd : ℤ) → Type 0
IsResponsive loader fd =
    (t : Trace) (library : Ptr) (b : GbmBackend)
    → loader.dlsym_gbm_backend t library ≡ some b
    → (s : State) → Returns IsDeviceOrNull (b.create_device fd s)

module _ (env : Env) (loader : DynamicLoader) (fd : ℤ) (responsive : IsResponsive loader fd) where
  -- No backend, or one that returns.
  abbrev Answers : Option GbmBackend → Type 0
  Answers none = Unit {0}
  Answers (some b) = (s : State) → Returns IsDeviceOrNull (b.create_device fd s)

  found-Answers :
      (t : Trace) (library : Ptr) (b : Option GbmBackend)
      → loader.dlsym_gbm_backend t library ≡ b
      → Answers b
  found-Answers t library none e = tt
  found-Answers t library (some b) e = responsive t library b e

  load_backend-Returns :
      (name : CString) (s : State) → Returns (λ b _. Answers b) (load_backend env loader name s)
  unfolding load_backend
  load_backend-Returns name s =
      elim (Bool-cases (loader.dlopen s.trace (module_path env loader name) == null)) [
        | inl z ↦ rw z (returns tt)
        | inr z ↦ rw z (returns (found-Answers _ _ _ refl))
      ]

  -- One round of the loop, with the backend that was loaded.
  abbrev round : (Ptr → M Ptr) → Ptr → Option GbmBackend → M Ptr
  round rest p b = elim b [ none ↦ rest p | some c ↦ do q ← c.create_device fd; rest q ]

  round-Returns :
      (rest : Ptr → M Ptr) (p : Ptr) (b : Option GbmBackend) (u : State)
      → ((q : Ptr) (v : State) → IsDeviceOrNull q v → Returns IsDeviceOrNull (rest q v))
      → p ≡ null
      → Answers b
      → Returns IsDeviceOrNull (round rest p b u)
  round-Returns rest p none u next z a = next p u (inl z)
  round-Returns rest p (some c) u next z a = Returns-bind (a u) next

  -- What the backend of GBM_BACKEND makes.
  abbrev first_device : Option GbmBackend → M Ptr
  first_device b = elim b [ none ↦ pure null | some c ↦ c.create_device fd ]

  first-Returns :
      (b : Option GbmBackend) (u : State) → Answers b → Returns IsDeviceOrNull (first_device b u)
  first-Returns none u a = returns (inl refl)
  first-Returns (some c) u a = a u

  try_backends-Returns :
      (names : List CString) (p : Ptr) (s : State)
      → IsDeviceOrNull p s
      → Returns IsDeviceOrNull (try_backends env loader fd names p s)
  unfolding try_backends
  try_backends-Returns [] p s h = returns h
  try_backends-Returns (name ∷ names) p s h = elim (Bool-cases (p == null)) [
    | inr z ↦ rw z (returns h)
    | inl z ↦ rw z (
        Returns-bind (load_backend-Returns name s) λ b u a.
          round-Returns (try_backends env loader fd names) p b u (try_backends-Returns names)
            (ground arith) a)
  ]

  preferred_backend-Returns :
      (variable : Option CString) (s : State)
      → loader.getenv_gbm_backend ≡ variable
      → Returns (λ b _. Answers b) (preferred_backend env loader s)
  unfolding preferred_backend
  preferred_backend-Returns none s e = rw e (returns tt)
  preferred_backend-Returns (some name) s e = rw e (load_backend-Returns name s)

  -- `_gbm_create_device` returns NULL or a live device, if each backend that the loader finds does.
  pub create_device_from_backend-Returns :
      (s : State) → Returns IsDeviceOrNull (gbm_create_device_from_backend env loader fd s)
  unfolding gbm_create_device_from_backend
  create_device_from_backend-Returns s =
      Returns-bind (preferred_backend-Returns loader.getenv_gbm_backend s refl)
        λ b u a. Returns-bind (first-Returns b u a) (try_backends-Returns backends)
