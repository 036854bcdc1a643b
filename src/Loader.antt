-- ===== src/Loader.antt =====
-- backend.c: the choice of a backend and the loading of its module.
pub mod Order
pub mod Totality
use libgbm.Base.{ℕ, ◌-◌, ℤ, Option, none, some, List, [], ◌∷◌, ◌++◌, ◌==◌, take, if◌then◌else◌}
use libgbm.Types.{Ptr, null, CString}
use libgbm.Machine.{Env, Event, Trace, M, pure, ◌>>=◌, ◌>>◌, emit}
use libgbm.DeviceOps.{GbmBackend}

-- The loader and the process that the code runs in: `moduledir` is the MODULEDIR of the build.
pub record DynamicLoader : Type 0 where
  pub moduledir : CString
  pub path_max : ℕ
  pub getenv_gbm_backend : Option CString
  pub dlopen : Trace → CString → Ptr
  pub dlsym_gbm_backend : Trace → (library : Ptr) → Option GbmBackend

abbrev pub slash : ℕ
slash = b'/'

-- "libgbm_kms.so.1".
abbrev pub libgbm_kms : CString
libgbm_kms =
    b'l' ∷ b'i' ∷ b'b' ∷ b'g' ∷ b'b' ∷ b'm' ∷ b'_' ∷ b'k' ∷ b'm' ∷ b's' ∷ b'.' ∷ b's' ∷ b'o' ∷ b'.'
    ∷ b'1' ∷ []

-- The static array `backends`.
abbrev pub backends : List CString
backends = libgbm_kms ∷ []

-- The full path: a name that begins with a slash is one already.
abbrev pub full_path : (moduledir name : CString) → CString
full_path moduledir [] = moduledir ++ slash ∷ []
full_path moduledir (c ∷ name) = if c == slash then c ∷ name else moduledir ++ slash ∷ c ∷ name

module _ (env : Env) (loader : DynamicLoader) where
  -- snprintf keeps what fits the array, with its terminator.
  unfoldable pub module_path : (name : CString) → CString
  module_path name = take (loader.path_max - 1) (full_path loader.moduledir name)

  unfoldable pub load_backend : (name : CString) → M (Option GbmBackend)
  unfolding module_path
  load_backend name s =
      let path = module_path name in
      let library = loader.dlopen s.trace path in
      (do
        emit env (Event.dlopen path library)
        if library == null then pure none else (λ t.
            let symbol = loader.dlsym_gbm_backend t.trace library in
            (emit env (Event.dlsym library) >> pure symbol) t))
        s

  -- The loop `for (i = 0; ... && dev == NULL; ++i)` over what is left of `backends`.
  unfoldable pub try_backends : (fd : ℤ) → List CString → (dev : Ptr) → M Ptr
  unfolding load_backend
  try_backends fd [] dev = pure dev
  try_backends fd (name ∷ names) dev =
      if dev == null
      then (do
        backend ← load_backend name
        elim backend [
          | none ↦ try_backends fd names dev
          | some b ↦ do dev' ← b.create_device fd; try_backends fd names dev'
        ])
      else pure dev

  -- The backend that the variable GBM_BACKEND names, if it is set.
  unfoldable pub preferred_backend : M (Option GbmBackend)
  unfolding load_backend
  preferred_backend = elim loader.getenv_gbm_backend [ none ↦ pure none | some b ↦ load_backend b ]

  -- `_gbm_create_device`.
  unfoldable pub gbm_create_device_from_backend : (fd : ℤ) → M Ptr
  unfolding preferred_backend try_backends
  gbm_create_device_from_backend fd = do
    backend ← preferred_backend
    dev ← elim backend [ none ↦ pure null | some b ↦ b.create_device fd ]
    try_backends fd backends dev
