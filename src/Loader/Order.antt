-- ===== src/Loader/Order.antt =====
-- The order in which `_gbm_create_device` tries the backends.
use libgbm.Base.{
  ℤ, ◌≡◌, refl, subst, sym, ap, ◌∙◌, arith, some, none, Option, List, [], ◌∷◌, ◌==◌, if◌then◌else◌,
  Bool-cases, inl, inr,
}
use libgbm.Types.{Ptr, null, CString}
use libgbm.Machine.{Env, State, Run, ok, fault, M, pure, and_then, ◌>>=◌}
use libgbm.DeviceOps.{GbmBackend}
use libgbm.Loader.{
  DynamicLoader, libgbm_kms, backends, load_backend, try_backends, preferred_backend,
  gbm_create_device_from_backend,
}

and_then-pure : (r : Run Ptr) → and_then r (λ p. pure p) ≡ r
and_then-pure (ok p s) = refl
and_then-pure fault = refl

-- The last attempt of a list decides.
last_attempt : (r : Run Ptr) → and_then r (λ p. if p == null then pure null else pure p) ≡ r
last_attempt (ok p s) = elim (Bool-cases (p == null)) [
  | inl z ↦ let e : p ≡ null = ground arith in rw e refl
  | inr z ↦ rw z refl
]
last_attempt fault = refl

abbrev candidates_of : Option CString → List CString
candidates_of none = backends
candidates_of (some name) = name ∷ backends

module _ (env : Env) (loader : DynamicLoader) (fd : ℤ) where
  -- Loads one backend and has it make a device; NULL if it cannot be loaded.
  unfoldable pub attempt : CString → M Ptr
  attempt name = do
    backend ← load_backend env loader name
    elim backend [ none ↦ pure null | some b ↦ b.create_device fd ]

  -- The first device that one of the backends makes, in the order of the list.
  abbrev pub first_of : List CString → M Ptr
  first_of [] = pure null
  first_of (name ∷ names) = do dev ← attempt name; if dev == null then first_of names else pure dev

  -- The backend that GBM_BACKEND names, if it is set, then those that are built in.
  abbrev pub candidates : List CString
  candidates = candidates_of loader.getenv_gbm_backend

  made_by :
      (r : Run (Option GbmBackend))
      → and_then r (λ backend. elim backend [
        | none ↦ pure null
        | some b ↦ (do dev ← b.create_device fd; pure dev)
      ])
        ≡ and_then r (λ backend. elim backend [ none ↦ pure null | some b ↦ b.create_device fd ])
  made_by (ok none s) = refl
  made_by (ok (some b) s) = and_then-pure (b.create_device fd s)
  made_by fault = refl

  -- The loop over the built-in backends.
  try_backends-first_of :
      (s : State) → try_backends env loader fd backends null s ≡ first_of backends s
  unfolding try_backends attempt
  try_backends-first_of s =
      made_by (load_backend env loader libgbm_kms s) ∙ sym (last_attempt (attempt libgbm_kms s))

  or_built_in :
      (r : Run Ptr)
      → and_then r (λ dev. try_backends env loader fd backends dev)
        ≡ and_then r (λ dev. if dev == null then first_of backends else pure dev)
  unfolding try_backends
  or_built_in (ok p s) = elim (Bool-cases (p == null)) [
    | inl z ↦
        let e : p ≡ null = ground arith in
        subst
          (λ q.
            try_backends env loader fd backends q s
            ≡ (if q == null then first_of backends else pure q) s)
          (sym e) (try_backends-first_of s)
    | inr z ↦ rw z refl
  ]
  or_built_in fault = refl

  after_preferred :
      (r : Run (Option GbmBackend))
      → and_then r (λ backend.
        (elim backend [ none ↦ pure null | some b ↦ b.create_device fd ]) >>= λ dev.
        try_backends env loader fd backends dev)
        ≡ and_then
            (and_then r
              (λ backend. elim backend [ none ↦ pure null | some b ↦ b.create_device fd ]))
            (λ dev. if dev == null then first_of backends else pure dev)
  after_preferred (ok none s) = try_backends-first_of s
  after_preferred (ok (some b) s) = or_built_in (b.create_device fd s)
  after_preferred fault = refl

  abbrev load_named : Option CString → M (Option GbmBackend)
  load_named variable = elim variable [ none ↦ pure none | some b ↦ load_backend env loader b ]

  from_variable :
      (variable : Option CString) (s : State)
      → and_then (load_named variable s) (λ backend.
        (elim backend [ none ↦ pure null | some b ↦ b.create_device fd ]) >>= λ dev.
        try_backends env loader fd backends dev)
        ≡ first_of (candidates_of variable) s
  unfolding attempt
  from_variable none s = try_backends-first_of s
  from_variable (some name) s = after_preferred (load_backend env loader name s)

  -- `_gbm_create_device` returns the first device that can be made, trying the backend of
  -- GBM_BACKEND first, if the variable is set, and then the built-in ones; it makes no call after
  -- that.
  pub create_device-first_of :
      (s : State) → gbm_create_device_from_backend env loader fd s ≡ first_of candidates s
  unfolding gbm_create_device_from_backend preferred_backend attempt
  create_device-first_of s = from_variable loader.getenv_gbm_backend s

  -- With GBM_BACKEND unset the built-in backend is the only one tried.
  pub create_device-built_in :
      (s : State)
      → loader.getenv_gbm_backend ≡ none
      → gbm_create_device_from_backend env loader fd s ≡ attempt libgbm_kms s
  create_device-built_in s e =
      create_device-first_of s
      ∙ ap (λ v. first_of (candidates_of v) s) e
      ∙ last_attempt (attempt libgbm_kms s)
