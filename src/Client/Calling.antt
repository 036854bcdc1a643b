-- ===== src/Client/Calling.antt =====
-- The callbacks that gbm.c calls for a client.
use libgbm.Base.{
  ℕ, ℤ, [], ◌∷◌, ◌++◌, Option, some, ◌≡◌, refl, ◌||◌, ◌==◌, Bool-cases, inl, inr, if◌then◌else◌,
}
use libgbm.Types.{Ptr, null, KmsDevice, KmsBo, Object, a_bo, a_device}
use libgbm.Machine.{Env, Event, State, Trace, callbacks, HasCalled, bind-IsSilent, pure-IsSilent}
use libgbm.Kms.Lifetime.Silence.{bo_destroy-IsSilent}
use libgbm.Kms.Silence.{bo_create-IsSilent, bo_map-IsSilent, get_fd-IsSilent, get_plane_fd-IsSilent}
use libgbm.Kms.Table.{kms_gbm_device}
use libgbm.Frontend.Dispatch.{Tables}
use libgbm.Frontend.Creation.{gbm_bo_create, gbm_bo_create_with_modifiers, modifiers_mismatch}
use libgbm.Frontend.Buffer.{gbm_bo_map, gbm_bo_get_fd, gbm_bo_get_fd_for_plane, gbm_bo_destroy}
use libgbm.Client.Calls.{
  create, create_with_modifiers, export, export_plane, map, destroy, perform, handed,
}
use libgbm.Client.Remapping.{is_refused}

-- What the destruction of an object calls: its callback, with the object and its data, if it has
-- one.
abbrev pub callback_of : (bo : Ptr) → Option Object → Trace
callback_of bo (some (a_bo b)) =
    if b.base.destroy_user_data == null
    then []
    else Event.user_callback b.base.destroy_user_data bo b.base.user_data ∷ []
callback_of bo _ = []

module _ (env : Env) (tables : Tables) (gbm : Ptr) (d : KmsDevice)
    (kms : tables d.table ≡ kms_gbm_device env) (s : State)
    (live : s.heap gbm ≡ some (a_device d)) where
  pub create-HasCalled :
      (width height format usage : ℕ)
      → HasCalled (callbacks s.trace) (perform env tables gbm (create width height format usage) s)
  unfolding gbm_bo_create
  create-HasCalled width height format usage = elim (Bool-cases ((width == 0) || (height == 0))) [
    | inl z ↦ rw z refl
    | inr z ↦
        rw (z, live, kms)
          ((bind-IsSilent (bo_create-IsSilent env gbm width height format usage)
              λ _. pure-IsSilent []).calls_none
            s)
  ]

  pub create_with_modifiers-HasCalled :
      (width height format : ℕ) (modifiers : Ptr) (count : ℕ)
      → HasCalled
          (callbacks s.trace)
          (perform env tables gbm (create_with_modifiers width height format modifiers count) s)
  unfolding gbm_bo_create_with_modifiers
  create_with_modifiers-HasCalled width height format modifiers count =
      elim (Bool-cases ((width == 0) || (height == 0))) [
        | inl z ↦ rw z refl
        | inr z ↦ elim (Bool-cases (modifiers_mismatch modifiers count)) [
          | inl y ↦ rw (z, y) refl
          | inr y ↦
              rw (z, y, live, kms)
                ((bind-IsSilent (bo_create-IsSilent env gbm width height format 0)
                    λ _. pure-IsSilent []).calls_none
                  s)
        ]
      ]

  module _ (bo : Ptr) (b : KmsBo) (here : s.heap bo ≡ some (a_bo b)) (mine : b.base.gbm ≡ gbm) where
    dev : s.heap b.base.gbm ≡ some (a_device d)
    dev = rw mine live

    pub map-HasCalled :
        (x y width height flags : ℕ) (stride map_data : Ptr)
        → HasCalled
            (callbacks s.trace)
            (perform env tables gbm (map bo x y width height flags stride map_data) s)
    unfolding gbm_bo_map
    map-HasCalled x y width height flags stride map_data =
        elim (Bool-cases (is_refused bo width height stride map_data)) [
          | inl z ↦ rw z refl
          | inr z ↦
              rw (z, here, dev, kms)
                ((bind-IsSilent (bo_map-IsSilent env bo x y width height flags)
                    λ _. pure-IsSilent []).calls_none
                  s)
        ]

    pub export-HasCalled : HasCalled (callbacks s.trace) (perform env tables gbm (export bo) s)
    unfolding gbm_bo_get_fd
    export-HasCalled =
        rw (here, dev, kms)
          ((bind-IsSilent (get_fd-IsSilent env bo) λ fd. pure-IsSilent (handed fd)).calls_none s)

    pub export_plane-HasCalled :
        (plane : ℤ)
        → HasCalled (callbacks s.trace) (perform env tables gbm (export_plane bo plane) s)
    unfolding gbm_bo_get_fd_for_plane
    export_plane-HasCalled plane =
        rw (here, dev, kms)
          ((bind-IsSilent (get_plane_fd-IsSilent env bo plane)
              λ fd. pure-IsSilent (handed fd)).calls_none
            s)

    pub destroy-HasCalled :
        HasCalled
          (callback_of bo (s.heap bo) ++ callbacks s.trace)
          (perform env tables gbm (destroy bo) s)
    unfolding gbm_bo_destroy
    destroy-HasCalled = elim (Bool-cases (b.base.destroy_user_data == null)) [
      | inl z ↦
          rw (here, z, here, dev, kms)
            ((bind-IsSilent (bo_destroy-IsSilent env bo) λ _. pure-IsSilent []).calls_none s)
      | inr z ↦
          rw (here, z, here, dev, kms)
            ((bind-IsSilent (bo_destroy-IsSilent env bo) λ _. pure-IsSilent []).calls_none _)
    ]
