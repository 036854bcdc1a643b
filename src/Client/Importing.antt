-- ===== src/Client/Importing.antt =====
-- Imports keep the ledger.
use libgbm.Base.{
  [], ℕ, ℤ, ◌<◌, ◌≤◌, ltb, ◌≡◌, ◌≢◌, ◌⊎◌, refl, some, ◌==◌, length, List, arith, Bool-cases,
  Option-cases, inl, inr,
}
use libgbm.Types.{
  Ptr, a_device, KmsDevice, KmsBo, ImportBuffer, ImportFdModifierData, WlKmsBuffer, wl_buffer,
  fd_data, fd_modifier_data, max_planes,
}
use libgbm.Machine.{Env, IsLawful, State, Returns, returns, Returns-mono, Holds-refl}
use libgbm.Kms.Formats.{mod_invalid}
use libgbm.Kms.Import.{gbm_kms_bo_import, gbm_kms_import_wl_buffer, gbm_kms_import_fd_modifier}
use libgbm.Kms.Import.Handles.{handles_held}
use libgbm.Kms.Import.Single.{Imported, HasFdData, failed, made, import_fd-Imported}
use libgbm.Kms.Import.Multiple.{HasModifierData, import_fd_modifier-Imported}
use libgbm.Kms.Import.Errors.{import_fd_modifier-refused}
use libgbm.Kms.Import.WlPlanes.{HasPlanes}
use libgbm.Kms.Import.Wayland.{no_object, object, import_wl_buffer-Borrowed}
use libgbm.Kms.Table.{kms_gbm_device}
use libgbm.Frontend.Dispatch.{Tables}
use libgbm.Frontend.Creation.{gbm_bo_import}
use libgbm.Client.Objects.{imports, borrows}
use libgbm.Client.Effects.{makes}
use libgbm.Client.Pool.{IsDevice}
use libgbm.Client.Ledger.{Ledger, Settled, Ledger-none, Ledger-lost, Ledger-new, Ledger-device}
use libgbm.Client.Calls.{IsShaped}

known_or_refused :
    (m linear : ℕ) → ((m ≡ linear) ⊎ (m ≡ mod_invalid)) ⊎ ((m ≢ linear) × (m ≢ mod_invalid))
known_or_refused m linear = elim (Bool-cases (m == linear)) [
  | inl z ↦ inl (inl (ground arith))
  | inr z ↦ elim (Bool-cases (m == mod_invalid)) [
    | inl y ↦ inl (inr (ground arith))
    | inr y ↦ inr (ground arith, ground arith)
  ]
]

in_range_or_refused : (n : ℕ) → ((0 < n) × (n ≤ max_planes)) ⊎ ((n ≡ 0) ⊎ (max_planes < n))
in_range_or_refused n = elim (Bool-cases (n == 0)) [
  | inl z ↦ inr (inl (ground arith))
  | inr z ↦ elim (Bool-cases (ltb max_planes n)) [
    | inl y ↦ inr (inr (ground arith))
    | inr y ↦ inl (ground arith, ground arith)
  ]
]

-- An import by several descriptors, also one that is refused at once.
pub import_fd_modifier-Returns :
    {env : Env} (law : IsLawful env) (gbm : Ptr) (d : KmsDevice) (s : State)
    (data' : ImportFdModifierData)
    → s.heap gbm ≡ some (a_device d)
    → data'.num_fds ≤ length data'.fds
    → data'.num_fds ≤ length data'.strides
    → Returns
        (Imported (HasModifierData data') gbm d.fd data'.fds s)
        (gbm_kms_import_fd_modifier env gbm data' s)
import_fd_modifier-Returns {env} law gbm d s data' device fds strides =
    elim (known_or_refused data'.modifier env.format_mod_linear) [
      | inr bad ↦ refused (inl bad)
      | inl known ↦ elim (in_range_or_refused data'.num_fds) [
        | inr bad ↦ refused (inr bad)
        | inl (low, high) ↦
            import_fd_modifier-Imported gbm data' law d s device known low high fds strides
      ]
    ]
  where
    refused :
        ((data'.modifier ≢ env.format_mod_linear) × (data'.modifier ≢ mod_invalid))
          ⊎ ((data'.num_fds ≡ 0) ⊎ (max_planes < data'.num_fds))
        → Returns
            (Imported (HasModifierData data') gbm d.fd data'.fds s)
            (gbm_kms_import_fd_modifier env gbm data' s)
    refused bad =
        rw (import_fd_modifier-refused env gbm data' s bad)
          (returns (failed [] refl (λ q. refl) (Holds-refl s.trace)))

module _ {env : Env} (law : IsLawful env) {Ours : Ptr → Type 0} (gbm : Ptr) (d : KmsDevice)
    (t : State) {given : List ℤ} (s : State) (w : Ledger Ours t given s)
    (known : IsDevice Ours t.heap gbm d) where
  Imported-Ledger :
      {P : List ℕ → KmsBo → Type 0} {fds : List ℤ} (p : Ptr) (u : State)
      → Imported P gbm d.fd fds s p u
      → Settled Ours t given makes s u
  Imported-Ledger p u (failed hs n same holds) = Ledger-lost w u d.fd hs same holds
  Imported-Ledger p u (made hs b ne unused i has at holds told) =
      Ledger-new w u p b (handles_held d.fd hs) known unused i.device (imports hs i (λ r. refl)) at
        holds

  wl_buffer-Ledger :
      (resource : Ptr)
      → ((buffer : WlKmsBuffer)
          → env.wayland_kms_buffer_get s.trace resource ≡ some buffer
          → HasPlanes buffer)
      → Returns
          (λ _ u. Settled Ours t given makes s u)
          (gbm_kms_import_wl_buffer env gbm resource s)
  wl_buffer-Ledger resource shaped =
      elim (Option-cases (env.wayland_kms_buffer_get s.trace resource)) [
        | inl e ↦
            unfold gbm_kms_import_wl_buffer in
            rw e (returns (Ledger-none w _ (λ q. refl) (λ r. omega arith)))
        | inr (buffer, e) ↦
            Returns-mono (import_wl_buffer-Borrowed law gbm resource buffer s e (shaped buffer e))
              λ p u x. elim x [
                | no_object n same bal ↦ Ledger-none w u same bal
                | object b ne unused al ah from at bal ↦
                    Ledger-new w u p b (λ r. 0) known unused from.device
                      (borrows al ah from.planes.room (λ r. refl)) at bal
              ]
      ]

  pub import-Ledger :
      (tables : Tables) (type : ℕ) (buffer : ImportBuffer) (usage : ℕ)
      → tables d.table ≡ kms_gbm_device env
      → IsShaped env s type buffer
      → Returns
          (λ _ u. Settled Ours t given makes s u)
          (gbm_bo_import tables gbm type buffer usage s)
  unfolding gbm_bo_import gbm_kms_bo_import
  import-Ledger tables type (wl_buffer p) usage kms (e, shaped) =
      rw (Ledger-device w known, kms, e) (wl_buffer-Ledger p shaped)
  import-Ledger tables type (fd_data f) usage kms e =
      rw (Ledger-device w known, kms, e)
        (Returns-mono (import_fd-Imported law gbm d f s (Ledger-device w known))
          (Imported-Ledger {P = HasFdData f}))
  import-Ledger tables type (fd_modifier_data m) usage kms (e, fds, strides) =
      rw (Ledger-device w known, kms, e)
        (Returns-mono (import_fd_modifier-Returns law gbm d s m (Ledger-device w known) fds strides)
          (Imported-Ledger {P = HasModifierData m}))
