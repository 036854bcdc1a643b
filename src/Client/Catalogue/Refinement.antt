-- ===== src/Client/Catalogue/Refinement.antt =====
-- The calls of gbm.c against the catalogue.
use libgbm.Base.{inl, inr, Option-cases, ℤ, some, List, ◌≡◌, refl, ap}
use libgbm.Types.{WlKmsBuffer, Ptr, KmsDevice, wl_buffer, fd_data, fd_modifier_data, a_bo}
use libgbm.Machine.{Env, IsLawful, State, Returns, returns, Returns-bind, Returns-mono, Returns-ok}
use libgbm.Kms.Table.{kms_gbm_device}
use libgbm.Frontend.Dispatch.{Tables}
use libgbm.Frontend.Creation.{gbm_bo_import}
use libgbm.Kms.Import.{gbm_kms_bo_import, gbm_kms_import_wl_buffer}
use libgbm.Kms.Import.WlPlanes.{HasPlanes}
use libgbm.Kms.Import.Wayland.{no_object, object, import_wl_buffer-Borrowed}
use libgbm.Client.Pool.{IsDevice}
use libgbm.Client.Ledger.{Ledger, Ledger-device}
use libgbm.Client.Calls.{
  Call, create, create_with_modifiers, export, export_plane, device_question, import, map, unmap,
  write, set_user_data, question, destroy, perform, effect, IsAllowed,
}
use libgbm.Client.Reach.{IsFresh, Reach, here, next, call, Reach-Ledger, perform-Settled}
use libgbm.Client.Orders.{Order, by_size, by_modifiers, by_fd, by_fds, place, IsComplete}
use libgbm.Client.Orders.Placing.{Placed, place-Placed}
use libgbm.Client.Catalogue.Logs.{Matches, Fits, Log, blank, line, log_of}
use libgbm.Client.Catalogue.{
  entry_of, entry_at, catalogue, catalogue-write, Recorded, nothing, one, Revised, Any,
  Change-Revised,
}

Placed-Recorded :
    {gbm : Ptr} {o : Order} {s : State} {p : Ptr} {u : State}
    → Placed gbm o s p u
    → Recorded (Matches gbm o) (catalogue s.heap) (catalogue u.heap)
Placed-Recorded (Placed.nothing z same) = nothing λ q. ap entry_at (same q)
Placed-Recorded {s} {p} {u} (Placed.object b unused at i) =
    one p (entry_of b) (ap entry_at unused) (i.device, i.wide, i.high, i.formatted, i.planes)
      (catalogue-write s.heap u.heap p (some (a_bo b)) at)

module _ {env : Env} (law : IsLawful env) (tables : Tables) {Ours : Ptr → Type 0} (gbm : Ptr)
    (d : KmsDevice) (kms : tables d.table ≡ kms_gbm_device env) {t : State} {given : List ℤ}
    (s : State) (w : Ledger Ours t given s) (known : IsDevice Ours t.heap gbm d) where
  place-Recorded :
      (o : Order)
      → IsComplete o
      → Returns
          (λ _ u. Recorded (Matches gbm o) (catalogue s.heap) (catalogue u.heap))
          (place tables gbm o s)
  place-Recorded o complete =
      Returns-mono (place-Placed law tables gbm d kms s (Ledger-device w known) o complete)
        λ p u x. Placed-Recorded x

  wl_buffer-Recorded :
      (resource : Ptr)
      → ((buffer : WlKmsBuffer)
          → env.wayland_kms_buffer_get s.trace resource ≡ some buffer
          → HasPlanes buffer)
      → Returns
          (λ _ u. Recorded (λ e. e.device ≡ gbm) (catalogue s.heap) (catalogue u.heap))
          (gbm_kms_import_wl_buffer env gbm resource s)
  wl_buffer-Recorded resource shaped =
      elim (Option-cases (env.wayland_kms_buffer_get s.trace resource)) [
        | inl e ↦ unfold gbm_kms_import_wl_buffer in rw e (returns (nothing λ q. refl))
        | inr (buffer, e) ↦
            Returns-mono (import_wl_buffer-Borrowed law gbm resource buffer s e (shaped buffer e))
              λ p u x. elim x [
                | no_object n same bal ↦ nothing λ q. ap entry_at (same q)
                | object b ne unused al ah from at bal ↦
                    one p (entry_of b) (ap entry_at unused) from.device
                      (catalogue-write s.heap u.heap p (some (a_bo b)) at)
              ]
      ]

  -- By what the call does to the heap.
  perform-told :
      (c : Call)
      → IsAllowed env gbm s c
      → Returns
          (λ _ u. Revised Any (effect c) (catalogue s.heap) (catalogue u.heap))
          (perform env tables gbm c s)
  perform-told c a =
      Returns-mono (perform-Settled law tables gbm d kms t c s a w known)
        λ _ u x. Change-Revised x.change

  perform-Revised :
      (c : Call)
      → IsAllowed env gbm s c
      → Returns
          (λ _ u. Revised (Fits gbm c) (effect c) (catalogue s.heap) (catalogue u.heap))
          (perform env tables gbm c s)
  unfolding gbm_bo_import gbm_kms_bo_import
  perform-Revised (create width height format usage) a =
      Returns-bind (place-Recorded (by_size width height format usage) tt) λ _ u x. returns x
  perform-Revised (create_with_modifiers width height format modifiers count) a =
      Returns-bind (place-Recorded (by_modifiers width height format modifiers count) tt)
        λ _ u x. returns x
  perform-Revised (import type (fd_data f) usage) a =
      rw a (Returns-bind (place-Recorded (by_fd f usage) tt) λ _ u x. returns x)
  perform-Revised (import type (fd_modifier_data m) usage) (e, fds, strides) =
      rw e (Returns-bind (place-Recorded (by_fds m usage) (fds, strides)) λ _ u x. returns x)
  perform-Revised (import type (wl_buffer p) usage) (e, shaped) =
      rw (Ledger-device w known, kms, e)
        (Returns-bind (wl_buffer-Recorded p shaped) λ _ u x. returns x)
  perform-Revised (map bo x y width height flags stride map_data) a =
      perform-told (map bo x y width height flags stride map_data) a
  perform-Revised (unmap bo map_data) a = perform-told (unmap bo map_data) a
  perform-Revised (write bo buf count) a = perform-told (write bo buf count) a
  perform-Revised (set_user_data bo data' f) a = perform-told (set_user_data bo data' f) a
  perform-Revised (export bo) a = perform-told (export bo) a
  perform-Revised (export_plane bo plane) a = perform-told (export_plane bo plane) a
  perform-Revised (question bo q) a = perform-told (question bo q) a
  perform-Revised (device_question q) a = perform-told (device_question q) a
  perform-Revised (destroy bo) a = perform-told (destroy bo) a

module _ {env : Env} (law : IsLawful env) (tables : Tables) {Ours : Ptr → Type 0} where
  -- The calls implement the catalogue: if the libraries keep what they document, then any sequence
  -- of allowed calls of gbm.c, interleaved as they may be, on devices of the KMS backend that began
  -- without buffer objects of their own, revises the catalogue of all the buffer objects in the
  -- heap just as its calls say, one after the other. A creation or an import adds nothing, or one
  -- entry at an unused address; the entry has the device that was asked, and, if the import is not
  -- that of a wl_buffer, the size, the canonical form of the format and the number of planes
  -- ordered. `gbm_bo_set_user_data` changes the user data in one entry, `gbm_bo_destroy` removes
  -- one, and no other call changes any.
  pub Reach-Log :
      {s : State} {fds : List ℤ} {u : State}
      → IsFresh env tables Ours s
      → (reach : Reach env tables Ours s fds u)
      → Log (catalogue s.heap) (log_of reach) (catalogue u.heap)
  Reach-Log fresh here = blank λ q. refl
  Reach-Log fresh (next before (call gbm ours c a e)) =
      let w = Reach-Ledger law tables fresh before in
      let (d, known, kms) = fresh.devices gbm ours in
      line gbm c (Reach-Log fresh before)
        (Returns-ok (perform-Revised law tables gbm d kms _ w known c a) e)
