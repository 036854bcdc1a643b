-- ===== src/Client/Callbacks.antt =====
-- Every callback along a client's calls: one for each object that is destroyed, and no other.
use libgbm.Base.{subst, ℕ, ℤ, pos, negsuc, List, [], ◌++◌, some, ◌≡◌, refl, ap, ◌∙◌, ◌==◌}
use libgbm.Types.{Ptr, KmsDevice, KmsBo, a_bo, a_device}
use libgbm.Machine.{
  Env, IsLawful, State, Trace, Run, ok, callbacks, HasCalled, IsSilent, bind-IsSilent, if-IsSilent,
  pure-IsSilent, refuse-IsSilent,
}
use libgbm.Format.{gbm_format_canonicalize}
use libgbm.Kms.Formats.{
  gbm_kms_is_format_supported, gbm_kms_get_format_modifier_plane_count,
  gbm_kms_get_format_plane_count, is_32bpp, einval,
}
use libgbm.Kms.Silence.{
  bo_unmap-IsSilent, bo_write-IsSilent, get_stride-IsSilent, get_handle-IsSilent,
}
use libgbm.Kms.Import.Silence.{bo_import-IsSilent}
use libgbm.Kms.Query.{gbm_kms_bo_get_planes, gbm_kms_bo_get_offset, gbm_kms_bo_get_modifier}
use libgbm.Kms.Table.{kms_gbm_device}
use libgbm.Frontend.Dispatch.{Tables}
use libgbm.Frontend.Creation.{gbm_bo_import}
use libgbm.Frontend.Device.{
  gbm_device_get_fd, gbm_device_get_backend_name, gbm_device_is_format_supported,
  gbm_device_get_format_modifier_plane_count,
}
use libgbm.Frontend.Buffer.{
  gbm_bo_unmap, gbm_bo_write, gbm_bo_set_user_data, gbm_bo_get_width, gbm_bo_get_height,
  gbm_bo_get_format, gbm_bo_get_bpp, gbm_bo_get_device, gbm_bo_get_handle, gbm_bo_get_user_data,
  gbm_bo_get_stride, gbm_bo_get_stride_for_plane, gbm_bo_get_handle_for_plane, gbm_bo_get_offset,
  gbm_bo_get_plane_count, gbm_bo_get_modifier,
}
use libgbm.Client.Calls.{
  Call, create, create_with_modifiers, export, export_plane, device_question, import, map, unmap,
  write, set_user_data, question, destroy, perform, IsAllowed,
}
use libgbm.Client.Questions.{
  Question, width_of, height_of, format_of, bpp_of, device_of, first_handle, user_data_of,
  first_stride, stride_of, handle_of, offset_of, plane_count, modifier_of,
}
use libgbm.Client.Questions.{
  DeviceQuestion, descriptor, backend_name, is_supported, modifier_planes,
}
use libgbm.Client.Ledger.{Ledger-device}
use libgbm.Client.Reach.{IsFresh, Reach, here, next, call, Reach-Ledger}
use libgbm.Client.Calling.{
  callback_of, create-HasCalled, create_with_modifiers-HasCalled, map-HasCalled, export-HasCalled,
  export_plane-HasCalled, destroy-HasCalled,
}

-- The callbacks that a call of gbm.c makes in the state `s`.
abbrev pub called_by : Call → State → Trace
called_by (destroy bo) s = callback_of bo (s.heap bo)
called_by (create width height format usage) s = []
called_by (create_with_modifiers width height format modifiers count) s = []
called_by (import type buffer usage) s = []
called_by (map bo x y width height flags stride map_data) s = []
called_by (unmap bo map_data) s = []
called_by (write bo buf count) s = []
called_by (set_user_data bo data' f) s = []
called_by (export bo) s = []
called_by (export_plane bo plane) s = []
called_by (question bo q) s = []
called_by (device_question q) s = []

plane_count-IsSilent : (format : ℕ) → IsSilent (gbm_kms_get_format_plane_count format)
unfolding gbm_kms_get_format_plane_count
plane_count-IsSilent format =
    if-IsSilent (is_32bpp (gbm_format_canonicalize format)) (pure-IsSilent (pos 1))
      (refuse-IsSilent einval (negsuc 0))

module _ (env : Env) (tables : Tables) (gbm : Ptr) (d : KmsDevice)
    (kms : tables d.table ≡ kms_gbm_device env) (s : State)
    (live : s.heap gbm ≡ some (a_device d)) where
  ask_device-HasCalled :
      (q : DeviceQuestion)
      → HasCalled (callbacks s.trace) (perform env tables gbm (device_question q) s)
  unfolding gbm_device_get_fd gbm_device_get_backend_name gbm_device_is_format_supported
      gbm_device_get_format_modifier_plane_count gbm_kms_is_format_supported
      gbm_kms_get_format_modifier_plane_count
  ask_device-HasCalled descriptor = rw live refl
  ask_device-HasCalled backend_name = rw live refl
  ask_device-HasCalled (is_supported format usage) =
      rw (live, kms)
        ((bind-IsSilent
            (bind-IsSilent (bind-IsSilent (plane_count-IsSilent format) λ n. pure-IsSilent _)
              λ _. pure-IsSilent tt)
            λ _. pure-IsSilent []).calls_none
          s)
  ask_device-HasCalled (modifier_planes format modifier) =
      rw (live, kms)
        ((bind-IsSilent
            (bind-IsSilent
              (if-IsSilent (modifier == env.format_mod_linear) (plane_count-IsSilent format)
                (refuse-IsSilent einval (negsuc 0)))
              λ _. pure-IsSilent tt)
            λ _. pure-IsSilent []).calls_none
          s)

  module _ (bo : Ptr) (b : KmsBo) (at : s.heap bo ≡ some (a_bo b)) (mine : b.base.gbm ≡ gbm) where
    ask-HasCalled :
        (q : Question) → HasCalled (callbacks s.trace) (perform env tables gbm (question bo q) s)
    unfolding gbm_bo_get_width gbm_bo_get_height gbm_bo_get_format gbm_bo_get_bpp gbm_bo_get_device
        gbm_bo_get_handle gbm_bo_get_user_data gbm_bo_get_stride gbm_bo_get_stride_for_plane
        gbm_bo_get_handle_for_plane gbm_bo_get_offset gbm_bo_get_plane_count gbm_bo_get_modifier
        gbm_kms_bo_get_planes gbm_kms_bo_get_offset gbm_kms_bo_get_modifier
    ask-HasCalled width_of = rw at refl
    ask-HasCalled height_of = rw at refl
    ask-HasCalled format_of = rw at refl
    ask-HasCalled bpp_of = rw at refl
    ask-HasCalled device_of = rw at refl
    ask-HasCalled first_handle = rw at refl
    ask-HasCalled user_data_of = rw at refl
    ask-HasCalled first_stride =
        rw (at, mine, live, kms)
          ((bind-IsSilent
              (bind-IsSilent (get_stride-IsSilent bo (pos 0)) λ n. pure-IsSilent (pos n))
              λ _. pure-IsSilent []).calls_none
            s)
    ask-HasCalled (stride_of plane) =
        rw (at, mine, live, kms)
          ((bind-IsSilent (bind-IsSilent (get_stride-IsSilent bo plane) λ n. pure-IsSilent (pos n))
              λ _. pure-IsSilent []).calls_none
            s)
    ask-HasCalled (handle_of plane) =
        rw (at, mine, live, kms)
          ((bind-IsSilent (bind-IsSilent (get_handle-IsSilent bo plane) λ n. pure-IsSilent (pos n))
              λ _. pure-IsSilent []).calls_none
            s)
    ask-HasCalled (offset_of plane) = rw (at, mine, live, kms) refl
    ask-HasCalled plane_count = rw (at, mine, live, kms, at) refl
    ask-HasCalled modifier_of = rw (at, mine, live, kms) refl

  perform-HasCalled :
      (c : Call)
      → IsAllowed env gbm s c
      → HasCalled (called_by c s ++ callbacks s.trace) (perform env tables gbm c s)
  unfolding gbm_bo_import gbm_bo_unmap gbm_bo_write gbm_bo_set_user_data
  perform-HasCalled (create width height format usage) a =
      create-HasCalled env tables gbm d kms s live width height format usage
  perform-HasCalled (create_with_modifiers width height format modifiers count) a =
      create_with_modifiers-HasCalled env tables gbm d kms s live width height format modifiers
        count
  perform-HasCalled (import type buffer usage) a =
      rw (live, kms)
        ((bind-IsSilent (bo_import-IsSilent env gbm type buffer usage)
            λ _. pure-IsSilent []).calls_none
          s)
  perform-HasCalled (map bo x y width height flags stride map_data) (b, at, ne, mine, al) =
      map-HasCalled env tables gbm d kms s live bo b at mine x y width height flags stride map_data
  perform-HasCalled (unmap bo map_data) (b, at, ne, mine, al) =
      rw (at, mine, live, kms)
        ((bind-IsSilent (bo_unmap-IsSilent env bo map_data) λ _. pure-IsSilent []).calls_none s)
  perform-HasCalled (write bo buf count) (b, at, ne, mine) =
      rw (at, mine, live, kms)
        ((bind-IsSilent (bo_write-IsSilent env bo buf count) λ _. pure-IsSilent []).calls_none s)
  perform-HasCalled (set_user_data bo data' f) (b, at, ne, mine) = rw at refl
  perform-HasCalled (export bo) (b, at, ne, mine) =
      export-HasCalled env tables gbm d kms s live bo b at mine
  perform-HasCalled (export_plane bo plane) (b, at, ne, mine) =
      export_plane-HasCalled env tables gbm d kms s live bo b at mine plane
  perform-HasCalled (question bo q) (b, at, ne, mine) = ask-HasCalled bo b at mine q
  perform-HasCalled (device_question q) a = ask_device-HasCalled q
  perform-HasCalled (destroy bo) (b, at, ne, mine) =
      destroy-HasCalled env tables gbm d kms s live bo b at mine

called-ok :
    {A : Type 0} {t : Trace} {r : Run A} {a : A} {u : State}
    → HasCalled t r
    → r ≡ ok a u
    → callbacks u.trace ≡ t
called-ok {t} h e = subst (HasCalled t) e h

-- The callbacks of a sequence of calls, the newest first, before those in `earlier`.
abbrev pub called_since :
    {env : Env} {tables : Tables} {Ours : Ptr → Type 0} {s : State} {fds : List ℤ} {u : State}
    → Reach env tables Ours s fds u
    → (earlier : Trace) → Trace
called_since here earlier = earlier
called_since (next {u} before (call gbm ours c a e)) earlier =
    called_by c u ++ called_since before earlier

-- Callbacks are called once, at the end: if the libraries keep what they document, then along any
-- sequence of allowed calls of gbm.c, interleaved as they may be, on devices of the KMS backend
-- that began without buffer objects of their own, the callbacks called are just these, in this
-- order: for each `gbm_bo_destroy` of an object that then had a callback, that callback, with the
-- object and the user data that it then had.
pub Reach-callbacks :
    {env : Env} (law : IsLawful env) (tables : Tables) {Ours : Ptr → Type 0} {s : State}
    {fds : List ℤ} {u : State}
    → IsFresh env tables Ours s
    → (reach : Reach env tables Ours s fds u)
    → callbacks u.trace ≡ called_since reach (callbacks s.trace)
Reach-callbacks law tables fresh here = refl
Reach-callbacks {env} law tables fresh (next {u} before (call gbm ours c a e)) =
    let w = Reach-Ledger law tables fresh before in
    let (d, known, kms) = fresh.devices gbm ours in
    called-ok (perform-HasCalled env tables gbm d kms u (Ledger-device w known) c a) e
    ∙ ap (λ t. called_by c u ++ t) (Reach-callbacks law tables fresh before)
