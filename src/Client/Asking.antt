-- ===== src/Client/Asking.antt =====
-- Questions about an object keep the ledger.
use libgbm.Base.{
  negsuc, [], ◌∷◌, zero, suc, map, rounds, pos, ◌==◌, List, ℕ, ℤ, ◌≡◌, refl, ap, some, none, Option,
  inl, inr, Bool-cases,
}
use libgbm.Types.{Ptr, KmsDevice, KmsBo, KmsPlane, a_bo}
use libgbm.Machine.{Env, State, Returns, returns, Returns-bind, Holds-refl}
use libgbm.Kms.Query.{
  gbm_kms_bo_get_stride, gbm_kms_bo_get_handle, gbm_kms_bo_get_planes, gbm_kms_bo_get_offset,
  gbm_kms_bo_get_modifier, no_handle,
}
use libgbm.Kms.Query.Planes.{HasRoom, planes_of, lookup, answer, get_stride_lem, get_handle_lem}
use libgbm.Kms.Table.{kms_gbm_device}
use libgbm.Frontend.Dispatch.{Tables}
use libgbm.Frontend.Buffer.{
  gbm_bo_get_width, gbm_bo_get_height, gbm_bo_get_format, gbm_bo_get_bpp, gbm_bo_get_device,
  gbm_bo_get_handle, gbm_bo_get_user_data, gbm_bo_get_stride, gbm_bo_get_stride_for_plane,
  gbm_bo_get_handle_for_plane, gbm_bo_get_offset, gbm_bo_get_plane_count, gbm_bo_get_modifier,
}
use libgbm.Frontend.Device.{
  gbm_device_get_fd, gbm_device_get_backend_name, gbm_device_is_format_supported,
  gbm_device_get_format_modifier_plane_count,
}
use libgbm.Format.{gbm_format_canonicalize, bits_per_pixel}
use libgbm.Kms.Formats.{
  is_32bpp, gbm_kms_get_format_plane_count, gbm_kms_is_format_supported,
  gbm_kms_get_format_modifier_plane_count,
}
use libgbm.Client.Objects.{Owner-HasRoom}
use libgbm.Client.Pool.{Pool-take, IsDevice}
use libgbm.Client.Effects.{quiet}
use libgbm.Client.Ledger.{Ledger, Settled, Ledger-same, Ledger-device}
use libgbm.Client.Questions.{
  Question, width_of, height_of, format_of, bpp_of, device_of, first_handle, user_data_of,
  first_stride, stride_of, handle_of, offset_of, plane_count, modifier_of, ask, DeviceQuestion,
  descriptor, backend_name, is_supported, modifier_planes, ask_device,
}

-- Only errno may differ.
abbrev Same : State → State → Type 0
Same s u = (u.heap ≡ s.heap) × (u.trace ≡ s.trace)

-- The member of a plane, or `default`.
abbrev member : (KmsPlane → ℕ) → (default : ℕ) → Option KmsPlane → ℕ
member f default none = default
member f default (some p) = f p

-- The plane that an object shows.
abbrev shown : KmsBo → (plane : ℤ) → Option KmsPlane
shown b plane = lookup (planes_of (rounds b.num_planes) b) plane

-- What an object says of itself.
abbrev pub says : Env → KmsBo → Question → ℤ
says env b width_of = pos b.base.width
says env b height_of = pos b.base.height
says env b format_of = pos b.base.format
says env b bpp_of = pos (bits_per_pixel b.base.format)
says env b device_of = pos b.base.gbm
says env b first_handle = pos b.base.handle
says env b user_data_of = pos b.base.user_data
says env b first_stride = pos (member (λ p. p.stride) 0 (shown b (pos 0)))
says env b (stride_of plane) = pos (member (λ p. p.stride) 0 (shown b plane))
says env b (handle_of plane) = pos (member (λ p. p.handle) no_handle (shown b plane))
says env b (offset_of plane) = pos 0
says env b plane_count = b.num_planes
says env b modifier_of = pos env.format_mod_linear

-- The stride of a plane in a list of them; 0 for a plane that there is not.
abbrev pub stride_at : List ℕ → (plane : ℤ) → ℕ
stride_at strides (negsuc i) = 0
stride_at [] (pos i) = 0
stride_at (n ∷ strides) (pos zero) = n
stride_at (n ∷ strides) (pos (suc i)) = stride_at strides (pos i)

lookup-stride_at :
    (planes : List KmsPlane) (plane : ℤ)
    → member (λ p. p.stride) 0 (lookup planes plane) ≡ stride_at (map (λ p. p.stride) planes) plane
lookup-stride_at planes (negsuc i) = refl
lookup-stride_at [] (pos i) = refl
lookup-stride_at (p ∷ planes) (pos zero) = refl
lookup-stride_at (p ∷ planes) (pos (suc i)) = lookup-stride_at planes (pos i)

-- An object says the strides of its planes.
pub says-stride_of :
    (env : Env) (b : KmsBo) (n : ℕ) (plane : ℤ)
    → b.num_planes ≡ pos n
    → says env b (stride_of plane) ≡ pos (stride_at (map (λ p. p.stride) (planes_of n b)) plane)
says-stride_of env b n plane e = rw e (ap pos (lookup-stride_at (planes_of n b) plane))

answer-Same :
    (f : KmsPlane → ℕ) (default : ℕ) (o : Option KmsPlane) (s : State)
    → Returns (λ a u. (a ≡ member f default o) × Same s u) (answer f default o s)
answer-Same f default none s = returns (refl, (refl, refl))
answer-Same f default (some p) s = returns (refl, (refl, refl))

module _ (bo : Ptr) (b : KmsBo) (s : State) (here : s.heap bo ≡ some (a_bo b)) where
  get_stride-Same :
      (plane : ℤ)
      → HasRoom b
      → Returns
          (λ a u. (a ≡ member (λ p. p.stride) 0 (shown b plane)) × Same s u)
          (gbm_kms_bo_get_stride bo plane s)
  get_stride-Same plane (n, count, room) =
      rw (get_stride_lem bo b n s here count room plane, count) (answer-Same (λ p. p.stride) 0 _ s)

  get_handle-Same :
      (plane : ℤ)
      → HasRoom b
      → Returns
          (λ a u. (a ≡ member (λ p. p.handle) no_handle (shown b plane)) × Same s u)
          (gbm_kms_bo_get_handle bo plane s)
  get_handle-Same plane (n, count, room) =
      rw (get_handle_lem bo b n s here count room plane, count)
        (answer-Same (λ p. p.handle) no_handle _ s)

unmoved-Ledger :
    {Ours : Ptr → Type 0} {t : State} {given : List ℤ} {s : State}
    → Ledger Ours t given s
    → (u : State) → Same s u
    → Settled Ours t given quiet s u
unmoved-Ledger {s} w u (h, e) = Ledger-same w u (λ q. ap (λ g. g q) h) (rw e (Holds-refl s.trace))

module _ (env : Env) (tables : Tables) {Ours : Ptr → Type 0} (gbm : Ptr) (d : KmsDevice)
    (kms : tables d.table ≡ kms_gbm_device env) (t : State) {given : List ℤ} (s : State)
    (w : Ledger Ours t given s) (known : IsDevice Ours t.heap gbm d) (bo : Ptr) (b : KmsBo)
    (here : s.heap bo ≡ some (a_bo b)) (mine : b.base.gbm ≡ gbm) where
  room : HasRoom b
  room = Owner-HasRoom ((Pool-take w.absent known bo b here mine w.pool).owner)

  still : Settled Ours t given quiet s s
  still = unmoved-Ledger w s (refl, refl)

  pub ask-Ledger :
      (q : Question)
      → Returns (λ a u. (a ≡ says env b q) × Settled Ours t given quiet s u) (ask tables bo q s)
  unfolding gbm_bo_get_width gbm_bo_get_height gbm_bo_get_format gbm_bo_get_bpp gbm_bo_get_device
      gbm_bo_get_handle gbm_bo_get_user_data gbm_bo_get_stride gbm_bo_get_stride_for_plane
      gbm_bo_get_handle_for_plane gbm_bo_get_offset gbm_bo_get_plane_count gbm_bo_get_modifier
      gbm_kms_bo_get_planes gbm_kms_bo_get_offset gbm_kms_bo_get_modifier
  ask-Ledger width_of = rw here (returns (refl, still))
  ask-Ledger height_of = rw here (returns (refl, still))
  ask-Ledger format_of = rw here (returns (refl, still))
  ask-Ledger bpp_of = rw here (returns (refl, still))
  ask-Ledger device_of = rw here (returns (refl, still))
  ask-Ledger first_handle = rw here (returns (refl, still))
  ask-Ledger user_data_of = rw here (returns (refl, still))
  ask-Ledger first_stride =
      rw (here, mine, Ledger-device w known, kms)
        (Returns-bind (get_stride-Same bo b s here (pos 0) room)
          λ _ u (e, x). returns (ap pos e, unmoved-Ledger w u x))
  ask-Ledger (stride_of plane) =
      rw (here, mine, Ledger-device w known, kms)
        (Returns-bind (get_stride-Same bo b s here plane room)
          λ _ u (e, x). returns (ap pos e, unmoved-Ledger w u x))
  ask-Ledger (handle_of plane) =
      rw (here, mine, Ledger-device w known, kms)
        (Returns-bind (get_handle-Same bo b s here plane room)
          λ _ u (e, x). returns (ap pos e, unmoved-Ledger w u x))
  ask-Ledger (offset_of plane) = rw (here, mine, Ledger-device w known, kms) (returns (refl, still))
  ask-Ledger plane_count = rw (here, mine, Ledger-device w known, kms, here) (returns (refl, still))
  ask-Ledger modifier_of = rw (here, mine, Ledger-device w known, kms) (returns (refl, still))

format_plane_count-Same :
    (format : ℕ) (s : State) → Returns (λ _ u. Same s u) (gbm_kms_get_format_plane_count format s)
unfolding gbm_kms_get_format_plane_count
format_plane_count-Same format s = elim (Bool-cases (is_32bpp (gbm_format_canonicalize format))) [
  | inl z ↦ rw z (returns (refl, refl))
  | inr z ↦ rw z (returns (refl, refl))
]

modifier_plane_count-Same :
    (env : Env) (gbm : Ptr) (format modifier : ℕ) (s : State)
    → Returns (λ _ u. Same s u) (gbm_kms_get_format_modifier_plane_count env gbm format modifier s)
unfolding gbm_kms_get_format_modifier_plane_count
modifier_plane_count-Same env gbm format modifier s =
    elim (Bool-cases (modifier == env.format_mod_linear)) [
      | inl z ↦ rw z (format_plane_count-Same format s)
      | inr z ↦ rw z (returns (refl, refl))
    ]

module _ (env : Env) (tables : Tables) {Ours : Ptr → Type 0} (gbm : Ptr) (d : KmsDevice)
    (kms : tables d.table ≡ kms_gbm_device env) (t : State) {given : List ℤ} (s : State)
    (w : Ledger Ours t given s) (known : IsDevice Ours t.heap gbm d) where
  pub ask_device-Ledger :
      (q : DeviceQuestion)
      → Returns (λ _ u. Settled Ours t given quiet s u) (ask_device tables gbm q s)
  unfolding gbm_device_get_fd gbm_device_get_backend_name gbm_device_is_format_supported
      gbm_device_get_format_modifier_plane_count gbm_kms_is_format_supported
  ask_device-Ledger descriptor =
      rw (Ledger-device w known) (returns (unmoved-Ledger w s (refl, refl)))
  ask_device-Ledger backend_name =
      rw (Ledger-device w known) (returns (unmoved-Ledger w s (refl, refl)))
  ask_device-Ledger (is_supported format usage) =
      rw (Ledger-device w known, kms)
        (Returns-bind (Returns-bind (format_plane_count-Same format s) λ _ u x. returns x)
          λ _ u x. returns (unmoved-Ledger w u x))
  ask_device-Ledger (modifier_planes format modifier) =
      rw (Ledger-device w known, kms)
        (Returns-bind (modifier_plane_count-Same env gbm format modifier s)
          λ _ u x. returns (unmoved-Ledger w u x))
