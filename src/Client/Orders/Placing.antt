-- ===== src/Client/Orders/Placing.antt =====
-- An order over the KMS backend: the object that it returns is as it was ordered.
use libgbm.Base.{
  none, take, to_u32, map, Option-cases, ◌∷◌, [], ℕ, ℤ, pos, List, some, length, ◌≡◌, inl, inr,
  refl, ap, ◌∙◌, sym, ◌||◌, ◌==◌, Bool-cases,
}
use libgbm.Types.{Ptr, null, KmsDevice, KmsBo, a_device, a_bo}
use libgbm.Machine.{Env, IsLawful, State, write, Returns, returns, Returns-mono}
use libgbm.Format.{gbm_format_canonicalize}
use libgbm.Kms.Import.{gbm_kms_bo_import}
use libgbm.Kms.Lifetime.{gbm_kms_bo_create}
use libgbm.Kms.Lifetime.Stages.{failed, made}
use libgbm.Kms.Lifetime.Creation.{bo_create-Created}
use libgbm.Kms.Import.Single.{Imported, import_fd-Imported}
use libgbm.Kms.Query.Planes.{planes_of}
use libgbm.Kms.Table.{kms_gbm_device}
use libgbm.Frontend.Dispatch.{Tables}
use libgbm.Frontend.Creation.{
  gbm_bo_create, gbm_bo_create_with_modifiers, gbm_bo_import, modifiers_mismatch,
}
use libgbm.Client.Importing.{import_fd_modifier-Returns}
use libgbm.Client.Questions.{
  Question, width_of, height_of, format_of, bpp_of, device_of, first_handle, user_data_of,
  first_stride, stride_of, handle_of, offset_of, plane_count, modifier_of,
}
use libgbm.Client.Asking.{says, stride_at, says-stride_of}
use libgbm.Client.Reach.{Reach}
use libgbm.Client.Stability.{still}
use libgbm.Client.Orders.{
  Order, by_size, by_modifiers, by_fd, by_fds, place, IsComplete, ordered, ordered_width,
  ordered_height, ordered_format, ordered_planes, ordered_strides, stride_answer,
}

-- The object is as it was ordered.
pub record IsAsOrdered (gbm : Ptr) (o : Order) (b : KmsBo) : Type 0 where
  pub device : b.base.gbm ≡ gbm
  pub wide : b.base.width ≡ ordered_width o
  pub high : b.base.height ≡ ordered_height o
  pub formatted : b.base.format ≡ ordered_format o
  pub planes : b.num_planes ≡ pos (ordered_planes o)
  pub strides :
      (l : List ℕ)
      → ordered_strides o ≡ some l
      → map (λ p. p.stride) (planes_of (ordered_planes o) b) ≡ l

says-ordered_stride :
    (env : Env) {gbm : Ptr} {o : Order} {b : KmsBo}
    → IsAsOrdered gbm o b
    → (plane : ℤ) (a : ℤ) → stride_answer (ordered_strides o) plane ≡ some a
    → says env b (stride_of plane) ≡ a
says-ordered_stride env {o = o} {b = b} i plane a e = elim (Option-cases (ordered_strides o)) [
  | inl z ↦ cc
  | inr (l, z) ↦
      says-stride_of env b (ordered_planes o) plane i.planes
      ∙ ap (λ x. pos (stride_at x plane)) (i.strides l z)
      ∙ cc
]

module _ {env : Env} {tables : Tables} {Ours : Ptr → Type 0} {gbm : Ptr} {o : Order} {b : KmsBo}
    (i : IsAsOrdered gbm o b) where
  pub says-ordered :
      (bo : Ptr) {s : State} {fds : List ℤ} {u : State} (after : Reach env tables Ours s fds u)
      (q : Question) (a : ℤ)
      → ordered env gbm o q ≡ some a
      → still bo after q (says env b q) ≡ a
  says-ordered bo after width_of a e = cc
  says-ordered bo after height_of a e = cc
  says-ordered bo after format_of a e = cc
  says-ordered bo after bpp_of a e = cc
  says-ordered bo after device_of a e = cc
  says-ordered bo after plane_count a e = cc
  says-ordered bo after (offset_of plane) a e = cc
  says-ordered bo after modifier_of a e = cc
  says-ordered bo after first_handle a e = cc
  says-ordered bo after user_data_of a e = cc
  says-ordered bo after first_stride a e = says-ordered_stride env i (pos 0) a e
  says-ordered bo after (stride_of plane) a e = says-ordered_stride env i plane a e
  says-ordered bo after (handle_of plane) a e = cc

-- What an order leaves: NULL with the heap as it was, or one more object.
pub data Placed (gbm : Ptr) (o : Order) (s : State) (p : Ptr) (u : State) : Type 0 where
  nothing : p ≡ null → ((q : Ptr) → u.heap q ≡ s.heap q) → Placed gbm o s p u
  object :
      (b : KmsBo)
      → s.heap p ≡ none
      → ((q : Ptr) → u.heap q ≡ write s.heap p (some (a_bo b)) q)
      → IsAsOrdered gbm o b
      → Placed gbm o s p u

module _ {env : Env} (law : IsLawful env) (tables : Tables) (gbm : Ptr) (d : KmsDevice)
    (kms : tables d.table ≡ kms_gbm_device env) (s : State)
    (device : s.heap gbm ≡ some (a_device d)) where
  kms_create-Placed :
      (o : Order) (width height format usage : ℕ)
      → ordered_width o ≡ width
      → ordered_height o ≡ height
      → ordered_format o ≡ gbm_format_canonicalize format
      → ordered_planes o ≡ 1
      → ordered_strides o ≡ none
      → Returns (Placed gbm o s) (gbm_kms_bo_create env gbm width height format usage s)
  kms_create-Placed o width height format usage ew eh ef ep es =
      Returns-mono (bo_create-Created law gbm width height format usage d s device) λ p u c.
        elim c [
          | failed e un ↦ nothing e un.same
          | made b ne unused al new st ↦ object b unused st.at (record {
            device = new.device;
            wide = new.wide ∙ sym ew;
            high = new.high ∙ sym eh;
            formatted = new.formatted ∙ sym ef;
            planes = new.one_plane ∙ ap pos (sym ep);
            strides = λ l z. absurd (let clash : none ≡ some l = sym es ∙ z in cc);
          })
        ]

  pub place-Placed : (o : Order) → IsComplete o → Returns (Placed gbm o s) (place tables gbm o s)
  unfolding gbm_bo_create gbm_bo_create_with_modifiers gbm_bo_import gbm_kms_bo_import
  place-Placed (by_size width height format usage) x =
      elim (Bool-cases ((width == 0) || (height == 0))) [
        | inl z ↦ rw z (returns (nothing refl (λ q. refl)))
        | inr z ↦
            rw (z, device, kms)
              (kms_create-Placed (by_size width height format usage) width height format usage refl
                refl refl refl refl)
      ]
  place-Placed (by_modifiers width height format modifiers count) x =
      elim (Bool-cases ((width == 0) || (height == 0))) [
        | inl z ↦ rw z (returns (nothing refl (λ q. refl)))
        | inr z ↦ elim (Bool-cases (modifiers_mismatch modifiers count)) [
          | inl y ↦ rw (z, y) (returns (nothing refl (λ q. refl)))
          | inr y ↦
              rw (z, y, device, kms)
                (kms_create-Placed (by_modifiers width height format modifiers count) width height
                  format 0 refl refl refl refl refl)
        ]
      ]
  place-Placed (by_fd f usage) c =
      rw (device, kms)
        (Returns-mono (import_fd-Imported law gbm d f s device) λ p u x. elim x [
          | Imported.failed hs e same holds ↦ nothing e same
          | Imported.made hs b ne unused i has at holds asked ↦ object b unused at (record {
            device = i.device;
            wide = has.wide;
            high = has.high;
            formatted = has.formatted;
            planes = i.planes ∙ ap (λ l. pos (length l)) (sym has.handle);
            strides = λ l z. ap (λ n. n ∷ []) has.stride ∙ cc;
          })
        ])
  place-Placed (by_fds m usage) (fds, strides) =
      rw (device, kms)
        (Returns-mono (import_fd_modifier-Returns law gbm d s m device fds strides) λ p u x.
          elim x [
            | Imported.failed hs e same holds ↦ nothing e same
            | Imported.made hs b ne unused i has at holds asked ↦ object b unused at (record {
              device = i.device;
              wide = has.wide;
              high = has.high;
              formatted = has.formatted;
              planes = i.planes ∙ ap pos has.counted;
              strides = λ l z.
                  let same : map to_u32 (take m.num_fds m.strides) ≡ l = cc in
                  ap (λ n. map (λ p. p.stride) (planes_of n b)) (sym has.counted)
                  ∙ has.strides
                  ∙ ap (λ n. map to_u32 (take n m.strides)) has.counted
                  ∙ same;
            })
          ])
