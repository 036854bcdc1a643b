-- ===== src/Kms/Lifetime/Stages.antt =====
-- The stages of `gbm_kms_bo_create`, each from the state that the one before it leaves.
use libgbm.Base.{
  ℕ, ◌*◌, ◌%◌, ℤ, ◌^◌, pos, is_zero, is_zero_of_neg, increment, true, false, ◌≡◌, ◌≢◌, refl, ◌∙◌,
  Option, List, some, none, ◌∷◌, ◌==◌, inl, inr, arith, Bool-cases,
}
use libgbm.Types.{Ptr, null, KmsBo, KmsDevice, zero_bo, a_bo, a_device}
use libgbm.Machine.{
  Env, IsLawful, Event, KmsAttr, Heap, Trace, State, write, write_self, Returns, returns,
  Returns-bind, Holds, Balanced, Out, unit_of, kms_object,
}
use libgbm.Kms.Mapping.Counting.{map_ref-first, granted, refused}
use libgbm.Kms.Lifetime.{
  create_failed, create_mapping, create_export, create_storage, has_flag, stored, new_bo, use_write,
  use_cursor, kms_attributes,
}
use libgbm.Kms.Lifetime.Ownership.{Stands, Undone, destroy-Undone, destroy-unowned}

-- Either NULL, with the heap as it was and no resource held, or a new object with the property `P`
-- that holds all that was acquired.
pub data Created (P : KmsBo → Type 0) (h : Heap) (t : Trace) (p : Ptr) (s : State) : Type 0 where
  failed : p ≡ null → Undone h t s → Created P h t p s
  made :
      (b : KmsBo)
      → p ≢ null
      → h p ≡ none
      → b.allocated ≡ true
      → P b
      → Stands h t p b s
      → Created P h t p s

module _ {env : Env} (law : IsLawful env) (P : KmsBo → Type 0) (h : Heap) (t : Trace) where
  failed-Created :
      (bo : Ptr) (b : KmsBo) (s : State)
      → bo ≢ null
      → h bo ≡ none
      → b.allocated ≡ true
      → Stands h t bo b s
      → Returns (Created P h t) (create_failed env bo s)
  unfolding create_failed
  failed-Created bo b s ne unused al st =
      Returns-bind (destroy-Undone env h t bo b s ne unused al st) λ _ u d. returns (failed refl d)

  create_mapping-Created :
      (bo : Ptr) (usage : ℕ) (b : KmsBo) (s : State)
      → bo ≢ null
      → h bo ≡ none
      → b.allocated ≡ true
      → is_zero b.map_ref ≡ true
      → b.addr ≡ null
      → (has_flag usage use_write ≡ false → P b)
      → (has_flag usage use_write ≡ true
          → (a : Ptr) → a ≢ null
          → P (record b { addr = a; map_ref = increment b.map_ref }))
      → Stands h t bo b s
      → Returns (Created P h t) (create_mapping env bo usage s)
  unfolding create_mapping
  create_mapping-Created bo usage b s ne unused al z na pb pm st =
      elim (Bool-cases (has_flag usage use_write)) [
        | inl w ↦ rw w (
            Returns-bind (map_ref-first law bo b s here z) λ ret u m. elim m [
              | granted a na' e at trace ↦ rw e (
                  returns (
                    made (record b { addr = a; map_ref = increment b.map_ref }) ne unused al
                      (pm w a na')
                      (record {
                        at = λ q. ground (arith, at q, st.at q);
                        holds = λ r. rw trace (ground (arith, st.holds r));
                      })))
              | refused e at trace ↦ simp (is_zero_of_neg ret e) (
                  failed-Created bo b _ ne unused al (record {
                    at = λ q. ground (arith, at q, st.at q);
                    holds = λ r. rw (trace, e) (ground (arith, st.holds r));
                  }))
            ])
        | inr w ↦ rw w (returns (made b ne unused al (pb w) st))
      ]
    where
      here : s.heap bo ≡ some (a_bo b)
      here = st.at bo ∙ write_self h bo (some (a_bo b))

-- The kernel exported the handle as this descriptor.
pub data IsExported (env : Env) (handle : ℕ) (fd : ℤ) : Type 0 where
  exported :
      (t : Trace) (dev_fd : ℤ)
      → (env.prime_handle_to_fd t dev_fd handle).out ≡ some fd
      → IsExported env handle fd

-- What a call of `gbm_kms_bo_create` that succeeds returns: an object with one plane over a libkms
-- object, with the descriptor that the kernel exported for its handle, mapped once if the caller is
-- to write and not mapped otherwise.
pub record IsNew (env : Env) (gbm : Ptr) (width height fourcc usage : ℕ) (b : KmsBo) : Type 0 where
  pub device : b.base.gbm ≡ gbm
  pub wide : b.base.width ≡ width
  pub high : b.base.height ≡ height
  pub formatted : b.base.format ≡ fourcc
  pub backed : b.bo ≢ null
  pub descriptor : IsExported env b.base.handle b.fd
  pub sized : b.size ≡ b.base.stride * height % 2 ^ 32
  pub one_plane : b.num_planes ≡ pos 1
  pub unlocked : b.locked ≡ pos 0
  pub uncalled : b.base.destroy_user_data ≡ null
  pub writable : has_flag usage use_write ≡ true → (b.addr ≢ null) × (b.map_ref ≡ pos 1)
  pub unmapped : has_flag usage use_write ≡ false → (b.addr ≡ null) × (b.map_ref ≡ pos 0)

module _ {env : Env} (law : IsLawful env) (gbm : Ptr) (width height fourcc usage : ℕ) (h : Heap)
    (t : Trace) where
  create_export-Created :
      (bo kms_bo : Ptr) (o : KmsBo) (d : KmsDevice) (s : State)
      → bo ≢ null
      → kms_bo ≢ null
      → h bo ≡ none
      → h gbm ≡ some (a_device d)
      → ((q : Ptr) → s.heap q ≡ write h bo (some (a_bo o)) q)
      → Holds (λ r. unit_of r (kms_object kms_bo)) t s.trace
      → Returns
          (Created (IsNew env gbm width height fourcc usage) h t)
          (create_export env gbm bo kms_bo width height fourcc usage s)
  unfolding create_export
  create_export-Created bo kms_bo o d s ne nk unused dev at holds =
      rw (apart, at gbm, apart, dev)
        (elim (law.exported calls d.fd handle) [
          | inl (r, (n, out)) ↦
              let b = record made_bo { fd = pos n } in
              let handed : IsExported env handle (pos n) = exported calls d.fd out in
              simp (r, out)
                (create_mapping-Created law P h t bo usage b _ ne unused refl refl refl
                  (λ w. record {
                    device = refl;
                    wide = refl;
                    high = refl;
                    formatted = refl;
                    backed = nk;
                    descriptor = handed;
                    sized = refl;
                    one_plane = refl;
                    unlocked = refl;
                    uncalled = refl;
                    writable = λ z. ground arith;
                    unmapped = λ z. (refl, refl);
                  })
                  (λ w a na. record {
                    device = refl;
                    wide = refl;
                    high = refl;
                    formatted = refl;
                    backed = nk;
                    descriptor = handed;
                    sized = refl;
                    one_plane = refl;
                    unlocked = refl;
                    uncalled = refl;
                    writable = λ z. (na, refl);
                    unmapped = λ z. ground arith;
                  })
                  (record { at = λ q. ground (arith, at q); holds = λ x. ground (arith, holds x) }))
          | inr (r, out) ↦
              simp (is_zero_of_neg _ r, out)
                (failed-Created law P h t bo made_bo _ ne unused refl (record {
                  at = λ q. ground (arith, at q);
                  holds = λ x. ground (arith, holds x, is_zero_of_neg _ r);
                }))
        ])
    where
      P : KmsBo → Type 0
      P = IsNew env gbm width height fourcc usage

      got_handle : Option ℕ
      got_handle = env.kms_bo_get_prop s.trace kms_bo KmsAttr.handle

      got_stride : Option ℕ
      got_stride =
          env.kms_bo_get_prop (Event.kms_bo_get_prop kms_bo KmsAttr.handle got_handle ∷ s.trace)
            kms_bo KmsAttr.pitch

      calls : Trace
      calls =
          Event.kms_bo_get_prop kms_bo KmsAttr.pitch got_stride
          ∷ Event.kms_bo_get_prop kms_bo KmsAttr.handle got_handle
          ∷ s.trace

      handle : ℕ
      handle = stored got_handle 0

      made_bo : KmsBo
      made_bo = new_bo gbm kms_bo width height fourcc handle (stored got_stride 0)

      apart : (gbm == bo) ≡ false
      apart = ground arith

  pub unowned-Created :
      (bo : Ptr) (b : KmsBo) (s : State)
      → bo ≢ null
      → h bo ≡ none
      → b.allocated ≡ false
      → b.allocated_handle ≡ false
      → ((q : Ptr) → s.heap q ≡ write h bo (some (a_bo b)) q)
      → Balanced t s.trace
      → Returns (Created (IsNew env gbm width height fourcc usage) h t) (create_failed env bo s)
  unfolding create_failed
  unowned-Created bo b s ne unused al ah at bal =
      Returns-bind (destroy-unowned env h t bo b s ne unused al ah at bal)
        λ _ u d. returns (failed refl d)

  pub create_storage-Created :
      (bo : Ptr) (d : KmsDevice) (s : State)
      → bo ≢ null
      → h bo ≡ none
      → h gbm ≡ some (a_device d)
      → ((q : Ptr) → s.heap q ≡ write h bo (some (a_bo zero_bo)) q)
      → Balanced t s.trace
      → Returns
          (Created (IsNew env gbm width height fourcc usage) h t)
          (create_storage env gbm bo width height fourcc usage s)
  unfolding create_storage
  create_storage-Created bo d s ne unused dev at bal =
      rw (at gbm, apart, dev)
        (elim (Bool-cases (is_zero made_out.ret)) [
          | inl z ↦
              let (p, out, np) = law.created s.trace d.kms attr z in
              rw (z, out)
                (create_export-Created bo p (record zero_bo { bo = p }) d _ ne np unused dev
                  (λ q. ground (arith, at q)) (λ x. rw z (omega (arith, bal x))))
          | inr z ↦ rw z (
              unowned-Created bo (record zero_bo { bo = stored made_out.out null }) _ ne unused refl
                refl (λ q. ground (arith, at q)) (λ x. ground (arith, bal x, z)))
        ])
    where
      attr : List KmsAttr
      attr = kms_attributes (has_flag usage use_cursor) width height

      made_out : Out Ptr
      made_out = env.kms_bo_create s.trace d.kms attr

      apart : (gbm == bo) ≡ false
      apart = ground arith
