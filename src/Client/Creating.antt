-- ===== src/Client/Creating.antt =====
-- Creation and destruction keep the ledger.
use libgbm.Base.{
  List, ℤ, ℕ, true, false, Bool, ◌≡◌, ◌≢◌, refl, some, ◌||◌, ◌==◌, arith, Bool-cases, inl, inr,
}
use libgbm.Types.{Ptr, null, KmsDevice, KmsBo, a_bo}
use libgbm.Machine.{Env, IsLawful, State, Returns, returns, Returns-mono, Holds-refl}
use libgbm.Kms.Lifetime.{gbm_kms_bo_create, gbm_kms_bo_destroy, has_flag, use_write}
use libgbm.Kms.Lifetime.Ownership.{owned}
use libgbm.Kms.Lifetime.Stages.{IsNew, failed, made}
use libgbm.Kms.Lifetime.Creation.{bo_create-Created}
use libgbm.Kms.Mapping.Sessions.{IsMapped}
use libgbm.Kms.Table.{kms_gbm_device}
use libgbm.Frontend.Dispatch.{Tables}
use libgbm.Frontend.Buffer.{gbm_bo_destroy}
use libgbm.Frontend.Creation.{gbm_bo_create, gbm_bo_create_with_modifiers, modifiers_mismatch}
use libgbm.Frontend.UserData.{noted}
use libgbm.Client.Objects.{allocates, bo_destroy-Gone}
use libgbm.Client.Effects.{makes, removes}
use libgbm.Client.Ledger.{
  Ledger, Settled, Ledger-same, Ledger-none, Ledger-new, Ledger-Gone, Ledger-device,
}
use libgbm.Client.Pool.{Pool-take, IsDevice}

-- A new object is mapped once if it is for writing, else not at all.
abbrev first_count : Bool → ℕ
first_count true = 1
first_count false = 0

IsNew-IsMapped :
    {env : Env} {gbm : Ptr} {width height fourcc : ℕ} (usage : ℕ) (b : KmsBo)
    → IsNew env gbm width height fourcc usage b
    → IsMapped (first_count (has_flag usage use_write)) b
IsNew-IsMapped usage b new = elim (Bool-cases (has_flag usage use_write)) [
  | inl z ↦ rw z (record {
    count = (new.writable z).1;
    idle = λ e. absurd (omega arith);
    busy = λ e. (new.writable z).0;
  })
  | inr z ↦ rw z (record {
    count = (new.unmapped z).1;
    idle = λ e. (new.unmapped z).0;
    busy = λ e. absurd (e refl);
  })
]

module _ (env : Env) {Ours : Ptr → Type 0} {gbm : Ptr} {d : KmsDevice} {t : State} {given : List ℤ}
    (known : IsDevice Ours t.heap gbm d) (bo : Ptr) (b : KmsBo) (ne : bo ≢ null)
    (mine : b.base.gbm ≡ gbm) where
  kms_destroy-Ledger :
      (s : State)
      → Ledger Ours t given s
      → s.heap bo ≡ some (a_bo b)
      → Returns (λ _ u. Settled Ours t given (removes bo) s u) (gbm_kms_bo_destroy env bo s)
  kms_destroy-Ledger s w here =
      let taken = Pool-take w.absent known bo b here mine w.pool in
      Returns-mono
        (bo_destroy-Gone env gbm d b taken.own bo s taken.owner ne here (Ledger-device w known))
        λ _ u g. Ledger-Gone w u bo b here taken g

module _ {env : Env} (law : IsLawful env) (tables : Tables) {Ours : Ptr → Type 0} (gbm : Ptr)
    (d : KmsDevice) (kms : tables d.table ≡ kms_gbm_device env) (t : State) {given : List ℤ}
    (s : State) (w : Ledger Ours t given s) (known : IsDevice Ours t.heap gbm d) where
  kms_create-Ledger :
      (width height format usage : ℕ)
      → Returns
          (λ _ u. Settled Ours t given makes s u)
          (gbm_kms_bo_create env gbm width height format usage s)
  kms_create-Ledger width height format usage =
      Returns-mono (bo_create-Created law gbm width height format usage d s (Ledger-device w known))
        λ p u c. elim c [
          | failed e un ↦ Ledger-none w u un.same un.balanced
          | made b ne unused al new st ↦
              Ledger-new w u p b (owned b) known unused new.device
                (allocates (first_count (has_flag usage use_write)) al new.one_plane
                  (IsNew-IsMapped usage b new) (λ r. refl))
                st.at st.holds
        ]

  pub create-Ledger :
      (width height format usage : ℕ)
      → Returns
          (λ _ u. Settled Ours t given makes s u)
          (gbm_bo_create tables gbm width height format usage s)
  unfolding gbm_bo_create
  create-Ledger width height format usage = elim (Bool-cases ((width == 0) || (height == 0))) [
    | inl z ↦ rw z (returns (Ledger-none w _ (λ q. refl) (Holds-refl s.trace)))
    | inr z ↦ rw (z, Ledger-device w known, kms) (kms_create-Ledger width height format usage)
  ]

  -- The KMS backend does not look at the modifiers.
  pub create_with_modifiers-Ledger :
      (width height format : ℕ) (modifiers : Ptr) (count : ℕ)
      → Returns
          (λ _ u. Settled Ours t given makes s u)
          (gbm_bo_create_with_modifiers tables gbm width height format modifiers count s)
  unfolding gbm_bo_create_with_modifiers
  create_with_modifiers-Ledger width height format modifiers count =
      elim (Bool-cases ((width == 0) || (height == 0))) [
        | inl z ↦ rw z (returns (Ledger-none w _ (λ q. refl) (Holds-refl s.trace)))
        | inr z ↦ elim (Bool-cases (modifiers_mismatch modifiers count)) [
          | inl y ↦ rw (z, y) (returns (Ledger-none w _ (λ q. refl) (Holds-refl s.trace)))
          | inr y ↦ rw (z, y, Ledger-device w known, kms) (kms_create-Ledger width height format 0)
        ]
      ]

  -- With or without a callback.
  pub destroy-Ledger :
      (bo : Ptr) (b : KmsBo)
      → s.heap bo ≡ some (a_bo b)
      → bo ≢ null
      → b.base.gbm ≡ gbm
      → Returns
          (λ _ u. Settled Ours t given (removes bo) s u)
          (gbm_bo_destroy tables (noted env) bo s)
  unfolding gbm_bo_destroy
  destroy-Ledger bo b here ne mine = elim (Bool-cases (b.base.destroy_user_data == null)) [
    | inl z ↦
        rw (here, z, here, mine, Ledger-device w known, kms)
          (kms_destroy-Ledger env known bo b ne mine s w here)
    | inr z ↦
        rw (here, z, here, mine, Ledger-device w known, kms)
          (let called = Ledger-same w _ (λ q. refl) (λ r. omega arith) in
            let gone = kms_destroy-Ledger env known bo b ne mine _ called.ledger here in
            Returns-mono gone λ _ u x. record { ledger = x.ledger; change = x.change })
  ]
