-- ===== src/Client/Remapping.antt =====
-- A mapping by gbm_bo_map: the address that it returns, for an object that is not mapped and for
-- one that is.
use libgbm.Base.{
  ℕ, zero, suc, ℤ, List, true, false, Bool, ◌||◌, ◌≡◌, ◌≢◌, ◌⊎◌, inl, inr, refl, ap, ◌∙◌, some,
  ◌==◌, Bool-cases,
}
use libgbm.Types.{Ptr, null, KmsDevice, KmsBo, MapOut, a_bo, a_device}
use libgbm.Machine.{Env, IsLawful, State, write_self, Returns, returns, Returns-mono}
use libgbm.Kms.Mapping.{gbm_kms_bo_map}
use libgbm.Kms.Mapping.Access.{bo_map-partial, bo_map-Session, bo_map-again}
use libgbm.Kms.Table.{kms_gbm_device}
use libgbm.Frontend.Dispatch.{Tables}
use libgbm.Frontend.Buffer.{gbm_bo_map}
use libgbm.Client.Effects.{plain}
use libgbm.Client.Pool.{Taken, Pool-take, IsDevice}
use libgbm.Client.Ledger.{Ledger, Ledger-device}
use libgbm.Client.Mapping.{whole_or_part, before, Opened, open-Owner, session, session-addr}

-- The region is the whole object.
abbrev pub IsWhole : (x y width height : ℕ) → KmsBo → Type 0
IsWhole x y width height b = (x ≡ 0) × (y ≡ 0) × (width ≡ b.base.width) × (height ≡ b.base.height)

-- What a mapping leaves: NULL, or the object with the address of its mapping.
pub data Mapped (bo : Ptr) (b : KmsBo) (x y width height : ℕ) (m : MapOut) (u : State)
    : Type 0 where
  nothing : m.address ≡ null → Mapped bo b x y width height m u
  object :
      (c : KmsBo)
      → u.heap bo ≡ some (a_bo c)
      → plain c ≡ plain b
      → c.addr ≡ m.address
      → IsWhole x y width height b
      → Mapped bo b x y width height m u

module _ {env : Env} (law : IsLawful env) {Ours : Ptr → Type 0} {gbm : Ptr} {d : KmsDevice}
    {t : State} {given : List ℤ} {s : State} (w : Ledger Ours t given s)
    (known : IsDevice Ours t.heap gbm d) (bo : Ptr) (b : KmsBo) (here : s.heap bo ≡ some (a_bo b))
    (mine : b.base.gbm ≡ gbm) (taken : Taken Ours gbm d t.heap s.heap w.total bo b) where
  kms_map-Mapped :
      (n : ℕ)
      → Opened b n taken.own
      → (x y width height flags : ℕ)
      → Returns (Mapped bo b x y width height) (gbm_kms_bo_map env bo x y width height flags s)
  kms_map-Mapped n o x y width height flags = elim (whole_or_part x y width height b) [
    | inr part ↦
        rw (bo_map-partial env bo b s here x y width height flags part) (returns (nothing refl))
    | inl (ex, ey, ew, eh) ↦
        rw (ex, ey, ew, eh)
          (Returns-mono
            (bo_map-Session law s.heap (before n b.bo s.trace) bo b n flags s
              (session law w known bo b here mine taken n o))
            λ m u r. elim r [
              | inl (_, _, _, (v, e)) ↦
                  object (record b { addr = v.addr; map_ref = v.map_ref })
                    (v.at bo ∙ write_self s.heap bo _) refl e (refl, refl, refl, refl)
              | inr (e, _, _) ↦ nothing (ap (λ k. k.address) e)
            ])
  ]

  kms_map-again :
      (n : ℕ)
      → Opened b n taken.own
      → (x y width height flags : ℕ) → IsWhole x y width height b
      → b.addr ≢ null
      → Returns (λ k _. k.address ≡ b.addr) (gbm_kms_bo_map env bo x y width height flags s)
  kms_map-again zero o x y width height flags whole busy = absurd (busy (o.mapped.idle refl))
  kms_map-again (suc n) o x y width height flags (ex, ey, ew, eh) busy =
      rw (ex, ey, ew, eh)
        (Returns-mono
          (bo_map-again law s.heap (before (suc n) b.bo s.trace) bo b n s
            (session law w known bo b here mine taken (suc n) o) flags)
          λ _ u (e, _). e ∙ session-addr law w known bo b here mine taken (suc n) o)

-- The test of the arguments in `gbm_bo_map`.
abbrev pub is_refused : (bo : Ptr) → (width height : ℕ) → (stride map_data : Ptr) → Bool
is_refused bo width height stride map_data =
    (bo == null) || (width == 0) || (height == 0) || (stride == null) || (map_data == null)

module _ {env : Env} (law : IsLawful env) (tables : Tables) {Ours : Ptr → Type 0} (gbm : Ptr)
    (d : KmsDevice) (kms : tables d.table ≡ kms_gbm_device env) (t : State) {given : List ℤ}
    (s : State) (w : Ledger Ours t given s) (known : IsDevice Ours t.heap gbm d) (bo : Ptr)
    (b : KmsBo) (here : s.heap bo ≡ some (a_bo b)) (mine : b.base.gbm ≡ gbm)
    (al : b.allocated ≡ true) (x y width height flags : ℕ) (stride map_data : Ptr) where
  pub map-Mapped :
      Returns
        (λ m u.
          (m.address ≡ null)
          ⊎ ((is_refused bo width height stride map_data ≡ false)
              × Mapped bo b x y width height m u))
        (gbm_bo_map tables bo x y width height flags stride map_data s)
  unfolding gbm_bo_map
  map-Mapped = elim (Bool-cases (is_refused bo width height stride map_data)) [
    | inl z ↦ rw z (returns (inl refl))
    | inr z ↦
        let taken = Pool-take w.absent known bo b here mine w.pool in
        let (n, o) = open-Owner b al taken.owner in
        let live : s.heap b.base.gbm ≡ some (a_device d) = rw mine (Ledger-device w known) in
        rw (z, here, live, kms)
          (Returns-mono (kms_map-Mapped law w known bo b here mine taken n o x y width height flags)
            λ m u r. inr (refl, r))
  ]

  pub map-again :
      is_refused bo width height stride map_data ≡ false
      → IsWhole x y width height b
      → b.addr ≢ null
      → Returns
          (λ k _. k.address ≡ b.addr)
          (gbm_bo_map tables bo x y width height flags stride map_data s)
  unfolding gbm_bo_map
  map-again z whole busy =
      let taken = Pool-take w.absent known bo b here mine w.pool in
      let (n, o) = open-Owner b al taken.owner in
      rw (z, here, mine, Ledger-device w known, kms)
        (kms_map-again law w known bo b here mine taken n o x y width height flags whole busy)
