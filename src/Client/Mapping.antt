-- ===== src/Client/Mapping.antt =====
-- Mapping and unmapping keep the ledger.
use libgbm.Base.{
  ◌∙◌, List, ℤ, ℕ, zero, suc, ◌+◌, pos, true, not, ◌||◌, ◌≡◌, ◌≢◌, ◌⊎◌, refl, some, ◌==◌, arith,
  Bool-cases, inl, inr, ◌∷◌, if◌then◌else◌,
}
use libgbm.Types.{Ptr, null, KmsDevice, KmsBo, a_bo}
use libgbm.Machine.{
  Env, IsLawful, Event, State, Trace, ne-null, Returns, returns, Returns-mono, Holds, Holds-refl,
  Resource, kms_object, unit_of, unit_of_fd,
}
use libgbm.Kms.Lifetime.Ownership.{owned}
use libgbm.Kms.Mapping.{gbm_kms_bo_map, gbm_kms_bo_unmap}
use libgbm.Kms.Mapping.Sessions.{IsMapped, Session, mapping_held, down, map_unref-Session}
use libgbm.Kms.Mapping.Access.{bo_map-partial, bo_map-Session, bo_map-again}
use libgbm.Kms.Table.{kms_gbm_device}
use libgbm.Frontend.Dispatch.{Tables}
use libgbm.Frontend.Buffer.{gbm_bo_map, gbm_bo_unmap}
use libgbm.Client.Objects.{Owner, allocates, imports, borrows}
use libgbm.Client.Pool.{Taken, Pool-take, IsDevice}
use libgbm.Client.Effects.{Effect, Change, quiet, unmaps, changed, unmapped}
use libgbm.Client.Ledger.{Ledger, Settled, Ledger-same, Ledger-changed, Ledger-device}

pub whole_or_part :
    (x y width height : ℕ) (b : KmsBo)
    → ((x ≡ 0) × (y ≡ 0) × (width ≡ b.base.width) × (height ≡ b.base.height))
      ⊎ ((x ≢ 0) ⊎ ((y ≢ 0) ⊎ ((width ≢ b.base.width) ⊎ (height ≢ b.base.height))))
whole_or_part x y width height b = elim (Bool-cases (x == 0)) [
  | inr z ↦ inr (inl (ground arith))
  | inl zx ↦ elim (Bool-cases (y == 0)) [
    | inr z ↦ inr (inr (inl (ground arith)))
    | inl zy ↦ elim (Bool-cases (width == b.base.width)) [
      | inr z ↦ inr (inr (inr (inl (ground arith))))
      | inl zw ↦ elim (Bool-cases (height == b.base.height)) [
        | inr z ↦ inr (inr (inr (inr (ground arith))))
        | inl zh ↦ inl (ground arith, ground arith, ground arith, ground arith)
      ]
    ]
  ]
]

-- What an object holds besides its mapping.
abbrev besides_mapping : KmsBo → Resource → ℕ
besides_mapping b r = unit_of_fd r b.fd + (if b.bo == null then 0 else unit_of r (kms_object b.bo))

owned-mapped :
    (n : ℕ) (b : KmsBo) (r : Resource)
    → IsMapped n b
    → owned b r ≡ mapping_held b.bo n r + besides_mapping b r
owned-mapped zero b r m = rw (m.idle refl) (omega arith)
owned-mapped (suc n) b r m = rw (ne-null b.addr (m.busy (omega arith))) (omega arith)

-- A trace from which the mapping that is held was taken.
abbrev pub before : ℕ → Ptr → Trace → Trace
before zero kms_bo t = t
before (suc n) kms_bo t = Event.kms_bo_unmap kms_bo ∷ t

before-Holds :
    (n : ℕ) (kms_bo : Ptr) (t : Trace) → Holds (mapping_held kms_bo n) (before n kms_bo t) t
before-Holds zero kms_bo t r = omega arith
before-Holds (suc n) kms_bo t r = omega arith

-- The object in the session of its mappings, as it is taken from the pool.
pub record Opened (b : KmsBo) (n : ℕ) (own : Resource → ℕ) : Type 0 where
  pub allocated : b.allocated ≡ true
  pub one_plane : b.num_planes ≡ pos 1
  pub mapped : IsMapped n b
  pub owns : (r : Resource) → own r ≡ owned b r

pub open-Owner :
    {gbm : Ptr} {d : KmsDevice} (b : KmsBo) {own : Resource → ℕ}
    → b.allocated ≡ true
    → Owner gbm d b own
    → (n : ℕ) × Opened b n own
open-Owner b al (allocates n al' one m e) =
    (n, record { allocated = al; one_plane = one; mapped = m; owns = e })
open-Owner b al (imports hs i e) = cc
open-Owner b al (borrows na ah room e) = cc

module _ {env : Env} (law : IsLawful env) {Ours : Ptr → Type 0} {gbm : Ptr} {d : KmsDevice}
    {t : State} {given : List ℤ} {s : State} (w : Ledger Ours t given s)
    (known : IsDevice Ours t.heap gbm d) (bo : Ptr) (b : KmsBo) (here : s.heap bo ≡ some (a_bo b))
    (mine : b.base.gbm ≡ gbm) (taken : Taken Ours gbm d t.heap s.heap w.total bo b) (n : ℕ)
    (o : Opened b n taken.own) where
  pub session : Session s.heap (before n b.bo s.trace) bo b n s
  session = record {
    addr = b.addr;
    map_ref = b.map_ref;
    mapped = o.mapped;
    at = λ q. ground (arith, here);
    holds = before-Holds n b.bo s.trace;
  }

  pub session-addr : session.addr ≡ b.addr
  unfolding session
  session-addr = refl

  Session-Ledger :
      (k : ℕ) {e : Effect} (u : State)
      → (v : Session s.heap (before n b.bo s.trace) bo b k u) → Change s.heap u.heap e
      → Settled Ours t given e s u
  Session-Ledger k u v change =
      Ledger-changed w u bo b c (owned c) here mine taken
        (allocates k o.allocated o.one_plane v.mapped (λ r. refl)) v.at
        (λ r. omega (
          arith,
          v.holds r,
          before-Holds n b.bo s.trace r,
          o.owns r,
          owned-mapped n b r o.mapped,
          owned-mapped k c r v.mapped,
        ))
        change
    where
      c : KmsBo
      c = record b { addr = v.addr; map_ref = v.map_ref }

  -- Mapped, with the address that there was if there was one.
  mapped-Ledger :
      (k : ℕ) (u : State)
      → (v : Session s.heap (before n b.bo s.trace) bo b k u) → (b.addr ≢ null → v.addr ≡ b.addr)
      → Settled Ours t given quiet s u
  mapped-Ledger k u v same =
      Session-Ledger k u v
        (changed bo b (record b { addr = v.addr; map_ref = v.map_ref }) here refl refl same v.at)

  unmapped-Ledger :
      (k : ℕ) (u : State)
      → Session s.heap (before n b.bo s.trace) bo b k u
      → Settled Ours t given (unmaps bo) s u
  unmapped-Ledger k u v =
      Session-Ledger k u v
        (unmapped bo b (record b { addr = v.addr; map_ref = v.map_ref }) here refl refl v.at)

  -- A mapping of the whole object, by the number of mappings that there are.
  whole_map-Ledger :
      (m flags : ℕ)
      → IsMapped m b
      → (v : Session s.heap (before n b.bo s.trace) bo b m s) → v.addr ≡ b.addr
      → Returns
          (λ _ u. Settled Ours t given quiet s u)
          (gbm_kms_bo_map env bo 0 0 b.base.width b.base.height flags s)
  whole_map-Ledger zero flags m v e =
      Returns-mono (bo_map-Session law s.heap (before n b.bo s.trace) bo b 0 flags s v) λ _ u r.
        elim r [
          | inl (_, _, _, (x, _)) ↦ mapped-Ledger 1 u x (λ busy. absurd (busy (m.idle refl)))
          | inr (_, _, x) ↦ mapped-Ledger 0 u x (λ busy. absurd (busy (m.idle refl)))
        ]
  whole_map-Ledger (suc m) flags _ v e =
      Returns-mono (bo_map-again law s.heap (before n b.bo s.trace) bo b m s v flags)
        λ _ u (_, (x, f)). mapped-Ledger (suc (suc m)) u x (λ _. f ∙ e)

  kms_map-Ledger :
      (x y width height flags : ℕ)
      → Returns
          (λ _ u. Settled Ours t given quiet s u)
          (gbm_kms_bo_map env bo x y width height flags s)
  kms_map-Ledger x y width height flags = elim (whole_or_part x y width height b) [
    | inr part ↦
        rw (bo_map-partial env bo b s here x y width height flags part)
          (returns (Ledger-same w _ (λ q. refl) (Holds-refl s.trace)))
    | inl (ex, ey, ew, eh) ↦
        rw (ex, ey, ew, eh) (whole_map-Ledger n flags o.mapped session session-addr)
  ]

  kms_unmap-Ledger :
      (map_data : Ptr)
      → Returns (λ _ u. Settled Ours t given (unmaps bo) s u) (gbm_kms_bo_unmap env bo map_data s)
  unfolding gbm_kms_bo_unmap
  kms_unmap-Ledger map_data = elim (Bool-cases ((map_data == null) || not (map_data == b.addr))) [
    | inl z ↦ rw (here, z) (returns (unmapped-Ledger n s session))
    | inr z ↦
        rw (here, z)
          (Returns-mono (map_unref-Session law s.heap (before n b.bo s.trace) bo b n s session)
            (λ _ u v. unmapped-Ledger (down n) u v))
  ]

module _ {env : Env} (law : IsLawful env) (tables : Tables) {Ours : Ptr → Type 0} (gbm : Ptr)
    (d : KmsDevice) (kms : tables d.table ≡ kms_gbm_device env) (t : State) {given : List ℤ}
    (s : State) (w : Ledger Ours t given s) (known : IsDevice Ours t.heap gbm d) (bo : Ptr)
    (b : KmsBo) (here : s.heap bo ≡ some (a_bo b)) (mine : b.base.gbm ≡ gbm)
    (al : b.allocated ≡ true) where
  pub map-Ledger :
      (x y width height flags : ℕ) (stride map_data : Ptr)
      → Returns
          (λ _ u. Settled Ours t given quiet s u)
          (gbm_bo_map tables bo x y width height flags stride map_data s)
  unfolding gbm_bo_map
  map-Ledger x y width height flags stride map_data =
      elim (Bool-cases
        ((bo == null) || (width == 0) || (height == 0) || (stride == null) || (map_data == null))) [
          | inl z ↦ rw z (returns (Ledger-same w _ (λ q. refl) (Holds-refl s.trace)))
          | inr z ↦
              let taken = Pool-take w.absent known bo b here mine w.pool in
              let (n, o) = open-Owner b al taken.owner in
              rw (z, here, mine, Ledger-device w known, kms)
                (kms_map-Ledger law w known bo b here mine taken n o x y width height flags)
        ]

  pub unmap-Ledger :
      (map_data : Ptr)
      → Returns (λ _ u. Settled Ours t given (unmaps bo) s u) (gbm_bo_unmap tables bo map_data s)
  unfolding gbm_bo_unmap
  unmap-Ledger map_data =
      let taken = Pool-take w.absent known bo b here mine w.pool in
      let (n, o) = open-Owner b al taken.owner in
      rw (here, mine, Ledger-device w known, kms)
        (kms_unmap-Ledger law w known bo b here mine taken n o map_data)
