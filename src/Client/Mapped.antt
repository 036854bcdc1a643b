-- ===== src/Client/Mapped.antt =====
-- A mapping that a client holds: what becomes of its address while other calls are made.
use libgbm.Base.{
  [], ℕ, ◌≤◌, ◌<◌, ℤ, pos, negsuc, List, ◌∷◌, true, ◌≡◌, ◌≢◌, ◌⊎◌, inl, inr, refl, ap, ◌∙◌, sym,
  some,
}
use libgbm.Types.{Ptr, null, KmsDevice, KmsBo, MapOut, a_bo, a_device}
use libgbm.Machine.{Env, IsLawful, Event, State, ok, Returns, Returns-mono, Returns-ok}
use libgbm.Kms.Formats.{einval}
use libgbm.Kms.Mapping.Access.{bo_write_lem}
use libgbm.Kms.Table.{kms_gbm_device}
use libgbm.Frontend.Dispatch.{Tables}
use libgbm.Frontend.Buffer.{gbm_bo_map, gbm_bo_write}
use libgbm.Client.Effects.{plain}
use libgbm.Client.Ledger.{Ledger-device}
use libgbm.Client.Calls.{map}
use libgbm.Client.Reach.{IsFresh, Reach, Step, next, call, Reach-Ledger}
use libgbm.Client.Stability.{Spares, keeps_mapping, Reach-Stays}
use libgbm.Client.Remapping.{IsWhole, nothing, object, map-Mapped, map-again}

-- What a write to a mapped object leaves: the bytes are copied if they fit.
abbrev pub Written :
    (address : Ptr) → (size : ℕ) → (buf : Ptr) → (count : ℕ) → State → ℤ → State → Type 0
Written address size buf count s ret u =
    ((count ≤ size) × (ret ≡ pos 0) × (u.trace ≡ Event.memcpy address buf count ∷ s.trace))
    ⊎ ((size < count) × (ret ≡ negsuc 0) × (u.errno ≡ einval) × (u.trace ≡ s.trace))

module _ (env : Env) (tables : Tables) (gbm : Ptr) (d : KmsDevice)
    (kms : tables d.table ≡ kms_gbm_device env) (s : State) (bo : Ptr) (b : KmsBo)
    (here : s.heap bo ≡ some (a_bo b)) (live : s.heap b.base.gbm ≡ some (a_device d)) where
  write-Written :
      (buf : Ptr) (count : ℕ)
      → b.addr ≢ null
      → Returns (Written b.addr b.size buf count s) (gbm_bo_write tables bo buf count s)
  unfolding gbm_bo_write
  write-Written buf count busy =
      rw (here, live, kms)
        (Returns-mono (bo_write_lem env bo b s here buf count) λ ret u (_, r). elim r [
          | inl (e, ne, fits, copied) ↦ inl (fits, e, copied)
          | inr (e, same, inl (idle, _)) ↦ absurd (busy idle)
          | inr (e, same, inr (ne, over, err)) ↦ inr (over, e, err, same)
        ])

IsWhole-moved :
    (x y width height : ℕ) (b c : KmsBo)
    → IsWhole x y width height b
    → plain c ≡ plain b
    → IsWhole x y width height c
IsWhole-moved x y width height b c (ex, ey, ew, eh) e =
    (ex, ey, ew ∙ sym (ap (λ o. o.base.width) e), eh ∙ sym (ap (λ o. o.base.height) e))

module _ {env : Env} (law : IsLawful env) (tables : Tables) {Ours : Ptr → Type 0} where
  -- A mapping stays until it is undone: if the libraries keep what they document, let `gbm_bo_map`,
  -- after some allowed calls of gbm.c on devices of the KMS backend that began without buffer
  -- objects of their own, return an address other than NULL for a live object that the backend
  -- allocated. After any further allowed calls on the devices, none of which unmaps or destroys
  -- this object, the same call of `gbm_bo_map` returns the same address, and `gbm_bo_write` copies
  -- the bytes to that address and returns 0 if they are no more than the object's size, and else
  -- returns -1 with EINVAL and copies nothing.
  pub Reach-bo_map :
      {t s r u : State} {fs fds : List ℤ} (gbm bo : Ptr) (b : KmsBo) (x y width height flags : ℕ)
      (stride map_data : Ptr) (m : MapOut) (buf : Ptr) (count : ℕ)
      → IsFresh env tables Ours t
      → Reach env tables Ours t fs s
      → Ours gbm
      → s.heap bo ≡ some (a_bo b)
      → bo ≢ null
      → b.base.gbm ≡ gbm
      → b.allocated ≡ true
      → gbm_bo_map tables bo x y width height flags stride map_data s ≡ ok m r
      → m.address ≢ null
      → (after : Reach env tables Ours r fds u) → Spares bo after
      → keeps_mapping bo after ≡ true
      → Returns
          (λ k _. k.address ≡ m.address)
          (gbm_bo_map tables bo x y width height flags stride map_data u)
        × Returns (Written m.address b.size buf count u) (gbm_bo_write tables bo buf count u)
  Reach-bo_map {t} {s} {r} {u} gbm bo b x y width height flags stride map_data m buf count fresh
        earlier ours here ne mine al e mapped after spared kept =
      let w = Reach-Ledger law tables fresh earlier in
      let (d, known, kms) = fresh.devices gbm ours in
      elim (Returns-ok
        (map-Mapped law tables gbm d kms t s w known bo b here mine al x y width height flags stride
          map_data)
        e) [
          | inl z ↦ absurd (mapped z)
          | inr (z, nothing z') ↦ absurd (mapped z')
          | inr (z, object c at same addr whole) ↦
              let step : Step env tables Ours s [] r =
                call gbm ours (map bo x y width height flags stride map_data)
                  (b, here, ne, mine, al) (rw e refl) in
              let v = Reach-Ledger law tables fresh (next earlier step) in
              let ((gs, l), k) = Reach-Stays law tables bo c fresh v at after spared in
              let busy : c.addr ≢ null = (λ i. mapped (sym addr ∙ i)) in
              let stays : k.object.addr ≡ m.address = k.mapping kept busy ∙ addr in
              let plain_same : plain k.object ≡ plain b = k.same ∙ same in
              (
                rw (← stays) (
                    map-again law tables gbm d kms t u l known bo k.object k.at
                      (ap (λ o. o.base.gbm) plain_same ∙ mine)
                      (ap (λ o. o.allocated) plain_same ∙ al) x y width height flags stride map_data
                      z (IsWhole-moved x y width height b k.object whole plain_same)
                      (λ i. mapped (sym stays ∙ i))),
                rw (← stays, ← ap (λ o. o.size) plain_same)
                    (write-Written env tables gbm d kms u bo k.object k.at
                      (rw (ap (λ o. o.base.gbm) plain_same ∙ mine) (Ledger-device l known)) buf
                      count (λ i. mapped (sym stays ∙ i))),
              )
        ]
