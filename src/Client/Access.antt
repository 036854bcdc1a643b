-- ===== src/Client/Access.antt =====
-- Writing, and the setting of user data, keep the ledger.
use libgbm.Base.{ℤ, ℕ, ◌≡◌, refl, ap, some, inl, inr, List, [], ◌∷◌, arith}
use libgbm.Types.{Ptr, KmsDevice, KmsBo, a_bo}
use libgbm.Machine.{Env, State, Returns, returns, Returns-mono, Holds-refl, Resource}
use libgbm.Kms.Mapping.Access.{bo_write_lem}
use libgbm.Kms.Import.Single.{Owns}
use libgbm.Kms.Table.{kms_gbm_device}
use libgbm.Frontend.Dispatch.{Tables}
use libgbm.Frontend.Buffer.{gbm_bo_write, gbm_bo_set_user_data}
use libgbm.Client.Objects.{Owner, allocates, imports, borrows}
use libgbm.Client.Pool.{Pool-take, IsDevice}
use libgbm.Client.Effects.{quiet, tells, labelled}
use libgbm.Client.Ledger.{Ledger, Settled, Ledger-same, Ledger-changed, Ledger-device}

abbrev with_data : KmsBo → (data' destroy_user_data : Ptr) → KmsBo
with_data b data' f = record b { base = record b.base { user_data = data'; destroy_user_data = f } }

Owns-with_data :
    (hs : List ℕ) (b : KmsBo) (data' f : Ptr) → Owns hs b → Owns hs (with_data b data' f)
Owns-with_data [] b data' f o = o
Owns-with_data (h ∷ []) b data' f o = o
Owns-with_data (h ∷ k ∷ hs) b data' f o = o

Owner-with_data :
    {gbm : Ptr} {d : KmsDevice} (b : KmsBo) {n : Resource → ℕ} (data' f : Ptr)
    → Owner gbm d b n
    → Owner gbm d (with_data b data' f) n
Owner-with_data b data' f (allocates m al one w e) =
    allocates m al one (record { count = w.count; idle = w.idle; busy = w.busy }) e
Owner-with_data b data' f (imports hs i e) =
    imports hs
      (record {
        unowned = i.unowned;
        owning = i.owning;
        device = i.device;
        planes = i.planes;
        handles = Owns-with_data hs b data' f i.handles;
      })
      e
Owner-with_data b data' f (borrows al ah room e) = borrows al ah room e

module _ (env : Env) (tables : Tables) {Ours : Ptr → Type 0} (gbm : Ptr) (d : KmsDevice)
    (kms : tables d.table ≡ kms_gbm_device env) (t : State) {given : List ℤ} (s : State)
    (w : Ledger Ours t given s) (known : IsDevice Ours t.heap gbm d) (bo : Ptr) (b : KmsBo)
    (here : s.heap bo ≡ some (a_bo b)) (mine : b.base.gbm ≡ gbm) where
  pub write-Ledger :
      (buf : Ptr) (count : ℕ)
      → Returns (λ _ u. Settled Ours t given quiet s u) (gbm_bo_write tables bo buf count s)
  unfolding gbm_bo_write
  write-Ledger buf count =
      rw (here, mine, Ledger-device w known, kms)
        (Returns-mono (bo_write_lem env bo b s here buf count) λ ret u (same, r). elim r [
          | inl (_, _, _, e) ↦ Ledger-same w u (λ q. ap (λ g. g q) same) (rw e (λ r. omega arith))
          | inr (_, e, _) ↦ Ledger-same w u (λ q. ap (λ g. g q) same) (rw e (Holds-refl s.trace))
        ])

  pub set_user_data-Ledger :
      (data' f : Ptr)
      → Returns
          (λ _ u. Settled Ours t given (tells bo data') s u)
          (gbm_bo_set_user_data bo data' f s)
  unfolding gbm_bo_set_user_data
  set_user_data-Ledger data' f =
      let taken = Pool-take w.absent known bo b here mine w.pool in
      rw here (
        returns (
          Ledger-changed w _ bo b (with_data b data' f) taken.own here mine taken
            (Owner-with_data b data' f taken.owner) (λ q. refl) (λ r. omega arith)
            (labelled bo b (with_data b data' f) here refl refl (λ q. refl))))
