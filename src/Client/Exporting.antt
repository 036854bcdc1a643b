-- ===== src/Client/Exporting.antt =====
-- Exports keep the ledger: what the kernel hands out is the client's.
use libgbm.Base.{
  ℕ, ℤ, pos, negsuc, is_neg, true, Option, ◌≡◌, refl, ap, some, List, [], ◌++◌, inl, inr, arith,
}
use libgbm.Types.{Ptr, KmsDevice, KmsBo, KmsPlane, a_bo, a_device}
use libgbm.Machine.{
  Run, and_then, Env, IsLawful, State, pure, ◌>>=◌, Returns, returns, Returns-bind, Returns-mono,
  Holds, unit_of_fd,
}
use libgbm.Kms.Query.{gbm_kms_bo_get_fd, gbm_kms_bo_get_plane_fd}
use libgbm.Kms.Query.Planes.{HasRoom}
use libgbm.Kms.Query.Export.{Exported, no_plane, refused, exported, get_plane_fd_lem}
use libgbm.Kms.Table.{kms_gbm_device}
use libgbm.Frontend.Dispatch.{Tables}
use libgbm.Frontend.Buffer.{gbm_bo_get_fd, gbm_bo_get_fd_for_plane}
use libgbm.Client.Calls.{handed}
use libgbm.Client.Objects.{Owner-HasRoom}
use libgbm.Client.Pool.{Pool-take, IsDevice}
use libgbm.Client.Effects.{quiet}
use libgbm.Client.Ledger.{Ledger, Settled, Ledger-same, Ledger-given, Ledger-device}

handed-neg : (fd : ℤ) → is_neg fd ≡ true → handed fd ≡ []
handed-neg (pos n) e = cc
handed-neg (negsuc n) e = refl

-- What an export leaves: a descriptor that the kernel handed out, or a negative number.
data Handed (s : State) (fd : ℤ) (u : State) : Type 0 where
  one :
      (n : ℕ)
      → fd ≡ pos n
      → u.heap ≡ s.heap
      → Holds (λ r. unit_of_fd r (pos n)) s.trace u.trace
      → Handed s fd u
  nothing : is_neg fd ≡ true → u.heap ≡ s.heap → Holds (λ r. 0) s.trace u.trace → Handed s fd u

Exported-Handed :
    {dev_fd : ℤ} {s : State} {o : Option KmsPlane} {fd : ℤ} {u : State}
    → Exported dev_fd s o fd u
    → Handed s fd u
Exported-Handed (no_plane e f h) = nothing (rw f refl) (rw h refl) (rw h (λ r. omega arith))
Exported-Handed (refused p ret neg e f h t) = nothing (rw f refl) h (rw t (λ r. ground arith))
Exported-Handed (exported p n e f h t) = one n f h (rw t (λ r. omega arith))

module _ {env : Env} (law : IsLawful env) (bo : Ptr) (b : KmsBo) (d : KmsDevice) (s : State)
    (here : s.heap bo ≡ some (a_bo b)) (dev : s.heap b.base.gbm ≡ some (a_device d)) where
  get_plane_fd-Handed :
      (plane : ℤ) → HasRoom b → Returns (Handed s) (gbm_kms_bo_get_plane_fd env bo plane s)
  get_plane_fd-Handed plane (n, count, room) =
      Returns-mono (get_plane_fd_lem law bo b d n s here dev count room plane)
        λ fd u x. Exported-Handed x

  get_fd-Handed : Returns (Handed s) (gbm_kms_bo_get_fd env bo s)
  unfolding gbm_kms_bo_get_fd
  get_fd-Handed =
      rw (here, dev)
        (elim (law.exported s.trace d.fd b.base.handle) [
          | inl (r, (m, out)) ↦ simp (r, out) (returns (one m refl refl (λ r. omega arith)))
          | inr (r, out) ↦ simp r (returns (nothing r refl (λ q. ground (arith, out))))
        ])

module _ {env : Env} (law : IsLawful env) (tables : Tables) {Ours : Ptr → Type 0} (gbm : Ptr)
    (d : KmsDevice) (kms : tables d.table ≡ kms_gbm_device env) (t : State) {given : List ℤ}
    (s : State) (w : Ledger Ours t given s) (known : IsDevice Ours t.heap gbm d) where
  Handed-Ledger :
      {run : Run ℤ}
      → Returns (Handed s) run
      → Returns
          (λ gs u. Settled Ours t (gs ++ given) quiet s u)
          (and_then run (λ fd. pure (handed fd)))
  Handed-Ledger done = Returns-bind done λ fd u x. elim x [
    | one n e same holds ↦ rw e (returns (Ledger-given w u n (λ q. ap (λ g. g q) same) holds))
    | nothing e same holds ↦
        rw (handed-neg fd e) (returns (Ledger-same w u (λ q. ap (λ g. g q) same) holds))
  ]

  module _ (bo : Ptr) (b : KmsBo) (here : s.heap bo ≡ some (a_bo b)) (mine : b.base.gbm ≡ gbm) where
    dev : s.heap b.base.gbm ≡ some (a_device d)
    dev = rw mine (Ledger-device w known)

    pub export-Ledger :
        Returns
          (λ gs u. Settled Ours t (gs ++ given) quiet s u)
          ((gbm_bo_get_fd tables bo >>= λ fd. pure (handed fd)) s)
    unfolding gbm_bo_get_fd
    export-Ledger = rw (here, dev, kms) (Handed-Ledger (get_fd-Handed law bo b d s here dev))

    pub export_plane-Ledger :
        (plane : ℤ)
        → Returns
            (λ gs u. Settled Ours t (gs ++ given) quiet s u)
            ((gbm_bo_get_fd_for_plane tables bo plane >>= λ fd. pure (handed fd)) s)
    unfolding gbm_bo_get_fd_for_plane
    export_plane-Ledger plane =
        rw (here, dev, kms)
          (Handed-Ledger (
            get_plane_fd-Handed law bo b d s here dev plane
              (Owner-HasRoom ((Pool-take w.absent known bo b here mine w.pool).owner))))
