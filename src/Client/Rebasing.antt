-- ===== src/Client/Rebasing.antt =====
-- A pool of buffer objects while devices come and go under it.
use libgbm.Base.{
  ◌⊎◌, ℕ, false, ◌≡◌, ◌≢◌, refl, ◌∙◌, some, none, ◌==◌, arith, inl, inr, Option-cases,
}
use libgbm.Types.{Ptr, KmsDevice, a_bo, a_device}
use libgbm.Kms.Table.{kms_gbm_device}
use libgbm.Frontend.Dispatch.{Tables}
use libgbm.Client.Reach.{IsFresh}
use libgbm.Machine.{Env, State, Heap, write, write_self, Resource}
use libgbm.Client.Pool.{IsWithout, Only, Pool, no_objects, one_more, Pool-origin}

-- What is not in the heap was not there at the origin.
pub Pool-absent :
    {Ours : Ptr → Type 0} {o h : Heap} {n : Resource → ℕ} (q : Ptr)
    → h q ≡ none
    → Pool Ours o h n
    → o q ≡ none
Pool-absent {o} q gone pool = elim (Option-cases (o q)) [
  | inl e ↦ e
  | inr (x, e) ↦ let there = Pool-origin q x e pool in cc
]

-- A device that is put at an unused address joins the origin.
pub Pool-join :
    {Ours Wider : Ptr → Type 0} {o h k : Heap} {n : Resource → ℕ} (p : Ptr) (d : KmsDevice)
    → ((q : Ptr) → Ours q → Wider q)
    → h p ≡ none
    → ((q : Ptr) → k q ≡ write h p (some (a_device d)) q)
    → Pool Ours o h n
    → Pool Wider (write o p (some (a_device d))) k n
Pool-join p d wider unused at (no_objects same zero') =
    no_objects (λ q. ground (arith, at q, same q)) zero'
Pool-join {o} p d wider unused at
      (one_more {h} {g} {gbm} {d = e} q b free under its known owner rest sum) =
    let apart : (q == p) ≡ false = ground (arith, under q, unused) in
    let below : g p ≡ none = ground (arith, under p, unused, apart) in
    let before = Pool-absent p below rest in
    one_more q b (ground (arith, free, apart)) (λ x. ground (arith, at x, under x, apart)) its
      (record { ours = wider gbm known.ours; live = ground (arith, known.live, before) }) owner
      (Pool-join p d wider below (λ x. refl) rest) sum

-- A device without buffer objects leaves the origin.
pub Pool-leave :
    {Ours Fewer : Ptr → Type 0} {o h k : Heap} {n : Resource → ℕ} (p : Ptr) (d : KmsDevice)
    → ((q : Ptr) → Ours q → q ≢ p → Fewer q)
    → h p ≡ some (a_device d)
    → IsWithout (Only p) h
    → ((q : Ptr) → k q ≡ write h p none q)
    → Pool Ours o h n
    → Pool Fewer (write o p none) k n
Pool-leave p d fewer live empty at (no_objects same zero') =
    no_objects (λ q. ground (arith, at q, same q)) zero'
Pool-leave {o} p d fewer live empty at
      (one_more {h} {g} {gbm} {d = e} q b free under its known owner rest sum) =
    let here : h q ≡ some (a_bo b) = under q ∙ write_self g q (some (a_bo b)) in
    let apart : (q == p) ≡ false = ground (arith, here, live) in
    let below : g p ≡ some (a_device d) = ground (arith, under p, live, apart) in
    let elsewhere : gbm ≢ p = (λ z. empty q b here (its ∙ z)) in
    let without : IsWithout (Only p) g = (λ x c z. empty x c (ground (arith, under x, z, free))) in
    one_more q b (ground (arith, free)) (λ x. ground (arith, at x, under x, apart)) its
      (record {
        ours = fewer gbm known.ours elsewhere;
        live = ground (arith, known.live, elsewhere);
      })
      owner (Pool-leave p d fewer below without (λ x. refl) rest) sum

module _ {env : Env} {tables : Tables} {Ours : Ptr → Type 0} (p : Ptr) (d : KmsDevice) {s u : State}
    (fresh : IsFresh env tables Ours s) where
  -- A device that was made just now, and that no buffer object names, joins the others.
  pub IsFresh-join :
      {Wider : Ptr → Type 0}
      → ((q : Ptr) → Ours q → Wider q)
      → ((q : Ptr) → Wider q → Ours q ⊎ (q ≡ p))
      → Wider p
      → IsWithout (Only p) s.heap
      → s.heap p ≡ none
      → tables d.table ≡ kms_gbm_device env
      → ((q : Ptr) → u.heap q ≡ write s.heap p (some (a_device d)) q)
      → IsFresh env tables Wider u
  IsFresh-join {Wider} wider among new empty unused kms at = record {
    devices = λ q z. elim (among q z) [
      | inl old ↦
          let (c, known, kms') = fresh.devices q old in
          (c, record { ours = z; live = ground (arith, at q, known.live, unused) }, kms')
      | inr same ↦ (d, record { ours = z; live = ground (arith, at q, same) }, kms)
    ];
    empty = λ q b z w. elim (among b.base.gbm w) [
      | inl old ↦ fresh.empty q b (ground (arith, at q, z)) old
      | inr same ↦ empty q b (ground (arith, at q, z)) same
    ];
  }

  -- A device leaves the others.
  pub IsFresh-leave :
      {Fewer : Ptr → Type 0}
      → ((q : Ptr) → Fewer q → Ours q × (q ≢ p))
      → ((q : Ptr) → u.heap q ≡ write s.heap p none q)
      → IsFresh env tables Fewer u
  IsFresh-leave {Fewer} among at = record {
    devices = λ q z.
        let (old, apart) = among q z in
        let (c, known, kms) = fresh.devices q old in
        (c, record { ours = z; live = ground (arith, at q, known.live, apart) }, kms);
    empty = λ q b z w. fresh.empty q b (ground (arith, at q, z)) ((among b.base.gbm w).0);
  }
