-- ===== src/Client/Ledger.antt =====
-- The invariant of a client's calls: what was handed out and not given back is what the live
-- objects hold, but for handles that failed imports have lost.
use libgbm.Base.{pos, ℕ, ◌+◌, ℤ, Bool, true, false, ◌≡◌, refl, ap, some, none, List, [], ◌∷◌, arith}
use libgbm.Types.{Ptr, KmsDevice, KmsBo, a_device, a_bo}
use libgbm.Machine.{
  State, write, Resource, driver, kms_object, mapping, descriptor, gem_handle, unit_of, unit_of_fd,
  acquired, released, Holds, Balanced,
}
use libgbm.Kms.Import.Handles.{handles_held}
use libgbm.Client.Objects.{Owner, Gone}
use libgbm.Client.Effects.{Effect, quiet, makes, removes, Change, kept, added_none, added, removed}
use libgbm.Client.Pool.{IsWithout, IsDevice, Pool, Pool-origin, one_more, Pool-same, Taken}

abbrev pub is_handle : Resource → Bool
is_handle (gem_handle dev_fd h) = true
is_handle (driver p) = false
is_handle (kms_object p) = false
is_handle (mapping p) = false
is_handle (descriptor fd) = false

handles_held-other :
    (dev_fd : ℤ) (hs : List ℕ) (r : Resource) → is_handle r ≡ false → handles_held dev_fd hs r ≡ 0
unfolding unit_of
handles_held-other dev_fd [] r e = refl
handles_held-other dev_fd (h ∷ hs) (gem_handle fd k) e = cc
handles_held-other dev_fd (h ∷ hs) (driver p) e =
    omega (arith, handles_held-other dev_fd hs (driver p) e)
handles_held-other dev_fd (h ∷ hs) (kms_object p) e =
    omega (arith, handles_held-other dev_fd hs (kms_object p) e)
handles_held-other dev_fd (h ∷ hs) (mapping p) e =
    omega (arith, handles_held-other dev_fd hs (mapping p) e)
handles_held-other dev_fd (h ∷ hs) (descriptor fd) e =
    omega (arith, handles_held-other dev_fd hs (descriptor fd) e)

-- The descriptors other than 0 that exports handed to the client.
abbrev pub client_held : List ℤ → Resource → ℕ
client_held [] r = 0
client_held (fd ∷ fds) r = unit_of_fd r fd + client_held fds r

-- From the state `t` on.
module _ (Ours : Ptr → Type 0) (t : State) (given : List ℤ) where
  pub record Ledger (s : State) : Type 0 where
    pub total : Resource → ℕ
    pub lost : Resource → ℕ
    pub absent : IsWithout Ours t.heap
    pub pool : Pool Ours t.heap s.heap total
    pub holds : Holds (λ r. total r + lost r + client_held given r) t.trace s.trace
    pub only_handles : (r : Resource) → is_handle r ≡ false → lost r ≡ 0

-- A call with the effect `e` that leads from `s` to `u` keeps the ledger.
pub record Settled (Ours : Ptr → Type 0) (t : State) (given : List ℤ) (e : Effect) (s u : State)
    : Type 0 where
  pub ledger : Ledger Ours t given u
  pub change : Change s.heap u.heap e

module _ {Ours : Ptr → Type 0} {t : State} {given : List ℤ} {s : State}
    (w : Ledger Ours t given s) where
  -- A device stays as it was in the beginning.
  pub Ledger-device :
      {gbm : Ptr} {d : KmsDevice} → IsDevice Ours t.heap gbm d → s.heap gbm ≡ some (a_device d)
  Ledger-device {gbm} {d} known = Pool-origin gbm (a_device d) known.live w.pool

module _ {Ours : Ptr → Type 0} {t : State} {given : List ℤ} {s : State} (w : Ledger Ours t given s)
    (u : State) where
  -- Nothing was taken or given back.
  pub Ledger-same :
      ((q : Ptr) → u.heap q ≡ s.heap q) → Balanced s.trace u.trace → Settled Ours t given quiet s u
  Ledger-same same bal = record {
    ledger = record {
      total = w.total;
      lost = w.lost;
      absent = w.absent;
      pool = Pool-same same w.pool;
      holds = λ r. omega (arith, w.holds r, bal r);
      only_handles = w.only_handles;
    };
    change = kept same;
  }

  -- Nothing was made, taken or given back.
  pub Ledger-none :
      ((q : Ptr) → u.heap q ≡ s.heap q) → Balanced s.trace u.trace → Settled Ours t given makes s u
  Ledger-none same bal = record { ledger = (Ledger-same same bal).ledger; change = added_none same }

  -- Handles were taken and are lost.
  pub Ledger-lost :
      (dev_fd : ℤ) (hs : List ℕ)
      → ((q : Ptr) → u.heap q ≡ s.heap q)
      → Holds (handles_held dev_fd hs) s.trace u.trace
      → Settled Ours t given makes s u
  Ledger-lost dev_fd hs same holds = record {
    ledger = record {
      total = w.total;
      lost = λ r. w.lost r + handles_held dev_fd hs r;
      absent = w.absent;
      pool = Pool-same same w.pool;
      holds = λ r. omega (arith, w.holds r, holds r);
      only_handles = λ r e. omega (arith, w.only_handles r e, handles_held-other dev_fd hs r e);
    };
    change = added_none same;
  }

  -- A new object, with what was taken for it.
  pub Ledger-new :
      {gbm : Ptr} {d : KmsDevice} (p : Ptr) (b : KmsBo) (m : Resource → ℕ)
      → IsDevice Ours t.heap gbm d
      → s.heap p ≡ none
      → b.base.gbm ≡ gbm
      → Owner gbm d b m
      → ((q : Ptr) → u.heap q ≡ write s.heap p (some (a_bo b)) q)
      → Holds m s.trace u.trace
      → Settled Ours t given makes s u
  Ledger-new p b m known unused mine o at holds = record {
    ledger = record {
      total = λ r. m r + w.total r;
      lost = w.lost;
      absent = w.absent;
      pool = one_more p b unused at mine known o w.pool (λ r. refl);
      holds = λ r. omega (arith, w.holds r, holds r);
      only_handles = w.only_handles;
    };
    change = added p b unused at;
  }

  -- An object that is gone, with what it held given back.
  pub Ledger-Gone :
      {gbm : Ptr} {d : KmsDevice} (p : Ptr) (b : KmsBo)
      → s.heap p ≡ some (a_bo b)
      → (taken : Taken Ours gbm d t.heap s.heap w.total p b) → Gone taken.own p s u
      → Settled Ours t given (removes p) s u
  Ledger-Gone p b here taken after = record {
    ledger = record {
      total = taken.rest;
      lost = w.lost;
      absent = w.absent;
      pool = Pool-same (λ q. ap (λ g. g q) after.heap) taken.others;
      holds = λ r. omega (arith, w.holds r, taken.sum r, after.kept r, after.given r);
      only_handles = w.only_handles;
    };
    change = removed p (λ q. ap (λ g. g q) after.heap);
  }

  -- An object that was changed in place, with what was taken or given back for it.
  pub Ledger-changed :
      {gbm : Ptr} {d : KmsDevice} (p : Ptr) (b c : KmsBo) (k : Resource → ℕ)
      → s.heap p ≡ some (a_bo b)
      → c.base.gbm ≡ gbm
      → (taken : Taken Ours gbm d t.heap s.heap w.total p b) → Owner gbm d c k
      → ((q : Ptr) → u.heap q ≡ write s.heap p (some (a_bo c)) q)
      → ((r : Resource)
          → acquired r u.trace + released r s.trace + taken.own r
            ≡ released r u.trace + acquired r s.trace + k r)
      → {e : Effect} → Change s.heap u.heap e
      → Settled Ours t given e s u
  Ledger-changed p b c k here mine taken o at moved change = record {
    ledger = record {
      total = λ r. k r + taken.rest r;
      lost = w.lost;
      absent = w.absent;
      pool =
          one_more p c (ground arith) (λ q. ground (arith, at q)) mine taken.device o taken.others
            (λ r. refl);
      holds = λ r. omega (arith, w.holds r, taken.sum r, moved r);
      only_handles = w.only_handles;
    };
    change = change;
  }

  -- A descriptor was handed to the client.
  pub Ledger-given :
      (n : ℕ)
      → ((q : Ptr) → u.heap q ≡ s.heap q)
      → Holds (λ r. unit_of_fd r (pos n)) s.trace u.trace
      → Settled Ours t (pos n ∷ given) quiet s u
  Ledger-given n same holds = record {
    ledger = record {
      total = w.total;
      lost = w.lost;
      absent = w.absent;
      pool = Pool-same same w.pool;
      holds = λ r. omega (arith, w.holds r, holds r);
      only_handles = w.only_handles;
    };
    change = kept same;
  }
