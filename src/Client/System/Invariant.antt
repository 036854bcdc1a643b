-- ===== src/Client/System/Invariant.antt =====
-- What holds of a system at every step, with one lemma for each kind of step.
use libgbm.Base.{
  ◌⊎◌, true, false, ℤ, pos, List, [], ◌∷◌, ◌≡◌, ◌≢◌, refl, ap, ◌∙◌, some, none, ◌==◌, arith,
  Bool-cases, inl, inr,
}
use libgbm.Types.{Ptr, null, KmsDevice, a_device}
use libgbm.Machine.{Env, IsLawful, Event, State, write, Balanced, Holds, Holds-refl, unit_of_driver}
use libgbm.Kms.Table.{kms_gbm_device, kms_table}
use libgbm.Frontend.Dispatch.{Tables}
use libgbm.Frontend.Devices.{IsOpen}
use libgbm.Client.Pool.{IsWithout, Only}
use libgbm.Client.Rebasing.{Pool-absent, Pool-join, Pool-leave, IsFresh-join, IsFresh-leave}
use libgbm.Client.Ledger.{Ledger, Ledger-same}
use libgbm.Client.Reach.{IsFresh, here, Reach-Ledger}
use libgbm.Client.System.{Book, no_devices, entered, Listed, IsClear, drivers_held}

-- The state `u` of a system that began in `s`: `base` is what there would be without the buffer
-- objects, and the calls in it are those that opened the drivers `ps`.
pub record World (env : Env) (tables : Tables) (s : State) (ds : Book) (fds : List ℤ)
    (ps : List Ptr) (u : State) : Type 0 where
  pub base : State
  pub drivers : Holds (drivers_held ps) s.trace base.trace
  pub clear : IsClear base
  pub fresh : IsFresh env tables (Listed ds) base
  pub ledger : Ledger (Listed ds) base fds u
  pub outside : (q : Ptr) → ds q ≡ false → base.heap q ≡ s.heap q
  pub unused : (q : Ptr) → ds q ≡ true → s.heap q ≡ none
  pub addressed : (q : Ptr) → ds q ≡ true → q ≢ null
  pub counted :
      (q : Ptr) (d : KmsDevice) → ds q ≡ true → base.heap q ≡ some (a_device d) → d.refcount ≡ 1

module _ {env : Env} (law : IsLawful env) (tables : Tables)
    (kms : tables kms_table ≡ kms_gbm_device env) {s : State} where
  none-IsFresh : IsClear s → IsFresh env tables (Listed no_devices) s
  none-IsFresh clear = record {
    devices = λ p z. absurd (ground (arith, z));
    empty = λ q b e. absurd (clear q b e);
  }

  pub World-begins : IsClear s → World env tables s no_devices [] [] s
  World-begins clear = record {
    base = s;
    drivers = Holds-refl s.trace;
    clear = clear;
    fresh = none-IsFresh clear;
    ledger = Reach-Ledger law tables (none-IsFresh clear) here;
    outside = λ q z. refl;
    unused = λ q z. absurd (ground (arith, z));
    addressed = λ q z. absurd (ground (arith, z));
    counted = λ q d z. absurd (ground (arith, z));
  }

  module _ {ds : Book} {fds : List ℤ} {ps : List Ptr} {u : State}
      (w : World env tables s ds fds ps u) where
    -- A listed device is in use.
    unlisted : (p : Ptr) → w.base.heap p ≡ none → ds p ≡ false
    unlisted p gone = elim (Bool-cases (ds p)) [
      | inr z ↦ z
      | inl z ↦ let (d, known, _) = w.fresh.devices p z in let live = known.live in cc
    ]

    -- Nothing has happened to the buffer objects and the devices.
    pub World-same :
        {v : State}
        → ((q : Ptr) → v.heap q ≡ u.heap q)
        → Balanced u.trace v.trace
        → World env tables s ds fds ps v
    World-same {v} same bal = record {
      base = w.base;
      drivers = w.drivers;
      clear = w.clear;
      fresh = w.fresh;
      ledger = (Ledger-same w.ledger v same bal).ledger;
      outside = w.outside;
      unused = w.unused;
      addressed = w.addressed;
      counted = w.counted;
    }

    -- A call on one of the devices was made.
    pub World-called :
        {gs : List ℤ} {v : State} → Ledger (Listed ds) w.base gs v → World env tables s ds gs ps v
    World-called l = record {
      base = w.base;
      drivers = w.drivers;
      clear = w.clear;
      fresh = w.fresh;
      ledger = l;
      outside = w.outside;
      unused = w.unused;
      addressed = w.addressed;
      counted = w.counted;
    }

    pub World-opens :
        {v : State} {fd : ℤ} (p : Ptr) (d : KmsDevice)
        → p ≢ null
        → u.heap p ≡ none
        → IsOpen fd d
        → ((q : Ptr) → v.heap q ≡ write u.heap p (some (a_device d)) q)
        → Holds (λ r. unit_of_driver r d.kms) u.trace v.trace
        → World env tables s (entered ds p true) fds (d.kms ∷ ps) v
    World-opens {v} p d ne gone is at bal = record {
      base = base;
      drivers = λ r. omega (arith, w.drivers r);
      clear = λ q b e. w.clear q b (ground (arith, e));
      fresh = fresh;
      ledger = record {
        total = w.ledger.total;
        lost = w.ledger.lost;
        absent = fresh.empty;
        pool = Pool-join p d wider gone at w.ledger.pool;
        holds = λ r. omega (arith, w.ledger.holds r, bal r);
        only_handles = w.ledger.only_handles;
      };
      outside = λ q z. ground (arith, z, w.outside q);
      unused = λ q z. ground (arith, z, w.unused q, w.outside p (unlisted p before), before);
      addressed = λ q z. ground (arith, z, w.addressed q, ne);
      counted = λ q c z e. ground (arith, z, e, w.counted q c, is.counted);
    }
      where
        before : w.base.heap p ≡ none
        before = Pool-absent p gone w.ledger.pool

        wider : (q : Ptr) → Listed ds q → Listed (entered ds p true) q
        wider q z = ground (arith, z)

        among : (q : Ptr) → Listed (entered ds p true) q → Listed ds q ⊎ (q ≡ p)
        among q z = elim (Bool-cases (q == p)) [
          | inl y ↦ inr (ground arith)
          | inr y ↦ inl (ground (arith, z))
        ]

        base : State
        base = record w.base {
          heap = write w.base.heap p (some (a_device d));
          trace = Event.kms_create d.fd (pos 0) (some d.kms) ∷ w.base.trace;
        }

        fresh : IsFresh env tables (Listed (entered ds p true)) base
        fresh =
            IsFresh-join p d w.fresh wider among (ground arith) (λ q b e. absurd (w.clear q b e))
              before (ap tables is.table ∙ kms) (λ q. refl)

    -- The device at `p` goes, which has no buffer objects.
    pub World-closes :
        {v : State} (p : Ptr) (d : KmsDevice)
        → Listed ds p
        → u.heap p ≡ some (a_device d)
        → IsWithout (Only p) u.heap
        → ((q : Ptr) → v.heap q ≡ write u.heap p none q)
        → v.trace ≡ u.trace
        → World env tables s (entered ds p false) fds ps v
    World-closes {v} p d listed live empty at same = record {
      base = base;
      drivers = w.drivers;
      clear = λ q b e. w.clear q b (ground (arith, e));
      fresh = fresh;
      ledger = record {
        total = w.ledger.total;
        lost = w.ledger.lost;
        absent = fresh.empty;
        pool = Pool-leave p d (λ q z apart. ground (arith, z, apart)) live empty at w.ledger.pool;
        holds = λ r. rw same (w.ledger.holds r);
        only_handles = w.ledger.only_handles;
      };
      outside = λ q z. ground (arith, z, w.outside q, w.unused p listed);
      unused = λ q z. ground (arith, z, w.unused q);
      addressed = λ q z. ground (arith, z, w.addressed q);
      counted = λ q c z e. ground (arith, z, e, w.counted q c);
    }
      where
        base : State
        base = record w.base { heap = write w.base.heap p none }

        among : (q : Ptr) → Listed (entered ds p false) q → Listed ds q × (q ≢ p)
        among q z = (ground (arith, z), ground (arith, z))

        fresh : IsFresh env tables (Listed (entered ds p false)) base
        fresh = IsFresh-leave p d w.fresh among (λ q. refl)
