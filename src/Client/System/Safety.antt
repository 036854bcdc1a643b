-- ===== src/Client/System/Safety.antt =====
-- What a system does, from its beginning to its end.
use libgbm.Base.{
  some, Option, if◌then◌else◌, Bool-cases, true, false, ℤ, List, ◌+◌, ◌≡◌, ◌≢◌, ◌⊎◌, refl, ◌∙◌,
  none, ◌∷◌, arith, inl, inr,
}
use libgbm.Types.{Ptr, null}
use libgbm.Machine.{
  Env, IsLawful, Heap, State, M, pure, ◌>>◌, ok, write, write_self, Returns, returns, Returns-bind,
  Returns-mono, Returns-ok, Resource, acquired, released,
}
use libgbm.Kms.Table.{kms_gbm_device, kms_device_create, kms_table}
use libgbm.Frontend.Dispatch.{Tables}
use libgbm.Frontend.Device.{gbm_create_device, gbm_device_destroy}
use libgbm.Frontend.Devices.{
  Opened, failed, made, IsOpen, create_device-Opened, device_destroy-last,
}
use libgbm.Types.{KmsDevice, Object, a_device}
use libgbm.Client.Pool.{IsWithout, Only, Pool-none}
use libgbm.Client.Ledger.{Ledger-device, client_held, is_handle}
use libgbm.Client.Calls.{Call, perform, IsAllowed}
use libgbm.Client.Reach.{call, perform-Settled}
use libgbm.Client.System.{
  driver_at, drivers_of, drivers_held, Book, entered, Listed, IsClear, System, begins, opens,
  opens_none, calls, closes,
}
use libgbm.Client.System.Invariant.{
  World, World-begins, World-same, World-opens, World-called, World-closes,
}

-- What a client may do next.
pub data Move : Type 0 where
  open_device : (fd : ℤ) → Move
  close_device : (p : Ptr) → Move
  on : (p : Ptr) → Call → Move

-- The move, with the device that it made.
abbrev pub act : Env → Tables → Move → M Ptr
act env tables (open_device fd) = gbm_create_device env (kms_device_create env) fd
act env tables (close_device p) = gbm_device_destroy tables p >> pure null
act env tables (on p c) = perform env tables p c >> pure null

-- Any descriptor may be opened, a device without buffer objects closed, and an allowed call made.
abbrev pub IsPossible : Env → Book → State → Move → Type 0
IsPossible env ds u (open_device fd) = Unit {0}
IsPossible env ds u (close_device p) = Listed ds p × IsWithout (Only p) u.heap
IsPossible env ds u (on p c) = Listed ds p × IsAllowed env p u c

-- The devices that are open, as they stand in the heap.
abbrev pub open_devices : Book → Heap → Ptr → Option Object
open_devices ds h q = if ds q then h q else none

abbrev pub Outcome : Book → State → Move → Ptr → State → Type 0
Outcome ds u (open_device fd) p v =
    ((p ≡ null) × ((q : Ptr) → v.heap q ≡ u.heap q))
    ⊎ ((p ≢ null)
        × (u.heap p ≡ none)
        × ((d : KmsDevice) × ((q : Ptr) → v.heap q ≡ write u.heap p (some (a_device d)) q)))
Outcome ds u (close_device p) _ v = (q : Ptr) → v.heap q ≡ write u.heap p none q
Outcome ds u (on p c) _ v = (q : Ptr) → open_devices ds v.heap q ≡ open_devices ds u.heap q

module _ {env : Env} (law : IsLawful env) (tables : Tables)
    (kms : tables kms_table ≡ kms_gbm_device env) {s : State} where
  module _ {ds : Book} {fds : List ℤ} {ps : List Ptr} {u : State}
      (w : World env tables s ds fds ps u) where
    -- The device that is closed is freed.
    close-Returns :
        (p : Ptr)
        → Listed ds p
        → Returns
            (λ _ v. (v.trace ≡ u.trace) × ((q : Ptr) → v.heap q ≡ write u.heap p none q))
            (gbm_device_destroy tables p u)
    close-Returns p listed =
        let (d, known, kms') = w.fresh.devices p listed in
        device_destroy-last tables p d u (Ledger-device w.ledger known) env kms'
          (w.addressed p listed) (w.counted p d listed known.live)

    World-close :
        {v : State} (p : Ptr)
        → Listed ds p
        → IsWithout (Only p) u.heap
        → gbm_device_destroy tables p u ≡ ok tt v
        → World env tables s (entered ds p false) fds ps v
    World-close p listed empty e =
        let (d, known, _) = w.fresh.devices p listed in
        let (same, at) = Returns-ok (close-Returns p listed) e in
        World-closes law tables kms w p d listed (Ledger-device w.ledger known) empty at same

    World-open :
        {v : State} (fd : ℤ) (p : Ptr)
        → p ≢ null
        → Opened (IsOpen fd) u p v
        → World env tables s (entered ds p true) fds (driver_at (v.heap p) ∷ ps) v
    World-open fd p ne (failed z same bal) = absurd (ne z)
    World-open {v} fd p ne (made d n unused is at bal) =
        let here : v.heap p ≡ some (a_device d) = at p ∙ write_self u.heap p (some (a_device d)) in
        rw here (World-opens law tables kms w p d ne unused is at bal)

    World-open_none :
        {v : State} (fd : ℤ) → Opened (IsOpen fd) u null v → World env tables s ds fds ps v
    World-open_none fd (failed z same bal) = World-same law tables kms w same bal
    World-open_none fd (made d n unused is at bal) = absurd (n refl)

  System-World :
      {ds : Book} {fds : List ℤ} {u : State}
      → IsClear s
      → (system : System env tables s ds fds u) → World env tables s ds fds (drivers_of system) u
  System-World clear begins = World-begins law tables kms clear
  System-World clear (opens fd p before e ne) =
      World-open (System-World clear before) fd p ne (Returns-ok (create_device-Opened law fd _) e)
  System-World clear (opens_none fd before e) =
      World-open_none (System-World clear before) fd (Returns-ok (create_device-Opened law fd _) e)
  System-World clear (calls before (call gbm ours c a e)) =
      let w = System-World clear before in
      let (d, known, kms') = w.fresh.devices gbm ours in
      World-called law tables kms w
        (Returns-ok (perform-Settled law tables gbm d kms' w.base c _ a w.ledger known) e).ledger
  System-World clear (closes p before listed empty e) =
      World-close (System-World clear before) p listed empty e

  -- A system never faults: let the libraries keep what they document, and a client begin without
  -- buffer objects. After any sequence of devices of the KMS backend opened and closed, and of
  -- allowed calls of gbm.c on the devices that are open, interleaved as they may be, each further
  -- move that is possible returns: to open a device gives NULL with the heap as it was, or a new
  -- device at an address that was unused; to close one that has no buffer objects frees it and
  -- nothing else; and an allowed call on one leaves all of them as they were.
  pub System-act :
      {ds : Book} {fds : List ℤ} {u : State} (m : Move)
      → IsClear s
      → System env tables s ds fds u
      → IsPossible env ds u m
      → Returns (Outcome ds u m) (act env tables m u)
  System-act {u = u} (open_device fd) clear system possible =
      Returns-mono (create_device-Opened law fd u) λ p v r. elim r [
        | failed z same bal ↦ inl (z, same)
        | made d n unused is at bal ↦ inr (n, unused, (d, at))
      ]
  System-act (close_device p) clear system (listed, empty) =
      Returns-bind (close-Returns (System-World clear system) p listed) λ _ v x. returns x.1
  System-act {ds = ds} {u = u} (on p c) clear system (listed, a) =
      let w = System-World clear system in
      let (d, known, kms') = w.fresh.devices p listed in
      Returns-bind (perform-Settled law tables p d kms' w.base c u a w.ledger known) λ _ v x.
        returns λ q. elim (Bool-cases (ds q)) [
          | inr z ↦ rw z refl
          | inl z ↦
              let (e, there, _) = w.fresh.devices q z in
              rw (z, Ledger-device x.ledger there, Ledger-device w.ledger there) refl
        ]

  -- What is left of a system: let the libraries keep what they document, and a client begin without
  -- buffer objects. After any sequence of devices of the KMS backend opened and closed, and of
  -- allowed calls of gbm.c on the devices that are open, interleaved as they may be, that ends with
  -- all of them closed, the heap is just as it was before the first, and every buffer object of
  -- libkms, every mapping and every descriptor other than 0 has been given back as often as it was
  -- acquired, whatever failed on the way, but for the descriptors that exports handed to the client
  -- (`fds`). Of the drivers of libkms just those are left that the devices had (`drivers_of`), one
  -- for each device that was opened.
  pub System-closed :
      {ds : Book} {fds : List ℤ} {u : State} (r : Resource)
      → is_handle r ≡ false
      → IsClear s
      → (system : System env tables s ds fds u) → ((p : Ptr) → ds p ≡ false)
      → ((q : Ptr) → u.heap q ≡ s.heap q)
        × (acquired r u.trace + released r s.trace
            ≡ released r u.trace
              + acquired r s.trace
              + client_held fds r
              + drivers_held (drivers_of system) r)
  System-closed {ds} {fds} {u} r nh clear system closed =
      let w = System-World clear system in
      let (same, zero') =
        Pool-none (λ q b e listed. ground (arith, closed b.base.gbm, listed)) w.ledger.pool in
      (
        λ q. same q ∙ w.outside q (closed q),
        omega (arith, w.drivers r, w.ledger.holds r, zero' r, w.ledger.only_handles r nh),
      )
