-- ===== src/Client/Reach.antt =====
-- Every sequence of allowed calls, from devices without buffer objects of their own.
use libgbm.Base.{ℤ, List, [], ◌++◌, ◌+◌, ◌≤◌, false, ◌≡◌, refl, some, arith}
use libgbm.Types.{Ptr, KmsDevice, Object, a_device}
use libgbm.Machine.{
  Env, IsLawful, State, ok, Returns, returns, Returns-bind, Returns-mono, Returns-ok, Resource,
  acquired, released, Holds-refl,
}
use libgbm.Kms.Table.{kms_gbm_device}
use libgbm.Frontend.Dispatch.{Tables}
use libgbm.Client.Pool.{IsWithout, IsDevice, no_objects, Pool-none, Pool-origin}
use libgbm.Client.Ledger.{Ledger, Ledger-device, Settled, client_held, is_handle}
use libgbm.Client.Calls.{
  Call, create, create_with_modifiers, export, export_plane, device_question, import, map, unmap,
  write, set_user_data, question, destroy, perform, effect, IsAllowed,
}
use libgbm.Client.Creating.{create-Ledger, create_with_modifiers-Ledger, destroy-Ledger}
use libgbm.Client.Importing.{import-Ledger}
use libgbm.Client.Mapping.{map-Ledger, unmap-Ledger}
use libgbm.Client.Asking.{ask-Ledger, ask_device-Ledger}
use libgbm.Client.Exporting.{export-Ledger, export_plane-Ledger}
use libgbm.Client.Access.{write-Ledger, set_user_data-Ledger}

-- Live devices of the KMS backend, and no buffer objects of them; others may have theirs.
pub record IsFresh (env : Env) (tables : Tables) (Ours : Ptr → Type 0) (s : State) : Type 0 where
  pub devices :
      (gbm : Ptr)
      → Ours gbm
      → (d : KmsDevice) × IsDevice Ours s.heap gbm d × (tables d.table ≡ kms_gbm_device env)
  pub empty : IsWithout Ours s.heap

module _ (env : Env) (tables : Tables) (Ours : Ptr → Type 0) where
  -- One allowed call on one of the devices, with the descriptors that it hands to the client.
  pub data Step (s : State) (fds : List ℤ) (u : State) : Type 0 where
    call :
        (gbm : Ptr)
        → Ours gbm
        → (c : Call) → IsAllowed env gbm s c
        → perform env tables gbm c s ≡ ok fds u
        → Step s fds u

  -- Calls in turn, on any of the devices, with all the descriptors that they handed out, the newest
  -- first.
  pub data Reach (s : State) : List ℤ → State → Type 0 where
    here : Reach s [] s
    next : {fds gs : List ℤ} {u v : State} → Reach s fds u → Step u gs v → Reach s (gs ++ fds) v

module _ {env : Env} (law : IsLawful env) (tables : Tables) {Ours : Ptr → Type 0} (gbm : Ptr)
    (d : KmsDevice) (kms : tables d.table ≡ kms_gbm_device env) where
  pub perform-Settled :
      (t : State) {given : List ℤ} (c : Call) (s : State)
      → IsAllowed env gbm s c
      → Ledger Ours t given s
      → IsDevice Ours t.heap gbm d
      → Returns (λ gs u. Settled Ours t (gs ++ given) (effect c) s u) (perform env tables gbm c s)
  perform-Settled t (create width height format usage) s a w known =
      Returns-bind (create-Ledger law tables gbm d kms t s w known width height format usage)
        λ _ u v. returns v
  perform-Settled t (create_with_modifiers width height format modifiers count) s a w known =
      Returns-bind
        (create_with_modifiers-Ledger law tables gbm d kms t s w known width height format modifiers
          count)
        λ _ u v. returns v
  perform-Settled t (import type buffer usage) s a w known =
      Returns-bind (import-Ledger law gbm d t s w known tables type buffer usage kms a)
        λ _ u v. returns v
  perform-Settled t (map bo x y width height flags stride map_data) s (b, at, ne, mine, al) w
        known =
      Returns-bind
        (map-Ledger law tables gbm d kms t s w known bo b at mine al x y width height flags stride
          map_data)
        λ _ u v. returns v
  perform-Settled t (unmap bo map_data) s (b, at, ne, mine, al) w known =
      Returns-bind (unmap-Ledger law tables gbm d kms t s w known bo b at mine al map_data)
        λ _ u v. returns v
  perform-Settled t (write bo buf count) s (b, at, ne, mine) w known =
      Returns-bind (write-Ledger env tables gbm d kms t s w known bo b at mine buf count)
        λ _ u v. returns v
  perform-Settled t (set_user_data bo data' f) s (b, at, ne, mine) w known =
      Returns-bind (set_user_data-Ledger env tables gbm d kms t s w known bo b at mine data' f)
        λ _ u v. returns v
  perform-Settled t (export bo) s (b, at, ne, mine) w known =
      export-Ledger law tables gbm d kms t s w known bo b at mine
  perform-Settled t (export_plane bo plane) s (b, at, ne, mine) w known =
      export_plane-Ledger law tables gbm d kms t s w known bo b at mine plane
  perform-Settled t (question bo q) s (b, at, ne, mine) w known =
      Returns-bind (ask-Ledger env tables gbm d kms t s w known bo b at mine q) λ _ u v. returns v.1
  perform-Settled t (device_question q) s a w known =
      Returns-bind (ask_device-Ledger env tables gbm d kms t s w known q) λ _ u v. returns v
  perform-Settled t (destroy bo) s (b, at, ne, mine) w known =
      Returns-bind (destroy-Ledger law tables gbm d kms t s w known bo b at ne mine)
        λ _ u v. returns v

module _ {env : Env} (law : IsLawful env) (tables : Tables) {Ours : Ptr → Type 0} where
  pub Reach-Ledger :
      {s : State} {fds : List ℤ} {u : State}
      → IsFresh env tables Ours s
      → Reach env tables Ours s fds u
      → Ledger Ours s fds u
  Reach-Ledger {s} fresh here = record {
    total = λ r. 0;
    lost = λ r. 0;
    absent = fresh.empty;
    pool = no_objects (λ q. refl) (λ r. refl);
    holds = Holds-refl s.trace;
    only_handles = λ r e. refl;
  }
  Reach-Ledger {s} fresh (next before (call gbm ours c a e)) =
      let (d, known, kms) = fresh.devices gbm ours in
      (Returns-ok (perform-Settled law tables gbm d kms s c _ a (Reach-Ledger fresh before) known)
        e).ledger

  -- No call faults: if the libraries keep what they document, then after any sequence of allowed
  -- calls of gbm.c, interleaved as they may be, on devices of the KMS backend that began without
  -- buffer objects of their own, each further allowed call on one of the devices returns, and
  -- leaves each of the devices live and unchanged.
  pub Reach-perform :
      {s : State} {fds : List ℤ} {u : State} (gbm : Ptr) (c : Call) (q : Ptr) (e : KmsDevice)
      → IsFresh env tables Ours s
      → Reach env tables Ours s fds u
      → Ours gbm
      → IsAllowed env gbm u c
      → IsDevice Ours s.heap q e
      → Returns (λ _ v. v.heap q ≡ some (a_device e)) (perform env tables gbm c u)
  Reach-perform {s} {u = u} gbm c q e fresh reach ours allowed there =
      let (d, known, kms) = fresh.devices gbm ours in
      Returns-mono
        (perform-Settled law tables gbm d kms s c u allowed (Reach-Ledger fresh reach) known)
        λ _ v w. Ledger-device w.ledger there

  -- What is held at the end: if the libraries keep what they document, then after any sequence of
  -- allowed calls of gbm.c, interleaved as they may be, on devices of the KMS backend that began
  -- without buffer objects of their own and end without them, every buffer object of libkms, every
  -- mapping and every file descriptor other than 0 has been given back as often as it was acquired
  -- since the beginning, whatever failed on the way; of these, just the descriptors that exports
  -- handed to the client (`fds`) are still held, each as often as it was handed out.
  pub Reach-Balanced :
      {s : State} {fds : List ℤ} {u : State} (r : Resource)
      → IsFresh env tables Ours s
      → Reach env tables Ours s fds u
      → IsWithout Ours u.heap
      → is_handle r ≡ false
      → acquired r u.trace + released r s.trace
        ≡ released r u.trace + acquired r s.trace + client_held fds r
  Reach-Balanced r fresh reach gone e =
      let w = Reach-Ledger fresh reach in
      omega (arith, w.holds r, w.only_handles r e, (Pool-none gone w.pool).1 r)

  -- Nothing is given back twice: if the libraries keep what they document, then after any sequence
  -- of allowed calls of gbm.c, interleaved as they may be, on devices of the KMS backend that began
  -- without buffer objects of their own, no buffer object of libkms, no mapping and no descriptor
  -- other than 0 has been given back more often than it was acquired since the beginning, also when
  -- the descriptors that exports handed to the client (`fds`) are not counted: the library closes
  -- none of these. Nothing is said of GEM handles.
  pub Reach-released_le :
      {s : State} {fds : List ℤ} {u : State} (r : Resource)
      → IsFresh env tables Ours s
      → Reach env tables Ours s fds u
      → is_handle r ≡ false
      → released r u.trace + acquired r s.trace + client_held fds r
        ≤ acquired r u.trace + released r s.trace
  Reach-released_le r fresh reach e = let w = Reach-Ledger fresh reach in omega (arith, w.holds r)

  -- Isolation: if the libraries keep what they document, then any sequence of allowed calls of
  -- gbm.c, interleaved as they may be, on devices of the KMS backend that began without buffer
  -- objects of their own leaves everything that stood in the heap before it as it was: other
  -- devices, their buffer objects, surfaces, and the devices themselves.
  pub Reach-others :
      {s : State} {fds : List ℤ} {u : State} (q : Ptr) (x : Object)
      → IsFresh env tables Ours s
      → Reach env tables Ours s fds u
      → s.heap q ≡ some x
      → u.heap q ≡ some x
  Reach-others q x fresh reach there = Pool-origin q x there (Reach-Ledger fresh reach).pool
