-- ===== src/Client/Session.antt =====
-- A client from beginning to end: it opens a device, works with buffer objects, and closes the
-- device.
use libgbm.Base.{◌⊎◌, inl, inr, ◌+◌, ℤ, List, false, ◌≡◌, ◌≢◌, refl, ap, sym, ◌∙◌, some, arith}
use libgbm.Types.{Ptr, null, KmsDevice, a_device}
use libgbm.Machine.{
  Env, IsLawful, State, write_self, ok, Returns, Returns-mono, Returns-ok, Resource, acquired,
  released, unit_of_driver,
}
use libgbm.Kms.Table.{kms_gbm_device, kms_device_create, kms_table}
use libgbm.Frontend.Dispatch.{Tables}
use libgbm.Frontend.Device.{gbm_create_device, gbm_device_destroy}
use libgbm.Frontend.Devices.{failed, made, create_device-Opened, device_destroy-last}
use libgbm.Client.Pool.{IsWithout, Only, Pool-none}
use libgbm.Client.Ledger.{client_held, is_handle}
use libgbm.Client.Rebasing.{IsFresh-join}
use libgbm.Client.Reach.{IsFresh, Reach, Reach-Ledger}

-- The devices `Others` and the one at `gbm`.
abbrev pub Also : (Others : Ptr → Type 0) → (gbm : Ptr) → Ptr → Type 0
Also Others gbm p = Others p ⊎ (p ≡ gbm)

-- What is left of a whole session: let `gbm_create_device` over the KMS backend make a device at an
-- address that no buffer object has as its device, while other devices of that backend are open
-- that have no buffer objects of their own. If the libraries keep what they document, then after
-- any sequence of allowed calls of gbm.c on it and on the others that ends without buffer objects
-- of any of them, `gbm_device_destroy` returns and leaves the heap just as it was before the device
-- was made, whatever else stands in it. From beginning to end every buffer object of libkms, every
-- mapping and every descriptor other than 0 has been given back as often as it was acquired, but
-- for the descriptors that exports handed to the client (`fds`); the driver of libkms that the
-- device had is left, and no other one.
pub create_device-Reach-device_destroy :
    {env : Env} (law : IsLawful env) (tables : Tables) (kms : tables kms_table ≡ kms_gbm_device env)
    {Others : Ptr → Type 0} (fd : ℤ) (gbm : Ptr) (d : KmsDevice) (s : State) {u v : State}
    {fds : List ℤ} (r : Resource)
    → is_handle r ≡ false
    → IsFresh env tables Others s
    → IsWithout (Only gbm) s.heap
    → gbm_create_device env (kms_device_create env) fd s ≡ ok gbm u
    → gbm ≢ null
    → u.heap gbm ≡ some (a_device d)
    → Reach env tables (Also Others gbm) u fds v
    → IsWithout (Also Others gbm) v.heap
    → Returns
        (λ _ x.
          ((q : Ptr) → x.heap q ≡ s.heap q)
          × (acquired r x.trace + released r s.trace
              ≡ released r x.trace
                + acquired r s.trace
                + client_held fds r
                + unit_of_driver r d.kms))
        (gbm_device_destroy tables gbm v)
create_device-Reach-device_destroy {env} law tables kms {Others} fd gbm d s {u} {v} {fds} r nh fresh
      empty e ne live reach gone =
    elim (Returns-ok (create_device-Opened law fd s) e) [
      | failed n same bal ↦ absurd (ne n)
      | made d' n unused is at bal ↦
          let made_here : some (a_device d') ≡ some (a_device d) =
            sym (at gbm ∙ write_self s.heap gbm (some (a_device d'))) ∙ live in
          let one : d' ≡ d = cc in
          let kms' : tables d'.table ≡ kms_gbm_device env = ap tables is.table ∙ kms in
          let begun =
            IsFresh-join gbm d' {u = u} fresh {Wider = Also Others gbm} (λ q z. inl z) (λ q z. z)
              (inr refl) empty unused kms' at in
          let w = Reach-Ledger law tables begun reach in
          let (same, zero') = Pool-none gone w.pool in
          let there : v.heap gbm ≡ some (a_device d') =
            same gbm ∙ at gbm ∙ write_self s.heap gbm (some (a_device d')) in
          Returns-mono (device_destroy-last tables gbm d' v there env kms' n is.counted)
            λ _ x (t, h). (
              λ q. ground (arith, h q, same q, at q, unused),
              omega (
                arith,
                ap (acquired r) t,
                ap (released r) t,
                w.holds r,
                ap (λ x. unit_of_driver r x.kms) one,
                bal r,
                zero' r,
                w.only_handles r nh,
              ),
            )
    ]
