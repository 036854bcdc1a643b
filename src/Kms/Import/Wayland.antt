-- ===== src/Kms/Import/Wayland.antt =====
-- Import of a wl_buffer, and the destruction of what it makes.
use libgbm.Base.{
  false, ◌≡◌, ◌≢◌, refl, ◌∙◌, ap, some, none, ◌∷◌, ◌⊎◌, inl, inr, arith, ◌==◌, Bool-cases,
}
use libgbm.Types.{Ptr, null, KmsBo, WlKmsBuffer, a_bo}
use libgbm.Machine.{
  Env, IsLawful, Event, State, Trace, write, write_self, Balanced, Returns, returns, Returns-bind,
  Returns-mono,
}
use libgbm.Kms.Lifetime.{gbm_kms_bo_destroy}
use libgbm.Kms.Lifetime.Ownership.{destroy-plain}
use libgbm.Kms.Import.{gbm_kms_import_wl_buffer, imported_bo}
use libgbm.Kms.Import.WlPlanes.{HasPlanes, HasWlPlanes, wl_planes-unowned}

-- An object with the members of the wl_buffer, and what destroying it does.
pub record FromBuffer (gbm : Ptr) (buffer : WlKmsBuffer) (b : KmsBo) : Type 0 where
  pub device : b.base.gbm ≡ gbm
  pub wide : b.base.width ≡ buffer.width
  pub high : b.base.height ≡ buffer.height
  pub formatted : b.base.format ≡ buffer.format
  pub stride : b.base.stride ≡ buffer.stride
  pub handle : b.base.handle ≡ buffer.handle
  pub planes : HasWlPlanes buffer b

from_base :
    {gbm : Ptr} {buffer : WlKmsBuffer} (b : KmsBo)
    → b.base
      ≡ (imported_bo gbm buffer.width buffer.height buffer.format buffer.stride buffer.handle).base
    → HasWlPlanes buffer b
    → FromBuffer gbm buffer b
from_base b e h = record {
  device = ap (λ x. x.gbm) e;
  wide = ap (λ x. x.width) e;
  high = ap (λ x. x.height) e;
  formatted = ap (λ x. x.format) e;
  stride = ap (λ x. x.stride) e;
  handle = ap (λ x. x.handle) e;
  planes = h;
}

-- What the import of a wl_buffer returns.
pub data Borrowed (gbm : Ptr) (buffer : WlKmsBuffer) (s : State) (p : Ptr) (u : State)
    : Type 0 where
  no_object :
      p ≡ null
      → ((q : Ptr) → u.heap q ≡ s.heap q)
      → Balanced s.trace u.trace
      → Borrowed gbm buffer s p u
  object :
      (b : KmsBo)
      → p ≢ null
      → s.heap p ≡ none
      → b.allocated ≡ false
      → b.allocated_handle ≡ false
      → FromBuffer gbm buffer b
      → ((q : Ptr) → u.heap q ≡ write s.heap p (some (a_bo b)) q)
      → Balanced s.trace u.trace
      → Borrowed gbm buffer s p u

module _ {env : Env} (law : IsLawful env) (gbm resource : Ptr) where
  pub import_wl_buffer-Borrowed :
      (buffer : WlKmsBuffer) (s : State)
      → env.wayland_kms_buffer_get s.trace resource ≡ some buffer
      → HasPlanes buffer
      → Returns (Borrowed gbm buffer s) (gbm_kms_import_wl_buffer env gbm resource s)
  unfolding gbm_kms_import_wl_buffer
  import_wl_buffer-Borrowed buffer s e le = rw e (elim (Bool-cases (env.calloc s.heap t == 0)) [
    | inl z ↦ rw z (returns (no_object refl (λ q. refl) (λ r. omega arith)))
    | inr z ↦
        rw (z, z)
          (Returns-bind (wl_planes-unowned buffer blank _ refl le) λ b u (same, base, al, ah, has).
            rw same (
              let ne : env.calloc s.heap t ≢ null = ground arith in
              returns (
                object b ne (law.fresh s.heap t ne) al ah (from_base b base has) (λ q. ground arith)
                  (λ r. omega arith))))
  ])
    where
      t : Trace
      t = Event.wayland_kms_buffer_get resource ∷ s.trace

      blank : KmsBo
      blank = imported_bo gbm buffer.width buffer.height buffer.format buffer.stride buffer.handle

  -- If the libraries keep what they document, and the wl_buffer is one of wayland-kms and has as
  -- many planes as it says, its import never faults. It returns NULL and leaves the heap as it was,
  -- or a new object with the buffer's size, format, stride, handle and planes, or with one plane if
  -- the buffer has none or more than three; destroying that puts the heap back and makes no call of
  -- a library, so it closes no handle.
  pub import_wl_buffer-bo_destroy :
      (buffer : WlKmsBuffer) (s : State)
      → env.wayland_kms_buffer_get s.trace resource ≡ some buffer
      → HasPlanes buffer
      → Returns
          (λ p u.
            ((p ≡ null) × ((q : Ptr) → u.heap q ≡ s.heap q))
            ⊎ ((p ≢ null)
                × ((b : KmsBo) × (u.heap p ≡ some (a_bo b)) × FromBuffer gbm buffer b)
                × Returns
                    (λ _ v. ((q : Ptr) → v.heap q ≡ s.heap q) × (v.trace ≡ u.trace))
                    (gbm_kms_bo_destroy env p u)))
          (gbm_kms_import_wl_buffer env gbm resource s)
  import_wl_buffer-bo_destroy buffer s e le =
      Returns-mono (import_wl_buffer-Borrowed buffer s e le) λ p u x. elim x [
        | no_object n same bal ↦ inl (n, same)
        | object b ne unused al ah from at bal ↦
            let here : u.heap p ≡ some (a_bo b) = at p ∙ write_self s.heap p (some (a_bo b)) in
            inr (
              ne,
              (b, here, from),
              rw (destroy-plain env p b u ne al ah here)
                  (returns ((λ q. ground (arith, at q, unused)), refl)),
            )
      ]
