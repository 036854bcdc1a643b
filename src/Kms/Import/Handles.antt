-- ===== src/Kms/Import/Handles.antt =====
-- The loop of `gbm_kms_import_fd_modifier` that turns descriptors into GEM handles, and the closing
-- of such handles.
use libgbm.Base.{
  ℕ, zero, suc, ◌+◌, ◌<◌, ◌≤◌, ℤ, pos, is_zero_of_neg, ◌≡◌, ◌≢◌, refl, ap, some, none, List, [],
  ◌∷◌, inl, inr, arith, length, Option,
}
use libgbm.Types.{Ptr, KmsDevice, a_device}
use libgbm.Machine.{
  Env, Event, Trace, IsLawful, State, Returns, returns, Returns-bind, Resource, gem_handle, unit_of,
  Holds, Holds-refl,
}
use libgbm.Kms.Import.{import_handles}

-- The handles of a list, on one device.
abbrev pub handles_held : ℤ → List ℕ → Resource → ℕ
handles_held dev_fd [] r = 0
handles_held dev_fd (h ∷ hs) r = unit_of r (gem_handle dev_fd h) + handles_held dev_fd hs r

-- The calls so far, once the kernel gave these handles for the descriptors, in their order.
abbrev pub asked : ℤ → List ℤ → List ℕ → Trace → Trace
asked dev_fd fds [] t = t
asked dev_fd [] (h ∷ hs) t = t
asked dev_fd (fd ∷ fds) (h ∷ hs) t =
    asked dev_fd fds hs (Event.prime_fd_to_handle dev_fd fd (pos 0) (some h) ∷ t)

abbrev pub AllNonzero : List ℕ → Type 0
AllNonzero [] = Unit {0}
AllNonzero (h ∷ hs) = (h ≢ 0) × AllNonzero hs

-- Either one handle for each descriptor, or the early return, with fewer handles that stay held.
pub data Handles (dev_fd : ℤ) (fds : List ℤ) (n : ℕ) (s : State) (r : Option (List ℕ)) (u : State)
    : Type 0 where
  all :
      (hs : List ℕ)
      → r ≡ some hs
      → length hs ≡ n
      → AllNonzero hs
      → u.heap ≡ s.heap
      → Holds (handles_held dev_fd hs) s.trace u.trace
      → u.trace ≡ asked dev_fd fds hs s.trace
      → Handles dev_fd fds n s r u
  partial :
      (hs : List ℕ)
      → r ≡ none
      → length hs < n
      → u.heap ≡ s.heap
      → Holds (handles_held dev_fd hs) s.trace u.trace
      → Handles dev_fd fds n s r u

module _ {env : Env} (law : IsLawful env) (gbm : Ptr) (d : KmsDevice) where
  pub import_handles-Handles :
      (n : ℕ) (fds : List ℤ) (s : State)
      → s.heap gbm ≡ some (a_device d)
      → n ≤ length fds
      → Returns (Handles d.fd fds n s) (import_handles env gbm n fds s)
  unfolding import_handles
  import_handles-Handles zero fds s dev le =
      returns (all [] refl refl tt refl (Holds-refl s.trace) refl)
  import_handles-Handles (suc n) [] s dev le = absurd (omega arith)
  import_handles-Handles (suc n) (fd ∷ fds) s dev le = rw dev (elim (law.imported s.trace d.fd fd) [
    | inl (r, (h, out, nz)) ↦
        simp (r, out)
          (Returns-bind (import_handles-Handles n fds _ dev (omega arith)) λ x u p. elim p [
            | all hs e len ok' same holds told ↦ rw e (
                returns (
                  all (h ∷ hs) refl (ap suc len) (nz, ok') same (λ q. omega (arith, holds q)) told))
            | partial hs e len same holds ↦
                rw e
                  (returns (partial (h ∷ hs) refl (omega arith) same (λ q. omega (arith, holds q))))
          ])
    | inr (r, out) ↦
        simp (is_zero_of_neg _ r)
          (returns (partial [] refl (omega arith) refl (λ q. ground (arith, out))))
  ])
