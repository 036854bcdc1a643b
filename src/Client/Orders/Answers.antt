-- ===== src/Client/Orders/Answers.antt =====
-- An order and the calls that follow it: what the object says of itself.
use libgbm.Base.{ℤ, List, [], some, ◌≡◌, ◌≢◌, refl, ◌∙◌, sym, subst}
use libgbm.Types.{Ptr, null, a_bo}
use libgbm.Machine.{Env, IsLawful, State, ok, write_self, Returns, Returns-mono, Returns-ok}
use libgbm.Frontend.Dispatch.{Tables}
use libgbm.Client.Questions.{Question, ask}
use libgbm.Client.Calls.{perform, IsAllowed}
use libgbm.Client.Ledger.{Ledger-device}
use libgbm.Client.Reach.{IsFresh, Reach, next, call, Reach-Ledger}
use libgbm.Client.Stability.{Spares, Reach-says}
use libgbm.Client.Orders.{
  Order, by_size, by_modifiers, by_fd, by_fds, call_of, place, IsComplete, ordered,
}
use libgbm.Client.Orders.Placing.{nothing, object, place-Placed, says-ordered}

module _ (env : Env) (tables : Tables) (gbm : Ptr) (s : State) where
  perform-place :
      {r : State} {p : Ptr} (o : Order)
      → place tables gbm o s ≡ ok p r
      → perform env tables gbm (call_of o) s ≡ ok [] r
  perform-place (by_size width height format usage) e = rw e refl
  perform-place (by_modifiers width height format modifiers count) e = rw e refl
  perform-place (by_fd f usage) e = rw e refl
  perform-place (by_fds m usage) e = rw e refl

  IsComplete-IsAllowed : (o : Order) → IsComplete o → IsAllowed env gbm s (call_of o)
  IsComplete-IsAllowed (by_size width height format usage) c = tt
  IsComplete-IsAllowed (by_modifiers width height format modifiers count) c = tt
  IsComplete-IsAllowed (by_fd f usage) c = refl
  IsComplete-IsAllowed (by_fds m usage) (fds, strides) = (refl, fds, strides)

module _ {env : Env} (law : IsLawful env) (tables : Tables) {Ours : Ptr → Type 0} (gbm : Ptr) where
  -- An object is what was ordered but for its offsets, and stays so: if the libraries keep what
  -- they document, then on devices of the KMS backend that began without buffer objects of their
  -- own, take an order on one of them after some allowed calls of gbm.c (a creation with or without
  -- modifiers, or an import by one descriptor or by several, with arrays as long as it says), and
  -- let it return an object. After any further allowed calls on the devices that do not destroy the
  -- object, it answers the questions about its width, height, number of planes and device as
  -- ordered, that about its format with the canonical form of the ordered format, and that about
  -- its bits per pixel with those of that form; its modifier is the linear one. Its offsets are
  -- answered as 0, also where the import named others, which are lost. An imported object answers
  -- the question about the stride of a plane with the stride that the import named for that plane,
  -- as an unsigned number, and with 0 for a plane that it does not have.
  pub place-ask :
      {t s r u : State} {fs fds : List ℤ} {p : Ptr} (o : Order) (q : Question) (a : ℤ)
      → IsFresh env tables Ours t
      → Reach env tables Ours t fs s
      → Ours gbm
      → IsComplete o
      → place tables gbm o s ≡ ok p r
      → p ≢ null
      → (after : Reach env tables Ours r fds u) → Spares p after
      → ordered env gbm o q ≡ some a
      → Returns (λ x _. x ≡ a) (ask tables p q u)
  place-ask {s} {p} o q a fresh before ours complete e ne after spared foretold =
      let w = Reach-Ledger law tables fresh before in
      let (d, known, kms) = fresh.devices gbm ours in
      elim (Returns-ok (place-Placed law tables gbm d kms s (Ledger-device w known) o complete) e) [
        | nothing z same ↦ absurd (ne z)
        | object b unused at i ↦
            let step =
              call gbm ours (call_of o) (IsComplete-IsAllowed env tables gbm s o complete)
                (perform-place env tables gbm s o e) in
            Returns-mono
              (Reach-says law tables p b q fresh (Reach-Ledger law tables fresh (next before step))
                (at p ∙ write_self s.heap p (some (a_bo b))) (subst Ours (sym i.device) ours) after
                spared)
              λ x _ y. y ∙ says-ordered i p after q a foretold
      ]
