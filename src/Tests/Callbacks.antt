-- ===== src/Tests/Callbacks.antt =====
-- An object with a callback on the bench: it is made, the callback and its data are set, and it is
-- destroyed.
use libgbm.Base.{ℤ, List, ◌∷◌, [], ◌≡◌, refl, arith}
use libgbm.Machine.{free, Event, State, Run, ok, fault, callbacks}
use libgbm.Format.{gbm_format_canonicalize, fourcc}
use libgbm.Kms.Lifetime.{
  gbm_kms_bo_create, create_storage, create_export, create_mapping, gbm_kms_bo_destroy,
  release_allocated,
}
use libgbm.Frontend.Creation.{gbm_bo_create}
use libgbm.Frontend.Buffer.{gbm_bo_destroy, gbm_bo_set_user_data}
use libgbm.Client.Calls.{Call, perform}
use libgbm.Client.Reach.{Reach, Step}
use libgbm.Client.Callbacks.{Reach-callbacks}
use libgbm.Tests.Bench.{bench, bench-IsLawful, start}
use libgbm.Tests.Stack.{tables}
use libgbm.Tests.Clients.{Cards, one, pair, pair-IsFresh}

abbrev after : Run (List ℤ) → State
after (ok a s) = s
after fault = start

created : State
unfolding gbm_bo_create gbm_kms_bo_create create_storage create_export create_mapping
    gbm_format_canonicalize fourcc
created = after (perform bench tables 1 (Call.create 64 32 1 0) pair)

labelled : State
unfolding created gbm_bo_set_user_data
labelled = after (perform bench tables 1 (Call.set_user_data 100 55 999) created)

destroyed : State
unfolding labelled gbm_bo_destroy gbm_kms_bo_destroy release_allocated free
destroyed = after (perform bench tables 1 (Call.destroy 100) labelled)

to_destroyed : Reach bench tables Cards pair [] destroyed
unfolding destroyed
to_destroyed =
    Reach.next
      (Reach.next (Reach.next Reach.here (Step.call 1 one (Call.create 64 32 1 0) tt refl)) (
        Step.call 1 one (Call.set_user_data 100 55 999)
          (_, refl, (λ e. absurd (omega (arith, e))), refl) refl))
      (Step.call 1 one (Call.destroy 100) (_, refl, (λ e. absurd (omega (arith, e))), refl) refl)

Reach-callbacks_example : callbacks destroyed.trace ≡ Event.user_callback 999 100 55 ∷ []
unfolding to_destroyed
Reach-callbacks_example = Reach-callbacks bench-IsLawful tables pair-IsFresh to_destroyed
