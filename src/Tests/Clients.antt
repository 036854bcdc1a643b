-- ===== src/Tests/Clients.antt =====
-- A client on the bench: it makes an object for writing, writes to it, exports it, and destroys it.
use libgbm.Base.{◌⊎◌, inl, inr, ℤ, List, ◌∷◌, zero, suc, ◌+◌, ◌≤◌, pos, ◌≡◌, refl, some, [], arith}
use libgbm.Types.{Ptr, KmsDevice, a_bo, a_device}
use libgbm.Machine.{write, free, State, Run, ok, fault, Returns, descriptor, acquired, released}
use libgbm.Format.{
  gbm_format_canonicalize, fourcc, bits_per_pixel, formats_8, formats_16, formats_24, formats_32,
}
use libgbm.Kms.Mapping.{gbm_kms_bo_map_ref, map_first, count_mapping, gbm_kms_bo_write}
use libgbm.Kms.Lifetime.{
  gbm_kms_bo_create, create_storage, create_export, create_mapping, gbm_kms_bo_destroy,
  release_allocated,
}
use libgbm.Frontend.Creation.{gbm_bo_create}
use libgbm.Frontend.Buffer.{gbm_bo_write, gbm_bo_destroy, gbm_bo_get_fd, gbm_bo_set_user_data}
use libgbm.Kms.Query.{gbm_kms_bo_get_fd}
use libgbm.Kms.Table.{kms_gbm_device}
use libgbm.Client.Ledger.{client_held}
use libgbm.Client.Pool.{IsWithout, IsDevice}
use libgbm.Client.Orders.{Order}
use libgbm.Client.Orders.Answers.{place-ask}
use libgbm.Client.Questions.{Question, ask}
use libgbm.Client.Stability.{still, Reach-ask}
use libgbm.Client.Calls.{Call, perform}
use libgbm.Client.Reach.{IsFresh, Reach, Step, Reach-perform, Reach-Balanced, Reach-released_le}
use libgbm.Tests.Bench.{bench, bench-IsLawful, card, start}
use libgbm.Tests.Stack.{tables}

abbrev second : KmsDevice
second = record card { fd = pos 4; kms = 51 }

abbrev pub Cards : Ptr → Type 0
Cards p = (p ≡ 1) ⊎ (p ≡ 3)

pub start-IsWithout : (Ours : Ptr → Type 0) → IsWithout Ours start.heap
start-IsWithout Ours zero b e = cc
start-IsWithout Ours (suc zero) b e = cc
start-IsWithout Ours (suc (suc q)) b e = cc

-- A second device at address 3.
abbrev pub pair : State
pair = record start { heap = write start.heap 3 (some (a_device second)) }

pub pair-IsFresh : IsFresh bench tables Cards pair
pair-IsFresh = record {
  devices = cards_of;
  empty = λ q b e. start-IsWithout Cards q b (ground (arith, e));
}
  where
    cards_of :
        (p : Ptr)
        → Cards p
        → (d : KmsDevice) × IsDevice Cards pair.heap p d × (tables d.table ≡ kms_gbm_device bench)
    cards_of p (inl e) = (card, record { ours = inl e; live = rw e refl }, refl)
    cards_of p (inr e) = (second, record { ours = inr e; live = rw e refl }, refl)

pub one : Cards 1
one = inl refl

pub other : Cards 3
other = inr refl

abbrev pub after : Run (List ℤ) → State
after (ok a s) = s
after fault = start

unfoldable pub created : State
unfolding gbm_bo_create gbm_kms_bo_create create_storage create_export create_mapping
    gbm_kms_bo_map_ref map_first count_mapping gbm_format_canonicalize fourcc
created = after (perform bench tables 1 (Call.create 64 32 1 8) pair)

unfoldable pub to_created : Reach bench tables Cards pair [] created
unfolding created
to_created = Reach.next Reach.here (Step.call 1 one (Call.create 64 32 1 8) tt refl)

-- Another object, on the other device.
doubled : State
unfolding created gbm_bo_create gbm_kms_bo_create create_storage create_export create_mapping
    gbm_kms_bo_map_ref map_first count_mapping gbm_format_canonicalize fourcc
doubled = after (perform bench tables 3 (Call.create 64 32 1 8) created)

to_doubled : Reach bench tables Cards pair [] doubled
unfolding doubled
to_doubled = Reach.next to_created (Step.call 3 other (Call.create 64 32 1 8) tt refl)

written : State
unfolding doubled gbm_bo_write gbm_kms_bo_write
written = after (perform bench tables 1 (Call.write 100 900 4) doubled)

to_written : Reach bench tables Cards pair [] written
unfolding written
to_written =
    Reach.next to_doubled (
      Step.call 1 one (Call.write 100 900 4) (_, refl, (λ e. absurd (omega (arith, e))), refl) refl)

exported : State
unfolding written gbm_bo_get_fd gbm_kms_bo_get_fd
exported = after (perform bench tables 1 (Call.export 100) written)

to_exported : Reach bench tables Cards pair (pos 12 ∷ []) exported
unfolding exported
to_exported =
    Reach.next to_written
      (Step.call 1 one (Call.export 100) (_, refl, (λ e. absurd (omega (arith, e))), refl) refl)

halved : State
unfolding exported gbm_bo_destroy gbm_kms_bo_destroy release_allocated free
halved = after (perform bench tables 3 (Call.destroy 105) exported)

to_halved : Reach bench tables Cards pair (pos 12 ∷ []) halved
unfolding halved
to_halved =
    Reach.next to_exported
      (Step.call 3 other (Call.destroy 105) (_, refl, (λ e. absurd (omega (arith, e))), refl) refl)

destroyed : State
unfolding halved gbm_bo_destroy gbm_kms_bo_destroy release_allocated free
destroyed = after (perform bench tables 1 (Call.destroy 100) halved)

to_destroyed : Reach bench tables Cards pair (pos 12 ∷ []) destroyed
unfolding destroyed
to_destroyed =
    Reach.next to_halved
      (Step.call 1 one (Call.destroy 100) (_, refl, (λ e. absurd (omega (arith, e))), refl) refl)

Reach-perform_example :
    Returns
      (λ _ v. v.heap 3 ≡ some (a_device second))
      (perform bench tables 1 (Call.destroy 100) exported)
unfolding exported
Reach-perform_example =
    Reach-perform bench-IsLawful tables 1 (Call.destroy 100) 3 second pair-IsFresh to_exported one
      (_, refl, (λ e. absurd (omega (arith, e))), refl) (record { ours = other; live = refl })

Reach-released_le_example :
    released (descriptor (pos 4)) exported.trace
      + acquired (descriptor (pos 4)) []
      + client_held (pos 12 ∷ []) (descriptor (pos 4))
    ≤ acquired (descriptor (pos 4)) exported.trace + released (descriptor (pos 4)) []
Reach-released_le_example =
    Reach-released_le bench-IsLawful tables (descriptor (pos 4)) pair-IsFresh to_exported refl

nothing_left : IsWithout Cards destroyed.heap
unfolding destroyed
nothing_left q b e =
    let before : pair.heap q ≡ some (a_bo b) = ground (arith, e) in pair-IsFresh.empty q b before

Reach-Balanced_example :
    acquired (descriptor (pos 12)) destroyed.trace + released (descriptor (pos 12)) []
    ≡ released (descriptor (pos 12)) destroyed.trace
      + acquired (descriptor (pos 12)) []
      + client_held (pos 12 ∷ []) (descriptor (pos 12))
Reach-Balanced_example =
    Reach-Balanced bench-IsLawful tables (descriptor (pos 12)) pair-IsFresh to_destroyed
      nothing_left refl

unfoldable pub marked : State
unfolding created gbm_bo_set_user_data
marked = after (perform bench tables 1 (Call.set_user_data 100 55 0) created)

to_marked : Reach bench tables Cards created [] marked
unfolding marked
to_marked = Reach.next Reach.here (
    Step.call 1 one (Call.set_user_data 100 55 0) (_, refl, (λ e. absurd (omega (arith, e))), refl)
      refl)

Reach-ask_example :
    Returns
      (λ a _.
        Returns
          (λ b _. b ≡ still 100 to_marked Question.user_data_of a)
          (ask tables 100 Question.user_data_of marked))
      (ask tables 100 Question.user_data_of created)
unfolding created to_marked
Reach-ask_example =
    Reach-ask bench-IsLawful tables 1 100 Question.user_data_of pair-IsFresh to_created one
      (_, refl, (λ e. absurd (omega (arith, e))), refl) to_marked (tt, refl)

place-ask_example : Returns (λ x _. x ≡ pos 32) (ask tables 100 Question.bpp_of marked)
unfolding created to_marked bits_per_pixel formats_8 formats_16 formats_24 formats_32 fourcc
    gbm_format_canonicalize
place-ask_example =
    place-ask bench-IsLawful tables 1 (Order.by_size 64 32 1 8) Question.bpp_of (pos 32)
      pair-IsFresh Reach.here one tt refl (λ e. absurd (omega (arith, e))) to_marked (tt, refl) refl
