-- ===== src/Tests/Holdings.antt =====
-- A client that maps, beside the objects of others, and the catalogue of its objects.
use libgbm.Base.{Bool-cases, inl, inr, ◌==◌, ◌∷◌, ◌≡◌, refl, some, [], arith}
use libgbm.Types.{Ptr, MapOut, KmsBo, KmsDevice, a_bo}
use libgbm.Machine.{write, State, Returns}
use libgbm.Format.{gbm_format_canonicalize, fourcc}
use libgbm.Kms.Mapping.{gbm_kms_bo_map_ref, map_first, count_mapping, gbm_kms_bo_map}
use libgbm.Kms.Lifetime.{gbm_kms_bo_create, create_storage, create_export, create_mapping, new_bo}
use libgbm.Frontend.Creation.{gbm_bo_create}
use libgbm.Frontend.Buffer.{gbm_bo_write, gbm_bo_set_user_data, gbm_bo_map}
use libgbm.Kms.Table.{kms_gbm_device}
use libgbm.Client.Pool.{IsWithout, IsDevice, Only}
use libgbm.Client.Mapped.{Written, Reach-bo_map}
use libgbm.Client.Calls.{Call, perform}
use libgbm.Client.Reach.{IsFresh, Reach, Step, Reach-others}
use libgbm.Client.Catalogue.{catalogue}
use libgbm.Client.Catalogue.Logs.{Log}
use libgbm.Client.Catalogue.Refinement.{Reach-Log}
use libgbm.Tests.Bench.{bench, bench-IsLawful, card, start}
use libgbm.Tests.Stack.{tables}
use libgbm.Tests.Clients.{
  Cards, pair, pair-IsFresh, one, start-IsWithout, after, created, to_created, marked,
}

-- The first mapping was made for writing when the object was created.
abbrev mapped_once : MapOut
mapped_once = record { address = 4096; stride = some 256; map_data = some 4096 }

shared : State
unfolding created gbm_bo_map gbm_kms_bo_map gbm_kms_bo_map_ref count_mapping
shared = after (perform bench tables 1 (Call.map 100 0 0 64 32 3 900 901) created)

renamed : State
unfolding shared gbm_bo_set_user_data
renamed = after (perform bench tables 1 (Call.set_user_data 100 55 0) shared)

to_renamed : Reach bench tables Cards shared [] renamed
unfolding renamed
to_renamed = Reach.next Reach.here (
    Step.call 1 one (Call.set_user_data 100 55 0) (_, refl, (λ e. absurd (omega (arith, e))), refl)
      refl)

Reach-bo_map_example :
    Returns (λ k _. k.address ≡ 4096) (gbm_bo_map tables 100 0 0 64 32 3 900 901 renamed)
    × Returns (Written 4096 8192 77 8 renamed) (gbm_bo_write tables 100 77 8 renamed)
unfolding created shared to_renamed gbm_bo_map gbm_kms_bo_map gbm_kms_bo_map_ref count_mapping
Reach-bo_map_example =
    Reach-bo_map bench-IsLawful tables 1 100 _ 0 0 64 32 3 900 901 mapped_once 77 8 pair-IsFresh
      to_created one refl (λ e. absurd (omega (arith, e))) refl refl refl
      (λ e. absurd (omega (arith, e))) to_renamed (tt, refl) refl

-- A buffer object of another device, at address 2.
abbrev foreign : KmsBo
foreign = new_bo 7 60 64 32 875713112 7 256

abbrev crowded : State
crowded = record start { heap = write start.heap 2 (some (a_bo foreign)) }

crowded-IsFresh : IsFresh bench tables (Only 1) crowded
crowded-IsFresh = record { devices = first; empty = theirs }
  where
    first :
        (p : Ptr)
        → Only 1 p
        → (d : KmsDevice) × IsDevice (Only 1) crowded.heap p d
          × (tables d.table ≡ kms_gbm_device bench)
    first p e = (card, record { ours = e; live = rw e refl }, refl)

    theirs : IsWithout (Only 1) crowded.heap
    theirs q b e = elim (Bool-cases (q == 2)) [
      | inl z ↦ λ mine.
          let same : foreign.base.gbm ≡ 1 = ground (arith, e, z, mine) in
          absurd (omega (arith, same))
      | inr z ↦ start-IsWithout (Only 1) q b (ground (arith, e, z))
    ]

joined : State
unfolding gbm_bo_create gbm_kms_bo_create create_storage create_export create_mapping
    gbm_kms_bo_map_ref map_first count_mapping gbm_format_canonicalize fourcc
joined = after (perform bench tables 1 (Call.create 64 32 1 8) crowded)

to_joined : Reach bench tables (Only 1) crowded [] joined
unfolding joined
to_joined = Reach.next Reach.here (Step.call 1 refl (Call.create 64 32 1 8) tt refl)

Reach-others_example : joined.heap 2 ≡ some (a_bo foreign)
Reach-others_example =
    Reach-others bench-IsLawful tables 2 (a_bo foreign) crowded-IsFresh to_joined refl

to_relabelled : Reach bench tables Cards pair [] marked
unfolding marked
to_relabelled = Reach.next to_created (
    Step.call 1 one (Call.set_user_data 100 55 0) (_, refl, (λ e. absurd (omega (arith, e))), refl)
      refl)

Reach-Log_example :
    Log
      (catalogue pair.heap)
      ((1, Call.set_user_data 100 55 0) ∷ (1, Call.create 64 32 1 8) ∷ [])
      (catalogue marked.heap)
unfolding to_created to_relabelled
Reach-Log_example = Reach-Log bench-IsLawful tables pair-IsFresh to_relabelled
