-- ===== src/Frontend/UserData.antt =====
-- The user data of a buffer object, from its setting to the object's destruction.
use libgbm.Base.{false, ◌≡◌, ◌≢◌, refl, some, none, ◌∷◌, arith}
use libgbm.Types.{Ptr, null, KmsBo, KmsDevice, a_bo, a_device}
use libgbm.Machine.{
  Env, Event, State, M, Returns, returns, write, write_self, ne-null, emit, or_else, pure, ◌>>=◌,
  ◌>>◌,
}
use libgbm.Kms.Table.{kms_gbm_device}
use libgbm.Kms.Lifetime.Ownership.{destroy-plain}
use libgbm.Frontend.Dispatch.{Tables}
use libgbm.Frontend.Buffer.{gbm_bo_set_user_data, gbm_bo_get_user_data, gbm_bo_destroy}

-- A callback that only takes notice of its call.
abbrev pub noted : Env → (address bo user_data : Ptr) → M (Unit {0})
noted env address bo user_data = emit env (Event.user_callback address bo user_data)

module _ (env : Env) (tables : Tables) (bo : Ptr) (b : KmsBo) (d : KmsDevice) (s : State)
    (ne : bo ≢ null) (here : s.heap bo ≡ some (a_bo b))
    (live : s.heap b.base.gbm ≡ some (a_device d)) (kms : tables d.table ≡ kms_gbm_device env) where
  -- On an object that owns no resource, data and a callback that are set by `gbm_bo_set_user_data`
  -- are what `gbm_bo_get_user_data` returns, and `gbm_bo_destroy` then makes one call: that of the
  -- callback, with the object and the data. The object is gone, and nothing else in the heap
  -- differs.
  pub set_user_data-bo_destroy :
      (data' destroy_user_data : Ptr)
      → destroy_user_data ≢ null
      → b.allocated ≡ false
      → b.allocated_handle ≡ false
      → Returns
          (λ found u.
            (found ≡ data')
            × (u.trace ≡ Event.user_callback destroy_user_data bo data' ∷ s.trace)
            × ((q : Ptr) → u.heap q ≡ write s.heap bo none q))
          ((gbm_bo_set_user_data bo data' destroy_user_data
              >> (gbm_bo_get_user_data bo >>= λ found.
                  gbm_bo_destroy tables (noted env) bo >> (pure found)))
            s)
  unfolding gbm_bo_set_user_data gbm_bo_get_user_data gbm_bo_destroy
  set_user_data-bo_destroy data' f nf al ah = rw here (
      rw (at, at, ne-null f nf, at, live', kms)
        (rw (destroy-plain env bo b' called ne al ah at) (returns (refl, refl, λ q. ground arith))))
    where
      b' : KmsBo
      b' = record b { base = record b.base { user_data = data'; destroy_user_data = f } }

      at : write s.heap bo (some (a_bo b')) bo ≡ some (a_bo b')
      at = write_self s.heap bo (some (a_bo b'))

      live' : write s.heap bo (some (a_bo b')) b.base.gbm ≡ some (a_device d)
      live' = ground (arith, here, live)

      called : State
      called = record s {
        heap = write s.heap bo (some (a_bo b'));
        errno = or_else (env.errno_after s.trace (Event.user_callback f bo data')) s.errno;
        trace = Event.user_callback f bo data' ∷ s.trace;
      }
