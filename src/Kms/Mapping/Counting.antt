-- ===== src/Kms/Mapping/Counting.antt =====
-- The count of the mappings of a buffer object, step by step.
use libgbm.Base.{
  ℤ, pos, is_neg, is_zero, increment, true, ◌≡◌, ◌≢◌, refl, some, none, ◌∷◌, inl, inr, arith,
}
use libgbm.Types.{Ptr, null, KmsBo, a_bo}
use libgbm.Machine.{Env, IsLawful, Event, State, write, Returns, returns}
use libgbm.Kms.Mapping.{gbm_kms_bo_map_ref, map_first, count_mapping}

-- What comes of a request for the first mapping of the object `b`.
pub data FirstMapping (bo : Ptr) (b : KmsBo) (s : State) (ret : ℤ) (u : State) : Type 0 where
  granted :
      (a : Ptr)
      → a ≢ null
      → ret ≡ pos 0
      → ((q : Ptr)
          → u.heap q
            ≡ write s.heap bo
                (some (a_bo (record b { addr = a; map_ref = increment b.map_ref })))
                q)
      → u.trace ≡ Event.kms_bo_map b.bo (pos 0) (some a) ∷ s.trace
      → FirstMapping bo b s ret u
  refused :
      is_neg ret ≡ true
      → ((q : Ptr) → u.heap q ≡ write s.heap bo (some (a_bo b)) q)
      → u.trace ≡ Event.kms_bo_map b.bo ret none ∷ s.trace
      → FirstMapping bo b s ret u

module _ {env : Env} (law : IsLawful env) where
  pub map_ref-first :
      (bo : Ptr) (b : KmsBo) (s : State)
      → s.heap bo ≡ some (a_bo b)
      → is_zero b.map_ref ≡ true
      → Returns (FirstMapping bo b s) (gbm_kms_bo_map_ref env bo s)
  unfolding gbm_kms_bo_map_ref map_first count_mapping
  map_ref-first bo b s e z = elim (law.mapped s.trace b.bo) [
    | inl (r, (a, o, ne)) ↦
        rw e (simp (z, r, o) (returns (granted a ne refl (λ q. ground arith) refl)))
    | inr (r, o) ↦ rw e (simp (z, r, o) (returns (refused r (λ q. ground arith) (ground arith))))
  ]
