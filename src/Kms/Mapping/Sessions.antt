-- ===== src/Kms/Mapping/Sessions.antt =====
-- The counted mapping against its specification: a counter that is positive while the object is
-- mapped.
use libgbm.Base.{
  ℕ, zero, suc, ◌+◌, ◌≤◌, length, ℤ, pos, is_neg, is_zero-suc, increment, true, ◌≡◌, ◌≢◌, refl, ◌∙◌,
  some, List, [], ◌∷◌, ◌⊎◌, inl, inr, arith,
}
use libgbm.Types.{Ptr, null, KmsBo, a_bo}
use libgbm.Machine.{
  Env, IsLawful, State, M, Heap, Trace, write, write_self, ne-null, Returns, returns, Returns-bind,
  Returns-mono, pure, ◌>>◌, Resource, mapping, unit_of, Holds,
}
use libgbm.Kms.Mapping.{gbm_kms_bo_map_ref, gbm_kms_bo_map_unref, count_mapping, unmap_last}
use libgbm.Kms.Mapping.Counting.{granted, refused, map_ref-first}

-- One less, but not below zero.
abbrev pub down : ℕ → ℕ
down zero = zero
down (suc n) = n

down_le : (n : ℕ) → down n ≤ n
down_le zero = omega arith
down_le (suc n) = omega arith

-- `b` is mapped `n` times.
pub record IsMapped (n : ℕ) (b : KmsBo) : Type 0 where
  pub count : b.map_ref ≡ pos n
  pub idle : n ≡ 0 → b.addr ≡ null
  pub busy : n ≢ 0 → b.addr ≢ null

-- The one mapping of the libkms object, as long as the counter is positive.
abbrev pub mapping_held : Ptr → ℕ → Resource → ℕ
mapping_held kms_bo zero r = 0
mapping_held kms_bo (suc n) r = unit_of r (mapping kms_bo)

-- The object at `bo`, over the heap `h` and the trace `t` of a time when it was not mapped: it
-- differs only in `addr` and `map_ref`, and the calls since then hold one mapping or none.
pub record Session (h : Heap) (t : Trace) (bo : Ptr) (b : KmsBo) (n : ℕ) (s : State) : Type 0 where
  pub addr : Ptr
  pub map_ref : ℤ
  pub mapped : IsMapped n (record b { addr = addr; map_ref = map_ref })
  pub at :
      (q : Ptr)
      → s.heap q ≡ write h bo (some (a_bo (record b { addr = addr; map_ref = map_ref }))) q
  pub holds : Holds (mapping_held b.bo n) t s.trace

module _ {env : Env} (law : IsLawful env) (h : Heap) (t : Trace) (bo : Ptr) (b : KmsBo) where
  -- Either the counter goes up, or the first mapping was refused.
  pub map_ref-Session :
      (n : ℕ) (s : State)
      → Session h t bo b n s
      → Returns
          (λ ret u.
            ((ret ≡ pos 0) × Session h t bo b (suc n) u)
            ⊎ ((is_neg ret ≡ true) × (n ≡ 0) × Session h t bo b 0 u))
          (gbm_kms_bo_map_ref env bo s)
  unfolding gbm_kms_bo_map_ref count_mapping
  map_ref-Session zero s w =
      Returns-mono
        (map_ref-first law bo now s (w.at bo ∙ write_self h bo (some (a_bo now)))
          (ground (arith, w.mapped.count)))
        λ ret u m. elim m [
          | granted a na e at trace ↦ inl (
            e,
            record {
              addr = a;
              map_ref = increment w.map_ref;
              mapped = record {
                count = ground (arith, w.mapped.count);
                idle = λ z. absurd (omega arith);
                busy = λ z. na;
              };
              at = λ q. ground (arith, at q, w.at q);
              holds = λ r. rw trace (ground (arith, w.holds r));
            },
          )
          | refused e at trace ↦ inr (
            e,
            refl,
            record {
              addr = w.addr;
              map_ref = w.map_ref;
              mapped = w.mapped;
              at = λ q. ground (arith, at q, w.at q);
              holds = λ r. rw (trace, e) (ground (arith, w.holds r));
            },
          )
        ]
    where
      now : KmsBo
      now = record b { addr = w.addr; map_ref = w.map_ref }
  map_ref-Session (suc n) s w =
      rw (w.at bo, write_self h bo (some (a_bo now)))
        (simp (w.mapped.count, is_zero-suc n)
          (returns (
            inl (
              refl,
              record {
                addr = w.addr;
                map_ref = pos (suc (suc n));
                mapped = record {
                  count = refl;
                  idle = λ z. absurd (omega arith);
                  busy = λ z. w.mapped.busy (omega arith);
                };
                at = λ q. ground (arith, w.at q);
                holds = w.holds;
              },
            ))))
    where
      now : KmsBo
      now = record b { addr = w.addr; map_ref = w.map_ref }

  -- The counter goes down, but not below zero; the last one ends the mapping.
  pub map_unref-Session :
      (n : ℕ) (s : State)
      → Session h t bo b n s
      → Returns (λ _ u. Session h t bo b (down n) u) (gbm_kms_bo_map_unref env bo s)
  unfolding gbm_kms_bo_map_unref unmap_last
  map_unref-Session zero s w =
      rw (w.at bo, write_self h bo (some (a_bo now))) (simp (w.mapped.idle refl) (returns w))
    where
      now : KmsBo
      now = record b { addr = w.addr; map_ref = w.map_ref }
  map_unref-Session (suc zero) s w =
      rw (w.at bo, write_self h bo (some (a_bo now)))
        (simp (ne-null w.addr (w.mapped.busy (omega arith)), w.mapped.count)
          (returns (record {
            addr = null;
            map_ref = pos 0;
            mapped = record { count = refl; idle = λ z. refl; busy = λ z. absurd (z refl) };
            at = λ q. ground (arith, w.at q);
            holds = λ r. ground (arith, w.holds r);
          })))
    where
      now : KmsBo
      now = record b { addr = w.addr; map_ref = w.map_ref }
  map_unref-Session (suc (suc n)) s w =
      rw (w.at bo, write_self h bo (some (a_bo now)))
        (simp (ne-null w.addr (w.mapped.busy (omega arith)), w.mapped.count, is_zero-suc n)
          (returns (record {
            addr = w.addr;
            map_ref = pos (suc n);
            mapped = record {
              count = refl;
              idle = λ z. absurd (omega arith);
              busy = λ z. w.mapped.busy (omega arith);
            };
            at = λ q. ground (arith, w.at q);
            holds = w.holds;
          })))
    where
      now : KmsBo
      now = record b { addr = w.addr; map_ref = w.map_ref }

pub data MappingCall : Type 0 where
  map unmap : MappingCall

-- Any sequence of calls by the users of one object.
unfoldable pub run_mappings : Env → (bo : Ptr) → List MappingCall → M (Unit {0})
run_mappings env bo [] = pure tt
run_mappings env bo (map ∷ calls) = gbm_kms_bo_map_ref env bo >> run_mappings env bo calls
run_mappings env bo (unmap ∷ calls) = gbm_kms_bo_map_unref env bo >> run_mappings env bo calls

-- `INT_MAX`.
abbrev pub int_max : ℕ
int_max = 2147483647

-- The specification: how a counter may move. It is a C int, and goes up only below its largest
-- value. Only a first mapping can be refused.
pub data Counter : List MappingCall → ℕ → ℕ → Type 0 where
  done : {n : ℕ} → Counter [] n n
  counted :
      {calls : List MappingCall} {n m : ℕ}
      → suc n ≤ int_max
      → Counter calls (suc n) m
      → Counter (map ∷ calls) n m
  denied :
      {calls : List MappingCall} {n m : ℕ} → n ≡ 0 → Counter calls n m → Counter (map ∷ calls) n m
  uncounted :
      {calls : List MappingCall} {n m : ℕ} → Counter calls (down n) m → Counter (unmap ∷ calls) n m

module _ {env : Env} (law : IsLawful env) (h : Heap) (t : Trace) (bo : Ptr) (b : KmsBo) where
  -- If the libraries keep what they document, take any sequence of calls of `gbm_kms_bo_map_ref`
  -- and `gbm_kms_bo_map_unref` on one object that is not so long that the counter could pass
  -- INT_MAX. It refines the counter: it never faults, the counter stays within a C int at each of
  -- its steps, it ends with the object mapped as often as a run of `Counter` says, with nothing
  -- else of the object or the heap changed, and the calls made of libkms hold one mapping if that
  -- number is positive and none if it is zero.
  pub run_mappings-Counter :
      (calls : List MappingCall) (n : ℕ) (s : State)
      → n + length calls ≤ int_max
      → Session h t bo b n s
      → Returns
          (λ _ u. (m : ℕ) × Counter calls n m × Session h t bo b m u)
          (run_mappings env bo calls s)
  unfolding run_mappings
  run_mappings-Counter [] n s lt w = returns (n, done, w)
  run_mappings-Counter (map ∷ calls) n s lt w =
      Returns-bind (map_ref-Session law h t bo b n s w) λ ret u r. elim r [
        | inl (e, v) ↦
            Returns-mono (run_mappings-Counter calls (suc n) u (omega (arith, lt)) v)
              λ _ x (m, c, z). (m, counted (omega (arith, lt)) c, z)
        | inr (e, idle, v) ↦
            Returns-mono (run_mappings-Counter calls n u (omega (arith, lt)) (rw idle v))
              λ _ x (m, c, z). (m, denied idle c, z)
      ]
  run_mappings-Counter (unmap ∷ calls) n s lt w =
      Returns-bind (map_unref-Session law h t bo b n s w) λ _ u v.
        Returns-mono (run_mappings-Counter calls (down n) u (omega (arith, lt, down_le n)) v)
          λ _ x (m, c, z). (m, uncounted c, z)
