-- ===== src/Kms/Lifetime/Ownership.antt =====
-- What a buffer object that the backend allocated holds, and that destroying it gives that back.
use libgbm.Base.{
  ℕ, ◌+◌, is_zero, Bool, true, false, not, ◌≡◌, ◌≢◌, refl, none, some, ◌==◌, if◌then◌else◌, arith,
  ◌∙◌, ap,
}
use libgbm.Types.{Ptr, null, KmsBo, a_bo}
use libgbm.Machine.{
  Env, Event, Heap, Trace, State, ok, write, write_self, ne-null, free-some, emit, Returns, returns,
  Returns-bind, Returns-mono, gain, loss, Resource, mapping, kms_object, unit_of, unit_of_fd,
  acquired, released, Holds, Balanced,
}
use libgbm.Kms.Lifetime.{when, release_allocated, gbm_kms_bo_destroy}

-- The resources behind the members `addr`, `fd` and `bo`.
abbrev pub owned : KmsBo → Resource → ℕ
owned b r =
    (if b.addr == null then 0 else unit_of r (mapping b.bo))
    + (unit_of_fd r b.fd + (if b.bo == null then 0 else unit_of r (kms_object b.bo)))

-- The state in which the object `b` stands at `bo` over the heap `h`, and its resources are all
-- that was acquired since the trace `t`.
pub record Stands (h : Heap) (t : Trace) (bo : Ptr) (b : KmsBo) (s : State) : Type 0 where
  pub at : (q : Ptr) → s.heap q ≡ write h bo (some (a_bo b)) q
  pub holds : Holds (owned b) t s.trace

-- The heap `h` is back, and nothing that was acquired since `t` is still held.
pub record Undone (h : Heap) (t : Trace) (s : State) : Type 0 where
  pub same : (q : Ptr) → s.heap q ≡ h q
  pub balanced : Balanced t s.trace

-- Only calls were made, and they gave back `n r` of each resource `r`.
pub record Released (n : Resource → ℕ) (s u : State) : Type 0 where
  pub same : u.heap ≡ s.heap
  pub kept : (r : Resource) → acquired r u.trace ≡ acquired r s.trace
  pub given : (r : Resource) → released r u.trace ≡ released r s.trace + n r

pub Released-trans :
    (m n : Resource → ℕ) {s u v : State}
    → Released m s u
    → Released n u v
    → Released (λ r. m r + n r) s v
Released-trans m n a b = record {
  same = b.same ∙ a.same;
  kept = λ r. b.kept r ∙ a.kept r;
  given = λ r. omega (arith, a.given r, b.given r);
}

module _ (env : Env) where
  -- A guarded call that only gives back.
  when-Released :
      (c : Bool) (e : Event) (n : Resource → ℕ) (s : State)
      → ((r : Resource) → gain r e ≡ 0)
      → ((r : Resource) → n r ≡ (if c then 0 else loss r e))
      → Returns (λ _ u. Released n s u) (when (not c) (emit env e) s)
  when-Released true e n s none' all =
      returns (record { same = refl; kept = λ r. refl; given = λ r. omega (arith, all r) })
  when-Released false e n s none' all = returns (record {
    same = refl;
    kept = λ r. omega (arith, none' r);
    given = λ r. omega (arith, all r);
  })

  pub release_allocated-Released :
      (b : KmsBo) (s : State) → Returns (λ _ u. Released (owned b) s u) (release_allocated env b s)
  unfolding release_allocated
  release_allocated-Released b s =
      Returns-bind
        (when-Released (b.addr == null) (Event.kms_bo_unmap b.bo) _ s (λ r. refl) (λ r. refl))
        λ _ u p.
          Returns-bind
            (when-Released (is_zero b.fd) (Event.close b.fd) (λ r. unit_of_fd r b.fd) u (λ r. refl)
              (λ r. ground arith))
            λ _ v q.
              Returns-mono
                (when-Released (b.bo == null) (Event.kms_bo_destroy b.bo) _ v (λ r. refl)
                  (λ r. refl))
                λ _ w o. Released-trans _ _ p (Released-trans _ _ q o)

  -- Destroying an allocated object that stands at `bo` undoes all since `t`.
  pub destroy-Undone :
      (h : Heap) (t : Trace) (bo : Ptr) (b : KmsBo) (s : State)
      → bo ≢ null
      → h bo ≡ none
      → b.allocated ≡ true
      → Stands h t bo b s
      → Returns (λ _ u. Undone h t u) (gbm_kms_bo_destroy env bo s)
  unfolding gbm_kms_bo_destroy
  destroy-Undone h t bo b s ne unused al st =
      rw (ne-null bo ne, here)
        (simp al (
          Returns-bind (release_allocated-Released b s) λ _ u p.
            rw (free-some bo (a_bo b) u ne (ap (λ g. g bo) p.same ∙ here)) (
              returns (record {
                same = λ q. ground (arith, p.same, st.at q);
                balanced = λ r. omega (arith, st.holds r, p.kept r, p.given r);
              }))))
    where
      here : s.heap bo ≡ some (a_bo b)
      here = st.at bo ∙ write_self h bo (some (a_bo b))

  -- Destroying an object that owns nothing frees it, and does nothing else.
  pub destroy-plain :
      (bo : Ptr) (b : KmsBo) (s : State)
      → bo ≢ null
      → b.allocated ≡ false
      → b.allocated_handle ≡ false
      → s.heap bo ≡ some (a_bo b)
      → gbm_kms_bo_destroy env bo s ≡ ok tt (record s { heap = write s.heap bo none })
  unfolding gbm_kms_bo_destroy
  destroy-plain bo b s ne al ah here =
      rw (ne-null bo ne, here) (simp (al, ah) (free-some bo (a_bo b) s ne here))

  pub destroy-unowned :
      (h : Heap) (t : Trace) (bo : Ptr) (b : KmsBo) (s : State)
      → bo ≢ null
      → h bo ≡ none
      → b.allocated ≡ false
      → b.allocated_handle ≡ false
      → ((q : Ptr) → s.heap q ≡ write h bo (some (a_bo b)) q)
      → Balanced t s.trace
      → Returns (λ _ u. Undone h t u) (gbm_kms_bo_destroy env bo s)
  destroy-unowned h t bo b s ne unused al ah at bal =
      rw (destroy-plain bo b s ne al ah (at bo ∙ write_self h bo (some (a_bo b))))
        (returns (record { same = λ q. ground (arith, at q); balanced = bal }))
