-- ===== src/Client/Pool.antt =====
-- The live buffer objects of a heap, with the sum of what they hold.
use libgbm.Base.{
  ℕ, ◌+◌, ◌≡◌, refl, ap, subst, sym, ◌∙◌, some, none, ◌==◌, arith, Bool-cases, inl, inr,
}
use libgbm.Types.{Ptr, KmsDevice, KmsBo, Object, a_bo, a_device}
use libgbm.Machine.{Heap, write, write_self, Resource}
use libgbm.Client.Objects.{Owner}

-- The set of one device.
abbrev pub Only : (gbm : Ptr) → Ptr → Type 0
Only gbm p = p ≡ gbm

-- A heap without buffer objects of the devices `Ours`.
abbrev pub IsWithout : (Ours : Ptr → Type 0) → Heap → Type 0
IsWithout Ours h = (q : Ptr) (b : KmsBo) → h q ≡ some (a_bo b) → ¬ Ours b.base.gbm

-- One of the devices `Ours`, live in the heap `o`.
pub record IsDevice (Ours : Ptr → Type 0) (o : Heap) (gbm : Ptr) (d : KmsDevice) : Type 0 where
  pub ours : Ours gbm
  pub live : o gbm ≡ some (a_device d)

-- `Pool Ours o h n`: `h` is `o` and some buffer objects of the devices `Ours`, which hold `n`
-- together.
pub data Pool (Ours : Ptr → Type 0) (o : Heap) : Heap → (Resource → ℕ) → Type 0 where
  no_objects :
      {h : Heap} {n : Resource → ℕ}
      → ((q : Ptr) → h q ≡ o q)
      → ((r : Resource) → n r ≡ 0)
      → Pool Ours o h n
  one_more :
      {h g : Heap} {n m k : Resource → ℕ} {gbm : Ptr} {d : KmsDevice} (p : Ptr) (b : KmsBo)
      → g p ≡ none
      → ((q : Ptr) → h q ≡ write g p (some (a_bo b)) q)
      → b.base.gbm ≡ gbm
      → IsDevice Ours o gbm d
      → Owner gbm d b m
      → Pool Ours o g k
      → ((r : Resource) → n r ≡ m r + k r)
      → Pool Ours o h n

-- One object of the device at `gbm` taken out.
pub record Taken (Ours : Ptr → Type 0) (gbm : Ptr) (d : KmsDevice) (o h : Heap) (n : Resource → ℕ)
    (p : Ptr) (b : KmsBo) : Type 0 where
  pub own : Resource → ℕ
  pub rest : Resource → ℕ
  pub device : IsDevice Ours o gbm d
  pub owner : Owner gbm d b own
  pub others : Pool Ours o (write h p none) rest
  pub sum : (r : Resource) → n r ≡ own r + rest r

module _ {Ours : Ptr → Type 0} {o : Heap} where
  pub Pool-same :
      {h g : Heap} {n : Resource → ℕ} → ((q : Ptr) → g q ≡ h q) → Pool Ours o h n → Pool Ours o g n
  Pool-same e (no_objects at zero') = no_objects (λ q. e q ∙ at q) zero'
  Pool-same e (one_more p b unused at mine known owner rest sum) =
      one_more p b unused (λ q. e q ∙ at q) mine known owner rest sum

  -- A device is what it is in the heap.
  Owner-same :
      {gbm gbm' : Ptr} {d d' : KmsDevice} {b b' : KmsBo} {n : Resource → ℕ}
      → IsDevice Ours o gbm d
      → IsDevice Ours o gbm' d'
      → gbm' ≡ gbm
      → b' ≡ b
      → Owner gbm' d' b' n
      → Owner gbm d b n
  Owner-same {gbm} {gbm'} {d} {d'} {b} {b'} {n} known known' e f owner =
      let same : d' ≡ d = ground (arith, known.live, known'.live, e) in
      subst (λ g. Owner g d b n) e
        (subst (λ x. Owner gbm' x b n) same (subst (λ x. Owner gbm' d' x n) f owner))

  pub Pool-take :
      {h : Heap} {n : Resource → ℕ} {gbm : Ptr} {d : KmsDevice}
      → IsWithout Ours o
      → IsDevice Ours o gbm d
      → (p : Ptr) (b : KmsBo) → h p ≡ some (a_bo b)
      → b.base.gbm ≡ gbm
      → Pool Ours o h n
      → Taken Ours gbm d o h n p b
  Pool-take absent known p b at mine (no_objects same zero') =
      absurd (absent p b (sym (same p) ∙ at) (subst Ours (sym mine) known.ours))
  Pool-take {gbm} {d} absent known p b at mine
        (one_more {g} {m} {k} q c unused under its known' owner rest sum) =
      elim (Bool-cases (p == q)) [
        | inl z ↦
            let same : p ≡ q = ground arith in
            let object : c ≡ b = ground (arith, under p, at, same) in
            record {
              own = m;
              rest = k;
              device = known;
              owner =
                  Owner-same known known' (sym its ∙ ap (λ x. x.base.gbm) object ∙ mine) object
                    owner;
              others = Pool-same (λ x. ground (arith, under x, unused, same)) rest;
              sum = sum;
            }
        | inr z ↦
            let there : g p ≡ some (a_bo b) = ground (arith, under p, at) in
            let t : Taken Ours gbm d o g k p b = Pool-take absent known p b there mine rest in
            record {
              own = t.own;
              rest = λ r. m r + t.rest r;
              device = known;
              owner = t.owner;
              others =
                  one_more q c (ground (arith, unused)) (λ x. ground (arith, under x)) its known'
                    owner t.others (λ r. refl);
              sum = λ r. omega (arith, sum r, t.sum r);
            }
      ]

  pub Pool-none :
      {h : Heap} {n : Resource → ℕ}
      → IsWithout Ours h
      → Pool Ours o h n
      → ((q : Ptr) → h q ≡ o q) × ((r : Resource) → n r ≡ 0)
  Pool-none gone (no_objects same zero') = (same, zero')
  Pool-none gone (one_more {h} {g} p b unused at mine known owner rest sum) =
      absurd (gone p b (at p ∙ write_self g p (some (a_bo b))) (subst Ours (sym mine) known.ours))

  -- What was there at the origin still is.
  pub Pool-origin :
      {h : Heap} {n : Resource → ℕ} (q : Ptr) (x : Object)
      → o q ≡ some x
      → Pool Ours o h n
      → h q ≡ some x
  Pool-origin q x there (no_objects same zero') = same q ∙ there
  Pool-origin q x there (one_more {h} {g} p b unused at mine known owner rest sum) =
      let before : g q ≡ some x = Pool-origin q x there rest in ground (arith, at q, before, unused)
