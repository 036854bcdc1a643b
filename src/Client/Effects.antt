-- ===== src/Client/Effects.antt =====
-- What a call does to the buffer objects of a heap, as their holders see it.
use libgbm.Base.{
  true, not, ◌≢◌, Bool, false, ◌≡◌, refl, none, some, pos, ◌==◌, if◌then◌else◌, arith, Bool-cases,
  inl, inr, ◌∙◌, ap,
}
use libgbm.Types.{Ptr, null, KmsBo, a_bo}
use libgbm.Machine.{Heap, write}

-- A call may add an object, sets the user data of one, may end its mapping, takes an object away,
-- or does none of these.
pub data Effect : Type 0 where
  quiet : Effect
  makes : Effect
  tells : (bo data' : Ptr) → Effect
  unmaps : (bo : Ptr) → Effect
  removes : (bo : Ptr) → Effect

-- The user data of the object at `bo` after the call.
abbrev pub data_after : Effect → (bo : Ptr) → Ptr → Ptr
data_after quiet bo before = before
data_after makes bo before = before
data_after (tells p data') bo before = if p == bo then data' else before
data_after (unmaps p) bo before = before
data_after (removes p) bo before = before

abbrev pub is_removed : Effect → (bo : Ptr) → Bool
is_removed quiet bo = false
is_removed makes bo = false
is_removed (tells p data') bo = false
is_removed (unmaps p) bo = false
is_removed (removes p) bo = p == bo

-- The call may end the mapping of the object at `bo`.
abbrev pub is_unmapped : Effect → (bo : Ptr) → Bool
is_unmapped quiet bo = false
is_unmapped makes bo = false
is_unmapped (tells p data') bo = false
is_unmapped (unmaps p) bo = p == bo
is_unmapped (removes p) bo = false

-- The object without its mapping and its user data: what no call changes.
abbrev pub plain : KmsBo → KmsBo
plain b = record b {
  addr = null;
  map_ref = pos 0;
  base = record b.base { user_data = null; destroy_user_data = null };
}

pub data Change (g h : Heap) : Effect → Type 0 where
  kept : ((q : Ptr) → h q ≡ g q) → Change g h quiet
  added_none : ((q : Ptr) → h q ≡ g q) → Change g h makes
  added :
      (p : Ptr) (b : KmsBo)
      → g p ≡ none
      → ((q : Ptr) → h q ≡ write g p (some (a_bo b)) q)
      → Change g h makes
  changed :
      (p : Ptr) (b c : KmsBo)
      → g p ≡ some (a_bo b)
      → plain c ≡ plain b
      → c.base.user_data ≡ b.base.user_data
      → (b.addr ≢ null → c.addr ≡ b.addr)
      → ((q : Ptr) → h q ≡ write g p (some (a_bo c)) q)
      → Change g h quiet
  unmapped :
      (p : Ptr) (b c : KmsBo)
      → g p ≡ some (a_bo b)
      → plain c ≡ plain b
      → c.base.user_data ≡ b.base.user_data
      → ((q : Ptr) → h q ≡ write g p (some (a_bo c)) q)
      → Change g h (unmaps p)
  labelled :
      (p : Ptr) (b c : KmsBo)
      → g p ≡ some (a_bo b)
      → plain c ≡ plain b
      → c.addr ≡ b.addr
      → ((q : Ptr) → h q ≡ write g p (some (a_bo c)) q)
      → Change g h (tells p c.base.user_data)
  removed : (p : Ptr) → ((q : Ptr) → h q ≡ write g p none q) → Change g h (removes p)

-- The object at `bo` is still there, with the user data `data'`, and still mapped if it was and
-- `held` is true.
pub record Stays (bo : Ptr) (b : KmsBo) (data' : Ptr) (held : Bool) (h : Heap) : Type 0 where
  pub object : KmsBo
  pub at : h bo ≡ some (a_bo object)
  pub same : plain object ≡ plain b
  pub user_data : object.base.user_data ≡ data'
  pub mapping : held ≡ true → b.addr ≢ null → object.addr ≡ b.addr

pub unmoved-Stays :
    {bo : Ptr} {b : KmsBo} {data' : Ptr} {held : Bool} {h : Heap}
    → h bo ≡ some (a_bo b)
    → b.base.user_data ≡ data'
    → Stays bo b data' held h
unmoved-Stays {b} at e = record {
  object = b;
  at = at;
  same = refl;
  user_data = e;
  mapping = λ _ busy. refl;
}

module _ {g h : Heap} (bo : Ptr) (b : KmsBo) (here : g bo ≡ some (a_bo b)) where
  pub Change-Stays :
      {e : Effect}
      → Change g h e
      → is_removed e bo ≡ false
      → Stays bo b (data_after e bo b.base.user_data) (not (is_unmapped e bo)) h
  Change-Stays (kept same) spared = unmoved-Stays (same bo ∙ here) refl
  Change-Stays (added_none same) spared = unmoved-Stays (same bo ∙ here) refl
  Change-Stays (added p c unused at) spared =
      unmoved-Stays (ground (arith, at bo, here, unused)) refl
  Change-Stays (changed p a c there same data' addr at) spared = elim (Bool-cases (p == bo)) [
    | inl z ↦
        let moved : p ≡ bo = ground arith in
        let object : a ≡ b = ground (arith, there, here, moved) in
        record {
          object = c;
          at = ground (arith, at bo, moved);
          same = same ∙ ap plain object;
          user_data = data' ∙ ap (λ x. x.base.user_data) object;
          mapping = λ _ busy. addr (rw object busy) ∙ ap (λ x. x.addr) object;
        }
    | inr z ↦ unmoved-Stays (ground (arith, at bo, here)) refl
  ]
  Change-Stays (unmapped p a c there same data' at) spared = elim (Bool-cases (p == bo)) [
    | inl z ↦
        let moved : p ≡ bo = ground arith in
        let object : a ≡ b = ground (arith, there, here, moved) in
        record {
          object = c;
          at = ground (arith, at bo, moved);
          same = same ∙ ap plain object;
          user_data = data' ∙ ap (λ x. x.base.user_data) object;
          mapping = λ held. absurd (ground (arith, held, z));
        }
    | inr z ↦ unmoved-Stays (ground (arith, at bo, here)) refl
  ]
  Change-Stays (labelled p a c there same addr at) spared = elim (Bool-cases (p == bo)) [
    | inl z ↦
        let moved : p ≡ bo = ground arith in
        let object : a ≡ b = ground (arith, there, here, moved) in
        record {
          object = c;
          at = ground (arith, at bo, moved);
          same = same ∙ ap plain object;
          user_data = rw z refl;
          mapping = λ _ busy. addr ∙ ap (λ x. x.addr) object;
        }
    | inr z ↦ unmoved-Stays (ground (arith, at bo, here)) (rw z refl)
  ]
  Change-Stays (removed p at) spared = unmoved-Stays (ground (arith, at bo, here, spared)) refl
