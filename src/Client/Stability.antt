-- ===== src/Client/Stability.antt =====
-- An object through a sequence of calls: what it says of itself stays, until it is destroyed.
use libgbm.Base.{
  arith, Bool, true, not, ◌&&◌, ℤ, pos, negsuc, List, false, ◌≡◌, refl, ap, ◌∙◌, sym, subst, some,
}
use libgbm.Types.{Ptr, KmsBo, a_bo}
use libgbm.Machine.{Env, IsLawful, State, Returns, Returns-mono, Returns-ok}
use libgbm.Frontend.Dispatch.{Tables}
use libgbm.Client.Effects.{
  plain, data_after, is_removed, is_unmapped, Stays, unmoved-Stays, Change-Stays,
}
use libgbm.Client.Ledger.{Ledger}
use libgbm.Client.Questions.{
  Question, width_of, height_of, format_of, bpp_of, device_of, first_handle, user_data_of,
  first_stride, stride_of, handle_of, offset_of, plane_count, modifier_of, ask,
}
use libgbm.Client.Asking.{says, ask-Ledger}
use libgbm.Client.Calls.{effect, IsLive}
use libgbm.Client.Reach.{IsFresh, Reach, here, next, call, Reach-Ledger, perform-Settled}

module _ {env : Env} {tables : Tables} {Ours : Ptr → Type 0} where
  -- No call of the sequence destroys the object at `bo`.
  abbrev pub Spares :
      (bo : Ptr) {s : State} {fds : List ℤ} {u : State} → Reach env tables Ours s fds u → Type 0
  Spares bo here = Unit {0}
  Spares bo (next before (call gbm ours c a e)) =
      Spares bo before × (is_removed (effect c) bo ≡ false)

  -- The user data of the object at `bo` after the sequence: what was last set, or what it was.
  abbrev pub latest :
      (bo : Ptr) {s : State} {fds : List ℤ} {u : State} → Reach env tables Ours s fds u → Ptr → Ptr
  latest bo here data' = data'
  latest bo (next before (call gbm ours c a e)) data' =
      data_after (effect c) bo (latest bo before data')

  -- No call of the sequence unmaps the object at `bo`.
  abbrev pub keeps_mapping :
      (bo : Ptr) {s : State} {fds : List ℤ} {u : State} → Reach env tables Ours s fds u → Bool
  keeps_mapping bo here = true
  keeps_mapping bo (next before (call gbm ours c a e)) =
      keeps_mapping bo before && not (is_unmapped (effect c) bo)

  -- The answer after the sequence, from the answer before it.
  abbrev pub still :
      (bo : Ptr) {s : State} {fds : List ℤ} {u : State}
      → Reach env tables Ours s fds u
      → Question
      → ℤ
      → ℤ
  still bo reach user_data_of (pos data') = pos (latest bo reach data')
  still bo reach user_data_of (negsuc n) = negsuc n
  still bo reach width_of a = a
  still bo reach height_of a = a
  still bo reach format_of a = a
  still bo reach bpp_of a = a
  still bo reach device_of a = a
  still bo reach first_handle a = a
  still bo reach first_stride a = a
  still bo reach (stride_of plane) a = a
  still bo reach (handle_of plane) a = a
  still bo reach (offset_of plane) a = a
  still bo reach plane_count a = a
  still bo reach modifier_of a = a

  says-still :
      (bo : Ptr) (b c : KmsBo) {s : State} {fds : List ℤ} {u : State}
      (reach : Reach env tables Ours s fds u) (q : Question)
      → plain c ≡ plain b
      → c.base.user_data ≡ latest bo reach b.base.user_data
      → says env c q ≡ still bo reach q (says env b q)
  says-still bo b c reach width_of e x = ap (λ o. says env o width_of) e
  says-still bo b c reach height_of e x = ap (λ o. says env o height_of) e
  says-still bo b c reach format_of e x = ap (λ o. says env o format_of) e
  says-still bo b c reach bpp_of e x = ap (λ o. says env o bpp_of) e
  says-still bo b c reach device_of e x = ap (λ o. says env o device_of) e
  says-still bo b c reach first_handle e x = ap (λ o. says env o first_handle) e
  says-still bo b c reach user_data_of e x = ap pos x
  says-still bo b c reach first_stride e x = ap (λ o. says env o first_stride) e
  says-still bo b c reach (stride_of plane) e x = ap (λ o. says env o (stride_of plane)) e
  says-still bo b c reach (handle_of plane) e x = ap (λ o. says env o (handle_of plane)) e
  says-still bo b c reach (offset_of plane) e x = refl
  says-still bo b c reach plane_count e x = ap (λ o. says env o plane_count) e
  says-still bo b c reach modifier_of e x = refl

module _ {env : Env} (law : IsLawful env) (tables : Tables) {Ours : Ptr → Type 0} where
  pub Reach-Stays :
      {t : State} {given : List ℤ} (bo : Ptr) (b : KmsBo) {s : State} {fds : List ℤ} {u : State}
      → IsFresh env tables Ours t
      → Ledger Ours t given s
      → s.heap bo ≡ some (a_bo b)
      → (reach : Reach env tables Ours s fds u) → Spares bo reach
      → ((gs : List ℤ) × Ledger Ours t gs u)
        × Stays bo b (latest bo reach b.base.user_data) (keeps_mapping bo reach) u.heap
  Reach-Stays {given} bo b fresh w at here spared = ((given, w), unmoved-Stays at refl)
  Reach-Stays {t} bo b fresh w at (next before (call gbm ours c a e)) (spared, kept) =
      let ((gs, v), x) = Reach-Stays bo b fresh w at before spared in
      let (d, known, kms) = fresh.devices gbm ours in
      let y = Returns-ok (perform-Settled law tables gbm d kms t c _ a v known) e in
      let z = Change-Stays bo x.object x.at y.change kept in
      (
        (_, y.ledger),
        record {
          object = z.object;
          at = z.at;
          same = z.same ∙ x.same;
          user_data = z.user_data ∙ ap (data_after (effect c) bo) x.user_data;
          mapping = λ held busy.
              let held_before : keeps_mapping bo before ≡ true = ground (arith, held) in
              let same = x.mapping held_before busy in
              z.mapping (ground (arith, held)) (rw same busy) ∙ same;
        },
      )

  -- The answers of an object that stays, from the object before the sequence.
  pub Reach-says :
      {t : State} {given : List ℤ} (bo : Ptr) (b : KmsBo) (q : Question) {s : State} {fds : List ℤ}
      {u : State}
      → IsFresh env tables Ours t
      → Ledger Ours t given s
      → s.heap bo ≡ some (a_bo b)
      → Ours b.base.gbm
      → (after : Reach env tables Ours s fds u) → Spares bo after
      → Returns (λ a _. a ≡ still bo after q (says env b q)) (ask tables bo q u)
  Reach-says {t} bo b q {u = u} fresh w at ours after spared =
      let ((gs, v), x) = Reach-Stays bo b fresh w at after spared in
      let (d, known, kms) = fresh.devices b.base.gbm ours in
      Returns-mono
        (ask-Ledger env tables b.base.gbm d kms t u v known bo x.object x.at
          (ap (λ o. o.base.gbm) x.same) q)
        λ c _ (f, _). f ∙ says-still bo b x.object after q x.same x.user_data

  -- An object keeps its answers: if the libraries keep what they document, then on devices of the
  -- KMS backend that began without buffer objects of their own, an object that is live after some
  -- allowed calls of gbm.c, and that none of the allowed calls that follow destroys, answers each
  -- question after them as it did before: its width, height, format, bits per pixel, device,
  -- planes, strides, handles, offsets and modifier are the same, whatever other objects of its
  -- device or of the others were made, imported, mapped, exported or destroyed. Its user data is
  -- what `gbm_bo_set_user_data` set last.
  pub Reach-ask :
      {t s u : State} {fs fds : List ℤ} (gbm bo : Ptr) (q : Question)
      → IsFresh env tables Ours t
      → Reach env tables Ours t fs s
      → Ours gbm
      → IsLive gbm s bo
      → (after : Reach env tables Ours s fds u) → Spares bo after
      → Returns
          (λ a _. Returns (λ b _. b ≡ still bo after q a) (ask tables bo q u))
          (ask tables bo q s)
  Reach-ask {t} {s} gbm bo q fresh before ours (b, at, ne, mine) after spared =
      let w = Reach-Ledger law tables fresh before in
      let (d, known, kms) = fresh.devices gbm ours in
      Returns-mono (ask-Ledger env tables gbm d kms t s w known bo b at mine q) λ a _ (e, _).
        Returns-mono (Reach-says bo b q fresh w at (subst Ours (sym mine) ours) after spared)
          λ c _ f. f ∙ ap (still bo after q) (sym e)
