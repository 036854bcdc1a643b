-- ===== src/Client/Catalogue.antt =====
-- An abstract view of gbm.c's buffer objects: a catalogue of what is known of each, without the
-- heap, the libraries and the mappings, and how each call revises it.
pub mod Logs
pub mod Refinement
use libgbm.Base.{
  ℕ, ℤ, pos, Bool, Option, none, some, List, [], ◌∷◌, ◌≡◌, ◌≢◌, refl, ap, sym, ◌∙◌, ◌==◌,
  if◌then◌else◌, arith, Bool-cases, inl, inr,
}
use libgbm.Types.{
  Ptr, KmsBo, Object, ImportBuffer, wl_buffer, fd_data, fd_modifier_data, a_bo, a_surface, a_device,
}
use libgbm.Machine
use libgbm.Machine.{Heap}
use libgbm.Format.{gbm_format_canonicalize, bits_per_pixel}
use libgbm.Client.Effects.{
  Effect, quiet, makes, tells, unmaps, removes, Change, kept, added_none, added, changed, unmapped,
  labelled, removed, plain,
}
use libgbm.Client.Questions.{
  Question, width_of, height_of, format_of, bpp_of, device_of, first_handle, user_data_of,
  first_stride, stride_of, handle_of, offset_of, plane_count, modifier_of,
}
use libgbm.Client.Calls.{
  Call, create, create_with_modifiers, export, export_plane, device_question, import, map, unmap,
  write, set_user_data, question, destroy,
}

pub record Entry : Type 0 where
  pub device : Ptr
  pub width : ℕ
  pub height : ℕ
  pub format : ℕ
  pub planes : ℤ
  pub user_data : Ptr

abbrev pub Catalogue : Type 0
Catalogue = Ptr → Option Entry

abbrev pub entry_of : KmsBo → Entry
entry_of b = record {
  device = b.base.gbm;
  width = b.base.width;
  height = b.base.height;
  format = b.base.format;
  planes = b.num_planes;
  user_data = b.base.user_data;
}

abbrev pub entry_at : Option Object → Option Entry
entry_at none = none
entry_at (some (a_bo b)) = some (entry_of b)
entry_at (some (a_surface f)) = none
entry_at (some (a_device d)) = none

-- The catalogue of the objects in a heap.
abbrev pub catalogue : Heap → Catalogue
catalogue h p = entry_at (h p)

abbrev pub relabelled : (data' : Ptr) → Option Entry → Option Entry
relabelled data' none = none
relabelled data' (some e) = some (record e { user_data = data' })

-- What a call that makes an object may do: nothing, or one more entry `e` such that `P e`.
pub data Recorded (P : Entry → Type 0) (g h : Catalogue) : Type 0 where
  nothing : ((q : Ptr) → h q ≡ g q) → Recorded P g h
  one :
      (p : Ptr) (e : Entry)
      → g p ≡ none
      → P e
      → ((q : Ptr) → h q ≡ (if q == p then some e else g q))
      → Recorded P g h

-- How the effect of a call revises the catalogue.
abbrev pub Revised : (P : Entry → Type 0) → Effect → (g h : Catalogue) → Type 0
Revised P quiet g h = (q : Ptr) → h q ≡ g q
Revised P makes g h = Recorded P g h
Revised P (tells bo data') g h = (q : Ptr) → h q ≡ (if q == bo then relabelled data' (g q) else g q)
Revised P (unmaps bo) g h = (q : Ptr) → h q ≡ g q
Revised P (removes bo) g h = (q : Ptr) → h q ≡ (if q == bo then none else g q)

abbrev pub Any : Entry → Type 0
Any e = Unit {0}

entry-plain :
    (b c : KmsBo)
    → plain c ≡ plain b
    → entry_of c ≡ record (entry_of b) { user_data = c.base.user_data }
entry-plain b c same = ap (λ x. record (entry_of x) { user_data = c.base.user_data }) same

pub catalogue-write :
    (g h : Heap) (p : Ptr) (o : Option Object)
    → ((q : Ptr) → h q ≡ Machine.write g p o q)
    → (q : Ptr) → catalogue h q ≡ (if q == p then entry_at o else catalogue g q)
catalogue-write g h p o at q =
    ap entry_at (at q) ∙ elim (Bool-cases (q == p)) [ inl z ↦ rw z refl | inr z ↦ rw z refl ]

-- A change in place, with the user data that it leaves.
catalogue-changed :
    (g h : Heap) (p : Ptr) (b c : KmsBo)
    → g p ≡ some (a_bo b)
    → plain c ≡ plain b
    → ((q : Ptr) → h q ≡ Machine.write g p (some (a_bo c)) q)
    → (q : Ptr)
    → catalogue h q
      ≡ (if q == p then relabelled c.base.user_data (catalogue g q) else catalogue g q)
catalogue-changed g h p b c there same at q =
    catalogue-write g h p (some (a_bo c)) at q ∙ elim (Bool-cases (q == p)) [
      | inl z ↦ let e : q ≡ p = ground arith in rw (z, e, there) (ap some (entry-plain b c same))
      | inr z ↦ rw z refl
    ]

catalogue-same :
    (g h : Heap) (p : Ptr) (b c : KmsBo)
    → g p ≡ some (a_bo b)
    → plain c ≡ plain b
    → c.base.user_data ≡ b.base.user_data
    → ((q : Ptr) → h q ≡ Machine.write g p (some (a_bo c)) q)
    → (q : Ptr) → catalogue h q ≡ catalogue g q
catalogue-same g h p b c there same data' at q =
    catalogue-changed g h p b c there same at q ∙ elim (Bool-cases (q == p)) [
      | inl z ↦ let e : q ≡ p = ground arith in rw (z, e, there, data') refl
      | inr z ↦ rw z refl
    ]

pub Change-Revised :
    {g h : Heap} {e : Effect} → Change g h e → Revised Any e (catalogue g) (catalogue h)
Change-Revised (kept same) = λ q. ap entry_at (same q)
Change-Revised (added_none same) = nothing λ q. ap entry_at (same q)
Change-Revised {g} {h} (added p b unused at) =
    one p (entry_of b) (ap entry_at unused) tt (catalogue-write g h p (some (a_bo b)) at)
Change-Revised {g} {h} (changed p b c there same data' addr at) =
    catalogue-same g h p b c there same data' at
Change-Revised {g} {h} (unmapped p b c there same data' at) =
    catalogue-same g h p b c there same data' at
Change-Revised {g} {h} (labelled p b c there same addr at) =
    catalogue-changed g h p b c there same at
Change-Revised {g} {h} (removed p at) = catalogue-write g h p none at
