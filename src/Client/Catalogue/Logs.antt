-- ===== src/Client/Catalogue/Logs.antt =====
-- Logs of calls, as revisions of a catalogue.
use libgbm.Base.{ℤ, pos, List, [], ◌∷◌, ◌≡◌}
use libgbm.Types.{Ptr, wl_buffer, fd_data, fd_modifier_data}
use libgbm.Machine.{Env, State}
use libgbm.Frontend.Dispatch.{Tables}
use libgbm.Client.Calls.{Call, create, create_with_modifiers, import, effect}
use libgbm.Client.Reach.{Reach, here, next, call}
use libgbm.Client.Orders.{
  Order, by_size, by_modifiers, by_fd, by_fds, ordered_width, ordered_height, ordered_format,
  ordered_planes,
}
use libgbm.Client.Catalogue.{Entry, Catalogue, Revised}

-- The entry is as it was ordered of the device at `gbm`.
abbrev pub Matches : (gbm : Ptr) → Order → Entry → Type 0
Matches gbm o e =
    (e.device ≡ gbm)
    × (e.width ≡ ordered_width o)
    × (e.height ≡ ordered_height o)
    × (e.format ≡ ordered_format o)
    × (e.planes ≡ pos (ordered_planes o))

-- What the call says of the entry that it may add; of that of a wl_buffer, only its device.
abbrev pub Fits : (gbm : Ptr) → Call → Entry → Type 0
Fits gbm (create width height format usage) e = Matches gbm (by_size width height format usage) e
Fits gbm (create_with_modifiers width height format modifiers count) e =
    Matches gbm (by_modifiers width height format modifiers count) e
Fits gbm (import type (fd_data f) usage) e = Matches gbm (by_fd f usage) e
Fits gbm (import type (fd_modifier_data m) usage) e = Matches gbm (by_fds m usage) e
Fits gbm (import type (wl_buffer p) usage) e = e.device ≡ gbm
Fits gbm _ e = Unit {0}

-- A log of calls, the newest first, that leads from one catalogue to another.
pub data Log (g : Catalogue) : List (Ptr × Call) → Catalogue → Type 0 where
  blank : {h : Catalogue} → ((q : Ptr) → h q ≡ g q) → Log g [] h
  line :
      {cs : List (Ptr × Call)} {h k : Catalogue} (gbm : Ptr) (c : Call)
      → Log g cs h
      → Revised (Fits gbm c) (effect c) h k
      → Log g ((gbm, c) ∷ cs) k

-- The calls of a sequence, with their devices, the newest first.
abbrev pub log_of :
    {env : Env} {tables : Tables} {Ours : Ptr → Type 0} {s : State} {fds : List ℤ} {u : State}
    → Reach env tables Ours s fds u
    → List (Ptr × Call)
log_of here = []
log_of (next before (call gbm ours c a e)) = (gbm, c) ∷ log_of before
