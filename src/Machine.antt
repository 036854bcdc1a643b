-- ===== src/Machine.antt =====
-- The state that the code runs on: the heap of its own objects, errno, and the calls that it has
-- made of other libraries. A use of memory that is not a live object is a fault.
mod Events
mod Store
mod Library
mod Calls
mod Rules
mod Resources
mod Callbacks
mod Silence
pub use Events.{Event, KmsAttr}
unfoldable pub use Store.*
pub use Library.*
unfoldable pub use Calls.*
pub use Rules.*
unfoldable pub use Resources.*
pub use Callbacks.*
pub use Silence.*
