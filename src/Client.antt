-- ===== src/Client.antt =====
-- A client of gbm.c on devices of the KMS backend: any sequence of calls on buffer objects and
-- devices.
pub mod Objects
pub mod Pool
pub mod Rebasing
pub mod Ledger
pub mod Questions
pub mod Calls
pub mod Creating
pub mod Importing
pub mod Mapping
pub mod Access
pub mod Asking
pub mod Effects
pub mod Exporting
pub mod Reach
pub mod Stability
pub mod Remapping
pub mod Mapped
pub mod Orders
pub mod Calling
pub mod Callbacks
pub mod Catalogue
pub mod Session
pub mod System
pub mod Surface
