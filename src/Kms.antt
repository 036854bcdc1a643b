-- ===== src/Kms.antt =====
-- backend_kms.c: the backend over libkms and libdrm.
pub mod Formats
pub mod Mapping
pub mod Lifetime
pub mod Query
pub mod Silence
pub mod Support
pub mod Import
pub mod Surfaces
pub mod Table
