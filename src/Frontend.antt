-- ===== src/Frontend.antt =====
-- gbm.c: the library's interface. It dispatches through the function pointers of the device.
pub mod Dispatch
pub mod Device
pub mod Devices
pub mod Objects
pub mod Totality
pub mod Equivalences
pub mod Writing
pub mod UserData
pub mod Buffer
pub mod Creation
pub mod SurfaceApi
