-- ===== src/Machine/Events.antt =====
-- The calls of libkms, libdrm, wayland-kms, udev, libdl and the C library, each with its arguments,
-- what it returned and what it stored through its result pointer.
use libgbm.Base.{ℕ, ℤ, List, Option}
use libgbm.Types.{Ptr, CString}

-- The names of libkms.h that the code uses, as symbols, with the numbers among the attributes.
pub data KmsAttr : Type 0 where
  bo_type bo_type_scanout_x8r8g8b8 bo_type_cursor_64x64_a8r8g8b8 : KmsAttr
  width height pitch handle terminate_prop_list : KmsAttr
  value : ℕ → KmsAttr

pub data Event : Type 0 where
  kms_create : (fd ret : ℤ) → Option Ptr → Event
  kms_bo_create : (kms : Ptr) → (attr : List KmsAttr) → (ret : ℤ) → Option Ptr → Event
  kms_bo_get_prop : (bo : Ptr) → (key : KmsAttr) → Option ℕ → Event
  kms_bo_map : (bo : Ptr) → (ret : ℤ) → Option Ptr → Event
  kms_bo_unmap : (bo : Ptr) → Event
  kms_bo_destroy : (bo : Ptr) → Event
  prime_handle_to_fd : (dev_fd : ℤ) → (handle : ℕ) → (ret : ℤ) → Option ℤ → Event
  prime_fd_to_handle : (dev_fd fd ret : ℤ) → Option ℕ → Event
  gem_close : (dev_fd : ℤ) → (handle : ℕ) → Event
  close : (fd : ℤ) → Event
  wayland_kms_buffer_get : (buffer : Ptr) → Event
  memcpy : (dst src : Ptr) → (count : ℕ) → Event
  user_callback : (callback bo user_data : Ptr) → Event
  fstat : (fd ret : ℤ) → Event
  dlopen : (path : CString) → (library : Ptr) → Event
  dlsym : (library : Ptr) → Event
  udev_new : (udev : Ptr) → Event
  udev_device_new : (udev : Ptr) → (devnum : ℕ) → (device : Ptr) → Event
  strdup : CString → Event
  udev_device_unref : (device : Ptr) → Event
  udev_unref : (udev : Ptr) → Event
