-- ===== src/Client/Questions.antt =====
-- What a client asks of gbm.c about an object and about a device.
use libgbm.Base.{ℕ, ℤ, pos}
use libgbm.Types.{Ptr}
use libgbm.Machine.{M, pure, ◌>>=◌, ◌>>◌}
use libgbm.Frontend.Dispatch.{Tables}
use libgbm.Frontend.Buffer.{
  gbm_bo_get_width, gbm_bo_get_height, gbm_bo_get_format, gbm_bo_get_bpp, gbm_bo_get_device,
  gbm_bo_get_handle, gbm_bo_get_user_data, gbm_bo_get_stride, gbm_bo_get_stride_for_plane,
  gbm_bo_get_handle_for_plane, gbm_bo_get_offset, gbm_bo_get_plane_count, gbm_bo_get_modifier,
}
use libgbm.Frontend.Device.{
  gbm_device_get_fd, gbm_device_get_backend_name, gbm_device_is_format_supported,
  gbm_device_get_format_modifier_plane_count,
}

pub data Question : Type 0 where
  width_of height_of format_of bpp_of device_of first_handle user_data_of first_stride : Question
  stride_of : (plane : ℤ) → Question
  handle_of : (plane : ℤ) → Question
  offset_of : (plane : ℤ) → Question
  plane_count : Question
  modifier_of : Question

-- The answer, as an integer.
abbrev pub ask : Tables → (bo : Ptr) → Question → M ℤ
ask tables bo width_of = gbm_bo_get_width bo >>= λ n. pure (pos n)
ask tables bo height_of = gbm_bo_get_height bo >>= λ n. pure (pos n)
ask tables bo format_of = gbm_bo_get_format bo >>= λ n. pure (pos n)
ask tables bo bpp_of = gbm_bo_get_bpp bo >>= λ n. pure (pos n)
ask tables bo device_of = gbm_bo_get_device bo >>= λ n. pure (pos n)
ask tables bo first_handle = gbm_bo_get_handle bo >>= λ n. pure (pos n)
ask tables bo user_data_of = gbm_bo_get_user_data bo >>= λ n. pure (pos n)
ask tables bo first_stride = gbm_bo_get_stride tables bo >>= λ n. pure (pos n)
ask tables bo (stride_of plane) = gbm_bo_get_stride_for_plane tables bo plane >>= λ n. pure (pos n)
ask tables bo (handle_of plane) = gbm_bo_get_handle_for_plane tables bo plane >>= λ n. pure (pos n)
ask tables bo (offset_of plane) = gbm_bo_get_offset tables bo plane >>= λ n. pure (pos n)
ask tables bo plane_count = gbm_bo_get_plane_count tables bo
ask tables bo modifier_of = gbm_bo_get_modifier tables bo >>= λ n. pure (pos n)

pub data DeviceQuestion : Type 0 where
  descriptor backend_name : DeviceQuestion
  is_supported : (format usage : ℕ) → DeviceQuestion
  modifier_planes : (format modifier : ℕ) → DeviceQuestion

abbrev pub ask_device : Tables → (gbm : Ptr) → DeviceQuestion → M (Unit {0})
ask_device tables gbm descriptor = gbm_device_get_fd gbm >> pure tt
ask_device tables gbm backend_name = gbm_device_get_backend_name gbm >> pure tt
ask_device tables gbm (is_supported format usage) =
    gbm_device_is_format_supported tables gbm format usage >> pure tt
ask_device tables gbm (modifier_planes format modifier) =
    gbm_device_get_format_modifier_plane_count tables gbm format modifier >> pure tt
