-- ===== src/Tests/Bench.antt =====
-- A concrete environment in which every call succeeds, and a live device in it.
use libgbm.Base.{
  ℕ, zero, suc, ◌+◌, refl, pos, true, none, some, [], ◌∷◌, inl, inr, length, arith, Option,
}
use libgbm.Types.{Ptr, null, KmsDevice, Object, WlKmsBuffer, a_device, zero_device}
use libgbm.Machine.{Env, IsLawful, CallocIsFresh, KmsAttr, Heap, State}
use libgbm.Kms.Table.{kms_name}

abbrev pub unless_used : Option Object → Ptr → Ptr
unless_used none p = p
unless_used (some o) p = null

abbrev pub prop : KmsAttr → Option ℕ
prop KmsAttr.pitch = some 256
prop KmsAttr.handle = some 7
prop _ = none

abbrev pub client_buffer : WlKmsBuffer
client_buffer = record {
  width = 64;
  height = 32;
  format = 0;
  stride = 256;
  handle = 5;
  num_planes = pos 1;
  planes = record { handle = 5; stride = 256 } ∷ [];
}

abbrev pub bench : Env
bench = record {
  format_mod_linear = 0;
  calloc = λ h t. unless_used (h (length t + 100)) (length t + 100);
  errno_after = λ t e. none;
  kms_create = λ t fd. record { ret = pos 0; out = some 50 };
  kms_bo_create = λ t kms attr. record { ret = pos 0; out = some (suc (length t)) };
  kms_bo_get_prop = λ t bo key. prop key;
  kms_bo_map = λ t bo. record { ret = pos 0; out = some 4096 };
  prime_handle_to_fd = λ t dev_fd handle. record { ret = pos 0; out = some (pos (suc (length t))) };
  prime_fd_to_handle = λ t dev_fd fd. record { ret = pos 0; out = some (suc (length t)) };
  wayland_kms_buffer_get = λ t p. some client_buffer;
  fstat = λ t fd. record { ret = pos 0; out = some (record { is_chr = true; st_rdev = 57856 }) };
}

pub bench-fresh : CallocIsFresh bench
bench-fresh h t ne = ground arith

pub bench-IsLawful : IsLawful bench
bench-IsLawful = record {
  fresh = bench-fresh;
  created = λ t kms attr z. (suc (length t), refl, omega arith);
  mapped = λ t bo. inl (refl, (4096, refl, omega arith));
  exported = λ t dev_fd handle. inl (refl, (suc (length t), refl));
  imported = λ t dev_fd fd. inl (refl, (suc (length t), refl, omega arith));
  stated = λ t fd. inr (refl, (record { is_chr = true; st_rdev = 57856 }, refl));
}

abbrev pub card : KmsDevice
card = record zero_device { fd = pos 3; name = kms_name; refcount = 1; kms = 50 }

abbrev pub card_heap : Heap
card_heap zero = none
card_heap (suc zero) = some (a_device card)
card_heap (suc (suc p)) = none

-- The device stands at address 1.
abbrev pub start : State
start = record { heap = card_heap; errno = pos 0; trace = [] }
