-- ===== src/Machine/Calls.antt =====
-- Each call of a library as a command: it is recorded, and may write errno.
use libgbm.Base.{ℕ, ℤ, pos, Option, none, some, List, ◌∷◌, ◌==◌, if◌then◌else◌}
use libgbm.Types.{Ptr, null, Object, WlKmsBuffer, Stat}
use libgbm.Machine.Events.{Event, KmsAttr}
use libgbm.Machine.Store.{M, ok, write, pure, ◌>>◌}
use libgbm.Machine.Library.{Env, Out}

abbrev pub or_else : Option ℤ → ℤ → ℤ
or_else none e = e
or_else (some e') e = e'

abbrev pub enomem : ℤ
enomem = pos 12

module _ (env : Env) where
  abbrev pub emit : Event → M (Unit {0})
  emit e s =
      ok tt (record s { errno = or_else (env.errno_after s.trace e) s.errno; trace = e ∷ s.trace })

  -- `calloc(1, sizeof(struct ...))`: a zeroed object, or NULL and ENOMEM.
  abbrev pub calloc : Object → M Ptr
  calloc o s =
      let p = env.calloc s.heap s.trace in
      if p == 0
      then ok null (record s { errno = enomem })
      else ok p (record s { heap = write s.heap p (some o) })

  abbrev pub kms_create : ℤ → M (Out Ptr)
  kms_create fd s =
      let r = env.kms_create s.trace fd in (emit (Event.kms_create fd r.ret r.out) >> pure r) s

  abbrev pub kms_bo_create : Ptr → List KmsAttr → M (Out Ptr)
  kms_bo_create kms attr s =
      let r = env.kms_bo_create s.trace kms attr in
      (emit (Event.kms_bo_create kms attr r.ret r.out) >> pure r) s

  abbrev pub kms_bo_get_prop : Ptr → KmsAttr → M (Option ℕ)
  kms_bo_get_prop bo key s =
      let r = env.kms_bo_get_prop s.trace bo key in
      (emit (Event.kms_bo_get_prop bo key r) >> pure r) s

  abbrev pub kms_bo_map : Ptr → M (Out Ptr)
  kms_bo_map bo s =
      let r = env.kms_bo_map s.trace bo in (emit (Event.kms_bo_map bo r.ret r.out) >> pure r) s

  abbrev pub prime_handle_to_fd : ℤ → ℕ → M (Out ℤ)
  prime_handle_to_fd dev_fd handle s =
      let r = env.prime_handle_to_fd s.trace dev_fd handle in
      (emit (Event.prime_handle_to_fd dev_fd handle r.ret r.out) >> pure r) s

  abbrev pub prime_fd_to_handle : ℤ → ℤ → M (Out ℕ)
  prime_fd_to_handle dev_fd fd s =
      let r = env.prime_fd_to_handle s.trace dev_fd fd in
      (emit (Event.prime_fd_to_handle dev_fd fd r.ret r.out) >> pure r) s

  abbrev pub wayland_kms_buffer_get : Ptr → M (Option WlKmsBuffer)
  wayland_kms_buffer_get buffer s =
      let r = env.wayland_kms_buffer_get s.trace buffer in
      (emit (Event.wayland_kms_buffer_get buffer) >> pure r) s

  abbrev pub fstat : ℤ → M (Out Stat)
  fstat fd s = let r = env.fstat s.trace fd in (emit (Event.fstat fd r.ret) >> pure r) s
