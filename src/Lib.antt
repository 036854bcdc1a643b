-- ===== src/Lib.antt =====
-- libgbm: buffer objects and surfaces for rendering without a window system, over a backend for the
-- kernel's mode setting (KMS).
--
-- The program. A client opens a device node and calls gbm_create_device (gbm.c), which has backend.c
-- load a backend: a module that the variable GBM_BACKEND names, or the built-in one, backend_kms.c.
-- The backend fills in a table of function pointers in struct gbm_device, and every later call of
-- gbm.c goes through that table: creation, import, mapping, writing, export and destruction of
-- buffer objects, and surfaces with two buffers that the GL stack fills by the inline functions of
-- gbm_kmsint.h. backend_kms.c stands on libkms, libdrm and wayland-kms. common.c has helpers on
-- udev.
--
-- The files and the code that they model.
--   Base            the numbers, lists and Boolean tests that all files share; C's int as an integer
--   Types           the structures of gbm.h, gbmint.h and gbm_kmsint.h
--   Machine         the heap of objects, runs that may fault, the calls of the libraries (below)
--   Format          gbm.h, gbmint.h, gbm.c: format codes, gbm_format_canonicalize, bits per pixel,
--                   gbm_format_get_name
--   DeviceOps       gbmint.h: the function pointers of struct gbm_device, struct gbm_backend
--   Kms.Formats     backend_kms.c: the supported formats
--   Kms.Lifetime    backend_kms.c: gbm_kms_bo_create and gbm_kms_bo_destroy
--   Kms.Mapping     backend_kms.c: the counted mapping, map, unmap and write
--   Kms.Query       backend_kms.c: planes, strides, handles and the export of descriptors
--   Kms.Import      backend_kms.c: gbm_kms_bo_import and its three kinds
--   Kms.Surfaces    backend_kms.c, gbm_kmsint.h: surfaces and their two buffers; Frames below it has
--                   the sequences of calls by which the GL stack and the client use a surface
--   Kms.Table       backend_kms.c: kms_gbm_device, kms_device_create, gbm_backend
--   Frontend        gbm.c: every exported function, in Device, Buffer, Creation and SurfaceApi
--   Loader          backend.c: load_backend and _gbm_create_device
--   Example         backend_example.c: the template of a backend, which no target builds
--   Udev            common.c: _gbm_udev_device_new_from_fd, _gbm_fd_get_device_name
--   Client          what a client does with these: sequences of calls of gbm.c that make, import,
--                   map, write, export, question and destroy the buffer objects of any number of
--                   devices, interleaved as they may be, as a step relation (Reach), what an
--                   object says of itself along them (Stability), against what was ordered
--                   (Orders), what becomes of a mapping (Mapped), the callbacks that are called
--                   (Callbacks), sessions from opening a device to closing it (Session), and
--                   systems in which devices are opened and closed while others are in use
--                   (System); an abstract catalogue of the objects that the calls revise
--                   (Catalogue); Surface has an abstract surface, which slot is filled, locked or
--                   in front, for the calls of the GL stack and of the client through gbm.c
--                   (specifications, no code of their own)
--   Tests           runs on a concrete environment
-- The modules below these hold the proofs. A definition has the name of the function or type that it
-- models; what a long function is cut into has a name of its own, with a comment.
--
-- State. A pointer is a number and NULL is 0. The heap is a function from addresses to whole objects
-- (a buffer object, a surface, a device), so the aliasing of two pointers is equality of addresses.
-- A run takes the heap, errno and the list of the calls made so far, newest first, and gives a result
-- with a new state, or a fault: a load through a bad pointer, a double free, a read of what no call
-- stored, an index past an array. uint32_t and uint64_t are natural numbers with the wrap-around
-- written out; an int is an integer and is not bounded, as the code does no arithmetic on one but
-- counting by one and negation. The count of an object's mappings could pass INT_MAX only after as
-- many calls; what is stated of the counter itself keeps it below (Kms.Mapping.Sessions).
--
-- Libraries. libkms, libdrm, wayland-kms, libudev, libdl and the C library are parameters: the record
-- Env, and DynamicLoader and UdevLibrary, give each call's results as a function of the calls made
-- before it. IsLawful in Machine.Library states what their documentation promises; a theorem that
-- needs it takes it as a hypothesis. Every call is recorded in the trace with its results, and
-- Machine.Resources counts along the trace which drivers and buffer objects of libkms, mappings,
-- descriptors and GEM handles are handed out and given back. Two limits of that count: descriptor 0
-- is not counted, as the code takes it for no descriptor (Kms.Lifetime.DescriptorZero has what comes
-- of that), and a handle is counted each time that the kernel names it, although the kernel names
-- an open handle again for the same buffer and one GEM_CLOSE ends it (Kms.Import.Sharing). The
-- numbers of errno are Linux's.
--
-- Clients. A step of Client.Reach or of Kms.Surfaces.Frames is a call that IsAllowed of its module
-- permits: it passes live objects, imports with arrays as long as they say, and no mapping of an
-- imported object, which has no libkms object to map. The descriptors that exports return belong to
-- the client, which closes them itself: the steps keep a list of them. A callback of the client only
-- takes note of its call and does not call the library back.
--
-- Loops are structural recursion: over the planes and descriptors of an object, counted by a member,
-- and over the list of backends. No definition takes fuel.
--
-- Not modelled: gbm_example_bo_create_from_egl_image of backend_example.c, which no member of struct
-- gbm_device can point to; the build files and debian/; the messages on stderr and _gbm_log, which
-- does nothing; the identity cast gbm_kms_surface; the format codes that no function reads. Threads
-- are not modelled, as the code has no locking of its own: interleaved calls are calls in turn. The
-- sequences of Client.Reach and Client.System make no surfaces; those of Client.Surface and
-- Kms.Surfaces.Frames do.
pub mod Base
pub mod Types
pub mod Machine
pub mod Format
pub mod Kms
pub mod Frontend
pub mod Loader
pub mod Udev
pub mod Example
pub mod DeviceOps
pub mod Client
pub mod Tests
