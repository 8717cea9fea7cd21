-- ===== src/Lib.antt =====
-- scrollviewer shows volumes that are too large for memory: it asks for the bricks (chunks) that a view
-- needs, fetches them from a store, decodes them, keeps them in a RAM cache and uploads them. This
-- library models the parts of that path that decide what is fetched, kept and dropped.
--
-- Files and code:
-- - Core/LruCache.antt is src/core/LruCache.h: `LruCache` with get, contains, insert, pin, unpin and
--   evict_locked (evictLocked). Nodes, Evict, Coherent, Invariant, Budget and Reads below it hold its proofs.
-- - Data/BrickKey.antt is src/data/BrickKey.h, Data/RamCache.antt is src/data/RamCache.h.
-- - Data/Pipeline.antt is src/data/ChunkFetchPipeline.h and ChunkFetchPipeline.cpp: the state, submit,
--   pump, on_fetch_done (onFetchDone), drain_ready (drainReady) and unpin; Data/Pipeline/Teardown.antt
--   is the destructor and stats; Data/Decode.antt is the first half of decodeAndPublish, `publish` and
--   `decode_failed` are the second. Data/Pipeline/System.antt joins them with the store and the decode
--   pool; Invariant, Pump, Submit, Done, Publish, Run, Progress, Wanted and Stops hold the proofs.
-- - Data/Manifest.antt is src/data/VolumeManifest.h and VolumeManifest.cpp, and the writer in
--   src/tools/svmanifest_main.cpp; Bytes, Parse, Read and Scan hold the proofs.
-- - Data/Snic3d.antt is src/data/Snic3D.h and Snic3D.cpp: `snic3d` with its loops (Snic3d/Buckets.antt is the
--   queue, Snic3d/Voxels.antt the indices and the grid of seeds) and clusters_to_world_spheres
--   (clustersToWorldSpheres); Snic3d/Otsu.antt is otsuThreshold. Queue, Region, Labels, Pushes, Invariant, Grid,
--   Seeds, Flood and Segments hold the proofs.
-- - Render/GpuBrickCache.antt is src/render/GpuBrickCache.h and GpuBrickCache.cpp: the slots of the brick
--   pool (`Pool`) and the page tables (`Pages`); GpuBrickCache/Sizing.antt is the constructor, Seeding.antt is
--   seedEmpties, Syncing.antt is syncPageTables; Victim, Slots, Upload, Run and Sizing hold the proofs on the slots, Paging, Tables, Taken,
--   Written, Refined, Fresh, Scanned, Marks, OneEntry, Whole, Seeded and Synced those on the page tables.
-- - Render/Planner.antt is src/render/WorkingSetPlanner.h and WorkingSetPlanner.cpp: grid_dims (gridDims) and
--   plan; Visits and Collected hold the proofs.
-- - Render/Assembler.antt is src/render/BrickAssembler.h and BrickAssembler.cpp: voxel_from (voxelFrom), the
--   prefetch of the neighbours from the RAM cache, sample and assemble; Rows and Seams hold the proofs.
-- - Render/Uploader.antt is src/render/GpuUploader.h and GpuUploader.cpp: initialize, enqueue, the two critical
--   sections of workerAssemble (worker_take, worker_finish), drain_to_gpu (drainToGpu) and pending_count; Ring,
--   Steps, Balance and Progress hold the proofs.
-- - Render/SurfaceMask.antt is src/render/SurfaceMask.cpp: of `build` the marks of the samples, the merge of
--   the tasks and the presence of each level; Marked, Merged, Present, Children and Levels hold the proofs.
-- - App/Streaming.antt is pumpStreaming of src/app/ViewerWindow.cpp as pump_streaming, App/Streaming/Upload.antt
--   is preRenderUpload as pre_render_upload: they join the pipeline, the RAM cache, the planner, the uploader and
--   the GPU cache of the volume and of its overlay. Among, Sorting, Asked, Routed and Idle hold the proofs.
-- - Zarr/ArrayMeta.antt is src/zarr/ArrayMeta.h and ArrayMeta.cpp: the parser of `.zarray` and the sizes;
--   Zarr/Json.antt is the JSON library that it uses, a record of functions taken as an argument; Accepted
--   and Sizes hold the proofs.
-- - Zarr/Multiscale.antt is src/zarr/OmeMultiscale.h and OmeMultiscale.cpp, Zarr/OmeZarrVolume.antt is
--   src/zarr/OmeZarrVolume.cpp and the chunk keys of ArrayMeta.cpp; Datasets and Opened hold the proofs.
-- - Zarr/Codec.antt is src/zarr/Codec.h and Codec.cpp, on blosc2 and zstd as arguments; Decoded has its proof.
-- - Store/ReadRange.antt is the default readRange of src/store/ChunkStore.cpp.
-- - Store/Http.antt is src/store/HttpStore.h and HttpStore.cpp: submit, the loops of `loop`, start_transfer
--   (startTransfer), finish_transfer (finishTransfer) and the end of the loop (`shutdown`); Balance, Caps,
--   Finish and Shutdown hold the proofs.
-- - Store/Local.antt is the job of `read` in src/store/LocalStore.cpp.
-- - Store/DiskCache.antt is src/store/DiskCacheStore.h and DiskCacheStore.cpp: write_file_atomic
--   (writeFileAtomic), read_whole_file (readWholeFile), `read` as look_up, keep_result and encode_job,
--   invalidate and run_eviction (runEviction). Session joins the jobs and callbacks of many reads; Coherent,
--   Refines, Session/Jobs, Session/Right and Eviction hold the proofs. Store/Gdct.antt is src/store/GdctTranscoder.cpp.
-- - Store/Files.antt is the file system that these two stores use, a record of functions taken as an
--   argument, with what they rely on; Store/DiskCache/Tests.antt has one in memory.
-- - Data/Volume.antt is what the pipeline asks of src/zarr/OmeZarrVolume.h, a record of functions that
--   the definitions take as an argument.
-- - Base has lists, loops and tests over native numbers, places in grids, bit fields, and `Assoc`, the
--   association list that stands for `std::unordered_map`.
--
-- Concurrency: each class has one mutex, and each method runs under it, so a method is one step. The
-- threads of the pipeline are the events of Data/Pipeline/System.antt, in any order: the render thread
-- submits, drains and unpins, the store calls reads back, in any order and with any result, and a decode
-- job first fills the RAM cache and publishes later. A store calls back each read once, on a thread of
-- its own, which is its contract in src/store/ChunkStore.h. The thread of the HTTP store and curl are the
-- events of Store/Http.antt, the workers and the render thread those of Render/Uploader.antt. The jobs of
-- the disk cache are the events of Store/DiskCache/Session.antt, one at a time: two writers of one key at the same time, who share a temporary file, are not modelled.
--
-- Numbers: `std::uint64_t` counters wrap at 2^64 (add64, sub64); `int` counters are natural numbers, and
-- the invariants show that none is taken below 0. A priority is of any type with the comparisons of
-- `FloatOrder`, in which every number equals itself: no priority is a NaN. Stop sources are numbered.
-- All loops are structural recursion but for two. The one over the stack of `plan` is on fuel, and is given
-- the weight of the stack, which falls in each round. The flood of `snic3d` is on fuel too: seven rounds for
-- each voxel and one for each seed are enough, since a round takes one element and pushes six only when it
-- labels a voxel. The loop of pump goes down the heap, which is kept
-- with its top at the head.
--
-- Not modelled: the options set on a curl handle and the text of URLs; the floating-point geometry of the
-- planner, of the surface mask and of the surfaces; the thread pool, whose jobs are the
-- events; the upload of the surface mask;
-- logging, timing, OpenGL, and the user interface but for the two
-- functions of the viewer named above, into which the camera and the requests of the rays come as arguments.
pub mod App
pub mod Base
pub mod Core
pub mod Data
pub mod Render
pub mod Store
pub mod Zarr
