-- ===== src/Core.antt =====
-- src/core: the containers and threads that the other libraries of the viewer stand on.
pub mod LruCache
