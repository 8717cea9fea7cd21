-- ===== src/Store.antt =====
-- src/store.
pub mod ReadRange
pub mod Http
pub mod Files
pub mod Local
pub mod DiskCache
pub mod Gdct
