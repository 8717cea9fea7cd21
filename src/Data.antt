-- ===== src/Data.antt =====
-- src/data: brick keys, the cache of decoded bricks, the fetch pipeline and the volume manifest.
pub mod BrickKey
pub mod RamCache
pub mod Volume
pub mod Snic3d
pub mod Decode
pub mod Pipeline
pub mod Manifest
