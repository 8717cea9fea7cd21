-- ===== src/Zarr.antt =====
-- src/zarr.
pub mod Json
pub mod ArrayMeta
pub mod Multiscale
pub mod Codec
pub mod OmeZarrVolume
