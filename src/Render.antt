-- ===== src/Render.antt =====
-- src/render.
pub mod GpuBrickCache
pub mod Planner
pub mod Uploader
pub mod SurfaceMask
pub mod Assembler
