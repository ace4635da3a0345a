-- ===== src/Core.antt =====
-- crates/svr4-fs-core: the image, the field accessors and the on-disk constants.
pub mod Image
pub mod Codec
pub mod Consts
