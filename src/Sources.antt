-- ===== src/Sources.antt =====
-- src/data_sources: what each source discovers.
pub mod Gfs
pub mod Glm
pub mod Lister
pub mod Radar
pub mod Wrf
pub mod Ecmwf
pub mod Abi
pub mod Inta
