-- ===== src/Worker.antt =====
-- The code of src/worker: one message through download, processing and its disposition.
pub mod Metrics
pub mod Subprocess
pub mod Children
pub mod Teardown
pub mod Site
pub mod Handler
pub mod Messages
pub mod Drain
pub mod Gribs
