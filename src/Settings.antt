-- ===== src/Settings.antt =====
-- src/config.py and the models it parses into: what a process accepts of its settings.
pub mod Endpoints
pub mod Inputs
