-- ===== src/Config.antt =====
-- pkg/config on macOS: the configuration of finch, its defaults and its validation, how it is loaded
-- and changed, and what Lima gets of it.
pub mod Types
pub mod System
pub mod Defaults
pub mod Validate
pub mod Files
pub mod LimaYaml
pub mod Guest
