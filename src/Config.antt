-- ===== src/Config.antt =====
-- The configuration module, src/config.
pub mod Var
pub mod Registry
pub mod Yaml
pub mod Cast
