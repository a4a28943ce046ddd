-- ===== src/Config.antt =====
-- resolver/internal/config/config.go: settings from the environment.
pub mod Env
pub mod Validation
pub mod FromEnv
