-- ===== src/Runtime.antt =====
-- runtime/src: the constants of the native runtime, its weights, and its apis.
pub mod Constants
pub mod Weights
pub mod Apis
