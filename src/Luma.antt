-- ===== src/Luma.antt =====
-- aquaOneLuma: the light.
pub mod Modes
pub mod Floats
pub mod Levels
pub mod Fade
pub mod Day
mod Examples
