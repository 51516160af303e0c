-- ===== src/Core.antt =====
-- The shared library of the controllers: aquaOneCore.
pub mod Storage
pub mod Network
pub mod Time
pub mod Runtime
pub mod Web
pub mod Safety
pub mod Alarms
