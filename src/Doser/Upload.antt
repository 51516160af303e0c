-- ===== src/Doser/Upload.antt =====
-- The firmware upload of the Doser: the numbers and the body of the request, the slot between the two
-- tasks, and the update itself.
pub mod Size
pub mod Header
pub mod Part
pub mod Feed
pub mod Boundary
pub mod Bridge
pub mod Update
mod Examples
