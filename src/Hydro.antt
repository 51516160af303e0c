-- ===== src/Hydro.antt =====
-- The water top-up controller: aquaOneHydro/src/hardware, aquaOneHydro/src/hydrosense and the control
-- cycle of aquaOneHydro/src/app/HydroSenseApp.cpp.
pub mod Devices
pub mod Floats
pub mod Topup
pub mod Tank
pub mod Reserve
pub mod Alarm
pub mod Buzzer
pub mod App
mod Examples
