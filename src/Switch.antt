-- ===== src/Switch.antt =====
-- The power switch: `DeLonghiPowerSwitch` (custom_components/delonghi_coffee/switch.py).
pub mod Reconcile
pub mod Commands
mod Examples
