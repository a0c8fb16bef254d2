-- ===== src/Ecam.antt =====
-- The ECAM frames that the machine speaks (custom_components/delonghi_coffee/api.py).
pub mod Crc
pub mod Catalog
mod Examples
pub mod Frame
pub mod Params
pub mod Brew
pub mod Text
pub mod Custom
pub mod Monitor
pub mod Command
