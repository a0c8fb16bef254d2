-- ===== src/Lan.antt =====
-- The local server: custom_components/delonghi_coffee/lan.py.
pub mod Crypto
pub mod Server
pub mod Device
mod Examples
