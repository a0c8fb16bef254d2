-- ===== src/Cloud.antt =====
-- The cloud client: `DeLonghiApi` (custom_components/delonghi_coffee/api.py).
pub mod Send
pub mod Ping
pub mod Retry
pub mod Token
pub mod Client
mod Examples
