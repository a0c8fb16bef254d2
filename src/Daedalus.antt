-- ===== src/Daedalus.antt =====
-- The second integration, for the machines of My Coffee Lounge: custom_components/delonghi_daedalus.
pub mod Protocol
pub mod Connect
pub mod Session
pub mod Redact
mod Examples
