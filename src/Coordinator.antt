-- ===== src/Coordinator.antt =====
-- The update coordinator: `DeLonghiCoordinator` (custom_components/delonghi_coffee/coordinator.py).
pub mod Action
pub mod Polling
pub mod Assess
pub mod Catalog
pub mod Start
pub mod Update
pub mod Trace
pub mod Command
mod Examples
