-- ===== src/Sensors.antt =====
-- The entities that show the counters and the alarms: custom_components/delonghi_coffee/sensor.py and
-- binary_sensor.py.
pub mod Counter
pub mod Alarm
pub mod Learning
pub mod Laws
mod Examples
