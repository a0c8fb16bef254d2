-- ===== src/Lib.antt =====
-- De'Longhi Coffee for Home Assistant: the protocol and control logic of two integrations.
--
-- custom_components/delonghi_coffee drives the WiFi coffee machines through the Ayla cloud, or on the
-- local network where the machine allows it. Commands are short binary frames ("ECAM"): they are built
-- from stored recipes or from a user's settings, sealed with a checksum, and posted to a property of
-- the device; the machine's answers are payloads that the client parses.
--
-- Files and the code they model:
--   * Prelude: tests, lists, integers, bit operations, dictionaries and exceptions as the Python code
--     uses them. Python's integers are unbounded: shifts and exclusive or keep every bit, and a byte is
--     checked where the source builds a bytes object. Integers that a caller may pass with any sign are
--     Prelude.Int.ℤ.
--   * Ecam: custom_components/delonghi_coffee/api.py, the part that needs no network. Ecam.Crc is
--     `_crc16`, Ecam.Params the two loops over recipe parameters, Ecam.Brew `_recipe_to_brew_command`,
--     Ecam.Custom the first part of `brew_custom`, Ecam.Command the short commands and the Bean Adapt
--     commands, Ecam.Text `_decode_utf16` and `_encode_bean_name`, Ecam.Monitor `_parse_monitor_v2`.
--     Ecam.Catalog holds tables of const.py, and Ecam.Frame says what a receiver checks of a frame.
--   * Cloud: the class DeLonghiApi of the same file. Cloud.Send is `_build_packet`, `send_command` and the
--     routing of `__init__`, Cloud.Ping `ping_connected`, Cloud.Retry the decorator `_retry`, Cloud.Token
--     `authenticate`, `_ensure_token` and `_clamp_token_ttl`, and Cloud.Client puts them together as the
--     method is called. The servers and the clocks are functions that the definitions take; what the
--     decorated function is, is a parameter of the decorator. The lock is not modelled: each definition
--     is one thread's run under it. Packets are bytes before base64.
--   * Switch: the entity of custom_components/delonghi_coffee/switch.py. Switch.Reconcile is
--     `_reconcile_monitor_state` and `is_on`, Switch.Commands the runs of `async_turn_on`,
--     `async_turn_off` and `_retry_power_on` against what their calls give; the delays are not modelled,
--     but whether a turn-off came in the wake delay is an input.
--   * Rate: RateLimitTracker of custom_components/delonghi_coffee/logger.py.
--   * Redact: the scanner for addresses and `sanitize` of the same file. The other expressions are a function
--     on texts, and what is alphanumeric is a test on characters. Redact.Spec is the reference expression,
--     and what `re.sub` makes of it.
--   * Brewing: `get_status`, `_pre_brew_check` and, in Brewing.Beverage, `brew_beverage` of
--     custom_components/delonghi_coffee/api.py.
--   * Lan: custom_components/delonghi_coffee/lan.py. Lan.Crypto is the padding, the derivation of the session
--     keys and the two directions of encryption, over HMAC-SHA256, AES-CBC and base64 as parameters;
--     Lan.Server is DeLonghiLanServer, with a handler in each of Lan.Server.Handshake and
--     Lan.Server.Traffic and its runs in Lan.Server.Trace; Lan.Device is the device's side, as
--     `run_lan_diagnostic` plays it. The lock makes each handler one step.
--   * Coordinator: custom_components/delonghi_coffee/coordinator.py. Coordinator.Polling is the polling
--     interval, Coordinator.Assess what is made of the status (with all fields of `get_status`),
--     Coordinator.Catalog and Coordinator.Start the one-time loads, Coordinator.Update the cycle
--     `_async_update_data` as a chain of actions (Coordinator.Action) against what its calls give, and
--     Coordinator.Trace its runs. Coordinator.Command is `send_command_lan`, over the packets of Cloud.Send
--     and the queue of Lan.Server.
--   * Content: the patterns and the pages of custom_components/delonghi_coffee/contentstack.py.
--   * Baseline: LocalBaselineStore of custom_components/delonghi_coffee/local_baseline.py.
--   * Sensors: Sensors.Counter is the counter sensor of custom_components/delonghi_coffee/sensor.py over the store
--     of Baseline, and Sensors.Alarm the alarm sensors of binary_sensor.py, with the bits that they share with
--     the coordinator; Sensors.Learning follows these over the cycles. Select is select.py, over the profile
--     that the coordinator takes from the monitor. Counters is `parse_counters` of api.py.
--   * Stored: `parse_profiles`, `parse_bean_systems` and `parse_bean_system_par` of api.py, from the bytes on.
--   * Services: the two services of custom_components/delonghi_coffee/__init__.py that write the store of Baseline.
--   * Model: which machine it is. Model.Serial is `parse_serial_number` of api.py, and Model the table, its fetch and
--     `identify_model`.
--   * Daedalus: custom_components/delonghi_daedalus. Daedalus.Protocol is lan_protocol.py and the answers of
--     gigya_auth.py, Daedalus.Connect `connect_lan` and `refresh_jwt` of api.py, Daedalus.Session a cycle of
--     coordinator.py; each takes what the network gives. Daedalus.Redact is the scrubbing of hosts in
--     redact.py, over the Redact of above for the addresses.
--
-- Loops are recursions on the list that they walk, or on the number of rounds. The loops over pages in
-- Content take fuel, one round more than there are entries, and so do the scanner of Redact, which takes the
-- length of the text, as each round leaves a shorter one, and the digits of a number in Lan.Crypto.Decimal,
-- which takes one round more than the number.
-- Texts of log lines and of exceptions are not modelled, nor is what only Home Assistant does, nor the
-- answers of the sign-in that the header of Cloud.Token leaves out.
pub mod Baseline
pub mod Brewing
pub mod Cloud
pub mod Content
pub mod Coordinator
pub mod Counters
pub mod Daedalus
pub mod Ecam
pub mod Lan
pub mod Model
pub mod Prelude
pub mod Rate
pub mod Redact
pub mod Select
pub mod Sensors
pub mod Services
pub mod Stored
pub mod Switch
