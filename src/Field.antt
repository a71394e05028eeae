-- ===== src/Field.antt =====
-- Regulator/src/FieldDriver: the driver of the field over EtherCAT and its devices.
pub mod Bytes
pub mod Bitfields
pub mod Signals
pub mod Echo
pub mod Errors
pub mod Devices
pub mod Failures
pub mod Bus
pub mod Scan
pub mod Checks
pub mod Kinds
pub mod Access
pub mod Factory
pub mod Made
pub mod Drive
pub mod Init
pub mod Starts
pub mod Pulses
pub mod Agree
pub mod Updates
pub mod Service
pub mod Rounds
pub mod Begins
pub mod Opened
pub mod Reached
