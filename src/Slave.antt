-- ===== src/Slave.antt =====
-- Regulator/src/SlaveDriver/ModbusSlaveDrv.cpp, the Modbus server of the regulator: the bytes on the
-- wire, the state of the driver, and the access to its registers.
pub mod Wire
pub mod State
pub mod Access
pub mod Bounds
pub mod Publish
pub mod Server
pub mod Connections
pub mod Serve
pub mod Config
pub mod Lifecycle
pub mod Frame
pub mod Reach
pub mod Rounds
pub mod Sizes
pub mod Wraps
pub mod Setup
pub mod System
pub mod Invariant
pub mod Outage
pub mod Promises
