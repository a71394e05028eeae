-- ===== src/Master.antt =====
-- HMI/src/MasterDriver/ModbusMasterDrv.cpp, the Modbus master of the HMI: its state, the queue of
-- writes, the cycle of reads, and its thread.
pub mod State
pub mod Queue
pub mod Reading
pub mod Access
pub mod Setup
pub mod Ready
pub mod Loop
pub mod Accounts
pub mod History
pub mod Answers
pub mod Reads
