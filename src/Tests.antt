-- ===== src/Tests.antt =====
-- Runs of the definitions on concrete inputs, and examples of the theorems.
mod Alarms
mod Slave
mod Regulator
mod Master
mod Field
mod RtMeasurer
mod RegImage
mod FieldDriver
mod Widgets
