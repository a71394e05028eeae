-- ===== src/Lib.antt =====
-- Turbine governor: the regulator (Regulator/src) runs the control of a turbine over an image of its
-- inputs and outputs, and publishes the image as a Modbus server; the operator's interface (HMI/src)
-- reads and writes it as a Modbus master. This library models the parts below and proves what they
-- promise.
--
-- Parts and files:
--   Types, Types.Float, Types.IoVar   includes/CommonTypes.h and Regulator/src/CommonRegTypes.h
--   AlarmManager, AlarmManager.*      Regulator/src/AlarmManager.cpp, includes/Alarms.h
--   Image, Image.*                    Regulator/src/IOImage.cpp, over an interface of the two drivers
--   Control, Control.*                Regulator/src/Control.cpp
--   Regulator, Regulator.*            the start and the loop of Regulator/src/main.cpp
--   Field, Field.*                    Regulator/src/FieldDriver: EthercatDrv.cpp, its devices (AnalogDev.cpp,
--                                     DigitalDev.cpp, PulseDev.cpp, EtherDevice.cpp) and DeviceFactory.cpp
--   Slave, Slave.*                    Regulator/src/SlaveDriver/ModbusSlaveDrv.cpp, and the decoders of
--                                     HMI/src/MasterDriver/ModbusMasterDrv.cpp (Slave.Wire)
--   Xml                               the readers of attributes in the configuration files
--   Master, Master.*                  HMI/src/MasterDriver/ModbusMasterDrv.cpp
--   RegImage, RegImage.*              HMI/src/RegImage.cpp and the types of HMI/src/CommonHMITypes.h
--   AlarmsWdg, AlarmsWdg.*            HMI/src/AlarmsWdg.cpp
--   Widgets, Widgets.*                HMI/src: PIDTableModel.cpp, ControlOptWdg.cpp, ControlWdg.cpp,
--                                     PositionCtrlWdg.cpp, and the positions of TurbineViewWdg.cpp
--   RtMeasurer, RtMeasurer.*          HMI/src/RTMeasurer.cpp
--   Base, Base.*                      lists, words, bits, dictionaries that all parts share
--   Tests, Tests.*                    runs on concrete inputs
--
-- How they interact: a cycle of the regulator reads the inputs through the drivers into the image,
-- lets the alarm manager check the drivers, runs the control on image and alarms, and writes the
-- outputs with the words of the alarm manager. The image sees the slave driver through the record
-- Image.SlaveOps, whose laws are Image.Keeps.SlaveLaws; Slave.Promises fills them. In the HMI the image
-- of the regulator asks the master driver for writes (RegImage.Image.serve) and takes from it the
-- addresses that changed; the driver's callbacks tell it of the writes that are done or too late.
--
-- State and operations: an object is a record of its fields, a method is a function from the record
-- to the record and what it returns, with the name of the method. Undefined behaviour, such as an
-- access past the end of an array or through a null pointer, is the result `none`. A `float` is a
-- value of a type parameter with its operations; an integer of w bits is a native number with the
-- wrap-around written out where the program can reach it.
--
-- libmodbus, libxml, the sockets of the system and its clock are parameters: `Net` and `MasterNet`
-- hold the answers of the network in one round of a driver's thread, `Modbus` those of libmodbus to
-- `init`, `Bus`, `Exchange` and `Soem` those of SOEM, `Token` the tokens of QXmlStreamReader,
-- `Document` what libxml makes of a file, and `FloatCodec` the conversion of a float to two
-- registers. What a theorem asks of them is a hypothesis with a name: `AcceptsFresh` (accept returns a
-- descriptor that is not in use and leaves the server's socket) and `Allocates` (new tables have the
-- sizes asked for). The sizes that `init` asks for are products of 32 bits; `Small` says of a
-- configuration that none of them wraps. In the runs of the regulator every read of a variable has a
-- time of its own, and the field driver answers each cycle as it likes (`Regulator.Running.Moment`).
--
-- Threads: the methods of a driver and the rounds of its thread are steps, taken in any order
-- (`Slave.Invariant.Step`, `Master.History.Call`, `Regulator.Cycles.Reached`,
-- `Field.Reached.Served`); each holds the driver's
-- mutex while it works. A read of the state outside the mutex, and the sleeps in which the mutex is
-- free, are not modelled as points of their own.
--
-- Fuel: the loop of `processPendingRequests` runs over descriptors below FD_SETSIZE = 1024; the tries
-- of an answer, a read or a write end after four rounds; the wait of the field driver's `init` has 201
-- rounds, and the reader of the HMI's file one round more than there are tokens. The loops of the model
-- have as many rounds.
--
-- Not modelled: the plots and the main window of the HMI, the texts of its widgets, the drawing with Qt,
-- and the libraries under includes/ and libs/.
pub mod Base
pub mod Types
pub mod Xml
pub mod AlarmManager
pub mod AlarmsWdg
pub mod Image
pub mod Control
pub mod RegImage
pub mod Regulator
pub mod Field
pub mod RtMeasurer
pub mod Slave
pub mod Master
pub mod Widgets
pub mod Tests
