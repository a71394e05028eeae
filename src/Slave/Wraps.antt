-- ===== src/Slave/Wraps.antt =====
-- The sizes that `init` of ModbusSlaveDrv.cpp asks for, where their products wrap at 32 bits.
use turbine_governor.Base.Dict
use turbine_governor.Types.IoVar.{IoVar}
