-- ===== src/Types.antt =====
-- includes/CommonTypes.h: the states of drivers and of signals, and the address of a variable.
pub mod Float
pub mod IoVar
pub mod Addr
use turbine_governor.Base.{ℕ, Bool, ◌&&◌, ◌==◌, if◌then◌else◌}

pub data DrvState : Type 0 where
  running stopped com_error var_error un_init : DrvState

pub data QuState : Type 0 where
  ok over_range under_range com_error : QuState

pub data TurbType : Type 0 where
  francis kaplan pelton : TurbType

-- The values of the enumeration `QuState`, which go over the wire.
abbrev pub qu_code : QuState → ℕ
qu_code QuState.ok = 0
qu_code QuState.over_range = 1
qu_code QuState.under_range = 2
qu_code QuState.com_error = 3

-- A cast of an integer to `QuState`; the program casts two bits only.
abbrev pub qu_of_code : ℕ → QuState
qu_of_code n =
    if n == 0
    then QuState.ok
    else if n == 1
    then QuState.over_range
    else if n == 2
    then QuState.under_range
    else QuState.com_error

-- Four bytes.
pub record IoAddr : Type 0 where
  pub header : ℕ
  pub mod_no : ℕ
  pub channel : ℕ
  pub num_bits : ℕ

abbrev pub no_addr : IoAddr
no_addr = record { header = 0; mod_no = 0; channel = 0; num_bits = 0 }

abbrev pub same_addr : IoAddr → IoAddr → Bool
same_addr a b =
    b.header == a.header
    && b.mod_no == a.mod_no
    && b.channel == a.channel
    && b.num_bits == a.num_bits
