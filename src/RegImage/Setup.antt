-- ===== src/RegImage/Setup.antt =====
-- The constructor and `init` of RegImage.cpp. `none` is an access through a null pointer.
use Prim.Native.String.{String}
use turbine_governor.Base.{
  ℕ, zero, suc, ◌+◌, ◌*◌, ◌/◌, Bool, true, false, Option, none, some, List, [], length, get_elem?,
  set, ◌==◌, u32, if◌then◌else◌, ◌>>=◌,
}
use turbine_governor.Base.Dict
use turbine_governor.Base.Int.{ℤ, pos}
use turbine_governor.Types.{IoAddr, no_addr}
use turbine_governor.Slave.Config.{Document}
use turbine_governor.AlarmManager.{num_alarms, fld_in_vars, fld_out_vars}
use turbine_governor.Master.State.{MasterDrv}
use turbine_governor.Master.Setup.{MasterConfig, init}
use turbine_governor.RegImage.Buttons.{no_buttons}
use turbine_governor.RegImage.Image.{RegVar, RegImage}
use turbine_governor.RegImage.Info.{Token, Parsed, insert_addr, delete_reg_vars, parse_reg_io_info}

abbrev pub se_reg_f1 : ℕ
se_reg_f1 = 3000000001

abbrev pub se_reg_f2 : ℕ
se_reg_f2 = 3000000002

abbrev pub se_reg_f3 : ℕ
se_reg_f3 = 3000000003

abbrev pub zc_reg_pwsp : ℕ
zc_reg_pwsp = 1000000017

abbrev pub zc_reg_opsp : ℕ
zc_reg_opsp = 1000000018

abbrev pub zc_reg_ssp : ℕ
zc_reg_ssp = 1000000019

abbrev pub zr_reg_pwsp : ℕ
zr_reg_pwsp = 2000000012

abbrev pub zr_reg_opsp : ℕ
zr_reg_opsp = 2000000013

-- `ceil(NUM_ALARMS / (float) 32)`
abbrev pub logic_error_ints : ℕ
logic_error_ints = (num_alarms + 31) / 32

-- The quotient of integers is rounded down before `ceil` has it.
abbrev pub field_st_ints : ℕ
field_st_ints = (fld_in_vars + fld_out_vars) * 2 / 32

-- The loop that adds the addresses of the integers with channels from 1 on.
abbrev pub add_ints : ℕ → ℕ → List IoAddr → List IoAddr
add_ints zero channel addrs = addrs
add_ints (suc k) channel addrs =
    add_ints k (channel + 1) (insert_addr (record no_addr { channel = channel }) addrs)

-- What Qt, libmodbus and the files give to `init`.
pub record Outside : Type 0 where
  pub info : Option (List Token)
  pub to_uint : String → ℕ
  pub master_path : String
  pub master_doc : Document
  pub has_context : Bool
  pub error_text : String

-- What `init` returns and the error text that it gives, with the objects after it.
pub record Started (F : Type 0) : Type 0 where
  pub ok : Bool
  pub error_info : Option String
  pub image : RegImage F
  pub config : MasterConfig
  pub drv : MasterDrv F

module _ {F : Type 0} where
  -- The counters start with what the memory holds.
  abbrev pub construct_image : RegImage F → RegImage F
  construct_image junk = record junk {
    reg_vars = [];
    vars = [];
    slave_vars = [];
    field_vars = [];
    last_var_changes = none;
    buttons = no_buttons;
  }

  -- A change of the variable with an id; where there is none, `operator[]` gives a null pointer.
  abbrev pub change_at : Option ℕ → (RegVar F → RegVar F) → RegImage F → Option (RegImage F)
  change_at none f s = none
  change_at (some p) f s =
      get_elem? s.reg_vars p >>= λ v. some (record s { reg_vars = set s.reg_vars p (f v) })

  unfoldable pub change_slave_var : ℕ → (RegVar F → RegVar F) → RegImage F → Option (RegImage F)
  unfolding Dict.lookup
  change_slave_var id f s = change_at (Dict.lookup ◌==◌ id s.slave_vars) f s

  unfoldable pub change_field_var : ℕ → (RegVar F → RegVar F) → RegImage F → Option (RegImage F)
  unfolding Dict.lookup
  change_field_var id f s = change_at (Dict.lookup ◌==◌ id s.field_vars) f s

  abbrev pub with_bounds : F → F → RegVar F → RegVar F
  with_bounds low high v = record v { egu_min = low; egu_max = high }

  abbrev pub with_units : String → RegVar F → RegVar F
  with_units text v = record v { units = text }

  -- The units and the bounds that `init` gives.
  unfoldable pub name_units : (ℤ → F) → RegImage F → Option (RegImage F)
  unfolding change_slave_var change_field_var
  name_units of_int s =
      let hertz : RegVar F → RegVar F =
        λ v. with_bounds (of_int (pos 0)) (of_int (pos 60)) (with_units "Hz" v) in
      change_slave_var se_reg_f1 hertz s >>= λ s1. change_slave_var se_reg_f2 hertz s1 >>= λ s2.
      change_slave_var se_reg_f3 hertz s2 >>= λ s3.
      change_field_var zc_reg_ssp (with_units "Hz") s3 >>= λ s4.
      change_field_var zc_reg_pwsp (with_units "MW") s4 >>= λ s5.
      change_field_var zc_reg_opsp (with_units "%") s5 >>= λ s6.
      change_slave_var zr_reg_pwsp (with_bounds (of_int (pos 0)) (of_int (pos 5000))) s6 >>= λ s7.
      change_slave_var zr_reg_opsp (with_bounds (of_int (pos 0)) (of_int (pos 100))) s7

  abbrev pub count_ints : RegImage F → RegImage F
  count_ints s = record s {
    num_logic_error_ints = logic_error_ints;
    num_field_st_ints = field_st_ints;
  }

  -- The variables of the slave to update, with the integers.
  abbrev pub with_ints : RegImage F → List IoAddr → List IoAddr
  with_ints s slave_set =
      add_ints (u32 ((count_ints s).num_field_st_ints + (count_ints s).num_logic_error_ints)) 1
        slave_set

  -- The rest of `init`, from the named units on. `parseRegConfigFile` returns true.
  unfoldable pub init_driver :
      Outside → F → List IoAddr → List IoAddr → MasterConfig → MasterDrv F → RegImage F → Started F
  unfolding init
  init_driver out zero_val slave_set field_set c m s =
      let t = count_ints s in
      let slave_set' = with_ints s slave_set in
      let (ok, c', m') =
        init out.master_path out.master_doc zero_val slave_set' field_set out.has_context
          out.error_text c m in
      if ok
      then record {
        ok = true;
        error_info = none;
        image = record t {
          vars_to_update = u32 (length slave_set' + length field_set);
          last_var_changes = some [];
        };
        config = c';
        drv = m';
      }
      else record {
        ok = false;
        error_info = some "Error en la inicializacion del driver";
        image = delete_reg_vars t;
        config = c';
        drv = m';
      }

  -- `init` after the reader of the variables.
  unfoldable pub init_parsed :
      Outside → (ℤ → F) → MasterConfig → MasterDrv F → Bool × Parsed F → Option (Started F)
  unfolding name_units init_driver
  init_parsed out of_int c m (true, p) = name_units of_int p.image >>= λ t.
      some (init_driver out (of_int (pos 0)) p.slave_to_update p.field_to_update c m t)
  init_parsed out of_int c m (false, p) = some (record {
    ok = false;
    error_info = some "Error en el archivo de informacion de IO";
    image = p.image;
    config = c;
    drv = m;
  })

  unfoldable pub init_image :
      Outside → (ℤ → F) → F → MasterConfig → MasterDrv F → RegImage F → Option (Started F)
  unfolding parse_reg_io_info init_parsed
  init_image out of_int junk c m s =
      parse_reg_io_info out.info out.to_uint junk
        (record { image = s; slave_to_update = []; field_to_update = [] })
      >>= init_parsed out of_int c m
