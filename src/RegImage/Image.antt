-- ===== src/RegImage/Image.antt =====
-- `RegImage` of HMI/src/RegImage.cpp: its variables, what the widgets ask of it, and `updateImage`,
-- over the master driver. `none` is an access through a null pointer.
use Prim.Native.String.{String}
use turbine_governor.Base.{
  ℕ, ◌+◌, Bool, true, false, not, ◌&&◌, Option, none, some, List, [], ◌∷◌, ◌++◌, length, get_elem?,
  leb, ltb, ◌==◌, u32, if◌then◌else◌, ◌>>=◌,
}
use turbine_governor.Base.Dict
use turbine_governor.Base.DictLaws.{or_else}
use turbine_governor.Base.Int.{ℤ, pos}
use turbine_governor.Types.{DrvState, QuState, IoAddr, same_addr}
use turbine_governor.Master.State.{MasterDrv}
use turbine_governor.Master.Queue.{write, force}
use turbine_governor.Master.Reading.{has_addr}
use turbine_governor.Master.Access.{VarImage, read_var, read_int, get_changed_vars}
use turbine_governor.RegImage.Buttons.{
  Buttons, ButtonWrites, write_as_button, driver_write_time_out, driver_write_success,
}

pub record RegVar (F : Type 0) : Type 0 where
  pub var_id : ℕ
  pub egu_min : F
  pub egu_max : F
  pub addr : IoAddr
  pub units : String
  pub tag : String
  pub desc : String

pub data Signal (F : Type 0) : Type 0 where
  all_vars_updated com_error recovered_from_com_error : Signal F
  var_changed : VarImage F → Signal F
  ro_int_changed : ℕ → ℕ → Signal F
  write_error : ℕ → Signal F

-- The three maps hold pointers to the same objects: places in `reg_vars`. `usLastVarChanges` is none
-- for a null pointer.
pub record RegImage (F : Type 0) : Type 0 where
  pub reg_vars : List (RegVar F)
  pub vars : List (IoAddr × ℕ)
  pub slave_vars : List (ℕ × ℕ)
  pub field_vars : List (ℕ × ℕ)
  pub num_logic_error_ints : ℕ
  pub num_field_st_ints : ℕ
  pub vars_to_update : ℕ
  pub last_var_changes : Option (List IoAddr)
  pub buttons : Buttons

abbrev pub default_write_timeout : ℕ
default_write_timeout = 1000

abbrev pub is_running : DrvState → Bool
is_running DrvState.running = true
is_running _ = false

module _ {F : Type 0} where
  abbrev pub slave_first : ℕ → RegImage F → Option ℕ
  unfolding Dict.lookup
  slave_first id s = or_else (Dict.lookup ◌==◌ id s.slave_vars) (Dict.lookup ◌==◌ id s.field_vars)

  abbrev pub field_first : ℕ → RegImage F → Option ℕ
  unfolding Dict.lookup
  field_first id s = or_else (Dict.lookup ◌==◌ id s.field_vars) (Dict.lookup ◌==◌ id s.slave_vars)

  -- What a getter returns: the field of the variable, or the default where there is none.
  unfoldable pub get_of : {A : Type 0} → Option ℕ → (RegVar F → A) → A → RegImage F → Option A
  get_of none f default s = some default
  get_of (some p) f default s = get_elem? s.reg_vars p >>= λ v. some (f v)

  abbrev pub get_var_min : F → ℕ → RegImage F → Option F
  get_var_min zero_val id s = get_of (slave_first id s) (λ v. v.egu_min) zero_val s

  abbrev pub get_var_max : F → ℕ → RegImage F → Option F
  get_var_max zero_val id s = get_of (slave_first id s) (λ v. v.egu_max) zero_val s

  abbrev pub get_var_units : ℕ → RegImage F → Option String
  get_var_units id s = get_of (slave_first id s) (λ v. v.units) "" s

  abbrev pub get_var_tag : ℕ → RegImage F → Option String
  get_var_tag id s = get_of (field_first id s) (λ v. v.tag) "" s

  abbrev pub get_var_desc : ℕ → RegImage F → Option String
  get_var_desc id s = get_of (field_first id s) (λ v. v.desc) "" s

  unfoldable pub write_var : ℕ → F → ℕ → RegImage F → MasterDrv F → Option (Bool × MasterDrv F)
  unfolding Dict.lookup
  write_var id val now s m = elim (Dict.lookup ◌==◌ id s.slave_vars) [
    | none ↦ some (false, m)
    | some p ↦ get_elem? s.reg_vars p >>= λ v. some (write val v.addr default_write_timeout now m)
  ]

  unfoldable pub force_var :
      ℕ → F → Bool → ℕ → RegImage F → MasterDrv F → Option (Bool × MasterDrv F)
  unfolding Dict.lookup
  force_var id val on now s m = elim (Dict.lookup ◌==◌ id s.field_vars) [
    | none ↦ some (false, m)
    | some p ↦
        get_elem? s.reg_vars p >>= λ v. some (force val v.addr on default_write_timeout now m)
  ]

  abbrev pub one_or_zero : (ℤ → F) → Bool → F
  one_or_zero of_int b = of_int (pos (if b then 1 else 0))

  -- The driver is asked only where the address is in no table of buttons.
  unfoldable pub write_button :
      (ℤ → F) → IoAddr → Bool → ℕ → RegImage F → MasterDrv F → Bool × RegImage F × MasterDrv F
  unfolding write_as_button
  write_button of_int a val now s m =
      let (accepted, m') = write (one_or_zero of_int val) a default_write_timeout now m in
      let (ok, b) = write_as_button a val accepted s.buttons in
      (ok, record s { buttons = b }, if ok then m' else m)

  unfoldable pub write_var_as_button :
      (ℤ → F) → ℕ → Bool → ℕ → RegImage F → MasterDrv F → Option (Bool × RegImage F × MasterDrv F)
  unfolding Dict.lookup write_button
  write_var_as_button of_int id val now s m = elim (Dict.lookup ◌==◌ id s.slave_vars) [
    | none ↦ some (false, s, m)
    | some p ↦ get_elem? s.reg_vars p >>= λ v. some (write_button of_int v.addr val now s m)
  ]

  -- The loop of `processUncompletedWrites`.
  unfoldable pub serve : (ℤ → F) → ℕ → ButtonWrites → MasterDrv F → ButtonWrites × MasterDrv F
  serve of_int now [] m = ([], m)
  serve of_int now ((a, val) ∷ ws) m =
      let (accepted, m') = write (one_or_zero of_int val) a default_write_timeout now m in
      let rest = serve of_int now ws m' in if accepted then rest else ((a, val) ∷ ws, m)

  unfoldable pub new_var_updated : IoAddr → RegImage F → RegImage F × List (Signal F)
  new_var_updated a s = elim s.last_var_changes [
    | none ↦ (s, [])
    | some noted ↦
        let noted' = if has_addr a noted then noted else a ∷ noted in
        if length noted' == s.vars_to_update
        then (record s { last_var_changes = none }, Signal.all_vars_updated ∷ [])
        else (record s { last_var_changes = some noted' }, [])
  ]

  abbrev pub io_ints : RegImage F → ℕ
  io_ints s = u32 (s.num_field_st_ints + s.num_logic_error_ints)

  abbrev pub blank_image : F → RegVar F → VarImage F
  blank_image zero_val v = record {
    var_id = v.var_id;
    time_s = 0;
    true_val = zero_val;
    forced_val = zero_val;
    egu_min = v.egu_min;
    egu_max = v.egu_max;
    q_state = QuState.ok;
    forced = false;
    units = v.units;
  }

  abbrev pub announce : IoAddr → Signal F → RegImage F → RegImage F × List (Signal F)
  announce a signal s = let (t, more) = new_var_updated a s in (t, signal ∷ more)

  abbrev pub announce_int : Option ℕ → IoAddr → RegImage F → RegImage F × List (Signal F)
  announce_int none a s = (s, [])
  announce_int (some val) a s = announce a (Signal.ro_int_changed val a.channel) s

  abbrev pub announce_var : Option (VarImage F) → IoAddr → RegImage F → RegImage F × List (Signal F)
  announce_var none a s = (s, [])
  announce_var (some image) a s = announce a (Signal.var_changed image) s

  -- One turn of the loop of `updateImage`.
  unfoldable pub update_var :
      F → IoAddr → MasterDrv F → RegImage F → Option (RegImage F × List (Signal F))
  unfolding Dict.lookup new_var_updated
  update_var zero_val a m s =
      if ltb 0 (io_ints s) && leb 1 a.channel && leb a.channel (io_ints s)
      then some (announce_int (read_int a m) a s)
      else elim (Dict.lookup same_addr a s.vars) [
        | none ↦ some (s, [])
        | some p ↦ get_elem? s.reg_vars p >>= λ v.
            some (announce_var (read_var a m (blank_image zero_val v)) a s)
      ]

  unfoldable pub update_vars :
      F → List IoAddr → MasterDrv F → RegImage F → Option (RegImage F × List (Signal F))
  update_vars zero_val [] m s = some (s, [])
  update_vars zero_val (a ∷ as_) m s = update_var zero_val a m s >>= λ (t, signals).
      update_vars zero_val as_ m t >>= λ (u, more). some (u, signals ++ more)

  unfoldable pub update_image :
      (ℤ → F) → ℕ → RegImage F → MasterDrv F → Option (RegImage F × MasterDrv F × List (Signal F))
  unfolding serve update_vars get_changed_vars
  update_image of_int now s m =
      if not (is_running m.state)
      then some (s, m, [])
      else (let (left, m') = serve of_int now s.buttons.uncompleted m in
          let (changes, m'') = get_changed_vars m' in
          update_vars (of_int (pos 0)) changes m''
            (record s { buttons = record s.buttons { uncompleted = left } })
          >>= λ (t, signals). some (t, m'', signals))

  -- `driverWriteTimeOut`, from the entry of the address in `mumVars` on.
  unfoldable pub on_write_time_out : IoAddr → RegImage F → Option (RegImage F × List (Signal F))
  unfolding Dict.lookup driver_write_time_out
  on_write_time_out a s = elim (Dict.lookup same_addr a s.vars) [
    | none ↦ some (s, [])
    | some p ↦
        let (signals, b) = driver_write_time_out a s.buttons in
        if signals
        then (get_elem? s.reg_vars p >>= λ v.
            some (record s { buttons = b }, Signal.write_error v.var_id ∷ []))
        else some (record s { buttons = b }, [])
  ]

  unfoldable pub on_write_success : IoAddr → RegImage F → RegImage F
  unfolding driver_write_success
  on_write_success a s = record s { buttons = driver_write_success a s.buttons }
