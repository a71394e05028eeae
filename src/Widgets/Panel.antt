-- ===== src/Widgets/Panel.antt =====
-- HMI/src/ControlWdg.cpp: the state of the widget, `varChanged`, and what its buttons ask of the image.
-- The texts of the measures are left out. `as_bool` is whether a float is not zero as an `int`.
use turbine_governor.Base.{
  ℕ, Bool, true, false, not, ◌&&◌, ◌||◌, Option, none, some, List, [], ◌∷◌, ltb, ◌==◌,
  if◌then◌else◌,
}
use turbine_governor.Base.Dict
use turbine_governor.Types.Float.{FloatOps}
use turbine_governor.RegImage.Setup.{zc_reg_pwsp, zc_reg_opsp, zc_reg_ssp, zr_reg_pwsp, zr_reg_opsp}

abbrev pub y_reg_state : ℕ
y_reg_state = 3000000000

abbrev pub y_reg_loc : ℕ
y_reg_loc = 1000000013

abbrev pub hmsm_reg_str : ℕ
hmsm_reg_str = 2000000000

abbrev pub hmsm_reg_stp : ℕ
hmsm_reg_stp = 2000000001

abbrev pub hmsm_reg_unl : ℕ
hmsm_reg_unl = 2000000002

abbrev pub hmsm_reg_trip : ℕ
hmsm_reg_trip = 2000000003

abbrev pub hmsm_reg_spok : ℕ
hmsm_reg_spok = 2000000008

abbrev pub hmsm_reg_pwreg : ℕ
hmsm_reg_pwreg = 2000000009

abbrev pub hmsm_reg_opreg : ℕ
hmsm_reg_opreg = 2000000010

-- The values of RegState that the decisions name.
abbrev pub reg_vacio : ℕ
reg_vacio = 4

abbrev pub reg_isla : ℕ
reg_isla = 5

abbrev pub reg_potencia : ℕ
reg_potencia = 6

abbrev pub reg_apertura : ℕ
reg_apertura = 7

pub data Lamp : Type 0 where
  on off no : Lamp

-- What txtSP shows: a set point with the unit of a variable.
pub data Display (F : Type 0) : Type 0 where
  blank : Display F
  set_point : F → ℕ → Display F

pub record Panel (F : Type 0) : Type 0 where
  pub last_frec_sp : F
  pub last_pw_sp : F
  pub last_op_sp : F
  pub last_reg_st : ℕ
  pub reg_in_loc : Bool
  pub sp_enabled : Bool
  pub sp_limits_of : ℕ  -- the variable whose limits the input of the set point has
  pub sp_display : Display F
  pub types_enabled : Bool
  pub type_a_checked : Bool
  pub type_p_checked : Bool
  pub controls_enabled : Bool
  pub lamps : List (ℕ × Lamp)
  pub loc_lamp : Lamp
  pub rem_lamp : Lamp

-- What a button asks of the image.
pub data Request (F : Type 0) : Type 0 where
  write_var : ℕ → F → Request F
  as_button : ℕ → Bool → Request F

abbrev pub lamp_of : Bool → Lamp → Lamp → Lamp
lamp_of b x y = if b then x else y

-- The indicator of a variable: of the turbine, of an overspeed, of a breaker.
unfoldable pub indicator : ℕ → Bool → Option Lamp
indicator id b =
    if id == 1000000007 || id == 1000000006 || id == 1000000005 || id == 1000000004
    then some (lamp_of b Lamp.on Lamp.no)
    else if id == 1000000002 || id == 1000000003
    then some (lamp_of b Lamp.no Lamp.off)
    else if id == 5 || id == 6
    then some (lamp_of b Lamp.on Lamp.off)
    else none

module _ {F : Type 0} where
  unfoldable pub update_sp_display_txt : Panel F → Panel F
  update_sp_display_txt p = record p {
    sp_display =
        if ltb p.last_reg_st reg_vacio
        then Display.blank
        else if p.last_reg_st == reg_vacio || p.last_reg_st == reg_isla
        then Display.set_point p.last_frec_sp zc_reg_ssp
        else if p.last_reg_st == reg_potencia
        then Display.set_point p.last_pw_sp zc_reg_pwsp
        else Display.set_point p.last_op_sp zc_reg_opsp;
  }

  unfoldable pub update_sp_state : Panel F → Panel F
  update_sp_state p =
      let enable = ltb 5 p.last_reg_st && not p.reg_in_loc in
      record p {
        sp_enabled = enable;
        sp_limits_of =
            if enable
            then (if p.last_reg_st == reg_apertura then zr_reg_opsp else zr_reg_pwsp)
            else p.sp_limits_of;
      }

  unfoldable pub update_reg_change_buttons : Panel F → Panel F
  update_reg_change_buttons p = record p {
    types_enabled = not p.reg_in_loc && ltb 5 p.last_reg_st;
    type_a_checked =
        if not p.reg_in_loc then not (p.last_reg_st == reg_potencia) else p.type_a_checked;
    type_p_checked =
        if not p.reg_in_loc then not (p.last_reg_st == reg_apertura) else p.type_p_checked;
  }

  unfoldable pub set_reg_state : ℕ → Panel F → Panel F
  unfolding update_sp_state update_sp_display_txt update_reg_change_buttons
  set_reg_state st p =
      update_reg_change_buttons
        (update_sp_display_txt (update_sp_state (record p { last_reg_st = st })))

  unfoldable pub set_loc : Bool → Panel F → Panel F
  unfolding update_sp_state update_reg_change_buttons
  set_loc b p =
      let q = update_reg_change_buttons (
        update_sp_state (record p {
          loc_lamp = lamp_of b Lamp.on Lamp.no;
          rem_lamp = lamp_of b Lamp.no Lamp.on;
          reg_in_loc = b;
        })) in
      record q { controls_enabled = not q.reg_in_loc }

  unfoldable pub light : Option Lamp → ℕ → Panel F → Panel F
  unfolding Dict.assign
  light none id p = p
  light (some lamp) id p = record p { lamps = Dict.assign ◌==◌ id lamp p.lamps }

  module _ (fl : FloatOps F) (as_bool : F → Bool) where
    -- `varChanged` for the id and the current value of an image.
    unfoldable pub var_changed : ℕ → F → Panel F → Panel F
    unfolding set_reg_state set_loc update_sp_display_txt indicator light
    var_changed id x p =
        if id == y_reg_state
        then set_reg_state (fl.to_unsigned 32 x) p
        else if id == y_reg_loc
        then set_loc (as_bool x) p
        else if id == zc_reg_pwsp
        then update_sp_display_txt (record p { last_pw_sp = x })
        else if id == zc_reg_opsp
        then update_sp_display_txt (record p { last_op_sp = x })
        else if id == zc_reg_ssp
        then update_sp_display_txt (record p { last_frec_sp = x })
        else light (indicator id (as_bool x)) id p

  -- The variable that `on_cmdSendSP_clicked` writes, and its requests; `accepted` is what the write
  -- returns.
  abbrev pub sp_target : Panel F → ℕ
  sp_target p = if p.last_reg_st == reg_potencia then zr_reg_pwsp else zr_reg_opsp

  unfoldable pub send_sp : F → Bool → Panel F → List (Request F)
  send_sp typed accepted p =
      Request.write_var (sp_target p) typed
      ∷ (if accepted then Request.as_button hmsm_reg_spok true ∷ [] else [])

  abbrev pub cmd_start : Request F
  cmd_start = Request.as_button hmsm_reg_str true

  abbrev pub cmd_stop : Request F
  cmd_stop = Request.as_button hmsm_reg_stp true

  abbrev pub cmd_trip : Request F
  cmd_trip = Request.as_button hmsm_reg_trip false

  abbrev pub cmd_unl : Request F
  cmd_unl = Request.as_button hmsm_reg_unl true

  abbrev pub reg_type_button : ℕ → Request F
  reg_type_button id =
      if id == 0
      then Request.as_button hmsm_reg_pwreg true
      else Request.as_button hmsm_reg_opreg true
