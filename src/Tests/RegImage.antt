-- ===== src/Tests/RegImage.antt =====
-- The image of the HMI in HMI/src/RegImage.cpp, run on small configurations.
use Prim.Native.String.{String}
use turbine_governor.Base.{
  ℕ, ◌≡◌, ◌⊎◌, refl, Bool, true, false, not, Option, none, some, List, [], ◌∷◌, ◌++◌, length, leb,
  arith, if◌then◌else◌,
}
use turbine_governor.Base.Dict
use turbine_governor.Types.{IoAddr, no_addr, DrvState}
use turbine_governor.Xml.{Node, Nodes, atoi}
use turbine_governor.Slave.Config.{Document}
use turbine_governor.Master.State.{MasterDrv}
use turbine_governor.Master.Queue.{write}
use turbine_governor.Master.Setup.{
  MasterConfig, init, load_xml_config, read_xml_config, init_loaded, add_vars,
}
use turbine_governor.Master.Ready.{init_cases, IsReady}
use turbine_governor.RegImage.Buttons.{ButtonWrites, no_buttons, write_as_button}
use turbine_governor.RegImage.Pending.{values}
use turbine_governor.RegImage.Tables.{write_at, clean_at, queued_at}
use turbine_governor.RegImage.Presses.{Desk, Step, Reached, at_rest}
use turbine_governor.RegImage.Phases.{Reached-phases}
use turbine_governor.RegImage.Image.{
  RegImage, Signal, serve, new_var_updated, update_image, write_var, force_var, write_var_as_button,
  on_write_time_out,
}
use turbine_governor.RegImage.Refresh.{updates, updates-all, noted_by}
use turbine_governor.RegImage.Info.{
  Token, Parsed, parse_reg_io_info, read_next_start_element, read_vars, parse_xml_var, scan_var,
  note_token, add_var,
}
use turbine_governor.RegImage.Setup.{
  Outside, Started, init_image, init_parsed, init_driver, name_units, change_slave_var,
  change_field_var, construct_image,
}
use turbine_governor.RegImage.Places.{Below, InPlace, parse_reg_io_info-ends}
use turbine_governor.RegImage.Alive.{InUse, InUse-never_stuck}
use turbine_governor.Tests.Regulator.{wholes}
use turbine_governor.Tests.Master.{reader}

abbrev coil : IoAddr
coil = record no_addr { channel = 7 }

abbrev low : IoAddr → Bool
low a = false

-- A button that has been pressed.
abbrev pressed_desk : Desk
pressed_desk = record {
  buttons = record { writes = (coil, true) ∷ []; to_clean = []; uncompleted = [] };
  asked = (coil, true) ∷ [];
  confirmed = low;
}

pressed : Reached low pressed_desk
unfolding write_as_button
pressed = Reached.next Reached.fresh (Step.pressed (at_rest low) coil true)

Reached-phases_example :
    ((write_at coil pressed_desk.buttons ≡ none)
      × (clean_at coil pressed_desk.buttons ≡ none)
      × (values coil pressed_desk.asked ≡ [])
      × (queued_at coil pressed_desk.buttons ≡ [])
      × (pressed_desk.confirmed coil ≡ low coil))
    ⊎ (((write_at coil pressed_desk.buttons ≡ some (not (low coil)))
          × (clean_at coil pressed_desk.buttons ≡ none)
          × (values coil pressed_desk.asked ≡ not (low coil) ∷ [])
          × (queued_at coil pressed_desk.buttons ≡ [])
          × (pressed_desk.confirmed coil ≡ low coil))
        ⊎ ((write_at coil pressed_desk.buttons ≡ none)
            × (clean_at coil pressed_desk.buttons ≡ some (low coil))
            × (values coil pressed_desk.asked ++ queued_at coil pressed_desk.buttons
                ≡ low coil ∷ [])))
Reached-phases_example = Reached-phases low pressed coil

-- Two writes that the driver takes, and one to a channel that it does not have.
abbrev waiting : ButtonWrites
waiting =
    (record no_addr { channel = 2 }, true)
    ∷ (record no_addr { channel = 3 }, false)
    ∷ (record no_addr { channel = 9 }, true)
    ∷ []

left_waiting :
    (serve wholes.of_int 5 waiting reader).0 ≡ (record no_addr { channel = 9 }, true) ∷ []
unfolding serve write
left_waiting = refl

abbrev blank : RegImage ℕ
blank = record {
  reg_vars = [];
  vars = [];
  slave_vars = [];
  field_vars = [];
  num_logic_error_ints = 1;
  num_field_st_ints = 3;
  vars_to_update = 2;
  last_var_changes = some [];
  buttons = no_buttons;
}

abbrev calls : List IoAddr
calls = coil ∷ coil ∷ no_addr ∷ coil ∷ []

signalled : (updates calls blank).1 ≡ Signal.all_vars_updated ∷ []
unfolding updates new_var_updated
signalled = refl

updates-all_example : (updates calls blank).1 ≡ (
    if leb blank.vars_to_update (length (noted_by calls []))
    then Signal.all_vars_updated ∷ []
    else [])
updates-all_example = updates-all calls blank refl (omega arith)

-- A variable of the file, and the file with the variables that `init` names.
abbrev var_tokens : String → String → String → List Token → List Token
var_tokens id fr channel ts =
    Token.start_element "Var" (("ID", id) ∷ ("FR", fr) ∷ [])
    ∷ Token.other
    ∷ Token.start_element "HMI" (("Use", "RW") ∷ [])
    ∷ Token.end_element
    ∷ Token.start_element "RemAddr" (("Head", "0") ∷ ("Mod", "0") ∷ ("Ch", channel) ∷ [])
    ∷ Token.end_element
    ∷ Token.end_element
    ∷ ts

abbrev info_file : List Token
info_file =
    Token.other
    ∷ Token.start_element "RegIOInfo" []
    ∷ Token.start_element "Vars" []
    ∷ var_tokens "3000000001" "R" "5" (
        var_tokens "3000000002" "R" "6" (
          var_tokens "3000000003" "R" "7" (
            var_tokens "2000000012" "R" "8" (
              var_tokens "2000000013" "R" "9" (
                var_tokens "1000000019" "F" "10" (
                  var_tokens "1000000017" "F" "11"
                    (var_tokens "1000000018" "F" "12" (Token.end_document ∷ []))))))))

abbrev nothing_read : Parsed ℕ
nothing_read = record { image = construct_image blank; slave_to_update = []; field_to_update = [] }

nothing_read-InPlace : InPlace nothing_read.image
unfolding Below
nothing_read-InPlace = record { all_vars = tt; all_slave = tt; all_field = tt }

parse_reg_io_info-ends_example :
    (r : Bool × Parsed ℕ) × (parse_reg_io_info (some info_file) (atoi 32) 0 nothing_read ≡ some r)
    × InPlace r.1.image
parse_reg_io_info-ends_example =
    parse_reg_io_info-ends (some info_file) (atoi 32) 0 nothing_read nothing_read-InPlace

abbrev out : Outside
out = record {
  info = some info_file;
  to_uint = atoi 32;
  master_path = "master.xml";
  master_doc = Document.tree (
      some (
        Node.element "MasterDriver"
          (("IP", "10.0.0.1") ∷ ("Port", "1502") ∷ ("NumROInts", "4") ∷ ("NumIOVars", "20") ∷ [])
          Nodes.nil));
  has_context = true;
  error_text = "";
}

abbrev config : MasterConfig
config = record { server_ip = ""; port = 0 }

abbrev fresh_master : MasterDrv ℕ
fresh_master = record reader { state = DrvState.un_init; field_vars = []; modbus_vars = [] }

abbrev not_started : Started ℕ
not_started = record {
  ok = false;
  error_info = none;
  image = blank;
  config = config;
  drv = fresh_master;
}

abbrev started_of : Option (Started ℕ) → Started ℕ
started_of none = not_started
started_of (some r) = r

abbrev ready : Started ℕ
unfolding init_image
ready = started_of (init_image out wholes.of_int 0 config fresh_master (construct_image blank))

ready_eq : init_image out wholes.of_int 0 config fresh_master (construct_image blank) ≡ some ready
unfolding init_image init_parsed init_driver name_units change_slave_var change_field_var
    parse_reg_io_info read_next_start_element read_vars parse_xml_var scan_var note_token add_var
    init load_xml_config read_xml_config init_loaded add_vars Dict.lookup Dict.insert_new atoi
ready_eq = refl

-- Four integers and eight variables; the image asks for three of the four words of field states.
ready_ok :
    (ready.ok ≡ true) × (ready.image.vars_to_update ≡ 12) × (ready.image.num_field_st_ints ≡ 3)
unfolding init_image init_parsed init_driver name_units change_slave_var change_field_var
    parse_reg_io_info read_next_start_element read_vars parse_xml_var scan_var note_token add_var
    init load_xml_config read_xml_config init_loaded add_vars Dict.lookup Dict.insert_new atoi
ready_ok = (refl, refl, refl)

in_use : InUse wholes.of_int ready.image
in_use = InUse.started out 0 blank config fresh_master ready ready_eq ready_ok.0

InUse-never_stuck_example :
    ((r : RegImage ℕ × MasterDrv ℕ × List (Signal ℕ)) × (update_image wholes.of_int 5 ready.image
          reader
        ≡ some r))
    × ((r : Bool × MasterDrv ℕ) × (write_var 3000000001 7 5 ready.image reader ≡ some r))
    × ((r : Bool × MasterDrv ℕ) × (force_var 3000000001 7 true 5 ready.image reader ≡ some r))
    × ((r : Bool × RegImage ℕ × MasterDrv ℕ) × (write_var_as_button wholes.of_int 3000000001 true 5
            ready.image reader
          ≡ some r))
    × ((r : RegImage ℕ × List (Signal ℕ)) × (on_write_time_out coil ready.image ≡ some r))
InUse-never_stuck_example =
    InUse-never_stuck wholes.of_int ready.image in_use 3000000001 5 7 true coil reader

init_cases_example :
    let r = init "master.xml" out.master_doc 0 (coil ∷ []) [] true "" config fresh_master in
    (r.0 ≡ true) × (fresh_master.state ≡ DrvState.un_init) × IsReady 0 (coil ∷ []) [] r.2
    ⊎ (r.0 ≡ false) × (r.2.state ≡ fresh_master.state)
init_cases_example =
    init_cases "master.xml" out.master_doc 0 (coil ∷ []) [] true "" config fresh_master refl refl
