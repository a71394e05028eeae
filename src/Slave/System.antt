-- ===== src/Slave/System.antt =====
-- The whole driver of ModbusSlaveDrv.cpp as a system of steps: the calls of the regulator, the
-- rounds of the driver's thread, and what the masters write to the tables.
use Prim.Native.String.{String}
use mathlib.Core.Option.{some-injective}
use turbine_governor.Base.{◌≡◌, refl, ap, ◌∙◌, inl, inr, Bool, true, none, some, arith, Bool-cases}
use turbine_governor.Types.{DrvState}
use turbine_governor.Slave.State.{SlaveDrv}
use turbine_governor.Slave.Access.{is_uninit}
use turbine_governor.Slave.Config.{Document, load_xml_config}
use turbine_governor.Slave.Lifecycle.{
  Modbus, erase_drv_config, close, start, start_in, stop, init, with_default_port,
}
use turbine_governor.Slave.Reach.{
  DrvInv, moved, with_sockets, close_sockets-DrvInv, close_sockets-closed, close_sockets-SameTables,
}
use turbine_governor.Slave.Setup.{
  Allocates, Unread, load_xml_config-Unread, init_loaded-DrvInv, bare-DrvInv, no_socket,
}

-- A change of the text of the last error.
reported-DrvInv :
    (s : SlaveDrv) (error : String) → DrvInv s → DrvInv (record s { last_error = error })
reported-DrvInv s error v =
    with_sockets s _
      (record {
        state = refl;
        mapping = refl;
        num_io_vars = refl;
        num_ro_ints = refl;
        com_errors = refl;
      })
      v
      (elim v.sockets [
        | inl shut ↦ inl shut
        | inr (srv, i, k) ↦ inr (srv, moved s _ refl refl refl refl i, k)
      ])

pub init-DrvInv :
    (path : String) (file : Document) (lib : Modbus) (s : SlaveDrv) (b : Bool) (t : SlaveDrv)
    → Allocates lib
    → DrvInv s
    → init path file lib s ≡ some (b, t)
    → DrvInv t
unfolding init
init-DrvInv path file lib s b t a v e =
    let r = (load_xml_config path file s).1 in
    let u : Unread s r = load_xml_config-Unread path file s in
    elim (Bool-cases (is_uninit s.state)) [
      | inr up ↦
          rw⁻¹ (ap (λ x. x.1) (some-injective _ _ (rw up at e)))
            (reported-DrvInv s "Driver ya inicializado" v)
      | inl idle ↦
          let bare : is_uninit r.state ≡ true = ap is_uninit u.state ∙ idle in
          let empty : r.mapping ≡ none = u.mapping ∙ v.bare idle in
          let shut : r.server_sock ≡ none = u.server_sock ∙ no_socket s v idle in
          elim (Bool-cases (load_xml_config path file s).0) [
            | inl read ↦
                init_loaded-DrvInv lib (with_default_port r) b t a bare empty shut
                  (rw (idle, read) at e)
            | inr bad ↦
                rw⁻¹ (ap (λ x. x.1) (some-injective _ _ (rw (idle, bad) at e)))
                  (bare-DrvInv _ bare empty shut)
          ]
    ]

start_in-DrvInv :
    (st : DrvState) (s : SlaveDrv) → s.state ≡ st → DrvInv s → DrvInv (start_in st s).1
start_in-DrvInv DrvState.un_init s e v = v
start_in-DrvInv DrvState.stopped s e v = record {
  bare = λ w. absurd (cc);
  tables = λ w. v.tables (ap is_uninit e);
  failures = λ w. v.failures (ap is_uninit e);
  sockets = elim v.sockets [
    | inl shut ↦ inl shut
    | inr (srv, i, m) ↦ inr (srv, moved s _ refl refl refl refl i, refl)
  ];
}
start_in-DrvInv DrvState.running s e v = v
start_in-DrvInv DrvState.com_error s e v = v
start_in-DrvInv DrvState.var_error s e v = v

pub start-DrvInv : (s : SlaveDrv) → DrvInv s → DrvInv (start s).1
unfolding start
start-DrvInv s v = start_in-DrvInv s.state s refl v

pub stop-DrvInv : (s : SlaveDrv) → DrvInv s → DrvInv (stop s).1
unfolding stop
stop-DrvInv s v = elim (Bool-cases (is_uninit s.state)) [
  | inl idle ↦ rw idle v
  | inr up ↦
      let shut = close_sockets-DrvInv s v in
      let same = close_sockets-SameTables s in
      rw up (record {
        bare = λ w. absurd (cc);
        tables = λ w. shut.tables (ap is_uninit same.state ∙ up);
        failures = λ w. omega arith;
        sockets = inl (close_sockets-closed s);
      })
]

pub close-DrvInv : (s : SlaveDrv) → DrvInv s → DrvInv (close s).0
unfolding close erase_drv_config
close-DrvInv s v = elim (Bool-cases (is_uninit s.state)) [
  | inl idle ↦ rw idle v
  | inr up ↦
      let same = close_sockets-SameTables (record s { state = DrvState.un_init }) in
      rw up (
        bare-DrvInv _ (ap is_uninit same.state) refl
          (close_sockets-closed (record s { state = DrvState.un_init })))
]
