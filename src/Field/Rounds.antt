-- ===== src/Field/Rounds.antt =====
-- A round of the thread of EthercatDrv.cpp, `driverLoop`, and the map of failed variables.
use turbine_governor.Base.{
  ℕ, ◌≡◌, refl, inl, inr, false, not, ◌||◌, some, List, length, ◌==◌, ◌>>=◌, Bool-cases,
}
use turbine_governor.Base.DictLaws
use turbine_governor.Types.{DrvState, same_addr}
use turbine_governor.Field.Errors.{Unique}
use turbine_governor.Field.Bus.{check_slaves_wkc}
use turbine_governor.Field.Drive.{
  EthercatDrv, Exchange, is_off, is_com_error, update_devices, loop_round, note_errors, is_empty,
}
use turbine_governor.Field.Agree.{Every, some-Every, bind-Every}
use turbine_governor.Field.Service.{AllAgree, DevicesUpdated, update_devices-Every}

module _ {F : Type 0} where
  -- Every device agrees with the map, and neither the devices nor the map have an address twice.
  unfoldable pub Consistent : EthercatDrv F → Type 0
  Consistent s =
      AllAgree s.devices s.var_errors × Unique s.var_errors × DictLaws.Unique same_addr s.devices

  note_errors-Consistent : (s : EthercatDrv F) → Consistent s → Consistent (note_errors s).0
  unfolding Consistent
  note_errors-Consistent s h =
      elim (Bool-cases (not (is_empty s.modules.module_errors) || not (is_empty s.var_errors))) [
        | inl failed ↦ rw failed h
        | inr good ↦ rw good h
      ]

  module _ (millis : ℕ → F) where
    updated-Consistent :
        (x : Exchange) (s t : EthercatDrv F) (failed : List ℕ)
        → Consistent s
        → t.devices ≡ s.devices
        → t.var_errors ≡ s.var_errors
        → Every
            (λ r. Consistent r.0)
            (update_devices millis x.clocks failed t.io t.devices t.var_errors >>= λ (ds, errs).
              some (note_errors (record t { devices = ds; var_errors = errs })))
    unfolding Consistent Every
    updated-Consistent x s t failed (agree, unique, distinct) same same_errs =
        rw (same, same_errs)
          (bind-Every (λ r. Consistent r.0)
            (update_devices millis x.clocks failed t.io s.devices s.var_errors) _
            (λ (ds, errs) e.
              let done : DevicesUpdated s.devices s.var_errors (ds, errs) =
                update_devices-Every millis x.clocks failed t.io s.devices s.var_errors distinct
                  agree unique (ds, errs) e in
              let u : EthercatDrv F = record t { devices = ds; var_errors = errs } in
              some-Every (λ r. Consistent r.0) (note_errors u)
                (note_errors-Consistent u (done.agree, done.unique, done.distinct))))

    pub loop_round-Consistent :
        (x : Exchange) (s : EthercatDrv F)
        → Consistent s
        → Every (λ r. Consistent r.0) (loop_round millis x s)
    unfolding loop_round Consistent
    loop_round-Consistent x s h = elim (Bool-cases (is_off s.state)) [
      | inl off ↦ rw off (some-Every (λ r. Consistent r.0) (s, false) h)
      | inr on ↦ rw on (
          bind-Every (λ r. Consistent r.0) (check_slaves_wkc x.bus s.modules) _
            (λ m e.
              let t : EthercatDrv F = record s {
                io = record s.io { inputs = x.inputs };
                modules = m;
              } in
              elim (Bool-cases (length m.module_errors == m.slave_count)) [
                | inl all ↦ rw all (
                    some-Every (λ r. Consistent r.0)
                      (record t { state = DrvState.com_error }, not (is_com_error s.state)) h)
                | inr some_left ↦
                    rw some_left (updated-Consistent x s t m.module_errors h refl refl)
              ]))
    ]
