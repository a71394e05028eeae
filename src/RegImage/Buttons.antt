-- ===== src/RegImage/Buttons.antt =====
-- The writes of buttons in RegImage.cpp: `writeVarAsButton`, `processUncompletedWrites`, and the two
-- callbacks of the driver. A button is a write of a value and, once that is done, one of the opposite.
-- Whether the driver takes a request is an argument.
use turbine_governor.Base.{
  ℕ, suc, Bool, true, false, not, ◌&&◌, Option, none, some, List, [], ◌∷◌, ◌++◌, if◌then◌else◌,
}
use turbine_governor.Base.Dict
use turbine_governor.Types.{IoAddr, same_addr}

abbrev pub ButtonWrites : Type 0
ButtonWrites = List (IoAddr × Bool)

-- `mumButtonWrites`, `mumButtonWritesToClean`, and `mqUncompletedButtonWrites` from its front on.
pub record Buttons : Type 0 where
  pub writes : ButtonWrites
  pub to_clean : ButtonWrites
  pub uncompleted : ButtonWrites

abbrev pub no_buttons : Buttons
no_buttons = record { writes = []; to_clean = []; uncompleted = [] }

abbrev pub is_some {ℓ} : {A : Type ℓ} → Option A → Bool
is_some none = false
is_some (some a) = true

-- `writeVarAsButton` from the address on; `accepted` is what `mMasterDrv->write` returns.
unfoldable pub write_as_button : IoAddr → Bool → Bool → Buttons → Bool × Buttons
unfolding Dict.lookup Dict.insert_new Dict.erase
write_as_button a val accepted b =
    if not (is_some (Dict.lookup same_addr a b.to_clean))
      && not (is_some (Dict.lookup same_addr a b.writes))
    then (if accepted
        then (true, record b { writes = Dict.insert_new same_addr a val b.writes })
        else (
          false,
          record b { writes = Dict.erase same_addr a (Dict.insert_new same_addr a val b.writes) },
        ))
    else (false, b)

-- The callbacks of the driver, from the entries of the address in both tables on.
unfoldable pub time_out_with : Option Bool → Option Bool → IoAddr → Buttons → Bool × Buttons
unfolding Dict.erase
time_out_with (some v) c a b = (true, record b { writes = Dict.erase same_addr a b.writes })
time_out_with none (some v) a b = (false, record b { uncompleted = b.uncompleted ++ ((a, v) ∷ []) })
time_out_with none none a b = (true, b)

unfoldable pub success_with : Option Bool → Option Bool → IoAddr → Buttons → Buttons
unfolding Dict.insert_new Dict.erase
success_with (some v) c a b = record {
  writes = Dict.erase same_addr a b.writes;
  to_clean = Dict.insert_new same_addr a (not v) b.to_clean;
  uncompleted = b.uncompleted ++ ((a, not v) ∷ []);
}
success_with none (some v) a b = record b { to_clean = Dict.erase same_addr a b.to_clean }
success_with none none a b = b

-- `driverWriteTimeOut` of an address that has a variable, and whether it signals a write error.
unfoldable pub driver_write_time_out : IoAddr → Buttons → Bool × Buttons
unfolding Dict.lookup time_out_with
driver_write_time_out a b =
    time_out_with (Dict.lookup same_addr a b.writes) (Dict.lookup same_addr a b.to_clean) a b

unfoldable pub driver_write_success : IoAddr → Buttons → Buttons
unfolding Dict.lookup success_with
driver_write_success a b =
    success_with (Dict.lookup same_addr a b.writes) (Dict.lookup same_addr a b.to_clean) a b

-- `processUncompletedWrites`: the writes that the driver takes, in turn, and those that stay.
-- `accepted i` is what its `write` returns on the i-th call.
unfoldable pub drain : (ℕ → Bool) → ℕ → ButtonWrites → ButtonWrites × ButtonWrites
drain accepted i [] = ([], [])
drain accepted i (w ∷ ws) =
    let (taken, left) = drain accepted (suc i) ws in
    if accepted i then (w ∷ taken, left) else ([], w ∷ ws)

unfoldable pub process_uncompleted_writes : (ℕ → Bool) → Buttons → ButtonWrites × Buttons
process_uncompleted_writes accepted b =
    let (taken, left) = drain accepted 0 b.uncompleted in (taken, record b { uncompleted = left })
