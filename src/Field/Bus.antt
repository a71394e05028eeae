-- ===== src/Field/Bus.antt =====
-- `checkSlavesWKC` of EthercatDrv.cpp over SOEM. `none` is an access past the end of mSlavesComTrys.
use turbine_governor.Base.{
  ℕ, zero, suc, ◌+◌, ◌*◌, Bool, true, false, not, ◌&&◌, ◌||◌, Option, some, List, [], ◌∷◌, u8, leb,
  ltb, ◌==◌, peek, poke, if◌then◌else◌, ◌>>=◌,
}

-- The states of a slave in SOEM.
abbrev pub ec_state_none : ℕ
ec_state_none = 0

abbrev pub ec_state_safe_op : ℕ
ec_state_safe_op = 4

abbrev pub ec_state_operational : ℕ
ec_state_operational = 8

abbrev pub ec_state_error : ℕ
ec_state_error = 16

abbrev pub ec_state_ack : ℕ
ec_state_ack = 16

abbrev pub slave_sync_trys : ℕ
slave_sync_trys = 2

-- An entry of `ec_slave`.
pub record EcSlave : Type 0 where
  pub state : ℕ
  pub is_lost : Bool

-- What SOEM does in one check: the states that `ec_readstate` reads, the states after
-- `ec_reconfig_slave`, `ec_statecheck` and `ec_recover_slave`, and what the first and the last return.
pub record Bus : Type 0 where
  pub outputs_wkc : ℕ
  pub inputs_wkc : ℕ
  pub work_counter : ℕ
  pub read_state : ℕ → ℕ
  pub reconfigured : ℕ → Bool
  pub reconfigured_state : ℕ → ℕ
  pub checked_state : ℕ → ℕ
  pub recovered : ℕ → Bool
  pub recovered_state : ℕ → ℕ

-- The fields of the driver that the check uses, with the number and the entries of the slaves.
pub record Modules : Type 0 where
  pub slave_count : ℕ
  pub slaves : ℕ → EcSlave
  pub module_errors : List ℕ
  pub com_trys : List ℕ

abbrev pub has : ℕ → List ℕ → Bool
has i [] = false
has i (j ∷ js) = j == i || has i js

abbrev pub insert : ℕ → List ℕ → List ℕ
insert i js = if has i js then js else i ∷ js

unfoldable pub erase : ℕ → List ℕ → List ℕ
erase i [] = []
erase i (j ∷ js) = let rest = erase i js in if j == i then rest else j ∷ rest

-- `mSlavesComTrys[iSlave]++ >= SLAVE_SYNC_TRYS`
abbrev pub sync_try : ℕ → List ℕ → Option (Bool × List ℕ)
sync_try i trys =
    peek trys i >>= λ n. poke trys i (u8 (n + 1)) >>= λ t. some (leb slave_sync_trys n, t)

-- The branches for a slave that is not operational: whether it is in error, its entry, the tries.
unfoldable pub recover_state : Bus → ℕ → EcSlave → List ℕ → Option (Bool × EcSlave × List ℕ)
recover_state bus i e trys =
    if e.state == ec_state_safe_op + ec_state_error
    then (sync_try i trys >>= λ r.
        some (r.0, record e { state = ec_state_safe_op + ec_state_ack }, r.1))
    else if e.state == ec_state_safe_op
    then (sync_try i trys >>= λ r. some (r.0, record e { state = ec_state_operational }, r.1))
    else if ltb ec_state_none e.state
    then some (
      true,
      record { state = bus.reconfigured_state i; is_lost = not (bus.reconfigured i) && e.is_lost },
      trys,
    )
    else if not e.is_lost
    then some (
      true,
      record { state = bus.checked_state i; is_lost = bus.checked_state i == ec_state_none },
      trys,
    )
    else some (true, e, trys)

unfoldable pub find_lost : Bus → ℕ → EcSlave → EcSlave
find_lost bus i e =
    if not e.is_lost
    then e
    else if e.state == ec_state_none
    then record { state = bus.recovered_state i; is_lost = not (bus.recovered i) }
    else record e { is_lost = false }

abbrev pub put_slave : ℕ → EcSlave → (ℕ → EcSlave) → ℕ → EcSlave
put_slave i e slaves j = if j == i then e else slaves j

-- One turn of the loop. `mModuleErrors` holds bytes.
unfoldable pub check_slave : Bus → ℕ → Modules → Option Modules
unfolding recover_state find_lost erase
check_slave bus i s =
    if not ((s.slaves i).state == ec_state_operational)
    then (recover_state bus i (s.slaves i) s.com_trys >>= λ (in_error, e, trys). some (record s {
      slaves = put_slave i (find_lost bus i e) s.slaves;
      module_errors = if in_error then insert (u8 i) s.module_errors else s.module_errors;
      com_trys = trys;
    }))
    else (poke s.com_trys i 0 >>= λ trys.
        some (record s { module_errors = erase (u8 i) s.module_errors; com_trys = trys }))

-- The loop over `k` slaves from `i` on.
unfoldable pub check_from : Bus → ℕ → ℕ → Modules → Option Modules
unfolding check_slave
check_from bus zero i s = some s
check_from bus (suc k) i s = check_slave bus i s >>= λ t. check_from bus k (i + 1) t

-- `ec_readstate`
abbrev pub read_states : Bus → Modules → Modules
read_states bus s = record s { slaves = λ i. record (s.slaves i) { state = bus.read_state i } }

-- The tries of the modules in error start again.
unfoldable pub reset_trys : List ℕ → List ℕ → Option (List ℕ)
reset_trys [] trys = some trys
reset_trys (i ∷ is_) trys = poke trys i 0 >>= λ t. reset_trys is_ t

unfoldable pub check_slaves_wkc : Bus → Modules → Option Modules
unfolding check_from reset_trys
check_slaves_wkc bus s =
    if ltb bus.work_counter (bus.outputs_wkc * 2 + bus.inputs_wkc)
    then check_from bus s.slave_count 1 (read_states bus s)
    else (reset_trys s.module_errors s.com_trys >>= λ trys.
        some (record s { module_errors = []; com_trys = trys }))
