-- ===== src/Field/Errors.antt =====
-- The map `mVarErrors` of EthercatDrv.cpp: its entries after `newVarError` and `clearVarError`.
use turbine_governor.Base.{◌≡◌, ◌∙◌, false, Option, some, none, List, if-true, if-false}
use turbine_governor.Base.Dict
use turbine_governor.Base.DictLaws
use turbine_governor.Types.{IoAddr, QuState, same_addr}
use turbine_governor.Types.Addr.{same_addr-IsSame}

unfoldable pub find : IoAddr → List (IoAddr × QuState) → Option QuState
unfolding Dict.lookup
find k m = Dict.lookup same_addr k m

-- No address has two entries.
unfoldable pub Unique : List (IoAddr × QuState) → Type 0
unfolding DictLaws.Unique
Unique m = DictLaws.Unique same_addr m

-- `mVarErrors[addr] = eState` and `mVarErrors.erase(addr)`
unfoldable pub new_var_error : IoAddr → QuState → List (IoAddr × QuState) → List (IoAddr × QuState)
unfolding Dict.assign
new_var_error k v m = Dict.assign same_addr k v m

unfoldable pub clear_var_error : IoAddr → List (IoAddr × QuState) → List (IoAddr × QuState)
unfolding Dict.erase
clear_var_error k m = Dict.erase same_addr k m

pub find-new_var_error :
    (k : IoAddr) (v : QuState) (m : List (IoAddr × QuState)) → find k (new_var_error k v m) ≡ some v
unfolding find new_var_error
find-new_var_error k v m =
    DictLaws.lookup-assign same_addr same_addr-IsSame k k v m
    ∙ if-true (same_addr k k) (some v) (find k m) (same_addr-IsSame.reflects k)

pub find-new_var_error_other :
    (k j : IoAddr) (v : QuState) (m : List (IoAddr × QuState))
    → same_addr k j ≡ false
    → find j (new_var_error k v m) ≡ find j m
unfolding find new_var_error
find-new_var_error_other k j v m h =
    DictLaws.lookup-assign same_addr same_addr-IsSame k j v m
    ∙ if-false (same_addr k j) (some v) (find j m) h

pub find-clear_var_error :
    (k : IoAddr) (m : List (IoAddr × QuState)) → Unique m → find k (clear_var_error k m) ≡ none
unfolding find clear_var_error Unique
find-clear_var_error k m u =
    DictLaws.lookup-erase same_addr same_addr-IsSame k k m u
    ∙ if-true (same_addr k k) none (find k m) (same_addr-IsSame.reflects k)

pub find-clear_var_error_other :
    (k j : IoAddr) (m : List (IoAddr × QuState))
    → Unique m
    → same_addr k j ≡ false
    → find j (clear_var_error k m) ≡ find j m
unfolding find clear_var_error Unique
find-clear_var_error_other k j m u h =
    DictLaws.lookup-erase same_addr same_addr-IsSame k j m u
    ∙ if-false (same_addr k j) none (find j m) h

pub new_var_error-Unique :
    (k : IoAddr) (v : QuState) (m : List (IoAddr × QuState))
    → Unique m
    → Unique (new_var_error k v m)
unfolding new_var_error Unique
new_var_error-Unique k v m u = DictLaws.assign-Unique same_addr same_addr-IsSame k v m u

pub clear_var_error-Unique :
    (k : IoAddr) (m : List (IoAddr × QuState)) → Unique m → Unique (clear_var_error k m)
unfolding clear_var_error Unique
clear_var_error-Unique k m u = DictLaws.erase-Unique same_addr same_addr-IsSame k m u
