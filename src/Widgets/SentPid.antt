-- ===== src/Widgets/SentPid.antt =====
-- The parameters that HMI/src/ControlOptWdg.cpp sends, back in the table of HMI/src/PIDTableModel.cpp.
use turbine_governor.Base.{
  ℕ, zero, suc, ◌+◌, ◌-◌, ◌*◌, ◌/◌, ◌%◌, ◌<◌, ◌≡◌, refl, ap, sym, ◌∙◌, inl, inr, true, ◌&&◌,
  if◌then◌else◌, none, some, List, [], ◌∷◌, ◌++◌, get_elem?, set, ltb, leb, Bool-cases, arith,
}
use turbine_governor.Base.Int.{pos}
use turbine_governor.Types.Float.{FloatOps}
use turbine_governor.Widgets.PidTable.{
  PidInfo, set_param, var_changed, send_pid, update_pid_val, c_reg_pid1_kp, c_reg_pid1_ki,
  c_reg_pid1_kd, c_reg_pid1_st, c_reg_pid1_db,
}

module _ {A : Type 0} where
  set-same : (t : List A) (row : ℕ) (a : A) → get_elem? t row ≡ some a → set t row a ≡ t
  set-same [] row a e = refl
  set-same (x ∷ t) zero a e = ap (λ y. y ∷ t) (sym (ap (λ o. elim o [ none ↦ a | some z ↦ z ]) e))
  set-same (x ∷ t) (suc row) a e = ap (λ l. x ∷ l) (set-same t row a e)

  set-set : (t : List A) (row : ℕ) (a b : A) → set (set t row a) row b ≡ set t row b
  set-set [] row a b = refl
  set-set (x ∷ t) zero a b = refl
  set-set (x ∷ t) (suc row) a b = ap (λ l. x ∷ l) (set-set t row a b)

  get_elem?-set :
      (t : List A) (row : ℕ) (a b : A)
      → get_elem? t row ≡ some a
      → get_elem? (set t row b) row ≡ some b
  get_elem?-set [] row a b e = absurd (cc)
  get_elem?-set (x ∷ t) zero a b e = refl
  get_elem?-set (x ∷ t) (suc row) a b e = get_elem?-set t row a b e

module _ {F : Type 0} (fl : FloatOps F) where
  -- The changes of a list of variables, in turn.
  unfoldable pub all_changed : List (ℕ × F) → List (PidInfo F) → List (PidInfo F)
  unfolding var_changed
  all_changed [] t = t
  all_changed ((id, x) ∷ changes) t = all_changed changes (var_changed fl id x t).0

  all_changed-append :
      (xs ys : List (ℕ × F)) (t : List (PidInfo F))
      → all_changed (xs ++ ys) t ≡ all_changed ys (all_changed xs t)
  unfolding all_changed
  all_changed-append [] ys t = refl
  all_changed-append ((id, x) ∷ xs) ys t = all_changed-append xs ys (var_changed fl id x t).0

  -- The variable of a column of a row changes that cell.
  var_changed_at :
      (row column : ℕ) (x : F) (t : List (PidInfo F)) (info : PidInfo F)
      → row < 9
      → column < 5
      → get_elem? t row ≡ some info
      → (var_changed fl (c_reg_pid1_kp + column + row * 5) x t).0
        ≡ set t row (set_param fl column x info)
  unfolding var_changed
  var_changed_at row column x t info small five e =
      let at_row : (c_reg_pid1_kp + column + row * 5 - c_reg_pid1_kp) / 5 ≡ row = omega arith in
      let at_column : (c_reg_pid1_kp + column + row * 5 - c_reg_pid1_kp) % 5 ≡ column =
        omega arith in
      let in_range : (leb c_reg_pid1_kp (c_reg_pid1_kp + column + row * 5)
            && leb (c_reg_pid1_kp + column + row * 5) 2000000058
            && ltb row 9)
          ≡ true =
        ground arith in
      rw (at_row, in_range, at_column, e) refl

  -- What a parameter is after `updatePIDVal`: what was typed, unless that compares equal to the value
  -- before, which then stays.
  abbrev pub sent_or_kept : F → F → F
  sent_or_kept prev new = if fl.eq prev new then prev else new

  module _ (row : ℕ) (small : row < 9) where
    -- What the write of one parameter leaves, when it comes back.
    param_sent :
        (column : ℕ) (prev new : F) (t : List (PidInfo F)) (info : PidInfo F)
        → column < 5
        → set_param fl column prev info ≡ info
        → get_elem? t row ≡ some info
        → all_changed (update_pid_val fl row prev new (c_reg_pid1_kp + column)) t
          ≡ set t row (set_param fl column (sent_or_kept prev new) info)
    unfolding all_changed
    param_sent column prev new t info five same e = elim (Bool-cases (fl.eq prev new)) [
      | inl equal ↦ rw equal (sym (ap (set t row) same ∙ set-same t row info e))
      | inr differs ↦ rw differs (var_changed_at row column new t info small five e)
    ]

    -- The same after the writes before it.
    next_sent :
        (column : ℕ) (prev new : F) (t : List (PidInfo F)) (first info : PidInfo F)
        → column < 5
        → set_param fl column prev info ≡ info
        → get_elem? t row ≡ some first
        → all_changed (update_pid_val fl row prev new (c_reg_pid1_kp + column)) (set t row info)
          ≡ set t row (set_param fl column (sent_or_kept prev new) info)
    next_sent column prev new t first info five same e =
        param_sent column prev new (set t row info) info five same
          (get_elem?-set t row first info e)
        ∙ set-set t row info (set_param fl column (sent_or_kept prev new) info)

    -- The row after the changes, by the row before and what was typed.
    abbrev pub sent_row : PidInfo F → PidInfo F → PidInfo F
    sent_row info typed = record {
      kp = sent_or_kept info.kp typed.kp;
      ki = sent_or_kept info.ki typed.ki;
      kd = sent_or_kept info.kd typed.kd;
      db = sent_or_kept info.db typed.db;
      scan_t = typed.scan_t;
    }

    -- Where whole numbers below 2^24 are floats that compare as they do: when the table has the
    -- parameters of a PID, and the changes that `on_cmdSendPID_clicked` writes come back as changes of
    -- the variables, the row of the PID holds the scan time that was typed, and each other parameter
    -- that was typed unless it compares equal to the one before, which then stays; other rows are as
    -- before.
    pub send_pid-all_changed :
        (exact : (n : ℕ) → n < 16777216 → fl.to_unsigned 32 (fl.of_int (pos n)) ≡ n)
        → (apart : (m n : ℕ)
            → m < 16777216
            → n < 16777216
            → fl.eq (fl.of_int (pos m)) (fl.of_int (pos n)) ≡ true
            → m ≡ n)
        → (t : List (PidInfo F)) (info typed : PidInfo F) → get_elem? t row ≡ some info
        → info.scan_t < 16777216
        → typed.scan_t < 16777216
        → all_changed (send_pid fl row info typed) t ≡ set t row (sent_row info typed)
    unfolding send_pid
    send_pid-all_changed exact apart t info typed e old_scan new_scan =
        let before : F = fl.of_int (pos info.scan_t) in
        let scan : F = fl.of_int (pos typed.scan_t) in
        let i1 = set_param fl 0 (sent_or_kept info.kp typed.kp) info in
        let i2 = set_param fl 1 (sent_or_kept info.ki typed.ki) i1 in
        let i3 = set_param fl 2 (sent_or_kept info.kd typed.kd) i2 in
        let i4 = set_param fl 3 (sent_or_kept before scan) i3 in
        let w1 = update_pid_val fl row info.kp typed.kp c_reg_pid1_kp in
        let w2 = update_pid_val fl row info.ki typed.ki c_reg_pid1_ki in
        let w3 = update_pid_val fl row info.kd typed.kd c_reg_pid1_kd in
        let w4 = update_pid_val fl row before scan c_reg_pid1_st in
        let w5 = update_pid_val fl row info.db typed.db c_reg_pid1_db in
        all_changed-append w1 (w2 ++ (w3 ++ (w4 ++ w5))) t
        ∙ ap (all_changed (w2 ++ (w3 ++ (w4 ++ w5))))
            (param_sent 0 info.kp typed.kp t info (omega arith) refl e)
        ∙ all_changed-append w2 (w3 ++ (w4 ++ w5)) (set t row i1)
        ∙ ap (all_changed (w3 ++ (w4 ++ w5)))
            (next_sent 1 info.ki typed.ki t info i1 (omega arith) refl e)
        ∙ all_changed-append w3 (w4 ++ w5) (set t row i2)
        ∙ ap (all_changed (w4 ++ w5)) (next_sent 2 info.kd typed.kd t info i2 (omega arith) refl e)
        ∙ all_changed-append w4 w5 (set t row i3)
        ∙ ap (all_changed w5) (
            next_sent 3 before scan t info i3 (omega arith)
              (ap (λ n. record i3 { scan_t = n }) (exact info.scan_t old_scan)) e)
        ∙ next_sent 4 info.db typed.db t info i4 (omega arith) refl e
        ∙ ap (λ n. set t row (record (sent_row info typed) { scan_t = n })) scan_back
      where
        scan_back :
            fl.to_unsigned 32
              (sent_or_kept (fl.of_int (pos info.scan_t)) (fl.of_int (pos typed.scan_t)))
            ≡ typed.scan_t
        scan_back =
            elim (Bool-cases (fl.eq (fl.of_int (pos info.scan_t)) (fl.of_int (pos typed.scan_t)))) [
              | inl equal ↦ rw equal (
                  exact info.scan_t old_scan
                  ∙ apart info.scan_t typed.scan_t old_scan new_scan equal)
              | inr differs ↦ rw differs (exact typed.scan_t new_scan)
            ]
