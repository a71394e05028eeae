-- ===== src/Field/Scan.antt =====
-- The modules that `checkSlavesWKC` of EthercatDrv.cpp marks as failed.
use turbine_governor.Base.{
  ℕ, ◌+◌, ◌<◌, ◌≡◌, refl, ap, sym, ◌∙◌, inl, inr, Bool, true, false, not, ◌&&◌, ◌||◌, Option, some,
  List, [], ◌∷◌, u8, leb, ltb, ◌==◌, length, get_or, set, length-set, get_or-set_ne, if◌then◌else◌,
  ◌>>=◌, Bool-cases, if-true, arith,
}
use turbine_governor.Field.Bus.{
  EcSlave, Bus, Modules, has, insert, erase, sync_try, recover_state, find_lost, put_slave,
  check_slave,
}

has-insert : (i j : ℕ) (js : List ℕ) → has j (insert i js) ≡ ((i == j) || has j js)
has-insert i j js = elim (Bool-cases (has i js)) [
  | inl known ↦ rw known (known_too i j js known)
  | inr fresh ↦ rw fresh refl
]
  where
    known_too : (i j : ℕ) (js : List ℕ) → has i js ≡ true → has j js ≡ ((i == j) || has j js)
    known_too i j [] e = absurd (cc)
    known_too i j (k ∷ ks) e = ground (arith, known_too i j ks)

has-erase : (i j : ℕ) (js : List ℕ) → has j (erase i js) ≡ (not (i == j) && has j js)
unfolding erase
has-erase i j [] = ground arith
has-erase i j (k ∷ ks) = ground (arith, has-erase i j ks)

-- The states in which a slave uses its entry of mSlavesComTrys.
abbrev pub uses_trys : ℕ → Bool
uses_trys state = state == 8 || state == 20 || state == 4

-- Whether a check finds the slave in error, by its state and its tries before.
abbrev pub fails : ℕ → ℕ → Bool
fails state trys = if state == 20 || state == 4 then leb 2 trys else true

-- The mark of slave j after the check.
abbrev pub marked : ℕ → Modules → Bool
marked j s =
    if (s.slaves j).state == 8
    then false
    else has j s.module_errors || fails (s.slaves j).state (get_or s.com_trys j 0)

-- What a turn for slave i leaves as it was.
pub record Others (i : ℕ) (s t : Modules) : Type 0 where
  pub errors : (j : ℕ) → (j ≡ i → ⊥) → has j t.module_errors ≡ has j s.module_errors
  pub slaves : (j : ℕ) → (j ≡ i → ⊥) → t.slaves j ≡ s.slaves j
  pub trys : (j : ℕ) → (j ≡ i → ⊥) → get_or t.com_trys j 0 ≡ get_or s.com_trys j 0
  pub room : length t.com_trys ≡ length s.com_trys
  pub count : t.slave_count ≡ s.slave_count

unfoldable pub Turn : ℕ → Modules → Option Modules → Type 0
Turn i s o = (t : Modules) × (o ≡ some t) × (has i t.module_errors ≡ marked i s) × Others i s t

-- What `recover_state` returns, where there is room for its tries.
Recovery : ℕ → Bool → List ℕ → Option (Bool × EcSlave × List ℕ) → Type 0
Recovery i mark trys o =
    (e : EcSlave) × (after : List ℕ) × (o ≡ some (mark, e, after))
    × (length after ≡ length trys)
    × ((j : ℕ) → (j ≡ i → ⊥) → get_or after j 0 ≡ get_or trys j 0)

module _ (bus : Bus) (i : ℕ) where
  sync_try_eq :
      (trys : List ℕ)
      → i < length trys
      → sync_try i trys ≡ some (leb 2 (get_or trys i 0), set trys i (u8 (get_or trys i 0 + 1)))
  sync_try_eq trys room = let fits : ltb i (length trys) ≡ true = ground arith in rw fits refl

  kept : (trys : List ℕ) (v j : ℕ) → (j ≡ i → ⊥) → get_or (set trys i v) j 0 ≡ get_or trys j 0
  kept trys v j apart = get_or-set_ne trys i j v 0 (λ e. apart (sym e))

  recover_state_eq :
      (e : EcSlave) (trys : List ℕ)
      → (uses_trys e.state ≡ true → i < length trys)
      → Recovery i (fails e.state (get_or trys i 0)) trys (recover_state bus i e trys)
  unfolding recover_state Recovery
  recover_state_eq e trys room = elim (Bool-cases (e.state == 20)) [
    | inl error ↦
        rw (error, sync_try_eq trys (room (ground arith)))
          (_, set trys i (u8 (get_or trys i 0 + 1)), refl, length-set trys i _, kept trys _)
    | inr fine ↦ elim (Bool-cases (e.state == 4)) [
      | inl safe ↦
          rw (fine, safe, sync_try_eq trys (room (ground arith)))
            (_, set trys i (u8 (get_or trys i 0 + 1)), refl, length-set trys i _, kept trys _)
      | inr other ↦ elim (Bool-cases (ltb 0 e.state)) [
        | inl back ↦ rw (fine, other, back) (_, trys, refl, refl, λ j apart. refl)
        | inr off ↦ elim (Bool-cases e.is_lost) [
          | inl lost ↦ rw (fine, other, off, lost) (_, trys, refl, refl, λ j apart. refl)
          | inr new ↦ rw (fine, other, off, new) (_, trys, refl, refl, λ j apart. refl)
        ]
      ]
    ]
  ]

  u8-small : i < 256 → u8 i ≡ i
  u8-small small = omega arith

  has-insert_self : (js : List ℕ) → has i (insert i js) ≡ true
  has-insert_self js = has-insert i i js ∙ ground arith

  -- The set of modules in error after the turn of a slave that is not operational.
  marked_after :
      (in_error : Bool) (js : List ℕ)
      → has i (if in_error then insert i js else js) ≡ (has i js || in_error)
  marked_after true js = has-insert_self js ∙ ground arith
  marked_after false js = ground arith

  other_after :
      (in_error : Bool) (js : List ℕ) (j : ℕ)
      → (j ≡ i → ⊥)
      → has j (if in_error then insert i js else js) ≡ has j js
  other_after true js j apart = has-insert i j js ∙ ground arith
  other_after false js j apart = refl

  other_slave :
      (e : EcSlave) (slaves : ℕ → EcSlave) (j : ℕ) → (j ≡ i → ⊥) → put_slave i e slaves j ≡ slaves j
  other_slave e slaves j apart = let off : (j == i) ≡ false = ground arith in rw off refl

  pub check_slave-Turn :
      (s : Modules)
      → (uses_trys (s.slaves i).state ≡ true → i < length s.com_trys)
      → i < 256
      → Turn i s (check_slave bus i s)
  unfolding check_slave Turn Recovery
  check_slave-Turn s room small = elim (Bool-cases ((s.slaves i).state == 8)) [
    | inl good ↦
        rw (good, u8-small small)
          (
            _,
            ap
                (λ o. o >>= λ trys.
                  some (record s { module_errors = erase i s.module_errors; com_trys = trys }))
                (if-true _ _ _ (fits s (room (ground arith)))),
            has-erase i i s.module_errors ∙ ground arith,
            record {
              errors = λ j apart. has-erase i j s.module_errors ∙ ground arith;
              slaves = λ j apart. refl;
              trys = kept s.com_trys 0;
              room = length-set s.com_trys i 0;
              count = refl;
            },
          )
    | inr bad ↦
        let (e, after, eq, same, others) = recover_state_eq (s.slaves i) s.com_trys room in
        rw (bad, eq, u8-small small)
          (
            _,
            refl,
            marked_after (fails (s.slaves i).state (get_or s.com_trys i 0)) s.module_errors,
            record {
              errors =
                  other_after (fails (s.slaves i).state (get_or s.com_trys i 0)) s.module_errors;
              slaves = other_slave (find_lost bus i e) s.slaves;
              trys = others;
              room = same;
              count = refl;
            },
          )
  ]
    where
      fits : (s : Modules) → i < length s.com_trys → ltb i (length s.com_trys) ≡ true
      fits s room = ground arith
