-- ===== src/Slave/Sizes.antt =====
-- The calls of ModbusSlaveDrv.cpp on variables keep the sizes of the tables.
use mathlib.Core.Option.{some-injective}
use turbine_governor.Base.{
  ℕ, ◌+◌, ◌-◌, ◌*◌, ◌≡◌, ap, ◌∙◌, Bool, some, [], ◌∷◌, bind-some, poke_all, length-poke_all,
}
use turbine_governor.Types.{QuState}
use turbine_governor.Types.IoVar.{IoVar, q_state}
use turbine_governor.Slave.State.{Mapping, Fits, word32}
use turbine_governor.Slave.Wire.{wire_bytes, q_state_bits}
use turbine_governor.Slave.Access.{
  FloatCodec, value_index, set_current, set_q_state_bits, set_time_s, get_forced, get_forced_val,
  update_in,
}

-- The tables have the same sizes.
record SameSizes (io ro : ℕ) (m m' : Mapping) : Type 0 where
  fits : Fits io ro m → Fits io ro m'

module _ (io ro : ℕ) where
  set_q_state_bits-SameSizes :
      (q : QuState) (n : ℕ) (m m' : Mapping)
      → set_q_state_bits q n m ≡ some m'
      → SameSizes io ro m m'
  unfolding set_q_state_bits
  set_q_state_bits-SameSizes q n m m' e =
      let (bs, inside, rest) =
        bind-some (poke_all m.input_bits (n * 2 - 2) (q_state_bits q)) _ m' e in
      let same : record m { input_bits = bs } ≡ m' = some-injective _ _ rest in
      record {
        fits = λ f. rw⁻¹ same (record {
          bits_len = f.bits_len;
          input_bits_len =
              length-poke_all (q_state_bits q) m.input_bits bs (n * 2 - 2) inside
              ∙ f.input_bits_len;
          registers_len = f.registers_len;
          input_bytes_len = f.input_bytes_len;
        });
      }

  set_time_s-SameSizes :
      (little : Bool) (ro' time n : ℕ) (m m' : Mapping)
      → set_time_s little ro' time n m ≡ some m'
      → SameSizes io ro m m'
  unfolding set_time_s
  set_time_s-SameSizes little ro' time n m m' e =
      let (bs, inside, rest) =
        bind-some
          (poke_all m.input_bytes (2 * (n * 4 - 4 + word32 (ro' * 2))) (wire_bytes little 8 time)) _
          m' e in
      let same : record m { input_bytes = bs } ≡ m' = some-injective _ _ rest in
      record {
        fits = λ f. rw⁻¹ same (record {
          bits_len = f.bits_len;
          input_bits_len = f.input_bits_len;
          registers_len = f.registers_len;
          input_bytes_len =
              length-poke_all (wire_bytes little 8 time) m.input_bytes bs
                (2 * (n * 4 - 4 + word32 (ro' * 2))) inside
              ∙ f.input_bytes_len;
        });
      }

  module _ {F : Type 0} (codec : FloatCodec F) where
    set_current-SameSizes :
        (x : F) (n : ℕ) (m m' : Mapping) → set_current codec x n m ≡ some m' → SameSizes io ro m m'
    unfolding set_current
    set_current-SameSizes x n m m' e =
        let (rs, inside, rest) =
          bind-some
            (poke_all m.registers (value_index n)
              ((codec.set_abcd x).0 ∷ (codec.set_abcd x).1 ∷ []))
            _ m' e in
        let same : record m { registers = rs } ≡ m' = some-injective _ _ rest in
        record {
          fits = λ f. rw⁻¹ same (record {
            bits_len = f.bits_len;
            input_bits_len = f.input_bits_len;
            registers_len =
                length-poke_all ((codec.set_abcd x).0 ∷ (codec.set_abcd x).1 ∷ []) m.registers rs
                  (value_index n) inside
                ∙ f.registers_len;
            input_bytes_len = f.input_bytes_len;
          });
        }

    pub update_in-Fits :
        (little : Bool) (v v' : IoVar F) (n : ℕ) (m m' : Mapping)
        → update_in codec little ro v n m ≡ some (v', m')
        → Fits io ro m
        → Fits io ro m'
    unfolding update_in
    update_in-Fits little v v' n m m' e f =
        let (x, _, e₁) = bind-some (get_forced_val codec m n) _ (v', m') e in
        let (on, _, e₂) = bind-some (get_forced m n) _ (v', m') e₁ in
        let w : IoVar F = record v { forced_val = x; forced = on } in
        let (m₁, a, e₃) = bind-some (set_current codec w.true_val n m) _ (v', m') e₂ in
        let (m₂, b, e₄) = bind-some (set_q_state_bits (q_state w) n m₁) _ (v', m') e₃ in
        let (m₃, c, e₅) = bind-some (set_time_s little ro w.time_s n m₂) _ (v', m') e₄ in
        let s₁ = set_current-SameSizes w.true_val n m m₁ a in
        let s₂ = set_q_state_bits-SameSizes (q_state w) n m₁ m₂ b in
        let s₃ = set_time_s-SameSizes little ro w.time_s n m₂ m₃ c in
        rw⁻¹ (ap (λ r. r.1) (some-injective _ _ e₅)) (s₃.fits (s₂.fits (s₁.fits f)))
