-- ===== src/Slave/Setup.antt =====
-- `init` of ModbusSlaveDrv.cpp leaves the driver well formed, whatever the configuration says.
use Prim.Native.String.{String}
use turbine_governor.Base.{
  ℕ, ◌*◌, ◌≡◌, refl, ap, ◌∙◌, inl, inr, Bool, true, false, ◌&&◌, Option, none, some, List, [], ◌∷◌,
  ltb, if◌then◌else◌, arith, length, length-poke, Bool-cases, Option-cases, poke, bind-some,
}
use mathlib.Core.Option.{some-injective}
use turbine_governor.Types.{DrvState, IoAddr}
use turbine_governor.Xml.{Node, is_named, get_prop}
use turbine_governor.Slave.State.{SlaveDrv, Mapping, Fits, word32}
use turbine_governor.Slave.Access.{is_uninit, set_forced, coil_index}
use turbine_governor.Slave.Config.{Document, load_xml_config, read_xml_config, read_attributes}
use turbine_governor.Slave.Lifecycle.{Modbus, new_mapping, init_loaded, init_mapping, init_mapped}
use turbine_governor.Slave.Reach.{DrvInv, may_serve}

-- What the readers of the configuration leave alone.
pub record Unread (s t : SlaveDrv) : Type 0 where
  pub state : t.state ≡ s.state
  pub mapping : t.mapping ≡ s.mapping
  pub server_sock : t.server_sock ≡ s.server_sock

read_attributes-Unread : (root : Node) (s : SlaveDrv) → Unread s (read_attributes root s).1
unfolding read_attributes
read_attributes-Unread root s = elim (Option-cases (get_prop "IP" root)) [
  | inl a ↦ rw (a, read_attributes) same
  | inr (ip, a) ↦ elim (Option-cases (get_prop "Port" root)) [
    | inl b ↦
        rw (a, b, read_attributes) (record { state = refl; mapping = refl; server_sock = refl })
    | inr (port, b) ↦ elim (Option-cases (get_prop "NumROInts" root)) [
      | inl c ↦
          rw (a, b, c, read_attributes)
            (record { state = refl; mapping = refl; server_sock = refl })
      | inr (ro, c) ↦ elim (Option-cases (get_prop "NumIOVars" root)) [
        | inl d ↦
            rw (a, b, c, d, read_attributes)
              (record { state = refl; mapping = refl; server_sock = refl })
        | inr (io, d) ↦
            rw (a, b, c, d, read_attributes)
              (record { state = refl; mapping = refl; server_sock = refl })
      ]
    ]
  ]
]
  where
    same : Unread s s
    same = record { state = refl; mapping = refl; server_sock = refl }

read_xml_config-Unread : (root : Option Node) (s : SlaveDrv) → Unread s (read_xml_config root s).1
unfolding read_xml_config
read_xml_config-Unread none s = record { state = refl; mapping = refl; server_sock = refl }
read_xml_config-Unread (some root) s = elim (Bool-cases (is_named "SlaveDriver" root)) [
  | inr other ↦ rw other (record { state = refl; mapping = refl; server_sock = refl })
  | inl named ↦ elim (Bool-cases (read_attributes root s).0) [
    | inl whole ↦
        rw (named, whole)
          (record { state = r.state; mapping = r.mapping; server_sock = r.server_sock })
    | inr part ↦ rw (named, part) r
  ]
]
  where
    r : Unread s (read_attributes root s).1
    r = read_attributes-Unread root s

pub load_xml_config-Unread :
    (path : String) (file : Document) (s : SlaveDrv) → Unread s (load_xml_config path file s).1
unfolding load_xml_config
load_xml_config-Unread path Document.no_parser s = record {
  state = refl;
  mapping = refl;
  server_sock = refl;
}
load_xml_config-Unread path Document.unreadable s = record {
  state = refl;
  mapping = refl;
  server_sock = refl;
}
load_xml_config-Unread path Document.invalid s = record {
  state = refl;
  mapping = refl;
  server_sock = refl;
}
load_xml_config-Unread path (Document.tree root) s = read_xml_config-Unread root s

set_forced-Fits :
    (io ro n : ℕ) (on : Bool) (m m' : Mapping)
    → Fits io ro m
    → set_forced n on m ≡ some m'
    → Fits io ro m'
unfolding set_forced
set_forced-Fits io ro n on m m' f e =
    let (bs, inside, rest) = bind-some (poke m.bits (coil_index n) (if on then 1 else 0)) _ m' e in
    rw⁻¹ (some-injective _ m' rest) (record {
      bits_len = length-poke m.bits bs (coil_index n) _ inside ∙ f.bits_len;
      input_bits_len = f.input_bits_len;
      registers_len = f.registers_len;
      input_bytes_len = f.input_bytes_len;
    })

init_mapping-Fits :
    (vars : List (ℕ × IoAddr)) (io ro : ℕ) (m m' : Mapping)
    → Fits io ro m
    → init_mapping vars m ≡ some m'
    → Fits io ro m'
unfolding init_mapping
init_mapping-Fits [] io ro m m' f e = rw⁻¹ (some-injective m m' e) f
init_mapping-Fits ((id, a) ∷ vars) io ro m m' f e =
    let (m₁, first, rest) = bind-some (set_forced a.channel false m) _ m' e in
    init_mapping-Fits vars io ro m₁ m' (set_forced-Fits io ro a.channel false m m₁ f first) rest

-- Tables of so many coils, input bits, holding registers and input registers.
pub record Holds (coils input_bits registers input_registers : ℕ) (m : Mapping) : Type 0 where
  pub coils_len : length m.bits ≡ coils
  pub bits_len : length m.input_bits ≡ input_bits
  pub holding_len : length m.registers ≡ registers
  pub bytes_len : length m.input_bytes ≡ 2 * input_registers

-- `modbus_mapping_new_start_address` returns tables of the sizes that it is asked for.
pub record Allocates (lib : Modbus) : Type 0 where
  pub holds : (a b c d : ℕ) (m : Mapping) → lib.mapping_new a b c d ≡ some m → Holds a b c d m

new_mapping-Fits :
    (lib : Modbus) (s : SlaveDrv) (m : Mapping)
    → Allocates lib
    → new_mapping lib s ≡ some m
    → Fits s.num_io_vars s.num_ro_ints m
unfolding new_mapping
new_mapping-Fits lib s m a e =
    let h = a.holds _ _ _ _ m e in
    record {
      bits_len = h.coils_len ∙ ap word32 (omega arith);
      input_bits_len = h.bits_len;
      registers_len = h.holding_len;
      input_bytes_len = h.bytes_len;
    }

-- A driver without a configuration that holds no socket is well formed.
pub bare-DrvInv :
    (t : SlaveDrv) → is_uninit t.state ≡ true → t.mapping ≡ none → t.server_sock ≡ none → DrvInv t
bare-DrvInv t u m k = record {
  bare = λ w. m;
  tables = λ w. absurd (cc);
  failures = λ w. absurd (cc);
  sockets = inl k;
}

init_mapped-DrvInv :
    (o : Option Mapping) (error : String) (s : SlaveDrv) (b : Bool) (t : SlaveDrv)
    → ((m : Mapping) → o ≡ some m → Fits s.num_io_vars s.num_ro_ints m)
    → is_uninit s.state ≡ true
    → s.server_sock ≡ none
    → init_mapped o error s ≡ some (b, t)
    → DrvInv t
init_mapped-DrvInv none error s b t f u k e =
    rw⁻¹ (ap (λ r. r.1) (some-injective _ _ e)) (bare-DrvInv _ u refl k)
init_mapped-DrvInv (some m) error s b t f u k e =
    let (m', inside, rest) = bind-some (init_mapping s.field_vars m) _ (b, t) e in
    rw⁻¹ (ap (λ r. r.1) (some-injective _ _ rest)) (record {
      bare = λ w. absurd (cc);
      tables = λ w. (
        m',
        refl,
        init_mapping-Fits s.field_vars s.num_io_vars s.num_ro_ints m m' (f m refl) inside,
      );
      failures = λ w. omega arith;
      sockets = inl k;
    })

pub init_loaded-DrvInv :
    (lib : Modbus) (s : SlaveDrv) (b : Bool) (t : SlaveDrv)
    → Allocates lib
    → is_uninit s.state ≡ true
    → s.mapping ≡ none
    → s.server_sock ≡ none
    → init_loaded lib s ≡ some (b, t)
    → DrvInv t
unfolding init_loaded
init_loaded-DrvInv lib s b t a u n k e =
    elim (Bool-cases (ltb s.num_io_vars 1 && ltb s.num_ro_ints 1)) [
      | inl empty ↦ rw⁻¹ (ap (λ r. r.1) (some-injective _ _ (rw empty at e))) (bare-DrvInv _ u n k)
      | inr vars ↦ elim (Bool-cases lib.new_tcp) [
        | inl made ↦
            init_mapped-DrvInv (new_mapping lib s) lib.error_text s b t
              (λ m. new_mapping-Fits lib s m a) u k (rw (vars, made) at e)
        | inr out ↦
            rw⁻¹ (ap (λ r. r.1) (some-injective _ _ (rw (vars, out) at e))) (bare-DrvInv _ u n k)
      ]
    ]

-- The states of a driver that is not initialised hold no socket.
pub no_socket : (s : SlaveDrv) → DrvInv s → is_uninit s.state ≡ true → s.server_sock ≡ none
no_socket s v u = elim v.sockets [ inl shut ↦ shut | inr (srv, i, m) ↦ absurd (serves s.state u m) ]
  where
    serves : (st : DrvState) → is_uninit st ≡ true → may_serve st ≡ true → ⊥
    serves DrvState.un_init u m = absurd (cc)
    serves DrvState.running u m = absurd (cc)
    serves DrvState.com_error u m = absurd (cc)
    serves DrvState.stopped u m = absurd (cc)
    serves DrvState.var_error u m = absurd (cc)
