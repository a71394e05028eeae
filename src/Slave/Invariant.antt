-- ===== src/Slave/Invariant.antt =====
-- The states that the driver of ModbusSlaveDrv.cpp reaches, and what holds in all of them.
use Prim.Native.String.{String}
use mathlib.Core.Path.{subst}
use mathlib.Core.Option.{some-injective, none-ne-some}
use turbine_governor.Base.{
  ℕ, ◌+◌, ◌*◌, ◌^◌, ◌<◌, ◌≡◌, refl, ap, sym, ◌∙◌, ◌⊎◌, inl, inr, Bool, false, some, ◌==◌, bind-some,
  arith, Bool-cases, Option-cases,
}
use turbine_governor.Base.Dict
use turbine_governor.Types.IoVar.{IoVar}
use turbine_governor.Slave.State.{SlaveDrv, Mapping, Fits, Small}
use turbine_governor.Slave.Access.{
  FloatCodec, is_uninit, refused, num_var, update_in, update_at, update_field_var,
}
use turbine_governor.Slave.Publish.{IsReady, update_field_var-IsReady}
use turbine_governor.Slave.Config.{Document}
use turbine_governor.Slave.Lifecycle.{Modbus, construct_drv, close, start, stop, init}
use turbine_governor.Slave.Server.{Net, loop_round}
use turbine_governor.Slave.Serve.{AcceptsFresh}
use turbine_governor.Slave.Reach.{DrvInv, moved, construct_drv-DrvInv}
use turbine_governor.Slave.Sizes.{update_in-Fits}
use turbine_governor.Slave.Setup.{Allocates}
use turbine_governor.Slave.Rounds.{loop_round-DrvInv}
use turbine_governor.Slave.System.{init-DrvInv, start-DrvInv, stop-DrvInv, close-DrvInv}

-- One step of the system. `update_field_var` stands for the calls on variables; a master writes the
-- coils and the holding registers, and leaves the sizes of the tables as they are.
pub data Step {F : Type 0} (codec : FloatCodec F) (s : SlaveDrv) : SlaveDrv → Type 0 where
  inited :
      (path : String) (file : Document) (lib : Modbus) (b : Bool) (t : SlaveDrv)
      → Allocates lib
      → init path file lib s ≡ some (b, t)
      → Step codec s t
  started : Step codec s (start s).1
  stopped : Step codec s (stop s).1
  closed : Step codec s (close s).0
  looped : (net : Net) → AcceptsFresh net → Step codec s (loop_round net s).0
  updated :
      (v v' : IoVar F) (b : Bool) (t : SlaveDrv)
      → update_field_var codec v s ≡ some (b, v', t)
      → Step codec s t
  master_wrote :
      (m m' : Mapping)
      → s.mapping ≡ some m
      → Fits s.num_io_vars s.num_ro_ints m'
      → Step codec s (record s { mapping = some m' })

-- The states that the driver can be in after its construction.
pub data Reach {F : Type 0} (codec : FloatCodec F) : SlaveDrv → Type 0 where
  built : (junk : SlaveDrv) (little : Bool) → Reach codec (construct_drv junk little)
  stepped : (s t : SlaveDrv) → Reach codec s → Step codec s t → Reach codec t

-- A driver that has tables is initialised.
up_of : (s : SlaveDrv) → DrvInv s → (m : Mapping) → s.mapping ≡ some m → is_uninit s.state ≡ false
up_of s v m e = elim (Bool-cases (is_uninit s.state)) [
  | inl idle ↦ absurd (none-ne-some m (sym (v.bare idle) ∙ e))
  | inr up ↦ up
]

-- A write of the tables of an initialised driver.
pub with_mapping-DrvInv :
    (s : SlaveDrv) (m' : Mapping)
    → DrvInv s
    → is_uninit s.state ≡ false
    → Fits s.num_io_vars s.num_ro_ints m'
    → DrvInv (record s { mapping = some m' })
with_mapping-DrvInv s m' v up f = record {
  bare = λ w. absurd (cc);
  tables = λ w. (m', refl, f);
  failures = v.failures;
  sockets = elim v.sockets [
    | inl shut ↦ inl shut
    | inr (srv, i, k) ↦ inr (srv, moved s _ refl refl refl refl i, k)
  ];
}

module _ {F : Type 0} (codec : FloatCodec F) where
  -- A call changes at most the tables, and of an initialised driver only.
  update_at-frame :
      (v v' : IoVar F) (n : ℕ) (s t : SlaveDrv) (b : Bool)
      → update_at codec v n s ≡ some (b, v', t)
      → (s ≡ t)
        ⊎ ((m' : Mapping) × (record s { mapping = some m' } ≡ t)
            × (is_uninit s.state ≡ false)
            × (IsReady s → Fits s.num_io_vars s.num_ro_ints m'))
  unfolding update_at
  update_at-frame v v' n s t b e = elim (Bool-cases (refused n s.num_io_vars s.state)) [
    | inl bad ↦ inl (ap (λ r. r.2) (some-injective _ _ (rw bad at e)))
    | inr good ↦
        let (m, is, rest) = bind-some s.mapping _ (b, v', t) (rw good at e) in
        let (r, inside, last) =
          bind-some (update_in codec s.little s.num_ro_ints v n m) _ (b, v', t) rest in
        inr (
          r.1,
          ap (λ r. r.2) (some-injective _ _ last),
          ground arith,
          λ (m₁, is₁, f).
              let same : m₁ ≡ m = some-injective m₁ m (sym is₁ ∙ is) in
              update_in-Fits s.num_io_vars s.num_ro_ints codec s.little v r.0 n m r.1 inside
                (subst (Fits s.num_io_vars s.num_ro_ints) same f),
        )
  ]

  update_field_var-frame :
      (v v' : IoVar F) (s t : SlaveDrv) (b : Bool)
      → update_field_var codec v s ≡ some (b, v', t)
      → (s ≡ t)
        ⊎ ((m' : Mapping) × (record s { mapping = some m' } ≡ t)
            × (is_uninit s.state ≡ false)
            × (IsReady s → Fits s.num_io_vars s.num_ro_ints m'))
  unfolding update_field_var
  update_field_var-frame v v' s t b e =
      elim (Option-cases (Dict.lookup ◌==◌ v.var_id s.field_vars)) [
        | inl missing ↦
            inl (ap (λ r. r.2) (some-injective _ _ (rw (missing, update_field_var) at e)))
        | inr (a, found) ↦
            update_at-frame v v' (num_var a.channel s.num_ro_ints) s t b
              (rw (found, update_field_var) at e)
      ]

  pub update_field_var-Small :
      (v v' : IoVar F) (s t : SlaveDrv) (b : Bool)
      → update_field_var codec v s ≡ some (b, v', t)
      → Small s.num_io_vars s.num_ro_ints
      → Small t.num_io_vars t.num_ro_ints
  update_field_var-Small v v' s t b e h = elim (update_field_var-frame v v' s t b e) [
    | inl same ↦ rw⁻¹ same h
    | inr (m', wrote, _, _) ↦ rw⁻¹ wrote h
  ]

  pub update_field_var-DrvInv :
      (v v' : IoVar F) (s t : SlaveDrv) (b : Bool)
      → update_field_var codec v s ≡ some (b, v', t)
      → DrvInv s
      → DrvInv t
  update_field_var-DrvInv v v' s t b e i = elim (update_field_var-frame v v' s t b e) [
    | inl same ↦ rw⁻¹ same i
    | inr (m', wrote, up, sizes) ↦ rw⁻¹ wrote (with_mapping-DrvInv s m' i up (sizes (i.tables up)))
  ]

  Step-DrvInv : (s t : SlaveDrv) → Step codec s t → DrvInv s → DrvInv t
  Step-DrvInv s _ (Step.inited path file lib b t a e) v = init-DrvInv path file lib s b t a v e
  Step-DrvInv s t Step.started v = start-DrvInv s v
  Step-DrvInv s t Step.stopped v = stop-DrvInv s v
  Step-DrvInv s t Step.closed v = close-DrvInv s v
  Step-DrvInv s t (Step.looped net f) v = loop_round-DrvInv net s f v
  Step-DrvInv s _ (Step.updated x x' b t e) v = update_field_var-DrvInv x x' s t b e v
  Step-DrvInv s t (Step.master_wrote m m' e f) v = with_mapping-DrvInv s m' v (up_of s v m e) f

  -- Every state that the driver reaches is well formed, whatever the configuration file, the network
  -- and the masters do, in any order of the calls and the rounds of the thread: it has tables exactly
  -- when it is initialised, of the sizes that the products of 32 bits of `init` give; a socket is open
  -- only while it runs or has just failed, the set of sockets agrees with the counter of connections,
  -- which is at most five, and the count of failures is at most three.
  pub Reach-DrvInv : (s : SlaveDrv) → Reach codec s → DrvInv s
  Reach-DrvInv s (Reach.built junk little) = construct_drv-DrvInv junk little
  Reach-DrvInv s (Reach.stepped r _ before step) = Step-DrvInv r s step (Reach-DrvInv r before)

  -- In every state that an initialised driver reaches with a configuration for which the sizes of the
  -- tables do not wrap at 32 bits, `updateFieldVar` stays inside the tables: it returns, and the
  -- driver it leaves is well formed.
  pub update_field_var-returns :
      (v : IoVar F) (s : SlaveDrv)
      → Reach codec s
      → is_uninit s.state ≡ false
      → s.num_io_vars * 4 + s.num_ro_ints * 2 < 2 ^ 32
      → (b : Bool) × (v' : IoVar F) × (t : SlaveDrv) × (update_field_var codec v s
          ≡ some (b, v', t))
        × DrvInv t
  update_field_var-returns v s r up small =
      let i = Reach-DrvInv s r in
      let (b, v', t, e, _) = update_field_var-IsReady codec v s (i.tables up) (omega arith) in
      (b, v', t, e, update_field_var-DrvInv v v' s t b e i)
