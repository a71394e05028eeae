-- ===== src/RegImage/Pending.antt =====
-- The phases of the buttons of RegImage.cpp, one address at a time.
use turbine_governor.Base.{
  ◌≡◌, ◌≢◌, refl, ap, ◌∙◌, ◌⊎◌, inl, inr, Bool, true, false, not, Option, none, some, List, [], ◌∷◌,
  ◌++◌, if◌then◌else◌, arith,
}
use turbine_governor.Types.{IoAddr, same_addr}
use turbine_governor.RegImage.Buttons.{ButtonWrites}

-- The values that a list of requests has for an address.
abbrev pub values : IoAddr → ButtonWrites → List Bool
values a [] = []
values a ((b, v) ∷ ws) = if same_addr b a then v ∷ values a ws else values a ws

pub values-append :
    (a : IoAddr) (ws us : ButtonWrites) → values a (ws ++ us) ≡ values a ws ++ values a us
values-append a [] us = refl
values-append a ((b, v) ∷ ws) us = ground (arith, values-append a ws us)

-- A button at an address, by the entries of both tables: what the driver still has to answer, what
-- waits in the queue, and what the variable last got.
abbrev pub IsPhase : Bool → Option Bool → Option Bool → List Bool → List Bool → Bool → Type 0
IsPhase rest none none asked queued coil = (asked ≡ []) × (queued ≡ []) × (coil ≡ rest)
IsPhase rest (some v) none asked queued coil =
    (v ≡ not rest) × (asked ≡ v ∷ []) × (queued ≡ []) × (coil ≡ rest)
IsPhase rest none (some v) asked queued coil =
    (v ≡ rest) × (((asked ≡ v ∷ []) × (queued ≡ [])) ⊎ ((asked ≡ []) × (queued ≡ v ∷ [])))
IsPhase rest (some v) (some w) asked queued coil = ⊥

-- A list that has one element.
one_of_append :
    (before after : List Bool) (v u : Bool)
    → before ++ (v ∷ after) ≡ u ∷ []
    → (before ≡ []) × (v ≡ u) × (after ≡ [])
one_of_append [] after v u e = ground arith
one_of_append (x ∷ []) after v u e = absurd (cc)
one_of_append (x ∷ y ∷ before) after v u e = absurd (cc)

none_of_append : (before after : List Bool) (v : Bool) → before ++ (v ∷ after) ≢ []
none_of_append [] after v e = cc
none_of_append (x ∷ before) after v e = cc

split_of_one :
    (taken left : List Bool) (v : Bool)
    → taken ++ left ≡ v ∷ []
    → ((taken ≡ v ∷ []) × (left ≡ [])) ⊎ ((taken ≡ []) × (left ≡ v ∷ []))
split_of_one [] left v e = inr (refl, e)
split_of_one (x ∷ []) left v e = ground arith
split_of_one (x ∷ y ∷ taken) left v e = absurd (cc)

split_of_none : (taken left : List Bool) → taken ++ left ≡ [] → (taken ≡ []) × (left ≡ [])
split_of_none [] left e = (refl, e)
split_of_none (x ∷ taken) left e = absurd (cc)

-- What becomes of the tables when the driver answers, and of what waits in the queue.
abbrev pub cleaned : Option Bool → Option Bool
cleaned none = none
cleaned (some v) = some (not v)

abbrev pub waiting_after : Option Bool → List Bool
waiting_after none = []
waiting_after (some v) = v ∷ []

not-not : (b : Bool) → not (not b) ≡ b
not-not true = refl
not-not false = refl

abbrev pub if_none : Option Bool → Option Bool → Option Bool
if_none none c = c
if_none (some w) c = none

-- A step of the driver or the timer at one address: the phase goes on as it should.
module _ (rest : Bool) where
  pub pressed-IsPhase :
      (v : Bool) (asked queued : List Bool) (coil : Bool)
      → v ≡ not rest
      → IsPhase rest none none asked queued coil
      → IsPhase rest (some v) none (asked ++ (v ∷ [])) queued coil
  pressed-IsPhase v asked queued coil e (a, q, c) = (e, ap (λ l. l ++ (v ∷ [])) a, q, c)

  pub succeeded-IsPhase :
      (w c : Option Bool) (before after queued : List Bool) (v coil : Bool)
      → IsPhase rest w c (before ++ (v ∷ after)) queued coil
      → IsPhase rest none (cleaned w) (before ++ after) (queued ++ waiting_after (cleaned w)) v
  succeeded-IsPhase none none before after queued v coil (asked, q, k) =
      absurd (none_of_append before after v asked)
  succeeded-IsPhase (some u) none before after queued v coil (e, asked, q, k) =
      let (b, vu, a) = one_of_append before after v u asked in
      (ap not e ∙ not-not rest, inr (rw (b, a), rw q))
  succeeded-IsPhase none (some u) before after queued v coil (e, inl (asked, q)) =
      let (b, vu, a) = one_of_append before after v u asked in (rw (b, a), rw q, vu ∙ e)
  succeeded-IsPhase none (some u) before after queued v coil (e, inr (asked, q)) =
      absurd (none_of_append before after v asked)
  succeeded-IsPhase (some u) (some x) before after queued v coil h = absurd h

  pub timed_out-IsPhase :
      (w c : Option Bool) (before after queued : List Bool) (v coil : Bool)
      → IsPhase rest w c (before ++ (v ∷ after)) queued coil
      → IsPhase rest none
          (if_none w c)
          (before ++ after)
          (queued ++ waiting_after (if_none w c))
          coil
  timed_out-IsPhase none none before after queued v coil (asked, q, k) =
      absurd (none_of_append before after v asked)
  timed_out-IsPhase (some u) none before after queued v coil (e, asked, q, k) =
      let (b, vu, a) = one_of_append before after v u asked in (rw (b, a), rw q, k)
  timed_out-IsPhase none (some u) before after queued v coil (e, inl (asked, q)) =
      let (b, vu, a) = one_of_append before after v u asked in (e, inr (rw (b, a), rw q))
  timed_out-IsPhase none (some u) before after queued v coil (e, inr (asked, q)) =
      absurd (none_of_append before after v asked)
  timed_out-IsPhase (some u) (some x) before after queued v coil h = absurd h

  pub served-IsPhase :
      (w c : Option Bool) (asked taken left : List Bool) (coil : Bool)
      → IsPhase rest w c asked (taken ++ left) coil
      → IsPhase rest w c (asked ++ taken) left coil
  served-IsPhase none none asked taken left coil (a, q, k) =
      ground (arith, split_of_none taken left)
  served-IsPhase (some u) none asked taken left coil (e, a, q, k) =
      ground (arith, split_of_none taken left)
  served-IsPhase none (some u) asked taken left coil (e, inl (a, q)) =
      let (t, l) = split_of_none taken left q in (e, inl (rw (a, t), l))
  served-IsPhase none (some u) asked taken left coil (e, inr (a, q)) =
      elim (split_of_one taken left u q) [
        | inl (t, l) ↦ (e, inl (rw (a, t), l))
        | inr (t, l) ↦ (e, inr (rw (a, t), l))
      ]
  served-IsPhase (some u) (some x) asked taken left coil h = absurd h
