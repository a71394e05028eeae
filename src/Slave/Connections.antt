-- ===== src/Slave/Connections.antt =====
-- The set of sockets of ModbusSlaveDrv.cpp agrees with its counters, through every round.
use turbine_governor.Base.{
  ℕ, ◌+◌, ◌-◌, ◌≤◌, ◌≡◌, refl, ◌∙◌, true, false, some, List, [], ◌∷◌, ◌==◌, if◌then◌else◌, length,
  arith,
}
use turbine_governor.Slave.State.{SlaveDrv}
use turbine_governor.Slave.Server.{fd_isset, fd_clr, drop_master}

abbrev pub Distinct : List ℕ → Type 0
Distinct [] = Unit {0}
Distinct (x ∷ xs) = (fd_isset x xs ≡ false) × Distinct xs

abbrev pub Bounded : ℕ → List ℕ → Type 0
Bounded n [] = Unit {0}
Bounded n (x ∷ xs) = (x ≤ n) × Bounded n xs

-- With an open server, the set holds the server and one socket for each connection, none twice and
-- none above `fdmax`, and there are at most five connections.
pub record ServerInv (srv : ℕ) (s : SlaveDrv) : Type 0 where
  pub server_open : s.server_sock ≡ some srv
  pub server_in : fd_isset srv s.refset ≡ true
  pub distinct : Distinct s.refset
  pub bounded : Bounded s.fdmax s.refset
  pub counted : s.num_connections + 1 ≡ length s.refset
  pub few : s.num_connections ≤ 5

fd_isset-fd_clr_self : (fd : ℕ) (xs : List ℕ) → fd_isset fd (fd_clr fd xs) ≡ false
unfolding fd_clr
fd_isset-fd_clr_self fd [] = refl
fd_isset-fd_clr_self fd (x ∷ xs) = ground (arith, fd_isset-fd_clr_self fd xs)

pub fd_isset-fd_clr_ne :
    (fd x : ℕ) (xs : List ℕ) → (fd == x) ≡ false → fd_isset x (fd_clr fd xs) ≡ fd_isset x xs
unfolding fd_clr
fd_isset-fd_clr_ne fd x [] h = refl
fd_isset-fd_clr_ne fd x (y ∷ xs) h = ground (arith, fd_isset-fd_clr_ne fd x xs)

fd_clr_absent : (fd : ℕ) (xs : List ℕ) → fd_isset fd xs ≡ false → fd_clr fd xs ≡ xs
unfolding fd_clr
fd_clr_absent fd [] h = refl
fd_clr_absent fd (x ∷ xs) h = ground (arith, fd_clr_absent fd xs)

length-fd_clr :
    (fd : ℕ) (xs : List ℕ)
    → Distinct xs
    → fd_isset fd xs ≡ true
    → length (fd_clr fd xs) + 1 ≡ length xs
unfolding fd_clr
length-fd_clr fd [] d h = absurd (cc)
length-fd_clr fd (x ∷ xs) d h = ground (arith, length-fd_clr fd xs d.1, fd_clr_absent fd xs)

pub Distinct-fd_clr : (fd : ℕ) (xs : List ℕ) → Distinct xs → Distinct (fd_clr fd xs)
unfolding fd_clr
Distinct-fd_clr fd [] d = tt
Distinct-fd_clr fd (x ∷ xs) d =
    ground (arith, Distinct-fd_clr fd xs d.1, fd_isset-fd_clr_ne fd x xs)

-- With the largest descriptor gone the bound may fall by one.
Bounded-fd_clr :
    (fd n : ℕ) (xs : List ℕ) → Bounded n xs → Bounded (if fd == n then n - 1 else n) (fd_clr fd xs)
unfolding fd_clr
Bounded-fd_clr fd n [] b = tt
Bounded-fd_clr fd n (x ∷ xs) b = ground (arith, Bounded-fd_clr fd n xs b.1)

pub Bounded-mono : (m n : ℕ) (xs : List ℕ) → m ≤ n → Bounded m xs → Bounded n xs
Bounded-mono m n [] h b = tt
Bounded-mono m n (x ∷ xs) h b = (omega arith, Bounded-mono m n xs h b.1)

two_members :
    (x y : ℕ) (xs : List ℕ)
    → fd_isset x xs ≡ true
    → fd_isset y xs ≡ true
    → (y == x) ≡ false
    → 2 ≤ length xs
two_members x y [] h k n = absurd (cc)
two_members x y (z ∷ []) h k n = absurd (ground arith)
two_members x y (z ∷ w ∷ xs) h k n = omega arith

pub drop_master-ServerInv :
    (srv fd : ℕ) (s : SlaveDrv)
    → ServerInv srv s
    → fd_isset fd s.refset ≡ true
    → (fd == srv) ≡ false
    → ServerInv srv (drop_master fd s)
unfolding drop_master
drop_master-ServerInv srv fd s v there other = record {
  server_open = v.server_open;
  server_in = fd_isset-fd_clr_ne fd srv s.refset other ∙ v.server_in;
  distinct = Distinct-fd_clr fd s.refset v.distinct;
  bounded = Bounded-fd_clr fd s.fdmax s.refset v.bounded;
  counted = omega (arith, v.counted, length-fd_clr fd s.refset v.distinct there, longer);
  few = omega (arith, v.few);
}
  where
    longer : 2 ≤ length s.refset
    longer = two_members srv fd s.refset v.server_in there other
