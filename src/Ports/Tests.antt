-- ===== src/Ports/Tests.antt =====
-- The allocation on a concrete range: two ports are leased, and the preferred one is out of range.
use code_runner.Prelude.{ℕ, List, [], ◌∷◌, some, Bool, ◌≡◌, refl, arith, has, ltb}
use code_runner.Ports.{
  PortRange, ports_from, candidates, skipped, first_free, allocate_port_from_range,
}
use code_runner.Ports.Choice.{
  IsFree, allocate_port_from_range-IsFree, allocate_port_from_range-finds,
}

abbrev sim_ports : PortRange
sim_ports = record { start = 5800; end = 5805 }

abbrev leased : List ℕ
leased = 5800 ∷ 5801 ∷ []

abbrev from_5803 : ℕ → Bool
from_5803 p = ltb 5802 p

takes_5803 : allocate_port_from_range from_5803 sim_ports leased (some 4000) [] ≡ some 5803
unfolding allocate_port_from_range candidates ports_from first_free skipped has
takes_5803 = refl

allocate_port_from_range-IsFree_example : IsFree from_5803 sim_ports leased [] 5803
allocate_port_from_range-IsFree_example =
    allocate_port_from_range-IsFree from_5803 sim_ports leased [] (some 4000) 5803 takes_5803

still-IsFree : IsFree from_5803 sim_ports leased [] 5804
unfolding has
still-IsFree = record {
  low = ground arith;
  high = ground arith;
  unleased = refl;
  unrejected = refl;
  available = refl;
}

allocate_port_from_range-finds_example :
    (p : ℕ) × (allocate_port_from_range from_5803 sim_ports leased (some 4000) [] ≡ some p)
allocate_port_from_range-finds_example =
    allocate_port_from_range-finds from_5803 sim_ports leased [] (some 4000) 5804 still-IsFree
