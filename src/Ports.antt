-- ===== src/Ports.antt =====
-- apps/control/src/containers/ports.ts: `allocatePortFromRange`. Whether a port can be bound is
-- asked of the system, so `port_available` is a parameter.
pub mod Choice
mod Tests
use code_runner.Prelude.{
  ℕ, suc, ◌-◌, List, [], ◌∷◌, ◌++◌, Option, none, some, Bool, true, false, ◌&&◌, ◌||◌, not,
  if◌then◌else◌, ltb, has,
}

pub record PortRange : Type 0 where
  pub start : ℕ
  pub end : ℕ

-- `count` ports from `port` on.
unfoldable pub ports_from : ℕ → ℕ → List ℕ
ports_from port ℕ.zero = []
ports_from port (ℕ.suc count) = port ∷ ports_from (suc port) count

unfoldable pub candidates : Option ℕ → PortRange → List ℕ
unfolding ports_from
candidates none range = ports_from range.start (suc range.end - range.start)
candidates (some preferred) range = preferred ∷ ports_from range.start (suc range.end - range.start)

-- The conditions of the loop under which it goes on to the next candidate.
unfoldable pub skipped : PortRange → List ℕ → List ℕ → ℕ → Bool
skipped range rejected leased port =
    ltb port range.start || ltb range.end port || has port rejected || has port leased

unfoldable pub first_free : (ℕ → Bool) → PortRange → List ℕ → List ℕ → List ℕ → Option ℕ
unfolding skipped
first_free port_available range rejected leased [] = none
first_free port_available range rejected leased (port ∷ ports) =
    let later = first_free port_available range rejected leased ports in
    if skipped range rejected leased port
    then later
    else if port_available port
    then some port
    else later

-- `none` is the error that no port is free.
unfoldable pub allocate_port_from_range :
    (ℕ → Bool) → PortRange → List ℕ → Option ℕ → List ℕ → Option ℕ
unfolding candidates first_free
allocate_port_from_range port_available range leased preferred rejected =
    first_free port_available range rejected leased (candidates preferred range)
