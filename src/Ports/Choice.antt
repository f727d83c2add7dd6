-- ===== src/Ports/Choice.antt =====
-- Which port the allocation of apps/control/src/containers/ports.ts takes.
use code_runner.Prelude.{
  ℕ, suc, ◌+◌, ◌-◌, ◌≤◌, ◌<◌, List, [], ◌∷◌, Option, none, some, Bool, true, false, ◌≡◌, refl, inl,
  inr, arith, Bool-cases, ltb, has,
}
use code_runner.Ports.{
  PortRange, ports_from, candidates, skipped, first_free, allocate_port_from_range,
}

module _ (port_available : ℕ → Bool) (range : PortRange) (leased rejected : List ℕ) where
  -- A port that may be handed out.
  pub record IsFree (port : ℕ) : Type 0 where
    pub low : range.start ≤ port
    pub high : port ≤ range.end
    pub unleased : has port leased ≡ false
    pub unrejected : has port rejected ≡ false
    pub available : port_available port ≡ true

  IsFree-skipped : (port : ℕ) → IsFree port → skipped range rejected leased port ≡ false
  unfolding skipped
  IsFree-skipped port free = ground (arith, free)

  skipped-IsFree :
      (port : ℕ)
      → skipped range rejected leased port ≡ false
      → port_available port ≡ true
      → IsFree port
  unfolding skipped
  skipped-IsFree port h a = record {
    low = ground arith;
    high = ground arith;
    unleased = ground arith;
    unrejected = ground arith;
    available = a;
  }

  first_free-IsFree :
      (ports : List ℕ) (port : ℕ)
      → first_free port_available range rejected leased ports ≡ some port
      → IsFree port
  unfolding first_free
  first_free-IsFree [] port h = ground arith
  first_free-IsFree (p ∷ ports) port h = elim (Bool-cases (skipped range rejected leased p)) [
    | inl skip ↦ first_free-IsFree ports port (ground arith)
    | inr go ↦ elim (Bool-cases (port_available p)) [
      | inl up ↦ let this : p ≡ port = ground arith in rw (← this) (skipped-IsFree p go up)
      | inr down ↦ first_free-IsFree ports port (ground arith)
    ]
  ]

  -- Some free port stands among the candidates.
  first_free-finds :
      (ports : List ℕ) (q : ℕ)
      → has q ports ≡ true
      → IsFree q
      → (p : ℕ) × (first_free port_available range rejected leased ports ≡ some p)
  unfolding first_free has
  first_free-finds [] q h free = ground arith
  first_free-finds (p ∷ ports) q h free = elim (Bool-cases (skipped range rejected leased p)) [
    | inl skip ↦
        let other : has q ports ≡ true = ground (arith, IsFree-skipped q free) in
        let (x, e) = first_free-finds ports q other free in (x, rw (skip, first_free) e)
    | inr go ↦ elim (Bool-cases (port_available p)) [
      | inl up ↦ (p, rw (go, first_free) (rw up refl))
      | inr down ↦
          let other : has q ports ≡ true = ground (arith, free) in
          let (x, e) = first_free-finds ports q other free in (x, rw (go, first_free) (rw down e))
    ]
  ]

  has-ports_from :
      (count port q : ℕ) → port ≤ q → q < port + count → has q (ports_from port count) ≡ true
  unfolding ports_from has
  has-ports_from ℕ.zero port q l h = ground arith
  has-ports_from (ℕ.suc count) port q l h = elim (Bool-cases (ltb port q)) [
    | inl later ↦ ground (arith, has-ports_from count (suc port) q)
    | inr here ↦ ground arith
  ]

  has-candidates :
      (preferred : Option ℕ) (q : ℕ) → IsFree q → has q (candidates preferred range) ≡ true
  unfolding candidates has
  has-candidates none q free =
      has-ports_from (suc range.end - range.start) range.start q free.low (ground (arith, free))
  has-candidates (some p) q free =
      let there =
        has-ports_from (suc range.end - range.start) range.start q free.low
          (ground (arith, free)) in
      ground arith

  -- A port that is handed out lies in the range, is leased to nobody else, has not been rejected
  -- and can be bound.
  pub allocate_port_from_range-IsFree :
      (preferred : Option ℕ) (port : ℕ)
      → allocate_port_from_range port_available range leased preferred rejected ≡ some port
      → IsFree port
  unfolding allocate_port_from_range
  allocate_port_from_range-IsFree preferred port h =
      first_free-IsFree (candidates preferred range) port h

  -- If a port of the range is left that is neither leased nor rejected and can be bound, whatever
  -- the preferred one, some port is handed out.
  pub allocate_port_from_range-finds :
      (preferred : Option ℕ) (q : ℕ)
      → IsFree q
      → (p : ℕ) × (allocate_port_from_range port_available range leased preferred rejected ≡ some p)
  unfolding allocate_port_from_range
  allocate_port_from_range-finds preferred q free =
      first_free-finds (candidates preferred range) q (has-candidates preferred q free) free
