-- ===== src/TorFleet/Examples.antt =====
-- Concrete fleets: tests of apps/shell/src/main/torfleet.ts, and each theorem at one of them.
use deepseek_harness.Common.{
  ℕ, ◌≡◌, refl, Bool, false, not, none, List, [], ◌∷◌, length, ◌==◌, nat_eq, zero, suc, ◌+◌, ◌-◌,
  Bool-cases, inl, inr, contains,
}
use deepseek_harness.TorFleet.Ports.{allocate, PortPair, scan_ports, find_free_port}
use deepseek_harness.TorFleet.Fleet.{TorFleet, stopped}
use deepseek_harness.TorFleet.Allocation.{AllOpen, allocate-AllOpen, allocate-none}

-- The first port of each range is taken by another program.
abbrev free : ℕ → Bool
free port = not (port == 9150)

abbrev pairs : List PortPair
pairs = record { socks = 9151; control = 9251 } ∷ record { socks = 9152; control = 9252 } ∷ []

allocate-AllOpen_example : (length pairs ≡ 2) × AllOpen free [] pairs
unfolding allocate
allocate-AllOpen_example = allocate-AllOpen free [] 0 2 pairs refl

abbrev fleet : TorFleet
fleet = record {
  instance_count = none;
  heap = λ a. record {
    index = 0;
    socks_port = 0;
    control_port = 0;
    pid = none;
    status = stopped;
    proc = none;
  };
  next = 0;
  instances = [];
  running_flag = false;
  bootstraps = [];
  effects = [];
}

none_free : (used : List ℕ) (port left : ℕ) → scan_ports (λ p. false) used port left ≡ none
unfolding scan_ports
none_free used port zero = refl
none_free used port (suc left) = elim (Bool-cases (contains used port)) [
  | inl taken ↦ rw (taken, scan_ports) (none_free used (port + 1) left)
  | inr fresh ↦ rw (fresh, scan_ports) (none_free used (port + 1) left)
]

no_port : find_free_port (λ port. false) (9150 + 0) [] ≡ none
unfolding find_free_port
no_port = none_free [] (9150 + 0) (65001 - (9150 + 0))

no_ports : allocate (λ port. false) [] 0 4 ≡ none
no_ports = allocate-none (λ port. false) [] 0 3 no_port
