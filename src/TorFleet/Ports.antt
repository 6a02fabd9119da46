-- ===== src/TorFleet/Ports.antt =====
-- apps/shell/src/main/torfleet.ts: `findFreePort`, and the allocation of all ports in `start`. Which
-- ports are free is an argument; the loop is bounded by the ports that are left up to 65,000.
use deepseek_harness.Common.{
  ℕ, zero, suc, ◌+◌, ◌-◌, Bool, not, ◌&&◌, Option, none, some, List, [], ◌∷◌, contains, nat_eq,
  if◌then◌else◌,
}

abbrev pub socks_base_port : ℕ
socks_base_port = 9150

abbrev pub control_base_port : ℕ
control_base_port = 9251

abbrev pub default_instance_count : ℕ
default_instance_count = 4

abbrev pub last_port : ℕ
last_port = 65000

-- The loop from a port on, with so many ports left.
unfoldable pub scan_ports : (ℕ → Bool) → List ℕ → ℕ → ℕ → Option ℕ
scan_ports free used port zero = none
scan_ports free used port (suc left) =
    let next = scan_ports free used (port + 1) left in
    if not (contains used port) && free port then some port else next

-- `none`: it throws.
unfoldable pub find_free_port : (ℕ → Bool) → ℕ → List ℕ → Option ℕ
unfolding scan_ports
find_free_port free preferred used = scan_ports free used preferred (last_port + 1 - preferred)

pub record PortPair : Type 0 where
  pub socks : ℕ
  pub control : ℕ

abbrev pub push_pair : ℕ → ℕ → Option (List PortPair) → Option (List PortPair)
push_pair socks control none = none
push_pair socks control (some pairs) = some (record { socks = socks; control = control } ∷ pairs)

-- The loop of `start` from the i-th instance on; `none`: it throws.
unfoldable pub allocate : (ℕ → Bool) → List ℕ → ℕ → ℕ → Option (List PortPair)
unfolding find_free_port
allocate free used i zero = some []
allocate free used i (suc count) = elim (find_free_port free (socks_base_port + i) used) [
  | none ↦ none
  | some socks ↦ elim (find_free_port free (control_base_port + i) (socks ∷ used)) [
    | none ↦ none
    | some control ↦ push_pair socks control (allocate free (control ∷ socks ∷ used) (i + 1) count)
  ]
]
