-- ===== src/TorFleet/Allocation.antt =====
-- apps/shell/src/main/torfleet.ts: the ports of a fleet do not collide.
use deepseek_harness.Common.{
  ℕ, zero, suc, ◌+◌, ◌-◌, ◌≤◌, ◌<◌, ◌≡◌, refl, Bool, true, false, not, ◌&&◌, none, some, List, [],
  ◌∷◌, contains, nat_eq, subst, sym, arith, Bool-cases, Option-cases, inl, inr, length, ◌⊎◌,
}
use deepseek_harness.Pool.Spawn.{Launch}
use deepseek_harness.TorFleet.Fleet.{TorFleet, start, count_of}
use native.Mathlib.Decide.{dec_le}
use deepseek_harness.TorFleet.Ports.{
  scan_ports, find_free_port, allocate, PortPair, socks_base_port, control_base_port, last_port,
}

-- A port that may be taken.
abbrev pub IsOpen : (ℕ → Bool) → List ℕ → ℕ → Type 0
IsOpen free used port = (contains used port ≡ false) × (free port ≡ true)

open_parts : (a b : Bool) → (not a && b) ≡ true → (a ≡ false) × (b ≡ true)
open_parts true b h = absurd (cc h)
open_parts false b h = (refl, h)

taken_parts : (a b : Bool) → (not a && b) ≡ false → (a ≡ true) ⊎ (b ≡ false)
taken_parts true b h = inl refl
taken_parts false b h = inr h

scan_ports_sound :
    (free : ℕ → Bool) (used : List ℕ) (port left found : ℕ)
    → scan_ports free used port left ≡ some found
    → IsOpen free used found
      × (port ≤ found)
      × (found < port + left)
      × ((other : ℕ)
          → port ≤ other
          → other < found
          → (contains used other ≡ true) ⊎ (free other ≡ false))
unfolding scan_ports
scan_ports_sound free used port zero found h = absurd (cc h)
scan_ports_sound free used port (suc left) found h =
    elim (Bool-cases (not (contains used port) && free port)) [
      | inl open_here ↦
          let same : port ≡ found = cc (rw (open_here, scan_ports) at h) in
          let (fresh, idle) = open_parts (contains used port) (free port) open_here in
          subst
            (λ k.
              IsOpen free used k
              × (port ≤ k)
              × (k < port + suc left)
              × ((other : ℕ)
                  → port ≤ other
                  → other < k
                  → (contains used other ≡ true) ⊎ (free other ≡ false)))
            same ((fresh, idle), omega arith, omega arith, λ other low high. absurd (omega arith))
      | inr taken ↦
          let (is_open, above, below, first) =
            scan_ports_sound free used (port + 1) left found (rw (taken, scan_ports) at h) in
          (
            is_open,
            omega arith,
            omega arith,
            λ other low high. elim (dec_le (port + 1) other) [
              | yes later ↦ first other later high
              | no early ↦
                  let here : port ≡ other = omega arith in
                  subst (λ k. (contains used k ≡ true) ⊎ (free k ≡ false)) here
                    (taken_parts (contains used port) (free port) taken)
            ],
          )
    ]

-- `findFreePort` gives the first port from the preferred one on, up to 65,000, that is free and not
-- reserved in this run.
pub find_free_port_first :
    (free : ℕ → Bool) (preferred : ℕ) (used : List ℕ) (found : ℕ)
    → find_free_port free preferred used ≡ some found
    → IsOpen free used found
      × (preferred ≤ found)
      × (found ≤ 65000)
      × ((other : ℕ)
          → preferred ≤ other
          → other < found
          → (contains used other ≡ true) ⊎ (free other ≡ false))
unfolding find_free_port
find_free_port_first free preferred used found h =
    let (is_open, above, below, first) =
      scan_ports_sound free used preferred (last_port + 1 - preferred) found h in
    (is_open, above, omega arith, first)

-- All ports of the pairs are open, and none is the same as a reserved one or one before it.
abbrev pub AllOpen : (ℕ → Bool) → List ℕ → List PortPair → Type 0
AllOpen free used [] = Unit
AllOpen free used (pair ∷ pairs) =
    IsOpen free used pair.socks
    × IsOpen free (pair.socks ∷ used) pair.control
    × AllOpen free (pair.control ∷ pair.socks ∷ used) pairs

-- An allocation gives as many pairs of ports as there are instances; each port is free and differs
-- from all ports allocated before it.
pub allocate-AllOpen :
    (free : ℕ → Bool) (used : List ℕ) (i count : ℕ) (pairs : List PortPair)
    → allocate free used i count ≡ some pairs
    → (length pairs ≡ count) × AllOpen free used pairs
unfolding allocate
allocate-AllOpen free used i zero pairs h =
    (let same : [] ≡ pairs = cc h in
      subst (λ k. (length k ≡ 0) × AllOpen free used k) same (refl, tt))
allocate-AllOpen free used i (suc count) pairs h =
    elim (Option-cases (find_free_port free (socks_base_port + i) used)) [
      | inl missing ↦ absurd (cc (rw (missing, allocate) at h))
      | inr (socks, found) ↦
          elim (Option-cases (find_free_port free (control_base_port + i) (socks ∷ used))) [
            | inl missing ↦ absurd (cc (rw (found, missing, allocate) at h))
            | inr (control, second) ↦
                elim (Option-cases (allocate free (control ∷ socks ∷ used) (i + 1) count)) [
                  | inl missing ↦ absurd (cc (rw (found, second, missing, allocate) at h))
                  | inr (rest, third) ↦
                      let same : record { socks = socks; control = control } ∷ rest ≡ pairs =
                        cc (rw (found, second, third, allocate) at h) in
                      let a =
                        (find_free_port_first free (socks_base_port + i) used socks found).0 in
                      let b =
                        (find_free_port_first free (control_base_port + i) (socks ∷ used) control
                          second).0 in
                      let (n, all) =
                        allocate-AllOpen free (control ∷ socks ∷ used) (i + 1) count rest third in
                      subst (λ k. (length k ≡ suc count) × AllOpen free used k) same
                        (omega arith, (a, b, all))
                ]
          ]
    ]

pub allocate-none :
    (free : ℕ → Bool) (used : List ℕ) (i count : ℕ)
    → find_free_port free (socks_base_port + i) used ≡ none
    → allocate free used i (suc count) ≡ none
unfolding allocate
allocate-none free used i count missing = rw (missing, allocate) refl

-- Once a start has failed to find its ports, every later start does nothing: the fleet counts as
-- running, with no instance.
failed_start_blocks :
    (f : TorFleet) (free later : ℕ → Bool) (now next : ℕ) (launched again : ℕ → Launch)
    → f.running_flag ≡ false
    → allocate free [] 0 (count_of f.instance_count) ≡ none
    → ((start f free now launched).0 ≡ true)
      × ((start f free now launched).1.instances ≡ f.instances)
      × (start (start f free now launched).1 later next again
          ≡ (false, (start f free now launched).1))
unfolding start
failed_start_blocks f free later now next launched again down busy =
    let first : start f free now launched ≡ (true, record f { running_flag = true }) =
      rw (down, busy, start) refl in
    subst
      (λ r.
        (r.0 ≡ true) × (r.1.instances ≡ f.instances) × (start r.1 later next again ≡ (false, r.1)))
      (sym first) (refl, refl, refl)
