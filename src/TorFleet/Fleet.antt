-- ===== src/TorFleet/Fleet.antt =====
-- apps/shell/src/main/torfleet.ts: `TorFleet` as a machine, cut at each `await`. An instance is a
-- shared object: instances live in a heap, and the map holds their addresses. The bootstrap loops
-- that wait are part of the state.
use deepseek_harness.Common.{
  ℕ, ◌+◌, Bool, true, false, not, Option, none, some, List, [], ◌∷◌, map, filter, ltb, nat_eq,
  if◌then◌else◌,
}
use deepseek_harness.Common.JsMap.{JsMap, get, set, values}
use deepseek_harness.Pool.State.{ChildProcess, running, exit_code_null, update}
use deepseek_harness.Pool.Spawn.{Launch, throws, child}
use deepseek_harness.TorFleet.Ports.{PortPair, allocate, default_instance_count}

abbrev pub bootstrap_timeout_ms : ℕ
bootstrap_timeout_ms = 60000

pub data TorStatus : Type 0 where
  starting ready stopped : TorStatus

abbrev pub is_ready : TorStatus → Bool
is_ready ready = true
is_ready _ = false

pub record TorInstance : Type 0 where
  pub index : ℕ
  pub socks_port : ℕ
  pub control_port : ℕ
  pub pid : Option ℕ  -- `none` is -1
  pub status : TorStatus

pub record ManagedTor : Type 0 where
  pub index : ℕ
  pub socks_port : ℕ
  pub control_port : ℕ
  pub pid : Option ℕ
  pub status : TorStatus
  pub proc : Option ChildProcess

abbrev pub to_public : ManagedTor → TorInstance
to_public m = record {
  index = m.index;
  socks_port = m.socks_port;
  control_port = m.control_port;
  pid = m.pid;
  status = m.status;
}

-- A bootstrap loop that waits: its instance and its deadline.
pub record Bootstrap : Type 0 where
  pub address : ℕ
  pub deadline : ℕ

pub data Effect : Type 0 where
  changed : List TorInstance → Effect
  terminate force_kill : ℕ → Effect

pub record TorFleet : Type 0 where
  pub instance_count : Option ℕ
  pub heap : ℕ → ManagedTor
  pub next : ℕ
  pub instances : JsMap ℕ ℕ
  pub running_flag : Bool
  pub bootstraps : List Bootstrap
  pub effects : List Effect

unfoldable pub status : TorFleet → List TorInstance
status f = map (λ a. to_public (f.heap a)) (values f.instances)

abbrev pub emit_change : TorFleet → TorFleet
unfolding status
emit_change f = record f { effects = changed (status f) ∷ f.effects }

-- The ports that the pool is given: those of the ready instances, with their indices.
unfoldable pub socks_proxies : TorFleet → List (ℕ × ℕ)
socks_proxies f =
    map (λ m. (m.index, m.socks_port))
      (filter (λ m. is_ready m.status) (map f.heap (values f.instances)))

abbrev pub put : TorFleet → ℕ → ManagedTor → TorFleet
put f a m = record f { heap = update f.heap a m }

-- The end of `spawnInstance`'s first part: what `launchHidden` does.
abbrev pub launch_tor : TorFleet → ℕ → ℕ → Launch → TorFleet
launch_tor f a now throws = emit_change (put f a (record (f.heap a) { status = stopped }))
launch_tor f a now (child pid) =
    let g = put f a (record (f.heap a) { proc = some running; pid = pid }) in
    record g {
      bootstraps = record { address = a; deadline = now + bootstrap_timeout_ms } ∷ g.bootstraps;
    }

-- `spawnInstance` up to its wait.
unfoldable pub spawn_instance : TorFleet → ℕ → PortPair → ℕ → Launch → TorFleet
spawn_instance f index ports now launched =
    let m : ManagedTor = record {
      index = index;
      socks_port = ports.socks;
      control_port = ports.control;
      pid = none;
      status = starting;
      proc = none;
    } in
    let g = emit_change (record f {
      heap = update f.heap f.next m;
      next = f.next + 1;
      instances = set index f.next f.instances;
    }) in
    if not f.running_flag then f else launch_tor g f.next now launched

-- `ports.map((p, i) => this.spawnInstance(i, …))`.
unfoldable pub spawn_all : TorFleet → ℕ → List PortPair → ℕ → (ℕ → Launch) → TorFleet
unfolding spawn_instance
spawn_all f index [] now launched = f
spawn_all f index (ports ∷ rest) now launched =
    spawn_all (spawn_instance f index ports now (launched index)) (index + 1) rest now launched

abbrev pub count_of : Option ℕ → ℕ
count_of none = default_instance_count
count_of (some n) = n

-- `start`: whether it throws, and the fleet. `running` stays set where it throws.
abbrev pub spawn_allocated : TorFleet → Option (List PortPair) → ℕ → (ℕ → Launch) → Bool × TorFleet
unfolding spawn_all
spawn_allocated f none now launched = (true, f)
spawn_allocated f (some pairs) now launched = (false, spawn_all f 0 pairs now launched)

unfoldable pub start : TorFleet → (ℕ → Bool) → ℕ → (ℕ → Launch) → Bool × TorFleet
unfolding spawn_all allocate
start f free now launched =
    if f.running_flag
    then (false, f)
    else spawn_allocated (record f { running_flag = true })
        (allocate free [] 0 (count_of f.instance_count)) now launched

abbrev pub is_alive : Option ChildProcess → Bool
is_alive none = false
is_alive (some c) = exit_code_null c

-- `inst.proc && inst.proc.exitCode !== null`.
abbrev pub has_exited : Option ChildProcess → Bool
has_exited none = false
has_exited (some c) = not (exit_code_null c)

-- One pass of the loop of `stop`.
abbrev pub halt : TorFleet → ℕ → TorFleet
halt f a =
    let g = put f a (record (f.heap a) { status = stopped }) in
    if is_alive (f.heap a).proc then record g { effects = terminate a ∷ g.effects } else g

unfoldable pub halt_all : TorFleet → List ℕ → TorFleet
halt_all f [] = f
halt_all f (a ∷ addrs) = halt_all (halt f a) addrs

-- `stop` up to its sleep, and after it.
unfoldable pub stop : TorFleet → TorFleet
unfolding halt_all
stop f = halt_all (record f { running_flag = false }) (values f.instances)

abbrev pub finish_off : TorFleet → ℕ → TorFleet
finish_off f a =
    if is_alive (f.heap a).proc then record f { effects = force_kill a ∷ f.effects } else f

unfoldable pub finish_all : TorFleet → List ℕ → TorFleet
finish_all f [] = f
finish_all f (a ∷ addrs) = finish_all (finish_off f a) addrs

unfoldable pub stop_finishes : TorFleet → TorFleet
unfolding finish_all
stop_finishes f = emit_change (record (finish_all f (values f.instances)) { instances = [] })

-- The `exit` callback of an instance.
unfoldable pub child_exits : TorFleet → ℕ → ChildProcess → TorFleet
child_exits f a how =
    let g = put f a (record (f.heap a) { proc = some how }) in
    if not f.running_flag then g else emit_change (put g a (record (g.heap a) { status = stopped }))

-- What a pass of `waitForBootstrap` finds.
pub data Pass : Type 0 where
  gives : Bool → Pass
  sleeps : Pass

abbrev pub is_gone : TorFleet → Option ℕ → Bool
is_gone f none = true
is_gone f (some a) = has_exited (f.heap a).proc

-- `seen`: the log says that the bootstrap is done, or the SOCKS port answers.
unfoldable pub bootstrap_pass : TorFleet → Bootstrap → Bool → ℕ → Pass
bootstrap_pass f b seen now =
    if not (ltb now b.deadline)
    then gives false
    else if not f.running_flag
    then gives false
    else if is_gone f (get (f.heap b.address).index f.instances)
    then gives false
    else if seen
    then gives true
    else sleeps

-- The end of `spawnInstance`, after its wait.
unfoldable pub bootstrap_ends : TorFleet → ℕ → Bool → TorFleet
bootstrap_ends f a true = emit_change (put f a (record (f.heap a) { status = ready }))
bootstrap_ends f a false =
    let g = put f a (record (f.heap a) { status = stopped }) in
    emit_change
      (if is_alive (f.heap a).proc then record g { effects = terminate a ∷ g.effects } else g)
