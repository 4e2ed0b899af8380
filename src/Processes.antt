-- ===== src/Processes.antt =====
-- src/watcher/process_manager.hpp and process_manager.cpp: the conwatch-tray children.
-- The answers of fork(2) and waitpid(2) are arguments. An `int` key is its bit pattern, since it
-- is only compared; a pid is kept as the positive number that the calls return.
pub mod Pairing
pub mod Behaviour
pub mod Shutdown
pub mod Layout
pub mod Table
mod Tests
use conwatch.Prelude.{
  ℕ, zero, suc, ◌≡◌, Bool, true, false, not, Option, none, some, List, [], ◌∷◌, ◌++◌, map, Text,
  codes, c_str, ℤ, pos, negsuc, if◌then◌else◌, is_some, is_empty,
}
use conwatch.Prelude.Map.{Map, nat_key, lookup, insert, erase}

pub record TrackedProcess : Type 0 where
  pub pid : ℕ
  pub iface : Text

-- `terminated` lists the pids that were sent SIGTERM, the latest first.
pub record ProcessManager : Type 0 where
  pub by_ifindex : Map ℕ TrackedProcess
  pub ifindex_by_pid : Map ℕ ℕ
  pub terminated : List ℕ

-- The arguments of `start` behind the index.
pub record Launch : Type 0 where
  pub iface : Text
  pub target : Text
  pub target6 : Text
  pub label : Text
  pub gateway_ip_override4 : Text
  pub gateway_ip_override6 : Text

-- What execlp is asked to run. If it fails, the child leaves with status 127.
pub record Exec : Type 0 where
  pub path : Text
  pub argv : List Text

-- A call of `start` returns in the parent, and never returns in the child.
pub data Started : Type 0 where
  parent : ProcessManager → Started
  child : Exec → Started

abbrev pub empty : ProcessManager
empty = record { by_ifindex = []; ifindex_by_pid = []; terminated = [] }

unfoldable pub is_running : ℕ → ProcessManager → Bool
is_running ifindex m = is_some (lookup ifindex m.by_ifindex)

unfoldable pub tray_exec : Launch → Exec
tray_exec l = record {
  path = codes "/usr/local/bin/conwatch-tray";
  argv =
      codes "conwatch-tray"
      ∷ c_str l.iface
      ∷ c_str l.target
      ∷ c_str l.target6
      ∷ c_str l.label
      ∷ c_str l.gateway_ip_override4
      ∷ c_str l.gateway_ip_override6
      ∷ [];
}

unfoldable pub track : ℕ → ℕ → Text → ProcessManager → ProcessManager
track ifindex pid iface m = record m {
  by_ifindex = insert ifindex (record { pid = pid; iface = iface }) m.by_ifindex;
  ifindex_by_pid = insert pid ifindex m.ifindex_by_pid;
}

-- The three answers of fork(2).
unfoldable pub on_fork : ℕ → Launch → ℤ → ProcessManager → Started
unfolding track tray_exec
on_fork ifindex l (negsuc n) m = parent m
on_fork ifindex l (pos zero) m = child (tray_exec l)
on_fork ifindex l (pos (suc p)) m = parent (track ifindex (suc p) l.iface m)

unfoldable pub start : ℕ → Launch → ℤ → ProcessManager → Started
unfolding is_running on_fork
start ifindex l forked m = if is_running ifindex m then parent m else on_fork ifindex l forked m

unfoldable pub stop_found : ℕ → Option TrackedProcess → ProcessManager → ProcessManager
stop_found ifindex none m = m
stop_found ifindex (some t) m = record {
  by_ifindex = erase ifindex m.by_ifindex;
  ifindex_by_pid = erase t.pid m.ifindex_by_pid;
  terminated = t.pid ∷ m.terminated;
}

unfoldable pub stop : ℕ → ProcessManager → ProcessManager
unfolding stop_found
stop ifindex m = stop_found ifindex (lookup ifindex m.by_ifindex) m

-- The body of both waitpid loops: a pid that is not tracked changes nothing.
unfoldable pub clear_found : ℕ → Option ℕ → ProcessManager → ProcessManager
clear_found pid none m = m
clear_found pid (some ifindex) m = record m {
  by_ifindex = erase ifindex m.by_ifindex;
  ifindex_by_pid = erase pid m.ifindex_by_pid;
}

unfoldable pub clear_exited : ℕ → ProcessManager → ProcessManager
unfolding clear_found
clear_exited pid m = clear_found pid (lookup pid m.ifindex_by_pid) m

-- The answers of waitpid(-1, …, WNOHANG), in order; behind the last one it answers 0.
unfoldable pub reap_exited : List ℤ → ProcessManager → ProcessManager
reap_exited [] m = m
reap_exited (negsuc n ∷ waits) m = m
reap_exited (pos zero ∷ waits) m = m
reap_exited (pos (suc p) ∷ waits) m = reap_exited waits (clear_exited (suc p) m)

abbrev pub max_waits : ℕ
max_waits = 200

-- The rounds left and the answers of the blocking waitpid; behind the last one it fails (ECHILD).
unfoldable pub wait_all : ℕ → List ℤ → ProcessManager → ProcessManager
wait_all zero waits m = m
wait_all (suc rounds) [] m = m
wait_all (suc rounds) (negsuc n ∷ waits) m = m
wait_all (suc rounds) (pos zero ∷ waits) m = m
wait_all (suc rounds) (pos (suc p) ∷ waits) m =
    let rest = wait_all rounds waits (clear_exited (suc p) m) in
    if is_empty m.ifindex_by_pid then m else rest

abbrev pub pids : ProcessManager → List ℕ
pids m = map (λ e. e.0) m.ifindex_by_pid

unfoldable pub terminate_all : ProcessManager → ProcessManager
terminate_all m = record m { terminated = pids m ++ m.terminated }

unfoldable pub stop_all : List ℤ → ProcessManager → ProcessManager
unfolding terminate_all
stop_all waits m = wait_all max_waits waits (terminate_all m)
