-- ===== src/Watcher.antt =====
-- src/watcher/watcher.hpp and watcher_iface_state.cpp: what a link event does to the children.
-- Each handler calls fork(2) at most once; the answer is its argument `forked`.
pub mod Invariant
pub mod Changes
pub mod Reach
pub mod Monitored
pub mod Quiet
pub mod Noted
pub mod Strangers
pub mod QuietRun
pub mod Heard
pub mod Fate
pub mod Commute
pub mod Revived
pub mod Reported
pub mod Loop
pub mod Refined
pub mod Signals
pub mod Run
pub mod FirstRun
pub mod Farewell
pub mod Layout
pub mod Descriptors
mod Tests
mod RunTests
mod LayoutTests
mod HeardTests
use conwatch.Prelude.{
  ℕ, Bool, true, false, not, ◌&&◌, Option, none, some, List, [], Text, text_eq, ℤ, if◌then◌else◌,
  is_empty,
}
use conwatch.Prelude.Map.{Map, nat_key, lookup, insert, erase}
use conwatch.Config.{
  Config, resolve_target, resolve_target6, resolve_label, resolve_gateway_ip_override4,
  resolve_gateway_ip_override6,
}
use conwatch.Config.Eligible.{is_eligible}
use conwatch.Processes.{ProcessManager, Launch, Exec, Started, parent, child, start, stop}
use conwatch.Processes

pub record IfaceState : Type 0 where
  pub name : Text
  pub was_up : Bool

pub record Watcher : Type 0 where
  pub cfg : Config
  pub processes : ProcessManager
  pub ifaces : Map ℕ IfaceState
  pub should_exit : Bool

abbrev pub watching : Config → Watcher
watching cfg = record { cfg = cfg; processes = Processes.empty; ifaces = []; should_exit = false }

-- A handler returns to the event loop, or this process is a fork that has become another program.
pub data Outcome : Type 0 where
  running : Watcher → Outcome
  became : Exec → Outcome

abbrev pub after_start : Watcher → Started → Outcome
after_start w (parent m) = running (record w { processes = m })
after_start w (child x) = became x

abbrev pub launch_for : Config → Text → Launch
launch_for cfg name = record {
  iface = name;
  target = resolve_target cfg name;
  target6 = resolve_target6 cfg name;
  label = resolve_label cfg name;
  gateway_ip_override4 = resolve_gateway_ip_override4 cfg name;
  gateway_ip_override6 = resolve_gateway_ip_override6 cfg name;
}

abbrev pub stop_process : ℕ → Watcher → Watcher
stop_process ifindex w = record w { processes = stop ifindex w.processes }

abbrev pub set_iface : ℕ → Text → Bool → Watcher → Watcher
set_iface ifindex name is_up w = record w {
  ifaces = insert ifindex (record { name = name; was_up = is_up }) w.ifaces;
}

-- `m_ifaces[ifindex]` makes a default state for an index that is not there.
abbrev pub state_or_default : Option IfaceState → IfaceState
state_or_default none = record { name = []; was_up = false }
state_or_default (some st) = st

-- `a == b` on `bool`.
abbrev pub same_bool : Bool → Bool → Bool
same_bool true b = b
same_bool false b = not b

unfoldable pub on_removed_found : ℕ → Option IfaceState → Watcher → Watcher
on_removed_found ifindex none w = w
on_removed_found ifindex (some st) w =
    let w' = if st.was_up then stop_process ifindex w else w in
    record w' { ifaces = erase ifindex w'.ifaces }

unfoldable pub on_removed : ℕ → Watcher → Watcher
unfolding on_removed_found
on_removed ifindex w = on_removed_found ifindex (lookup ifindex w.ifaces) w

module _ (fnmatch : Text → Text → Bool) where
  unfoldable pub start_if_eligible : ℕ → Text → ℤ → Watcher → Outcome
  start_if_eligible ifindex name forked w =
      if is_eligible fnmatch w.cfg name
      then after_start w (start ifindex (launch_for w.cfg name) forked w.processes)
      else running w

  -- The handler behind the reads of the old state.
  unfoldable pub change_from : IfaceState → ℕ → Text → Bool → ℤ → Watcher → Outcome
  change_from state ifindex name is_up forked w =
      let renamed = not (is_empty state.name) && not (text_eq state.name name) in
      let was_up = state.was_up in
      let w1 = set_iface ifindex name is_up w in
      if renamed && was_up
      then (if is_up
          then start_if_eligible ifindex name forked (stop_process ifindex w1)
          else running (stop_process ifindex w1))
      else (if same_bool is_up was_up
          then running w1
          else (if is_up
              then start_if_eligible ifindex name forked w1
              else running (stop_process ifindex w1)))

  unfoldable pub on_change : ℕ → Text → Bool → ℤ → Watcher → Outcome
  on_change ifindex name is_up forked w =
      change_from (state_or_default (lookup ifindex w.ifaces)) ifindex name is_up forked w
