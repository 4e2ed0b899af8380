-- ===== src/Watcher/LayoutTests.antt =====
-- Two watchers of the same two interfaces, whose maps keep them in different orders.
use conwatch.Prelude.{refl, Bool, true, false, none, some, List, [], ◌∷◌, Text, codes, pos, arith}
use conwatch.Prelude.Map.{nat_key, lookup}
use conwatch.Rtnetlink.Sample.{sample}
use conwatch.Config.{default_config}
use conwatch.Processes.{TrackedProcess}
use conwatch.Watcher.{Watcher, IfaceState, watching}
use conwatch.Watcher.Loop.{Wakeup, ready, sigchld, terminate, poll}
use conwatch.Watcher.Layout.{SameWatcher, SameEnded, poll-SameEnded}

abbrev no_match : Text → Text → Bool
no_match pattern name = false

abbrev wifi : TrackedProcess
wifi = record { pid = 41; iface = codes "wlan0" }

abbrev wired : TrackedProcess
wired = record { pid = 42; iface = codes "eth0" }

abbrev wifi_up : IfaceState
wifi_up = record { name = codes "wlan0"; was_up = true }

abbrev wired_up : IfaceState
wired_up = record { name = codes "eth0"; was_up = true }

abbrev wifi_first : Watcher
wifi_first = record (watching default_config) {
  processes = record {
    by_ifindex = (3, wifi) ∷ (2, wired) ∷ [];
    ifindex_by_pid = (41, 3) ∷ (42, 2) ∷ [];
    terminated = [];
  };
  ifaces = (3, wifi_up) ∷ (2, wired_up) ∷ [];
}

abbrev wired_first : Watcher
wired_first = record (watching default_config) {
  processes = record {
    by_ifindex = (2, wired) ∷ (3, wifi) ∷ [];
    ifindex_by_pid = (42, 2) ∷ (41, 3) ∷ [];
    terminated = [];
  };
  ifaces = (2, wired_up) ∷ (3, wifi_up) ∷ [];
}

same : SameWatcher wifi_first wired_first
unfolding lookup
same = record {
  cfg = refl;
  processes = record {
    by_ifindex = λ k. ground arith;
    by_pid = λ k. ground arith;
    terminated = refl;
  };
  ifaces = λ k. ground arith;
  should_exit = refl;
}

abbrev wakeups : List (Wakeup sample)
wakeups = ready none (some (sigchld (pos 41 ∷ pos 0 ∷ []) ∷ terminate ∷ [])) ∷ []

poll-SameEnded_example :
    SameEnded (poll sample no_match wakeups wifi_first) (poll sample no_match wakeups wired_first)
poll-SameEnded_example = poll-SameEnded sample no_match wakeups wifi_first wired_first same
