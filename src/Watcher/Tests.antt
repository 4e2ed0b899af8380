-- ===== src/Watcher/Tests.antt =====
-- One interface that comes up.
use conwatch.Prelude.{
  arith, text_eq, ◌++◌, List, none, some, ◌≡◌, refl, Bool, true, false, [], ◌∷◌, Text, codes, pos,
  if◌then◌else◌,
}
use conwatch.Prelude.Map.{nat_key, lookup, insert}
use conwatch.Config.{default_config}
use conwatch.Config.Eligible.{is_eligible, is_real}
use conwatch.Processes.{TrackedProcess, start}
use conwatch.Watcher.{Watcher, watching, running, on_change, change_from, start_if_eligible}
use conwatch.Watcher.Invariant.{Fresh}
use conwatch.Watcher.Reach.{Step, Reach, reached_tracked}
use conwatch.Watcher.Reach
use conwatch.Processes.{reap_exited, clear_exited}
use conwatch.Rtnetlink.{messages, attributes, walk}
use conwatch.Netlink.{
  process_pending_messages, handle_message, handle_messages, extract_if_name, find_name,
  assign_name, report, is_operationally_up,
}
use conwatch.Rtnetlink.Sample.{Frame, sample}
use conwatch.Watcher.Loop.{
  Wakeup, interrupted, ready, sigchld, terminate, handle_signals, returned, dispatch, dispatch_all,
  handle_links, poll,
}
use conwatch.Watcher.Refined.{FreshRun}
use conwatch.Watcher.Reported.{poll_reported}
use conwatch.Watcher.Noted.{spoken}
use conwatch.Watcher.QuietRun.{heard}
use conwatch.Watcher.Signals.{served, poll-terminate}
use conwatch.Watcher.Commute.{after, view_of, after_comm}
use conwatch.Watcher.Revived.{revived}

abbrev no_match : Text → Text → Bool
no_match pattern name = false

abbrev wifi : TrackedProcess
wifi = record { pid = 41; iface = codes "wlan0" }

abbrev watching_wifi : Watcher
watching_wifi = record (watching default_config) {
  processes = record {
    by_ifindex = (3, wifi) ∷ [];
    ifindex_by_pid = (41, 3) ∷ [];
    terminated = [];
  };
  ifaces = (3, record { name = codes "wlan0"; was_up = true }) ∷ [];
}

came_up :
    on_change no_match 3 (codes "wlan0") true (pos 41) (watching default_config)
    ≡ running watching_wifi
unfolding on_change change_from start_if_eligible start lookup insert is_eligible is_real
came_up = refl

wifi-Fresh : Fresh (pos 41) (watching default_config).processes
unfolding lookup
wifi-Fresh = refl

reached : Reach no_match (watching default_config) watching_wifi
reached =
    Reach.next Reach.here
      (Reach.changed 3 (codes "wlan0") true (pos 41) (λ e. cc) wifi-Fresh came_up)

-- The same from the netlink buffer on, with a SIGTERM at the second wakeup and one wakeup that is
-- never handled.
abbrev link_up : Frame
link_up = record {
  kind = 16;
  index = 3;
  flags = 65601;
  family = 0;
  dst_len = 0;
  attrs = (3, codes "wlan0" ++ 0 ∷ []) ∷ [];
}

abbrev wakeups : List (Wakeup sample)
wakeups =
    ready (some ((link_up ∷ []) ∷ [], pos 41 ∷ [])) none
    ∷ interrupted
    ∷ ready none (some (sigchld (pos 77 ∷ pos 0 ∷ []) ∷ terminate ∷ []))
    ∷ ready (some ((link_up ∷ []) ∷ [], [])) none
    ∷ []

abbrev told_wifi : Watcher
told_wifi = record watching_wifi { should_exit = true }

polled : poll sample no_match wakeups (watching default_config) ≡ returned told_wifi
unfolding poll handle_signals dispatch on_change change_from start_if_eligible start lookup insert
    is_eligible is_real handle_links dispatch_all process_pending_messages handle_message
    handle_messages messages walk extract_if_name find_name attributes assign_name report
    is_operationally_up reap_exited clear_exited
polled = refl

wakeups-FreshRun : FreshRun sample no_match wakeups (watching default_config)
unfolding handle_signals dispatch on_change change_from start_if_eligible start lookup insert
    is_eligible is_real process_pending_messages handle_message handle_messages messages walk
    extract_if_name find_name attributes assign_name report is_operationally_up reap_exited
    clear_exited text_eq
wakeups-FreshRun = (refl, (tt, tt))

poll_reported_example :
    (spoken 3 (heard sample wakeups false) none
      ≡ some (record { name = codes "wlan0"; was_up = true }))
    × (is_eligible no_match default_config (codes "wlan0") ≡ true)
    × (lookup 41 told_wifi.processes.ifindex_by_pid ≡ some 3)
poll_reported_example =
    poll_reported sample no_match default_config wakeups told_wifi 3 wifi wakeups-FreshRun polled
      (unfold lookup in refl)

poll-terminate_example :
    poll sample no_match
      (ready none (some (terminate ∷ sigchld (pos 41 ∷ []) ∷ [])) ∷ wakeups)
      watching_wifi
    ≡ returned (served (terminate ∷ sigchld (pos 41 ∷ []) ∷ []) watching_wifi)
poll-terminate_example =
    poll-terminate sample no_match none (terminate ∷ sigchld (pos 41 ∷ []) ∷ []) wakeups
      watching_wifi refl refl

-- The wireless interface loses its carrier as another one comes up.
after_comm_example :
    let a = after no_match 3 (codes "wlan0") false 50 watching_wifi in
    let b = after no_match 5 (codes "eth0") true 51 watching_wifi in
    (on_change no_match 5 (codes "eth0") true (pos 52) a
      ≡ running (after no_match 5 (codes "eth0") true 51 a))
    × (on_change no_match 3 (codes "wlan0") false (pos 51) b
        ≡ running (after no_match 3 (codes "wlan0") false 50 b))
    × (view_of (after no_match 5 (codes "eth0") true 51 a)
        ≡ view_of (after no_match 3 (codes "wlan0") false 50 b))
after_comm_example =
    after_comm no_match default_config 3 5 (codes "wlan0") (codes "eth0") false true 50 51 reached
      (λ e. absurd (ground (arith, e))) (λ e. absurd (ground (arith, e))) (λ e. cc) (λ e. cc)
      (unfold lookup in refl) (unfold lookup in refl)

revived_example :
    let a = after no_match 3 (codes "wlan0") false 50 watching_wifi in
    let u = after no_match 3 (codes "wlan1") true 51 a in
    (on_change no_match 3 (codes "wlan0") false (pos 51) watching_wifi ≡ running a)
    × (on_change no_match 3 (codes "wlan1") true (pos 52) a ≡ running u)
    × (lookup 3 u.processes.by_ifindex ≡ (
        if is_eligible no_match default_config (codes "wlan1")
        then some (record { pid = 52; iface = codes "wlan1" })
        else none))
revived_example =
    revived no_match default_config 3 (codes "wlan0") (codes "wlan1") 50 51 reached (λ e. cc)
      (λ e. cc) (λ e. absurd (ground (arith, e))) (unfold lookup in refl) (unfold lookup in refl)
