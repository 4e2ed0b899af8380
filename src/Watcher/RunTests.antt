-- ===== src/Watcher/RunTests.antt =====
-- Runs of the program, from its descriptors and its configuration file on.
use conwatch.Prelude.{
  ap, ℕ, any, take, ◌==◌, ◌++◌, refl, ◌≡◌, ◌∙◌, true, false, Bool, Option, none, some, List, [],
  ◌∷◌, Text, codes, text_eq, pos, if◌then◌else◌, arith,
}
use conwatch.Rtnetlink.Sample.{Frame, sample}
use conwatch.Config.{default_config}
use conwatch.Config.Default.{default_config_yaml}
use conwatch.Config.File.{
  resolve_path, home_config_dir, ensure_exists, create_missing, write_default_config,
}
use conwatch.Config.Load.{Yaml}
use conwatch.Config.FirstRun.{IsDefaultFile, shipped_config}
use conwatch.Config.Docs.{Doc, scalar, sequence, table, end, item, done, pair, reader}
use conwatch.Config.Memory.{Files, memory, content, text_eq_refl, memory-IsLawful, memory-HasRoom}
use conwatch.Netlink.Lab.{
  kernel, is_open, next, with_next, next_closed, opens_next, kernel-IsLawful,
}
use conwatch.Watcher.Loop.{
  Wakeup, ready, terminate, returned, poll, run_loop, handle_signals, dispatch, dispatch_all,
  handle_links,
}
use conwatch.Watcher.Run.{
  status, open_signal_fd, SignalCalls, Daemon, new_daemon, run, destroyed, ran, main,
}
use conwatch.Watcher.Descriptors.{IsLawfulSignals, EndsWell, run-EndsWell}
use conwatch.Prelude.Map.{nat_key, lookup, insert, erase}
use conwatch.Rtnetlink.{messages, attributes, walk}
use conwatch.Netlink.{
  process_pending_messages, handle_message, handle_messages, extract_if_name, find_name,
  assign_name, report, is_operationally_up,
}
use conwatch.Config.Eligible.{is_eligible, is_real}
use conwatch.Netlink.Socket.{open_netlink, bind_new, request_dump}
use conwatch.Processes.{
  TrackedProcess, max_waits, start, reap_exited, clear_exited, clear_found, stop_all, terminate_all,
  wait_all,
}
use conwatch.Processes.Behaviour.{reaped, surviving}
use conwatch.Watcher.{Watcher, watching, on_change, change_from, start_if_eligible}
use conwatch.Watcher.Refined.{FreshRun}
use conwatch.Watcher.Farewell.{run-stop_all}
use conwatch.Watcher.FirstRun.{main-shipped_config}

abbrev no_match : Text → Text → Bool
no_match pattern name = false

abbrev signal_calls : SignalCalls (kernel (pos 0))
signal_calls = record {
  sigprocmask_block = λ mask w. (pos 0, w);
  signalfd = λ mask w. (next w, with_next w);
  sigchld = 17;
  sigterm = 15;
  sigint = 2;
}

signal_calls-IsLawful : IsLawfulSignals (kernel (pos 0)) signal_calls is_open
signal_calls-IsLawful = record {
  blocked = λ mask w d. refl;
  made = λ mask w _. (next_closed w, opens_next w);
  not_made = λ mask w e. absurd (ground (arith, e));
}

abbrev told : List (Wakeup sample)
told = ready none (some (terminate ∷ [])) ∷ []

run-EndsWell_example :
    EndsWell
      (kernel (pos 0))
      signal_calls
      is_open
      (kernel-IsLawful (pos 0))
      signal_calls-IsLawful
      sample
      no_match
      told
      []
      (new_daemon default_config [])
      (1 ∷ 2 ∷ [])
      (run
        (kernel (pos 0))
        signal_calls
        sample
        no_match
        told
        []
        (new_daemon default_config [])
        (1 ∷ 2 ∷ []))
run-EndsWell_example =
    run-EndsWell (kernel (pos 0)) signal_calls is_open (kernel-IsLawful (pos 0))
      signal_calls-IsLawful sample no_match told [] (new_daemon default_config []) (1 ∷ 2 ∷ [])

-- The default document, and a library that knows the default text alone.
abbrev shipped_doc : Doc
shipped_doc = table (
    pair (codes "default_target") (scalar (codes "1.1.1.1")) (
      pair (codes "include") (sequence end) (
        pair (codes "exclude")
          (sequence (
            item (scalar (codes "lo")) (
              item (scalar (codes "docker*")) (
                item (scalar (codes "podman*")) (
                  item (scalar (codes "virbr*"))
                    (item (scalar (codes "veth*")) (item (scalar (codes "br-*")) end)))))))
          (pair (codes "interfaces") (table done) done))))

abbrev read_text : Option Text → Option Doc
read_text none = none
read_text (some t) = if text_eq t default_config_yaml then some shipped_doc else none

abbrev library : Files → Yaml
library files = reader (λ path. read_text (files path))

reads-IsDefaultFile :
    (path : Text) (u : Files) → u path ≡ some default_config_yaml → IsDefaultFile (library u) path
unfolding text_eq
reads-IsDefaultFile path u e = record {
  root = shipped_doc;
  target = scalar (codes "1.1.1.1");
  include = sequence end;
  exclude = sequence (
      item (scalar (codes "lo")) (
        item (scalar (codes "docker*")) (
          item (scalar (codes "podman*")) (
            item (scalar (codes "virbr*"))
              (item (scalar (codes "veth*")) (item (scalar (codes "br-*")) end))))));
  interfaces = table done;
  loads = ap read_text e ∙ rw (text_eq_refl default_config_yaml) refl;
  has_target = refl;
  target_is = refl;
  no_target6 = refl;
  has_include = refl;
  include_is = refl;
  has_exclude = refl;
  exclude_is = refl;
  has_interfaces = refl;
  interfaces_are = refl;
}

abbrev home_only : Text → Option Text
home_only name = if text_eq name (codes "HOME") then some (codes "/home/me") else none

abbrev no_files : Files
no_files q = none

first_run : (ensure_exists memory (resolve_path memory home_only) no_files).answer ≡ some true
unfolding resolve_path home_config_dir ensure_exists create_missing write_default_config text_eq
first_run = refl

main-shipped_config_example :
    let path = resolve_path memory home_only in
    let files' = (ensure_exists memory path no_files).world in
    let watched = ran (
      destroyed (kernel (pos 0)) signal_calls sample no_match (
        run
          (kernel (pos 0))
          signal_calls
          sample
          no_match
          told
          []
          (new_daemon shipped_config path)
          [])) in
    (main (kernel (pos 0)) signal_calls sample no_match memory library home_only no_files told [] []
      ≡ watched)
    × (main (kernel (pos 0)) signal_calls sample no_match memory library home_only files' told [] []
        ≡ watched)
main-shipped_config_example =
    main-shipped_config (kernel (pos 0)) signal_calls sample no_match memory library content
      memory-IsLawful memory-HasRoom home_only no_files told [] []
      (reads-IsDefaultFile (resolve_path memory home_only)) first_run

-- A run in which an interface comes up, and its tray exits at once when it is told to.
abbrev link_up : Frame
link_up = record {
  kind = 16;
  index = 3;
  flags = 65601;
  family = 0;
  dst_len = 0;
  attrs = (3, codes "wlan0" ++ 0 ∷ []) ∷ [];
}

abbrev one_up : List (Wakeup sample)
one_up =
    ready (some ((link_up ∷ []) ∷ [], pos 41 ∷ [])) none ∷ ready none (some (terminate ∷ [])) ∷ []

one_up-FreshRun : FreshRun sample no_match one_up (watching default_config)
unfolding handle_signals dispatch on_change change_from start_if_eligible start lookup insert
    is_eligible is_real process_pending_messages handle_message handle_messages messages walk
    extract_if_name find_name attributes assign_name report is_operationally_up
one_up-FreshRun = (refl, tt)

abbrev run_end : Daemon
run_end = record {
  watcher = record (watching default_config) {
    processes = record { by_ifindex = []; ifindex_by_pid = []; terminated = 41 ∷ [] };
    ifaces = (3, record { name = codes "wlan0"; was_up = true }) ∷ [];
    should_exit = true;
  };
  config_path = [];
  netlink = record { fd = pos 3 };
  sig_fd = pos 6;
}

one_up_ran :
    run
      (kernel (pos 0))
      signal_calls
      sample
      no_match
      one_up
      (pos 41 ∷ pos 0 ∷ [])
      (new_daemon default_config [])
      []
    ≡ status 0 run_end (3 ∷ [])
unfolding poll handle_signals dispatch on_change change_from start_if_eligible start lookup insert
    is_eligible is_real handle_links dispatch_all process_pending_messages handle_message
    handle_messages messages walk extract_if_name find_name attributes assign_name report
    is_operationally_up reap_exited clear_exited run run_loop open_netlink bind_new request_dump
    open_signal_fd stop_all terminate_all wait_all clear_found erase text_eq
one_up_ran = refl

run-stop_all_example :
    (v : Watcher) × (poll sample no_match one_up (watching default_config) ≡ returned v)
    × ((i : ℕ) (t : TrackedProcess)
        → lookup i v.processes.by_ifindex ≡ some t
        → (any (λ q. q == t.pid) (41 ∷ []) ≡ true)
          × (lookup i run_end.watcher.processes.by_ifindex
              ≡ surviving (reaped (take max_waits (pos 41 ∷ pos 0 ∷ []))) (some t)))
run-stop_all_example =
    run-stop_all (kernel (pos 0)) signal_calls sample no_match default_config [] one_up
      (pos 41 ∷ pos 0 ∷ []) run_end [] (3 ∷ []) one_up-FreshRun one_up_ran
