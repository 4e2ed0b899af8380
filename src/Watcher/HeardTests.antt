-- ===== src/Watcher/HeardTests.antt =====
-- An interface that comes up, loses its carrier, and comes back under another name.
use conwatch.Prelude.{
  text_eq, ◌++◌, List, none, some, ◌≡◌, refl, Bool, false, [], ◌∷◌, Text, codes, pos, ℕ,
}
use conwatch.Prelude.Map.{nat_key, lookup, insert, erase}
use conwatch.Config.{default_config}
use conwatch.Config.Eligible.{is_eligible, is_real}
use conwatch.Processes.{start, stop, is_running, reap_exited, clear_exited}
use conwatch.Rtnetlink.{messages, attributes, walk}
use conwatch.Netlink.{
  process_pending_messages, handle_message, handle_messages, extract_if_name, find_name,
  assign_name, report, is_operationally_up,
}
use conwatch.Rtnetlink.Sample.{Frame, sample}
use conwatch.Watcher.{Watcher, watching, on_change, change_from, start_if_eligible}
use conwatch.Watcher.Loop.{
  Wakeup, interrupted, ready, sigchld, terminate, handle_signals, returned, dispatch, poll,
}
use conwatch.Watcher.Monitored.{wanted}
use conwatch.Watcher.Noted.{spoken}
use conwatch.Watcher.QuietRun.{QuietRun, heard}
use conwatch.Watcher.Heard.{poll-wanted}

abbrev no_match : Text → Text → Bool
no_match pattern name = false

abbrev link : ℕ → Text → Frame
link flags name = record {
  kind = 16;
  index = 3;
  flags = flags;
  family = 0;
  dst_len = 0;
  attrs = (3, name ++ 0 ∷ []) ∷ [];
}

abbrev wakeups : List (Wakeup sample)
wakeups =
    ready (some ((link 65601 (codes "wlan0") ∷ []) ∷ [], pos 41 ∷ [])) none
    ∷ interrupted
    ∷ ready (some ((link 65537 (codes "wlan0") ∷ []) ∷ [], pos 50 ∷ []))
        (some (sigchld (pos 41 ∷ pos 0 ∷ []) ∷ []))
    ∷ ready (some ((link 65601 (codes "wlp2") ∷ []) ∷ [], pos 42 ∷ [])) (some (terminate ∷ []))
    ∷ ready none (some (sigchld (pos 77 ∷ []) ∷ []))
    ∷ []

wakeups-QuietRun : QuietRun sample no_match wakeups (watching default_config)
unfolding handle_signals dispatch on_change change_from start_if_eligible start stop lookup insert
    erase is_eligible is_real process_pending_messages handle_message handle_messages messages walk
    extract_if_name find_name attributes assign_name report is_operationally_up reap_exited
    clear_exited text_eq
wakeups-QuietRun = (
  refl,
  (
    (40, refl, refl),
    (
      tt,
      (
        refl,
        (
          (49, refl, refl),
          (((refl, tt), tt), (refl, ((41, refl, refl), (tt, (((refl, tt), tt), tt))))),
        ),
      ),
    ),
  ),
)

poll-wanted_example :
    (w : Watcher) × (poll sample no_match wakeups (watching default_config) ≡ returned w)
    × ((i : ℕ)
        → is_running i w.processes
          ≡ wanted no_match default_config (spoken i (heard sample wakeups false) none))
poll-wanted_example = poll-wanted sample no_match default_config wakeups wakeups-QuietRun
