-- ===== src/Watcher/Layout.antt =====
-- How the hash maps keep their entries makes no difference to the event loop.
use conwatch.Prelude.{
  ℕ, ◌≡◌, refl, subst, Bool, true, false, not, ◌&&◌, Option, none, some, List, [], ◌∷◌, Text, ℤ,
  text_eq, is_empty, if◌then◌else◌, arith,
}
use conwatch.Prelude.Map.{nat_key, lookup, erase}
use conwatch.Rtnetlink.{Rtnetlink}
use conwatch.Netlink.{Call, change, remove, process_pending_messages}
use conwatch.Config.Eligible.{is_eligible}
use conwatch.Processes.{Started, parent, child, start, reap_exited}
use conwatch.Processes.Layout.{
  SameMap, insert-SameMap, erase-SameMap, SameProcesses, SameStarted, stop-Same, reap_exited-Same,
  start-Same,
}
use conwatch.Watcher.{
  Watcher, IfaceState, Outcome, running, became, after_start, launch_for, stop_process, set_iface,
  state_or_default, on_removed_found, on_removed, start_if_eligible, change_from, on_change,
}
use conwatch.Watcher.Loop.{
  Signal, sigchld, terminate, handle_signals, Wakeup, interrupted, failed, ready, Ended, returned,
  replaced, thrown, next_fork, later_forks, continue, handle_readable_signals, dispatch,
  dispatch_all, or_throw, handle_links, poll,
}

-- Two watchers that differ in the layout of their maps only.
pub record SameWatcher (w v : Watcher) : Type 0 where
  pub cfg : w.cfg ≡ v.cfg
  pub processes : SameProcesses w.processes v.processes
  pub ifaces : SameMap w.ifaces v.ifaces
  pub should_exit : w.should_exit ≡ v.should_exit

abbrev pub SameOutcome : Outcome → Outcome → Type 0
SameOutcome (running w) (running v) = SameWatcher w v
SameOutcome (became x) (became y) = x ≡ y
SameOutcome (running w) (became y) = ⊥
SameOutcome (became x) (running v) = ⊥

either_Outcome :
    (b : Bool) (x x' y y' : Outcome)
    → SameOutcome x x'
    → SameOutcome y y'
    → SameOutcome (if b then x else y) (if b then x' else y')
either_Outcome true x x' y y' s t = s
either_Outcome false x x' y y' s t = t

after_start-Same :
    (w v : Watcher) (a b : Started)
    → SameWatcher w v
    → SameStarted a b
    → SameOutcome (after_start w a) (after_start v b)
after_start-Same w v (parent m) (parent n) s t = record {
  cfg = s.cfg;
  processes = t;
  ifaces = s.ifaces;
  should_exit = s.should_exit;
}
after_start-Same w v (child x) (child y) s t = t
after_start-Same w v (parent m) (child y) s t = absurd t
after_start-Same w v (child x) (parent n) s t = absurd t

stop_process-Same :
    (i : ℕ) (w v : Watcher) → SameWatcher w v → SameWatcher (stop_process i w) (stop_process i v)
stop_process-Same i w v s = record {
  cfg = s.cfg;
  processes = stop-Same i w.processes v.processes s.processes;
  ifaces = s.ifaces;
  should_exit = s.should_exit;
}

set_iface-Same :
    (i : ℕ) (name : Text) (up : Bool) (w v : Watcher)
    → SameWatcher w v
    → SameWatcher (set_iface i name up w) (set_iface i name up v)
set_iface-Same i name up w v s = record {
  cfg = s.cfg;
  processes = s.processes;
  ifaces = insert-SameMap i _ w.ifaces v.ifaces s.ifaces;
  should_exit = s.should_exit;
}

erase_iface-Same :
    (i : ℕ) (w v : Watcher)
    → SameWatcher w v
    → SameWatcher (record w { ifaces = erase i w.ifaces }) (record v { ifaces = erase i v.ifaces })
erase_iface-Same i w v s = record {
  cfg = s.cfg;
  processes = s.processes;
  ifaces = erase-SameMap i w.ifaces v.ifaces s.ifaces;
  should_exit = s.should_exit;
}

either_Watcher :
    (b : Bool) (x x' y y' : Watcher)
    → SameWatcher x x'
    → SameWatcher y y'
    → SameWatcher (if b then x else y) (if b then x' else y')
either_Watcher true x x' y y' s t = s
either_Watcher false x x' y y' s t = t

on_removed_found-Same :
    (i : ℕ) (o : Option IfaceState) (w v : Watcher)
    → SameWatcher w v
    → SameWatcher (on_removed_found i o w) (on_removed_found i o v)
unfolding on_removed_found
on_removed_found-Same i none w v s = s
on_removed_found-Same i (some st) w v s =
    erase_iface-Same i (if st.was_up then stop_process i w else w)
      (if st.was_up then stop_process i v else v)
      (either_Watcher st.was_up (stop_process i w) (stop_process i v) w v
        (stop_process-Same i w v s) s)

on_removed-Same :
    (i : ℕ) (w v : Watcher) → SameWatcher w v → SameWatcher (on_removed i w) (on_removed i v)
unfolding on_removed
on_removed-Same i w v s =
    subst (λ o. SameWatcher (on_removed i w) (on_removed_found i o v)) (s.ifaces i)
      (on_removed_found-Same i (lookup i w.ifaces) w v s)

handle_signals-Same :
    (signals : List Signal) (w v : Watcher)
    → SameWatcher w v
    → SameWatcher (handle_signals signals w) (handle_signals signals v)
unfolding handle_signals
handle_signals-Same [] w v s = s
handle_signals-Same (sigchld waits ∷ signals) w v s =
    handle_signals-Same signals (record w { processes = reap_exited waits w.processes })
      (record v { processes = reap_exited waits v.processes })
      (record {
        cfg = s.cfg;
        processes = reap_exited-Same waits w.processes v.processes s.processes;
        ifaces = s.ifaces;
        should_exit = s.should_exit;
      })
handle_signals-Same (terminate ∷ signals) w v s =
    handle_signals-Same signals (record w { should_exit = true }) (record v { should_exit = true })
      (record { cfg = s.cfg; processes = s.processes; ifaces = s.ifaces; should_exit = refl })

abbrev pub SameEnded : Ended → Ended → Type 0
SameEnded (returned w) (returned v) = SameWatcher w v
SameEnded (replaced x) (replaced y) = x ≡ y
SameEnded thrown thrown = Unit {0}
SameEnded _ _ = ⊥

-- Ways to go on that end alike from watchers that differ in their layout only.
abbrev SameRest : (Watcher → Ended) → (Watcher → Ended) → Type 0
SameRest f g = (w v : Watcher) → SameWatcher w v → SameEnded (f w) (g v)

continue-Same :
    (a b : Outcome) (f g : Watcher → Ended)
    → SameOutcome a b
    → SameRest f g
    → SameEnded (continue a f) (continue b g)
continue-Same (running w) (running v) f g s t = t w v s
continue-Same (became x) (became y) f g s t = s
continue-Same (running w) (became y) f g s t = absurd s
continue-Same (became x) (running v) f g s t = absurd s

either_Ended :
    (b : Bool) (x x' y y' : Ended)
    → SameEnded x x'
    → SameEnded y y'
    → SameEnded (if b then x else y) (if b then x' else y')
either_Ended true x x' y y' s t = s
either_Ended false x x' y y' s t = t

-- The test of the loop.
guard-Same :
    (w v : Watcher) (x y : Ended)
    → SameWatcher w v
    → SameEnded x y
    → SameEnded (if w.should_exit then returned w else x) (if v.should_exit then returned v else y)
guard-Same w v x y s t =
    subst (λ b. SameEnded (if w.should_exit then returned w else x) (if b then returned v else y))
      s.should_exit (either_Ended w.should_exit (returned w) (returned v) x y s t)

module _ (nl : Rtnetlink) (fnmatch : Text → Text → Bool) where
  start_if_eligible-Same :
      (i : ℕ) (name : Text) (r : ℤ) (w v : Watcher)
      → SameWatcher w v
      → SameOutcome (start_if_eligible fnmatch i name r w) (start_if_eligible fnmatch i name r v)
  unfolding start_if_eligible
  start_if_eligible-Same i name r w v s =
      let l = launch_for w.cfg name in
      subst
        (λ c. SameOutcome (start_if_eligible fnmatch i name r w) (
          if is_eligible fnmatch c name
          then after_start v (start i (launch_for c name) r v.processes)
          else running v))
        s.cfg
        (either_Outcome (is_eligible fnmatch w.cfg name) (after_start w (start i l r w.processes))
          (after_start v (start i l r v.processes)) (running w) (running v)
          (after_start-Same w v (start i l r w.processes) (start i l r v.processes) s
            (start-Same i l r w.processes v.processes s.processes))
          s)

  change_from-Same :
      (st : IfaceState) (i : ℕ) (name : Text) (up : Bool) (r : ℤ) (w v : Watcher)
      → SameWatcher w v
      → SameOutcome (change_from fnmatch st i name up r w) (change_from fnmatch st i name up r v)
  unfolding change_from
  change_from-Same st i name up r w v s =
      let w1 = set_iface i name up w in
      let v1 = set_iface i name up v in
      let s1 = set_iface-Same i name up w v s in
      let w2 = stop_process i w1 in
      let v2 = stop_process i v1 in
      let s2 = stop_process-Same i w1 v1 s1 in
      let go : (a b : Watcher) → Outcome × Outcome =
        λ a b. (start_if_eligible fnmatch i name r a, start_if_eligible fnmatch i name r b) in
      let renamed = not (is_empty st.name) && not (text_eq st.name name) in
      ground (
        arith,
        s1,
        s2,
        start_if_eligible-Same i name r w1 v1 s1,
        start_if_eligible-Same i name r w2 v2 s2,
      )

  on_change-Same :
      (i : ℕ) (name : Text) (up : Bool) (r : ℤ) (w v : Watcher)
      → SameWatcher w v
      → SameOutcome (on_change fnmatch i name up r w) (on_change fnmatch i name up r v)
  unfolding on_change
  on_change-Same i name up r w v s =
      subst
        (λ o.
          SameOutcome (on_change fnmatch i name up r w)
            (change_from fnmatch (state_or_default o) i name up r v))
        (s.ifaces i) (change_from-Same (state_or_default (lookup i w.ifaces)) i name up r w v s)

  dispatch-Same :
      (c : Call) (r : ℤ) (w v : Watcher)
      → SameWatcher w v
      → SameOutcome (dispatch nl fnmatch c r w) (dispatch nl fnmatch c r v)
  unfolding dispatch
  dispatch-Same (change i name up) r w v s = on_change-Same i name up r w v s
  dispatch-Same (remove i) r w v s = on_removed-Same i w v s

  dispatch_all-Same :
      (calls : List Call) (forks : List ℤ) (f g : Watcher → Ended)
      → SameRest f g
      → SameRest (dispatch_all nl fnmatch calls forks f) (dispatch_all nl fnmatch calls forks g)
  unfolding dispatch_all
  dispatch_all-Same [] forks f g t w v s = t w v s
  dispatch_all-Same (c ∷ calls) forks f g t w v s =
      let r = next_fork forks in
      continue-Same (dispatch nl fnmatch c r w) (dispatch nl fnmatch c r v)
        (dispatch_all nl fnmatch calls (later_forks forks) f)
        (dispatch_all nl fnmatch calls (later_forks forks) g) (dispatch-Same c r w v s)
        (dispatch_all-Same calls (later_forks forks) f g t)

  or_throw-Same :
      (b : Bool) (f g : Watcher → Ended)
      → SameRest f g
      → SameRest (or_throw nl fnmatch b f) (or_throw nl fnmatch b g)
  or_throw-Same true f g t w v s = tt
  or_throw-Same false f g t w v s = t w v s

  readable-Same :
      (signals : Option (List Signal)) (w v : Watcher)
      → SameWatcher w v
      → SameWatcher (handle_readable_signals signals w) (handle_readable_signals signals v)
  readable-Same none w v s = s
  readable-Same (some signals) w v s = handle_signals-Same signals w v s

  -- The event loop never depends on how the hash maps keep their entries: from two watchers whose
  -- maps answer the same for every key, and that are the same otherwise, any wakeups lead to such
  -- watchers again, to the same program in a fork, or to an exception in both.
  pub poll-SameEnded :
      (wakeups : List (Wakeup nl)) (w v : Watcher)
      → SameWatcher w v
      → SameEnded (poll nl fnmatch wakeups w) (poll nl fnmatch wakeups v)
  unfolding poll handle_links
  poll-SameEnded [] w v s = s
  poll-SameEnded (interrupted ∷ wakeups) w v s =
      guard-Same w v (poll nl fnmatch wakeups w) (poll nl fnmatch wakeups v) s
        (poll-SameEnded wakeups w v s)
  poll-SameEnded (failed ∷ wakeups) w v s = s
  poll-SameEnded (ready none signals ∷ wakeups) w v s =
      let w' = handle_readable_signals signals w in
      let v' = handle_readable_signals signals v in
      guard-Same w v (poll nl fnmatch wakeups w') (poll nl fnmatch wakeups v') s
        (poll-SameEnded wakeups w' v' (readable-Same signals w v s))
  poll-SameEnded (ready (some (bufs, forks)) signals ∷ wakeups) w v s =
      let h = process_pending_messages nl bufs in
      let rest : Watcher → Ended =
        λ u. poll nl fnmatch wakeups (handle_readable_signals signals u) in
      let t : SameRest rest rest = λ a b q.
        poll-SameEnded wakeups (handle_readable_signals signals a)
          (handle_readable_signals signals b) (readable-Same signals a b q) in
      guard-Same w v (handle_links nl fnmatch bufs forks rest w)
        (handle_links nl fnmatch bufs forks rest v) s
        (dispatch_all-Same h.calls forks (or_throw nl fnmatch h.thrown rest)
          (or_throw nl fnmatch h.thrown rest) (or_throw-Same h.thrown rest rest t) w v s)
