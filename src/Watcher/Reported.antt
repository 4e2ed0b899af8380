-- ===== src/Watcher/Reported.antt =====
-- The trays that run against the reports of the kernel.
use conwatch.Prelude.{
  ℕ, ◌≡◌, refl, sym, ap, ◌∙◌, subst, Bool, true, false, not, ◌&&◌, ◌||◌, Option, none, some, List,
  [], ◌∷◌, ◌++◌, Text, text_eq, is_empty, ℤ, if◌then◌else◌, arith, inl, inr,
}
use conwatch.Prelude.Map.{nat_key, lookup, lookup-insert}
use conwatch.Config.{Config}
use conwatch.Config.Eligible.{is_eligible}
use conwatch.Processes.{TrackedProcess, Started, parent, child, start}
use conwatch.Rtnetlink.{Rtnetlink}
use conwatch.Netlink.{Call, change, remove, process_pending_messages}
use conwatch.Watcher.{
  Watcher, Outcome, running, watching, on_change, change_from, on_removed, start_if_eligible,
  set_iface, stop_process, state_or_default, same_bool, after_start, launch_for,
}
use conwatch.Watcher.Loop.{
  Signal, Wakeup, interrupted, failed, ready, Ended, returned, next_fork, later_forks, continue,
  handle_readable_signals, dispatch, dispatch_all, or_throw, handle_links, poll,
}
use conwatch.Watcher.Refined.{IfRunning, FreshRun, poll_tracked, Outcome-cases, watcher_of}
use conwatch.Watcher.Noted.{SameTable, spoken, spoken-append, on_removed-notes}
use conwatch.Watcher.Signals.{handle_signals_lem}
use conwatch.Watcher.Strangers.{reads_end}
use conwatch.Watcher.QuietRun.{told_by, heard, told_by_lem}

either_IfRunning :
    (p : Watcher → Type 0) (b : Bool) (x y : Outcome)
    → IfRunning x p
    → IfRunning y p
    → IfRunning (if b then x else y) p
either_IfRunning p true x y h k = h
either_IfRunning p false x y h k = k

after_start-same :
    (v w : Watcher) (o : Started) → SameTable v w → IfRunning (after_start w o) (SameTable v)
after_start-same v w (parent m) s = record {
  cfg = s.cfg;
  should_exit = s.should_exit;
  ifaces = s.ifaces;
}
after_start-same v w (child x) s = tt

module _ (fnmatch : Text → Text → Bool) where
  start_if_eligible-same :
      (i : ℕ) (name : Text) (forked : ℤ) (v w : Watcher)
      → SameTable v w
      → IfRunning (start_if_eligible fnmatch i name forked w) (SameTable v)
  unfolding start_if_eligible
  start_if_eligible-same i name forked v w s =
      let o = start i (launch_for w.cfg name) forked w.processes in
      either_IfRunning (SameTable v) (is_eligible fnmatch w.cfg name) (after_start w o) (running w)
        (after_start-same v w o s) s

  -- A handler that goes on has noted the report, whatever its fork answered.
  on_change-notes :
      (i : ℕ) (name : Text) (is_up : Bool) (forked : ℤ) (w : Watcher)
      → IfRunning (on_change fnmatch i name is_up forked w) (SameTable (set_iface i name is_up w))
  unfolding on_change change_from
  on_change-notes i name is_up forked w =
      let st = state_or_default (lookup i w.ifaces) in
      let w1 = set_iface i name is_up w in
      let w2 = stop_process i w1 in
      let same : SameTable w1 w1 = record { cfg = refl; should_exit = refl; ifaces = refl } in
      let stopped : SameTable w1 w2 = record { cfg = refl; should_exit = refl; ifaces = refl } in
      let begin = start_if_eligible fnmatch i name forked in
      let fresh = start_if_eligible-same i name forked w1 w1 same in
      let again = start_if_eligible-same i name forked w1 w2 stopped in
      let renamed = not (is_empty st.name) && not (text_eq st.name name) in
      let either = either_IfRunning (SameTable w1) in
      either (renamed && st.was_up) (if is_up then begin w2 else running w2)
        (if same_bool is_up st.was_up then running w1 else (if is_up then begin w1 else running w2))
        (either is_up (begin w2) (running w2) again stopped)
        (either (same_bool is_up st.was_up) (running w1) (if is_up then begin w1 else running w2)
          same (either is_up (begin w1) (running w2) fresh stopped))

module _ (nl : Rtnetlink) (fnmatch : Text → Text → Bool) where
  -- From w to v, what is known of the interfaces is what the calls have said.
  record Notes (calls : List Call) (w v : Watcher) : Type 0 where
    cfg : v.cfg ≡ w.cfg
    known : (i : ℕ) → lookup i v.ifaces ≡ spoken i calls (lookup i w.ifaces)

  dispatch_all-Notes :
      (calls : List Call) (forks : List ℤ) (rest : Watcher → Ended) (w v : Watcher)
      → dispatch_all nl fnmatch calls forks rest w ≡ returned v
      → (u : Watcher) × (rest u ≡ returned v) × (u.should_exit ≡ w.should_exit) × Notes calls w u
  unfolding dispatch_all dispatch
  dispatch_all-Notes [] forks rest w v e = (w, e, refl, record { cfg = refl; known = λ i. refl })
  dispatch_all-Notes (change i name is_up ∷ calls) forks rest w v e =
      let r = next_fork forks in
      elim (Outcome-cases (on_change fnmatch i name is_up r w)) [
        | inl (w', q) ↦
            let s : SameTable (set_iface i name is_up w) w' =
              subst (λ o. IfRunning o (SameTable (set_iface i name is_up w))) q
                (on_change-notes fnmatch i name is_up r w) in
            let (u, f, exit, b) = dispatch_all-Notes calls (later_forks forks) rest w' v (
              subst
                (λ o.
                  continue o (λ x. dispatch_all nl fnmatch calls (later_forks forks) rest x)
                  ≡ returned v)
                q e) in
            (
              u,
              f,
              exit ∙ s.should_exit,
              record {
                cfg = b.cfg ∙ s.cfg;
                known = λ k.
                    b.known k
                    ∙ ap (λ m. spoken k calls (lookup k m)) s.ifaces
                    ∙ ap (spoken k calls)
                        (lookup-insert i k (record { name = name; was_up = is_up }) w.ifaces);
              },
            )
        | inr (x, q) ↦ absurd (ground arith)
      ]
  dispatch_all-Notes (remove i ∷ calls) forks rest w v e =
      let o = on_removed-notes fnmatch i w in
      let (u, f, exit, b) =
        dispatch_all-Notes calls (later_forks forks) rest (on_removed i w) v e in
      (
        u,
        f,
        exit ∙ o.1,
        record { cfg = b.cfg ∙ o.0; known = λ k. b.known k ∙ ap (spoken k calls) (o.2 k) },
      )

  signals-exit :
      (signals : Option (List Signal)) (w : Watcher)
      → ((handle_readable_signals signals w).should_exit ≡ reads_end signals || w.should_exit)
        × ((handle_readable_signals signals w).cfg ≡ w.cfg)
        × ((handle_readable_signals signals w).ifaces ≡ w.ifaces)
  signals-exit none w = (refl, refl, refl)
  signals-exit (some signals) w =
      let e = handle_signals_lem signals w in
      (ap (λ u. u.should_exit) e, ap (λ u. u.cfg) e, ap (λ u. u.ifaces) e)

  -- A wakeup's signals change nothing that the calls have said.
  behind_signals :
      (signals : Option (List Signal)) (wakeups : List (Wakeup nl)) (w v : Watcher)
      → w.should_exit ≡ false
      → let u = handle_readable_signals signals w in
        Notes (heard nl wakeups u.should_exit) u v
        → Notes (heard nl wakeups (reads_end signals)) w v
  behind_signals signals wakeups w v going n =
      let s = signals-exit signals w in
      let u = handle_readable_signals signals w in
      let exit : u.should_exit ≡ reads_end signals = s.0 ∙ ground (arith, going) in
      record {
        cfg = n.cfg ∙ s.1;
        known = λ i.
            n.known i
            ∙ ap (λ b. spoken i (heard nl wakeups b) (lookup i u.ifaces)) exit
            ∙ ap (λ m. spoken i (heard nl wakeups (reads_end signals)) (lookup i m)) s.2;
      }

  left_here : (w v : Watcher) → returned w ≡ returned v → Notes [] w v
  left_here w v e =
      subst (Notes [] w) (ap (λ x. watcher_of x w) e) (record { cfg = refl; known = λ i. refl })

  guarded :
      (exit : Bool) (w v : Watcher) (rest : Ended) (calls : List Call)
      → (if exit then returned w else rest) ≡ returned v
      → (exit ≡ false → rest ≡ returned v → Notes calls w v)
      → Notes (if exit then [] else calls) w v
  guarded true w v rest calls e k = left_here w v e
  guarded false w v rest calls e k = k refl e

  not_thrown :
      (b : Bool) (rest : Watcher → Ended) (w v : Watcher)
      → or_throw nl fnmatch b rest w ≡ returned v
      → (b ≡ false) × (rest w ≡ returned v)
  not_thrown true rest w v e = absurd (ground arith)
  not_thrown false rest w v e = (refl, e)

  poll-Notes :
      (wakeups : List (Wakeup nl)) (w v : Watcher)
      → poll nl fnmatch wakeups w ≡ returned v
      → Notes (heard nl wakeups w.should_exit) w v
  unfolding poll handle_links
  poll-Notes [] w v e = left_here w v e
  poll-Notes (interrupted ∷ wakeups) w v e =
      guarded w.should_exit w v (poll nl fnmatch wakeups w) (heard nl wakeups false) e
        (λ going q. subst (λ b. Notes (heard nl wakeups b) w v) going (poll-Notes wakeups w v q))
  poll-Notes (failed ∷ wakeups) w v e = left_here w v e
  poll-Notes (ready none signals ∷ wakeups) w v e =
      let u = handle_readable_signals signals w in
      guarded w.should_exit w v (poll nl fnmatch wakeups u) (heard nl wakeups (reads_end signals)) e
        (λ going q. behind_signals signals wakeups w v going (poll-Notes wakeups u v q))
  poll-Notes (ready (some (bufs, forks)) signals ∷ wakeups) w v e =
      let h = process_pending_messages nl bufs in
      let after : Watcher → Ended =
        λ x. poll nl fnmatch wakeups (handle_readable_signals signals x) in
      let later = heard nl wakeups (reads_end signals) in
      guarded w.should_exit w v (handle_links nl fnmatch bufs forks after w)
        (told_by nl bufs ++ later) e
        (λ going q.
          let (u, f, exit, n) =
            dispatch_all-Notes h.calls forks (or_throw nl fnmatch h.thrown after) w v q in
          let (whole, g) = not_thrown h.thrown after u v f in
          let m =
            behind_signals signals wakeups u v (exit ∙ going)
              (poll-Notes wakeups (handle_readable_signals signals u) v g) in
          record {
            cfg = m.cfg ∙ n.cfg;
            known = λ i.
                m.known i
                ∙ ap (spoken i later) (n.known i)
                ∙ sym (spoken-append i h.calls later (lookup i w.ifaces))
                ∙ ap (λ cs. spoken i (cs ++ later) (lookup i w.ifaces)) (told_by_lem nl bufs whole);
          })

  -- No tray runs without reason: whenever the loop that started without children is left, or waits
  -- behind the last of the wakeups, the last
  -- message about the interface of a tracked tray, among those of the wakeups that were handled,
  -- reports it up under the name that the tray was started with; that name is eligible, and the
  -- tray's pid is tracked for that interface alone. No fork may answer a pid that is tracked at that
  -- point.
  pub poll_reported :
      (cfg : Config) (wakeups : List (Wakeup nl)) (w : Watcher) (i : ℕ) (t : TrackedProcess)
      → FreshRun nl fnmatch wakeups (watching cfg)
      → poll nl fnmatch wakeups (watching cfg) ≡ returned w
      → lookup i w.processes.by_ifindex ≡ some t
      → (spoken i (heard nl wakeups false) none ≡ some (record { name = t.iface; was_up = true }))
        × (is_eligible fnmatch cfg t.iface ≡ true)
        × (lookup t.pid w.processes.ifindex_by_pid ≡ some i)
  unfolding lookup
  poll_reported cfg wakeups w i t fresh e h =
      let (m, pid) = poll_tracked nl fnmatch cfg wakeups w i t fresh e h in
      let n = poll-Notes wakeups (watching cfg) w e in
      let same : m.state ≡ record { name = t.iface; was_up = true } =
        ground (arith, m.named, m.up) in
      (
        sym (n.known i) ∙ m.known ∙ ap some same,
        subst (λ c. is_eligible fnmatch c t.iface ≡ true) n.cfg
            (subst (λ x. is_eligible fnmatch w.cfg x ≡ true) (sym m.named) m.eligible),
        pid,
      )
