-- ===== src/Watcher/Refined.antt =====
-- The event loop against the step relation.
use conwatch.Config.{Config}
use conwatch.Prelude.Map.{nat_key, lookup}
use conwatch.Prelude.{
  ℕ, Text, ◌≡◌, refl, ap, subst, Bool, true, false, Option, none, some, List, [], ◌∷◌, ℤ,
  if◌then◌else◌, inl, inr, ◌⊎◌, arith,
}
use conwatch.Processes.{TrackedProcess, Exec}
use conwatch.Rtnetlink.{Rtnetlink}
use conwatch.Netlink.{Call, change, remove, process_pending_messages}
use conwatch.Netlink.Calls.{AllNamed, process_pending_messages-AllNamed}
use conwatch.Watcher.{Watcher, watching, Outcome, running, became, on_change, on_removed}
use conwatch.Watcher.Invariant.{Fresh, IsMonitored}
use conwatch.Watcher.Reach.{
  changed, removed, exited, told_to_exit, Reach, here, next, reached_tracked,
}
use conwatch.Watcher.Loop.{
  Signal, sigchld, terminate, handle_signals, Wakeup, interrupted, failed, ready, Ended, returned,
  next_fork, later_forks, continue, handle_readable_signals, dispatch, dispatch_all, or_throw,
  handle_links, poll,
}

pub Outcome-cases :
    (o : Outcome) → ((w : Watcher) × (o ≡ running w)) ⊎ ((x : Exec) × (o ≡ became x))
Outcome-cases (running w) = inl (w, refl)
Outcome-cases (became x) = inr (x, refl)

abbrev pub watcher_of : Ended → Watcher → Watcher
watcher_of (returned w) d = w
watcher_of _ d = d

-- What holds of a watcher that goes on.
abbrev pub IfRunning : Outcome → (Watcher → Type 0) → Type 0
IfRunning (running w) p = p w
IfRunning (became x) p = Unit {0}

module _ (nl : Rtnetlink) (fnmatch : Text → Text → Bool) where
  abbrev pub FreshCall : Call → ℤ → Watcher → Type 0
  FreshCall (change i name is_up) forked w = Fresh forked w.processes
  FreshCall (remove i) forked w = Unit {0}

  -- Each fork of a list of calls answers no pid that is tracked at that point, and `later` holds
  -- behind them.
  abbrev pub FreshCalls : List Call → List ℤ → (Watcher → Type 0) → Watcher → Type 0
  FreshCalls [] forks later w = later w
  FreshCalls (c ∷ calls) forks later w =
      FreshCall c (next_fork forks) w
      × IfRunning (dispatch nl fnmatch c (next_fork forks) w)
          (λ w'. FreshCalls calls (later_forks forks) later w')

  -- The same of a run of the loop.
  abbrev pub FreshRun : List (Wakeup nl) → Watcher → Type 0
  FreshRun [] w = Unit {0}
  FreshRun (interrupted ∷ wakeups) w = FreshRun wakeups w
  FreshRun (failed ∷ wakeups) w = Unit {0}
  FreshRun (ready none signals ∷ wakeups) w = FreshRun wakeups (handle_readable_signals signals w)
  FreshRun (ready (some (bufs, forks)) signals ∷ wakeups) w =
      FreshCalls (process_pending_messages nl bufs).calls forks
        (λ w'. FreshRun wakeups (handle_readable_signals signals w')) w

  Reach-trans : {u v w : Watcher} → Reach fnmatch u v → Reach fnmatch v w → Reach fnmatch u w
  Reach-trans r here = r
  Reach-trans r (next s t) = next (Reach-trans r s) t

  handle_signals-Reach :
      (signals : List Signal) (w : Watcher) → Reach fnmatch w (handle_signals signals w)
  unfolding handle_signals
  handle_signals-Reach [] w = here
  handle_signals-Reach (sigchld waits ∷ signals) w =
      Reach-trans (next here (exited waits)) (handle_signals-Reach signals _)
  handle_signals-Reach (terminate ∷ signals) w =
      Reach-trans (next here told_to_exit) (handle_signals-Reach signals _)

  readable-Reach :
      (signals : Option (List Signal)) (w : Watcher)
      → Reach fnmatch w (handle_readable_signals signals w)
  readable-Reach none w = here
  readable-Reach (some signals) w = handle_signals-Reach signals w

  dispatch_all-Reach :
      (calls : List Call) (forks : List ℤ) (rest : Watcher → Ended) (later : Watcher → Type 0)
      (w v : Watcher)
      → AllNamed calls
      → FreshCalls calls forks later w
      → ((w' : Watcher) → later w' → rest w' ≡ returned v → Reach fnmatch w' v)
      → dispatch_all nl fnmatch calls forks rest w ≡ returned v
      → Reach fnmatch w v
  unfolding dispatch_all dispatch
  dispatch_all-Reach [] forks rest later w v n f k e = k w f e
  dispatch_all-Reach (change i name is_up ∷ calls) forks rest later w v n f k e =
      let r = next_fork forks in
      elim (Outcome-cases (on_change fnmatch i name is_up r w)) [
        | inl (w', q) ↦ Reach-trans (next here (changed i name is_up r n.0 f.0 q)) (
            dispatch_all-Reach calls (later_forks forks) rest later w' v n.1
              (subst (λ o. IfRunning o (λ u. FreshCalls calls (later_forks forks) later u)) q f.1) k
              (subst
                (λ o.
                  continue o (λ u. dispatch_all nl fnmatch calls (later_forks forks) rest u)
                  ≡ returned v)
                q e))
        | inr (x, q) ↦ absurd (ground arith)
      ]
  dispatch_all-Reach (remove i ∷ calls) forks rest later w v n f k e =
      Reach-trans (next here (removed i))
        (dispatch_all-Reach calls (later_forks forks) rest later (on_removed i w) v n.1 f.1 k e)

  staying : (w v : Watcher) → returned w ≡ returned v → Reach fnmatch w v
  staying w v e = subst (Reach fnmatch w) (ap (λ x. watcher_of x w) e) here

  -- The loop's test before each wakeup.
  guarded :
      (exit : Bool) (w v : Watcher) (rest : Ended)
      → (if exit then returned w else rest) ≡ returned v
      → (rest ≡ returned v → Reach fnmatch w v)
      → Reach fnmatch w v
  guarded true w v rest e k = staying w v e
  guarded false w v rest e k = k e

  not_thrown :
      (b : Bool) (rest : Watcher → Ended) (w v : Watcher)
      → or_throw nl fnmatch b rest w ≡ returned v
      → rest w ≡ returned v
  not_thrown true rest w v e = absurd (ground arith)
  not_thrown false rest w v e = e

  -- The loop refines the step relation: for any sequence of wakeups, with any buffers from the
  -- kernel, where no fork answers a pid that is tracked at that point, the state in which the loop
  -- is left is reached by steps of the daemon from the state in which it was entered.
  pub poll-Reach :
      (wakeups : List (Wakeup nl)) (w v : Watcher)
      → FreshRun wakeups w
      → poll nl fnmatch wakeups w ≡ returned v
      → Reach fnmatch w v
  unfolding poll handle_links
  poll-Reach [] w v f e = staying w v e
  poll-Reach (interrupted ∷ wakeups) w v f e =
      guarded w.should_exit w v (poll nl fnmatch wakeups w) e (poll-Reach wakeups w v f)
  poll-Reach (failed ∷ wakeups) w v f e = staying w v e
  poll-Reach (ready none signals ∷ wakeups) w v f e =
      let w' = handle_readable_signals signals w in
      guarded w.should_exit w v (poll nl fnmatch wakeups w') e
        (λ q. Reach-trans (readable-Reach signals w) (poll-Reach wakeups w' v f q))
  poll-Reach (ready (some (bufs, forks)) signals ∷ wakeups) w v f e =
      let h = process_pending_messages nl bufs in
      let rest : Watcher → Ended =
        λ u. poll nl fnmatch wakeups (handle_readable_signals signals u) in
      guarded w.should_exit w v (handle_links nl fnmatch bufs forks rest w) e (
        dispatch_all-Reach h.calls forks (or_throw nl fnmatch h.thrown rest)
          (λ u. FreshRun wakeups (handle_readable_signals signals u)) w v
          (process_pending_messages-AllNamed nl bufs) f
          (λ u g q. Reach-trans (readable-Reach signals u) (
            poll-Reach wakeups (handle_readable_signals signals u) v g
              (not_thrown h.thrown rest u v q))))

  -- Whenever the loop that started without children is left, every tracked tray stands for an
  -- interface that the daemon has noted as up, runs under the noted name, and is eligible; its pid is
  -- tracked for that interface alone. No fork may answer a pid that is tracked at that point.
  pub poll_tracked :
      (cfg : Config) (wakeups : List (Wakeup nl)) (w : Watcher) (i : ℕ) (t : TrackedProcess)
      → FreshRun wakeups (watching cfg)
      → poll nl fnmatch wakeups (watching cfg) ≡ returned w
      → lookup i w.processes.by_ifindex ≡ some t
      → IsMonitored fnmatch w i t × (lookup t.pid w.processes.ifindex_by_pid ≡ some i)
  poll_tracked cfg wakeups w i t f e h =
      reached_tracked fnmatch cfg i t (poll-Reach wakeups (watching cfg) w f e) h
