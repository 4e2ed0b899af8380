-- ===== src/Watcher/Farewell.antt =====
-- What becomes of the children when the program ends.
use conwatch.Prelude.{
  ◌==◌, any, take, ℕ, ◌≡◌, refl, sym, ap, ◌∙◌, subst, Bool, true, false, some, List, Text, ℤ, arith,
  if◌then◌else◌,
}
use conwatch.Prelude.Map.{nat_key, lookup}
use conwatch.Rtnetlink.{Rtnetlink}
use conwatch.Config.{Config}
use conwatch.Processes.{TrackedProcess, stop_all, max_waits}
use conwatch.Processes.Behaviour.{reaped, surviving}
use conwatch.Processes.Shutdown.{stop_all_lem}
use conwatch.Netlink.Socket.{Kernel, open_netlink}
use conwatch.Watcher.{Watcher, watching}
use conwatch.Watcher.Invariant.{watching-Inv}
use conwatch.Watcher.Reach.{Reach-Inv}
use conwatch.Watcher.Loop.{Wakeup, Ended, returned, replaced, thrown, poll, run_loop, shut_down}
use conwatch.Watcher.Refined.{FreshRun, poll-Reach}
use conwatch.Watcher.Run.{
  SignalCalls, Daemon, new_daemon, RunEnd, status, open_signal_fd, finish, run,
}

module _ (k : Kernel) (calls : SignalCalls k) (nl : Rtnetlink) (fnmatch : Text → Text → Bool) where
  finish-status :
      (e : Ended) (d d' : Daemon) (u w' : k.World) (n : ℕ)
      → finish k calls e d u ≡ status n d' w'
      → e ≡ returned d'.watcher
  finish-status (returned v) d d' u w' n e = ground (arith, e)
  finish-status (replaced x) d d' u w' n e = absurd (ground (arith, e))
  finish-status thrown d d' u w' n e = absurd (ground (arith, e))

  -- Status 1 is the other branches'.
  entered :
      (opened ready : Bool) (x : RunEnd k calls) (d1 d2 d' : Daemon) (w1 w2 w' : k.World)
      → (if opened then (if ready then x else status 1 d1 w1) else status 1 d2 w2) ≡ status 0 d' w'
      → x ≡ status 0 d' w'
  entered true true x d1 d2 d' w1 w2 w' e = e
  entered true false x d1 d2 d' w1 w2 w' e = absurd (ground (arith, e))
  entered false ready x d1 d2 d' w1 w2 w' e = absurd (ground (arith, e))

  run-status0 :
      (wakeups : List (Wakeup nl)) (waits : List ℤ) (d d' : Daemon) (w w' : k.World)
      → run k calls nl fnmatch wakeups waits d w ≡ status 0 d' w'
      → run_loop nl fnmatch wakeups waits d.watcher ≡ returned d'.watcher
  unfolding run open_signal_fd run_loop
  run-status0 wakeups waits d d' w w' e =
      let o = open_netlink k w in
      let d1 = record d { netlink = o.netlink } in
      let s = open_signal_fd k calls d1 o.world in
      let ended = run_loop nl fnmatch wakeups waits s.daemon.watcher in
      let same : s.daemon.watcher ≡ d.watcher = ground arith in
      ap (run_loop nl fnmatch wakeups waits) (sym same)
      ∙ finish-status ended s.daemon d' s.world w' 0 (
          entered o.ok s.ok (finish k calls ended s.daemon s.world) s.daemon d1 d' s.world o.world
            w' e)

  shut_down-returned :
      (e : Ended) (waits : List ℤ) (v' : Watcher)
      → shut_down nl fnmatch e waits ≡ returned v'
      → (v : Watcher) × (e ≡ returned v) × (v'.processes ≡ stop_all waits v.processes)
  shut_down-returned (returned v) waits v' e = (v, refl, ground (arith, e))
  shut_down-returned (replaced x) waits v' e = absurd (ground (arith, e))
  shut_down-returned thrown waits v' e = absurd (ground (arith, e))

  -- A run that ends with status 0 has left no child alone: every child that is tracked when the
  -- loop is left was sent SIGTERM, and is forgotten exactly if its exit was seen in the wait. No
  -- fork may answer a pid that is tracked at that point.
  pub run-stop_all :
      (cfg : Config) (path : Text) (wakeups : List (Wakeup nl)) (waits : List ℤ) (d : Daemon)
      (w w' : k.World)
      → FreshRun nl fnmatch wakeups (watching cfg)
      → run k calls nl fnmatch wakeups waits (new_daemon cfg path) w ≡ status 0 d w'
      → (v : Watcher) × (poll nl fnmatch wakeups (watching cfg) ≡ returned v)
        × ((i : ℕ) (t : TrackedProcess)
            → lookup i v.processes.by_ifindex ≡ some t
            → (any (λ q. q == t.pid) d.watcher.processes.terminated ≡ true)
              × (lookup i d.watcher.processes.by_ifindex
                  ≡ surviving (reaped (take max_waits waits)) (some t)))
  unfolding run_loop
  run-stop_all cfg path wakeups waits d w w' fresh e =
      let looped = run-status0 wakeups waits (new_daemon cfg path) d w w' e in
      let left =
        shut_down-returned (poll nl fnmatch wakeups (watching cfg)) waits d.watcher looped in
      let v = left.0 in
      let reached = poll-Reach nl fnmatch wakeups (watching cfg) v fresh left.1 in
      let inv = Reach-Inv fnmatch (watching-Inv fnmatch cfg) reached in
      (
        v,
        left.1,
        λ i t h.
            subst
              (λ m.
                (any (λ q. q == t.pid) m.terminated ≡ true)
                × (lookup i m.by_ifindex ≡ surviving (reaped (take max_waits waits)) (some t)))
              (sym left.2) (stop_all_lem waits i t v.processes inv.paired h),
      )
