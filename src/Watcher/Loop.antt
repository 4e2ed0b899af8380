-- ===== src/Watcher/Loop.antt =====
-- src/watcher/watcher.cpp: the event loop. A wakeup of poll(2) comes with all that the reads behind
-- it return; the answer of fork(2) is given for every call of a handler, and unused where none forks.
use conwatch.Prelude.{
  Bool, true, false, Option, none, some, List, [], ◌∷◌, Text, ℤ, negsuc, if◌then◌else◌,
}
use conwatch.Processes.{Exec, reap_exited, stop_all}
use conwatch.Rtnetlink.{Rtnetlink}
use conwatch.Netlink.{Call, change, remove, process_pending_messages}
use conwatch.Watcher.{Watcher, Outcome, running, became, on_change, on_removed}

-- SIGCHLD with the answers of waitpid(2) to the reaping that it starts, or SIGTERM or SIGINT.
pub data Signal : Type 0 where
  sigchld : List ℤ → Signal
  terminate : Signal

unfoldable pub handle_signals : List Signal → Watcher → Watcher
handle_signals [] w = w
handle_signals (sigchld waits ∷ signals) w =
    handle_signals signals (record w { processes = reap_exited waits w.processes })
handle_signals (terminate ∷ signals) w = handle_signals signals (record w { should_exit = true })

-- What one poll(2) answers: EINTR, another error, or the descriptors that are readable.
pub data Wakeup (nl : Rtnetlink) : Type 0 where
  interrupted : Wakeup nl
  failed : Wakeup nl
  ready : Option (List nl.Messages × List ℤ) → Option (List Signal) → Wakeup nl

-- How the loop is left: by its own test or an error, as another program, or by an exception.
pub data Ended : Type 0 where
  returned : Watcher → Ended
  replaced : Exec → Ended
  thrown : Ended

abbrev pub next_fork : List ℤ → ℤ
next_fork [] = negsuc 0
next_fork (r ∷ forks) = r

abbrev pub later_forks : List ℤ → List ℤ
later_forks [] = []
later_forks (r ∷ forks) = forks

abbrev pub continue : Outcome → (Watcher → Ended) → Ended
continue (running w) rest = rest w
continue (became x) rest = replaced x

abbrev pub handle_readable_signals : Option (List Signal) → Watcher → Watcher
handle_readable_signals none w = w
handle_readable_signals (some signals) w = handle_signals signals w

module _ (nl : Rtnetlink) (fnmatch : Text → Text → Bool) where
  -- `onChangeCallback` and `onRemovedCallback`.
  unfoldable pub dispatch : Call → ℤ → Watcher → Outcome
  dispatch (change i name is_up) forked w = on_change fnmatch i name is_up forked w
  dispatch (remove i) forked w = running (on_removed i w)

  unfoldable pub dispatch_all : List Call → List ℤ → (Watcher → Ended) → Watcher → Ended
  dispatch_all [] forks rest w = rest w
  dispatch_all (c ∷ calls) forks rest w =
      continue (dispatch c (next_fork forks) w)
        (λ w'. dispatch_all calls (later_forks forks) rest w')

  abbrev pub or_throw : Bool → (Watcher → Ended) → Watcher → Ended
  or_throw true rest w = thrown
  or_throw false rest w = rest w

  -- `processPendingMessages` with the two callbacks, and what comes after it.
  unfoldable pub handle_links : List nl.Messages → List ℤ → (Watcher → Ended) → Watcher → Ended
  handle_links bufs forks rest w =
      let h = process_pending_messages nl bufs in
      dispatch_all h.calls forks (or_throw h.thrown rest) w

  -- The loop; behind the last wakeup it waits on.
  unfoldable pub poll : List (Wakeup nl) → Watcher → Ended
  poll [] w = returned w
  poll (interrupted ∷ wakeups) w =
      let rest = poll wakeups w in if w.should_exit then returned w else rest
  poll (failed ∷ wakeups) w = returned w
  poll (ready none signals ∷ wakeups) w =
      let rest = poll wakeups (handle_readable_signals signals w) in
      if w.should_exit then returned w else rest
  poll (ready (some (bufs, forks)) signals ∷ wakeups) w =
      let after =
        handle_links bufs forks (λ w'. poll wakeups (handle_readable_signals signals w')) w in
      if w.should_exit then returned w else after

  abbrev pub shut_down : Ended → List ℤ → Ended
  shut_down (returned w) waits = returned (record w { processes = stop_all waits w.processes })
  shut_down (replaced x) waits = replaced x
  shut_down thrown waits = thrown

  -- The loop of `run` and the end of the children behind it.
  unfoldable pub run_loop : List (Wakeup nl) → List ℤ → Watcher → Ended
  run_loop wakeups waits w = shut_down (poll wakeups w) waits
