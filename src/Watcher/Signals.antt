-- ===== src/Watcher/Signals.antt =====
-- Signals at a wakeup of the event loop, and how they end it.
use conwatch.Prelude.{
  ◌≡◌, refl, ap, ◌∙◌, Bool, true, false, ◌||◌, Option, none, some, List, [], ◌∷◌, Text, ℤ, arith,
  any, if◌then◌else◌,
}
use conwatch.Processes.{ProcessManager, reap_exited}
use conwatch.Rtnetlink.{Rtnetlink}
use conwatch.Watcher.{Watcher}
use conwatch.Watcher.Loop.{
  Signal, sigchld, terminate, handle_signals, Wakeup, interrupted, failed, ready, returned, Ended,
  handle_links, poll,
}

-- The answers of waitpid to every reaping of a run of signals, and whether one of them ends the loop.
abbrev pub reap_all : List Signal → ProcessManager → ProcessManager
reap_all [] m = m
reap_all (sigchld waits ∷ signals) m = reap_all signals (reap_exited waits m)
reap_all (terminate ∷ signals) m = reap_all signals m

abbrev pub ends_loop : Signal → Bool
ends_loop (sigchld waits) = false
ends_loop terminate = true

-- All signals that are read at a wakeup are handled, whatever their order: every SIGCHLD reaps, one
-- SIGTERM or SIGINT is enough to end the loop, and nothing else changes.
pub handle_signals_lem :
    (signals : List Signal) (w : Watcher)
    → handle_signals signals w ≡ record w {
      processes = reap_all signals w.processes;
      should_exit = any ends_loop signals || w.should_exit;
    }
unfolding handle_signals
handle_signals_lem [] w = refl
handle_signals_lem (sigchld waits ∷ signals) w = handle_signals_lem signals _
handle_signals_lem (terminate ∷ signals) w = handle_signals_lem signals _ ∙ ground arith

-- What a wakeup's signals leave where one of them ends the loop.
abbrev pub served : List Signal → Watcher → Watcher
served signals w = record w { processes = reap_all signals w.processes; should_exit = true }

module _ (nl : Rtnetlink) (fnmatch : Text → Text → Bool) where
  poll_exited :
      (wakeups : List (Wakeup nl)) (w : Watcher)
      → w.should_exit ≡ true
      → poll nl fnmatch wakeups w ≡ returned w
  unfolding poll
  poll_exited [] w h = refl
  poll_exited (interrupted ∷ wakeups) w h = rw h refl
  poll_exited (failed ∷ wakeups) w h = refl
  poll_exited (ready none signals ∷ wakeups) w h = rw h refl
  poll_exited (ready (some (bufs, forks)) signals ∷ wakeups) w h = rw h refl

  told :
      (signals : List Signal) (wakeups : List (Wakeup nl)) (w : Watcher)
      → any ends_loop signals ≡ true
      → poll nl fnmatch wakeups (handle_signals signals w) ≡ returned (handle_signals signals w)
  told signals wakeups w h =
      poll_exited wakeups (handle_signals signals w)
        (ap (λ u. u.should_exit) (handle_signals_lem signals w) ∙ rw h refl)

  -- The link events of a wakeup, if it has any, and what comes behind them.
  abbrev pub behind_links : Option (List nl.Messages × List ℤ) → (Watcher → Ended) → Watcher → Ended
  behind_links none rest w = rest w
  behind_links (some (bufs, forks)) rest w = handle_links nl fnmatch bufs forks rest w

  told_served :
      (signals : List Signal) (wakeups : List (Wakeup nl)) (w : Watcher)
      → any ends_loop signals ≡ true
      → poll nl fnmatch wakeups (handle_signals signals w) ≡ returned (served signals w)
  told_served signals wakeups w h =
      told signals wakeups w h ∙ ap returned (handle_signals_lem signals w ∙ rw h refl)

  -- A SIGTERM or SIGINT at a wakeup ends the loop behind that wakeup, whatever is still to come: the
  -- handling of its link events comes first, then, in the watcher that this leaves, the reaping that
  -- each SIGCHLD of the wakeup asks for, also those behind the SIGTERM; and then the loop is left, so
  -- that no later wakeup is handled.
  pub poll-terminate :
      (links : Option (List nl.Messages × List ℤ)) (signals : List Signal)
      (wakeups : List (Wakeup nl)) (w : Watcher)
      → w.should_exit ≡ false
      → any ends_loop signals ≡ true
      → poll nl fnmatch (ready links (some signals) ∷ wakeups) w
        ≡ behind_links links (λ u. returned (served signals u)) w
  unfolding poll
  poll-terminate none signals wakeups w going h =
      let rest = poll nl fnmatch wakeups (handle_signals signals w) in
      ap (λ b. if b then returned w else rest) going ∙ told_served signals wakeups w h
  poll-terminate (some (bufs, forks)) signals wakeups w going h =
      let after : Watcher → Ended = λ u. poll nl fnmatch wakeups (handle_signals signals u) in
      ap (λ b. if b then returned w else handle_links nl fnmatch bufs forks after w) going
      ∙ ap (λ rest. handle_links nl fnmatch bufs forks rest w)
          (λ i u. told_served signals wakeups u h i)
