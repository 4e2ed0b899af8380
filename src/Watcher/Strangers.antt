-- ===== src/Watcher/Strangers.antt =====
-- Reaping children that are no longer tracked.
use conwatch.Prelude.{
  zero, suc, ◌≡◌, refl, ap, ◌∙◌, Bool, false, ◌||◌, Option, none, some, List, [], ◌∷◌, ℤ, pos,
  negsuc, any,
}
use conwatch.Prelude.Map.{nat_key, lookup}
use conwatch.Processes.{ProcessManager, clear_exited, reap_exited}
use conwatch.Watcher.{Watcher}
use conwatch.Watcher.Loop.{Signal, sigchld, terminate, handle_readable_signals}
use conwatch.Watcher.Signals.{ends_loop, reap_all, handle_signals_lem}

-- No pid that waitpid answers is that of a tray: those that exit were stopped before.
abbrev pub Strangers : List ℤ → ProcessManager → Type 0
Strangers [] m = Unit {0}
Strangers (negsuc n ∷ waits) m = Unit {0}
Strangers (pos zero ∷ waits) m = Unit {0}
Strangers (pos (suc p) ∷ waits) m = (lookup (suc p) m.ifindex_by_pid ≡ none) × Strangers waits m

abbrev pub AllStrangers : List Signal → ProcessManager → Type 0
AllStrangers [] m = Unit {0}
AllStrangers (sigchld waits ∷ signals) m = Strangers waits m × AllStrangers signals m
AllStrangers (terminate ∷ signals) m = AllStrangers signals m

abbrev pub ReadStrangers : Option (List Signal) → Watcher → Type 0
ReadStrangers none w = Unit {0}
ReadStrangers (some signals) w = AllStrangers signals w.processes

abbrev pub reads_end : Option (List Signal) → Bool
reads_end none = false
reads_end (some signals) = any ends_loop signals

reap_exited-Strangers :
    (waits : List ℤ) (m : ProcessManager) → Strangers waits m → reap_exited waits m ≡ m
unfolding reap_exited clear_exited
reap_exited-Strangers [] m s = refl
reap_exited-Strangers (negsuc n ∷ waits) m s = refl
reap_exited-Strangers (pos zero ∷ waits) m s = refl
reap_exited-Strangers (pos (suc p) ∷ waits) m s = rw s.0 (reap_exited-Strangers waits m s.1)

reap_all-AllStrangers :
    (signals : List Signal) (m : ProcessManager) → AllStrangers signals m → reap_all signals m ≡ m
reap_all-AllStrangers [] m s = refl
reap_all-AllStrangers (sigchld waits ∷ signals) m s =
    ap (reap_all signals) (reap_exited-Strangers waits m s.0) ∙ reap_all-AllStrangers signals m s.1
reap_all-AllStrangers (terminate ∷ signals) m s = reap_all-AllStrangers signals m s

-- Signals of strangers end the loop at most.
pub readable-AllStrangers :
    (signals : Option (List Signal)) (w : Watcher)
    → ReadStrangers signals w
    → handle_readable_signals signals w
      ≡ record w { should_exit = reads_end signals || w.should_exit }
readable-AllStrangers none w s = refl
readable-AllStrangers (some signals) w s =
    handle_signals_lem signals w
    ∙ ap (λ m. record w { processes = m; should_exit = any ends_loop signals || w.should_exit })
        (reap_all-AllStrangers signals w.processes s)
