-- ===== src/Watcher/Reach.antt =====
-- What the daemon can be in, over every history of link events, exits of children and signals.
use conwatch.Prelude.{
  ℕ, ◌≡◌, ◌≢◌, Bool, true, none, some, List, [], Text, ℤ, arith, Option-cases, Bool-cases, inl, inr,
}
use conwatch.Prelude.Map.{nat_key, lookup, erase, lookup-erase}
use conwatch.Config.{Config}
use conwatch.Processes.{TrackedProcess, reap_exited}
use conwatch.Processes.Pairing.{reap_exited-IsPaired}
use conwatch.Processes.Behaviour.{reap_exited_lem}
use conwatch.Watcher.{
  Watcher, watching, running, stop_process, on_removed_found, on_removed, on_change,
}
use conwatch.Watcher.Invariant.{Fresh, IsMonitored, Inv, stop_process-Inv, watching-Inv}
use conwatch.Watcher.Changes.{on_change-Inv, idle_of_down, stop-idle}

module _ (fnmatch : Text → Text → Bool) where
  erase_iface-Inv :
      (i : ℕ) (w : Watcher)
      → Inv fnmatch w
      → lookup i w.processes.by_ifindex ≡ none
      → Inv fnmatch (record w { ifaces = erase i w.ifaces })
  erase_iface-Inv i w v idle = record {
    paired = v.paired;
    tracked = λ j t h.
        let m = v.tracked j t h in
        record {
          state = m.state;
          known = ground (arith, m.known, lookup-erase i j w.ifaces);
          up = m.up;
          named = m.named;
          eligible = m.eligible;
        };
    named = λ j st h. v.named j st (ground (arith, lookup-erase i j w.ifaces));
  }

  pub on_removed-Inv : (i : ℕ) (w : Watcher) → Inv fnmatch w → Inv fnmatch (on_removed i w)
  on_removed-Inv i w v = elim (Option-cases (lookup i w.ifaces)) [
    | inl e ↦ unfold on_removed in rw (e, on_removed_found) v
    | inr (st, e) ↦
        unfold on_removed in
        rw (e, on_removed_found)
          (elim (Bool-cases st.was_up) [
            | inl up ↦ rw up (
                erase_iface-Inv i (stop_process i w) (stop_process-Inv fnmatch i w v)
                  (stop-idle i w.processes))
            | inr down ↦ rw down (erase_iface-Inv i w v (idle_of_down fnmatch i st w v e down))
          ])
  ]

  pub reap-Inv :
      (ws : List ℤ) (w : Watcher)
      → Inv fnmatch w
      → Inv fnmatch (record w { processes = reap_exited ws w.processes })
  reap-Inv ws w v = record {
    paired = reap_exited-IsPaired ws w.processes v.paired;
    tracked = λ j t h.
        let m = v.tracked j t (ground (arith, reap_exited_lem ws j w.processes v.paired)) in
        record {
          state = m.state;
          known = m.known;
          up = m.up;
          named = m.named;
          eligible = m.eligible;
        };
    named = v.named;
  }

  -- One event of the daemon, with the answers of the kernel that it meets.
  pub data Step : Watcher → Watcher → Type 0 where
    changed :
        {w w' : Watcher} (i : ℕ) (name : Text) (is_up : Bool) (forked : ℤ)
        → name ≢ []
        → Fresh forked w.processes
        → on_change fnmatch i name is_up forked w ≡ running w'
        → Step w w'
    removed : {w : Watcher} (i : ℕ) → Step w (on_removed i w)
    exited :
        {w : Watcher} (waits : List ℤ)
        → Step w (record w { processes = reap_exited waits w.processes })
    told_to_exit : {w : Watcher} → Step w (record w { should_exit = true })

  pub data Reach (w : Watcher) : Watcher → Type 0 where
    here : Reach w w
    next : {u v : Watcher} → Reach w u → Step u v → Reach w v

  pub Step-Inv : {w w' : Watcher} → Step w w' → Inv fnmatch w → Inv fnmatch w'
  Step-Inv (changed {w} {w'} i name is_up forked named fresh e) v =
      on_change-Inv fnmatch i name is_up forked w w' v named fresh e
  Step-Inv (removed {w} i) v = on_removed-Inv i w v
  Step-Inv (exited {w} waits) v = reap-Inv waits w v
  Step-Inv told_to_exit v = record {
    paired = v.paired;
    tracked = λ j t h.
        let m = v.tracked j t h in
        record {
          state = m.state;
          known = m.known;
          up = m.up;
          named = m.named;
          eligible = m.eligible;
        };
    named = v.named;
  }

  pub Reach-Inv : {w w' : Watcher} → Inv fnmatch w → Reach w w' → Inv fnmatch w'
  Reach-Inv v here = v
  Reach-Inv v (next r s) = Step-Inv s (Reach-Inv v r)

  -- After any history, every tracked tray stands for an interface that is noted as up, runs under
  -- the name that is noted, and is eligible; its pid is tracked for that interface
  -- alone. The kernel is taken to give no child the pid of another that was not yet waited for,
  -- and the link events to carry names.
  pub reached_tracked :
      (cfg : Config) {w : Watcher} (i : ℕ) (t : TrackedProcess)
      → Reach (watching cfg) w
      → lookup i w.processes.by_ifindex ≡ some t
      → IsMonitored fnmatch w i t × (lookup t.pid w.processes.ifindex_by_pid ≡ some i)
  reached_tracked cfg i t r h =
      let v = Reach-Inv (watching-Inv fnmatch cfg) r in (v.tracked i t h, v.paired.forward i t h)
