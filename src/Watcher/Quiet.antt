-- ===== src/Watcher/Quiet.antt =====
-- Histories in which every fork succeeds and no tray exits by itself.
use conwatch.Prelude.{
  ℕ, suc, ◌≡◌, refl, ◌≢◌, Bool, none, [], Text, pos, arith, Option-cases, Bool-cases, inl, inr,
  ◌==◌,
}
use conwatch.Prelude.Map.{nat_key, lookup, erase, lookup-erase}
use conwatch.Config.{Config}
use conwatch.Processes.{is_running}
use conwatch.Watcher.{
  Watcher, watching, running, stop_process, on_removed_found, on_removed, on_change,
}
use conwatch.Watcher.Invariant.{Fresh, Inv}
use conwatch.Watcher.Changes.{on_change-Inv, idle_of_down, stop-idle}
use conwatch.Watcher.Reach.{on_removed-Inv}
use conwatch.Watcher.Invariant.{watching-Inv}
use conwatch.Watcher.Monitored.{wanted, Exact, Off, stop_process-Off, on_change-Exact}

module _ (fnmatch : Text → Text → Bool) where
  erased-Exact :
      (i : ℕ) (w : Watcher)
      → Off fnmatch i w
      → lookup i w.processes.by_ifindex ≡ none
      → Exact fnmatch (record w { ifaces = erase i w.ifaces })
  unfolding is_running
  erased-Exact i w x idle =
      let w' = record w { ifaces = erase i w.ifaces } in
      λ j. elim (Bool-cases (i == j)) [
        | inl same ↦ let e : i ≡ j = ground arith in rw (lookup-erase i j w.ifaces, same, ← e, idle)
        | inr other ↦ rw (lookup-erase i j w.ifaces, other) (x j other)
      ]

  on_removed-Exact :
      (i : ℕ) (w : Watcher) → Inv fnmatch w → Exact fnmatch w → Exact fnmatch (on_removed i w)
  on_removed-Exact i w v x = elim (Option-cases (lookup i w.ifaces)) [
    | inl e ↦ unfold on_removed in rw (e, on_removed_found) x
    | inr (st, e) ↦
        unfold on_removed in
        rw (e, on_removed_found)
          (elim (Bool-cases st.was_up) [
            | inl up ↦ rw up (
                erased-Exact i (stop_process i w) (stop_process-Off fnmatch i w (λ j _. x j))
                  (stop-idle i w.processes))
            | inr down ↦
                rw down (erased-Exact i w (λ j _. x j) (idle_of_down fnmatch i st w v e down))
          ])
  ]

  pub data QuietStep : Watcher → Watcher → Type 0 where
    changed :
        {w w' : Watcher} (i : ℕ) (name : Text) (is_up : Bool) (p : ℕ)
        → name ≢ []
        → Fresh (pos (suc p)) w.processes
        → on_change fnmatch i name is_up (pos (suc p)) w ≡ running w'
        → QuietStep w w'
    removed : {w : Watcher} (i : ℕ) → QuietStep w (on_removed i w)

  pub data QuietReach (w : Watcher) : Watcher → Type 0 where
    here : QuietReach w w
    next : {u v : Watcher} → QuietReach w u → QuietStep u v → QuietReach w v

  abbrev pub Good : Watcher → Type 0
  Good w = Inv fnmatch w × Exact fnmatch w

  pub QuietStep-Good : {w w' : Watcher} → QuietStep w w' → Good w → Good w'
  QuietStep-Good (changed {w} {w'} i name is_up p named fresh e) (v, x) = (
    on_change-Inv fnmatch i name is_up (pos (suc p)) w w' v named fresh e,
    on_change-Exact fnmatch i name is_up p w w' v x e,
  )
  QuietStep-Good (removed {w} i) (v, x) = (on_removed-Inv fnmatch i w v, on_removed-Exact i w v x)

  QuietReach-Good : {w w' : Watcher} → Good w → QuietReach w w' → Good w'
  QuietReach-Good g here = g
  QuietReach-Good g (next r s) = QuietStep-Good s (QuietReach-Good g r)

  watching-Exact : (cfg : Config) → Exact fnmatch (watching cfg)
  unfolding is_running lookup
  watching-Exact cfg i = refl

  pub watching-Good : (cfg : Config) → Good (watching cfg)
  watching-Good cfg = (watching-Inv fnmatch cfg, watching-Exact cfg)

  -- After any history of link reports and removals in which each fork answers a fresh pid and no
  -- tray exits by itself, an interface has a tray exactly if it is known, its last report says up,
  -- and the name of that report is eligible.
  pub quiet_running :
      (cfg : Config) {w : Watcher} (i : ℕ)
      → QuietReach (watching cfg) w
      → is_running i w.processes ≡ wanted fnmatch w.cfg (lookup i w.ifaces)
  quiet_running cfg i r = (QuietReach-Good (watching-Good cfg) r).1 i
