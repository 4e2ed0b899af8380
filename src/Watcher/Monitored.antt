-- ===== src/Watcher/Monitored.antt =====
-- The trays that run are those of the interfaces that are up and eligible, as long as fork succeeds
-- and no tray exits by itself.
use conwatch.Prelude.{
  ℕ, suc, ◌≡◌, refl, sym, ◌∙◌, ap, ◌≢◌, Bool, true, false, ◌&&◌, Option, none, some, [], ◌∷◌, Text,
  text_eq, text_eq_iff, pos, arith, Option-cases, Bool-cases, inl, inr, subst, ◌==◌,
}
use conwatch.Prelude.Map.{nat_key, lookup, lookup-insert}
use conwatch.Config.{Config}
use conwatch.Config.Eligible.{is_eligible}
use conwatch.Processes.{ProcessManager, TrackedProcess, start, is_running}
use conwatch.Processes.Behaviour.{stop_lem, start-parent, Spawned}
use conwatch.Watcher.{
  Watcher, IfaceState, running, launch_for, stop_process, set_iface, start_if_eligible, change_from,
  on_change,
}
use conwatch.Watcher.Invariant.{Inv}
use conwatch.Processes.Behaviour.{start-parent}
use conwatch.Watcher.Changes.{idle_of_unknown, idle_of_down, stop-idle, after_start-running}

-- What an interface's last report asks for.
abbrev pub wanted : (Text → Text → Bool) → Config → Option IfaceState → Bool
wanted fnmatch cfg none = false
wanted fnmatch cfg (some st) = st.was_up && is_eligible fnmatch cfg st.name

module _ (fnmatch : Text → Text → Bool) where
  abbrev pub ExactAt : Watcher → ℕ → Type 0
  ExactAt w i = is_running i w.processes ≡ wanted fnmatch w.cfg (lookup i w.ifaces)

  abbrev pub Exact : Watcher → Type 0
  Exact w = (i : ℕ) → ExactAt w i

  -- Exact for every index but one.
  abbrev pub Off : ℕ → Watcher → Type 0
  Off i w = (j : ℕ) → (i == j) ≡ false → ExactAt w j

  pub stop_process-Off : (i : ℕ) (w : Watcher) → Off i w → Off i (stop_process i w)
  unfolding is_running
  stop_process-Off i w x j other = rw ((stop_lem i w.processes).0 j, other) (x j other)

  set_iface-Off :
      (i : ℕ) (name : Text) (is_up : Bool) (w : Watcher)
      → Off i w
      → Off i (set_iface i name is_up w)
  set_iface-Off i name is_up w x j other =
      rw (lookup-insert i j (record { name = name; was_up = is_up }) w.ifaces, other) (x j other)

  set_iface_self :
      (i : ℕ) (name : Text) (is_up : Bool) (w : Watcher)
      → lookup i (set_iface i name is_up w).ifaces ≡ some (record { name = name; was_up = is_up })
  set_iface_self i name is_up w =
      ground (arith, lookup-insert i i (record { name = name; was_up = is_up }) w.ifaces)

  pub Off-Exact : (i : ℕ) (w : Watcher) → Off i w → ExactAt w i → Exact w
  Off-Exact i w x at j = elim (Bool-cases (i == j)) [
    | inl same ↦ let e : i ≡ j = ground arith in subst (ExactAt w) e at
    | inr other ↦ x j other
  ]

  down-Exact :
      (i : ℕ) (name : Text) (w : Watcher)
      → Off i w
      → lookup i w.processes.by_ifindex ≡ none
      → Exact (set_iface i name false w)
  unfolding is_running
  down-Exact i name w x idle =
      Off-Exact i (set_iface i name false w) (set_iface-Off i name false w x)
        (rw (set_iface_self i name false w, idle))

  Spawned-Exact :
      (i : ℕ) (name : Text) (t : TrackedProcess) (w : Watcher) (n : ProcessManager)
      → Off i w
      → is_eligible fnmatch w.cfg name ≡ true
      → Spawned i t w.processes n
      → Exact (record (set_iface i name true w) { processes = n })
  unfolding is_running
  Spawned-Exact i name t w n x eligible s j = elim (Bool-cases (i == j)) [
    | inl same ↦ rw (
      s.by_ifindex j,
      lookup-insert i j (record { name = name; was_up = true }) w.ifaces,
      same,
      eligible,
    )
    | inr other ↦
        rw
          (
            s.by_ifindex j,
            lookup-insert i j (record { name = name; was_up = true }) w.ifaces,
            other,
          )
          (x j other)
  ]

  started-Exact :
      (i : ℕ) (name : Text) (p : ℕ) (w w' : Watcher)
      → Off i w
      → lookup i w.processes.by_ifindex ≡ none
      → start_if_eligible fnmatch i name (pos (suc p)) (set_iface i name true w) ≡ running w'
      → Exact w'
  unfolding start_if_eligible is_running
  started-Exact i name p w w' x idle e = elim (Bool-cases (is_eligible fnmatch w.cfg name)) [
    | inl eligible ↦
        let l = launch_for w.cfg name in
        let (n, started, same) =
          after_start-running (set_iface i name true w) w' (start i l (pos (suc p)) w.processes)
            (ground arith) in
        elim (start-parent i l (pos (suc p)) w.processes n started) [
          | inl (_, inl busy) ↦ absurd (ground arith)
          | inl (_, inr (k, failed)) ↦ absurd (ground arith)
          | inr (q, _, _, s) ↦ subst Exact {y = w'} same (Spawned-Exact i name _ w n x eligible s)
        ]
    | inr unwanted ↦
        let same : set_iface i name true w ≡ w' = ground arith in
        subst Exact {y = w'} same (
          Off-Exact i (set_iface i name true w) (set_iface-Off i name true w x)
            (rw (set_iface_self i name true w, idle, unwanted)))
  ]

  same_state-Exact :
      (i : ℕ) (st : IfaceState) (w : Watcher)
      → Exact w
      → lookup i w.ifaces ≡ some st
      → Exact (set_iface i st.name st.was_up w)
  same_state-Exact i st w x here =
      Off-Exact i (set_iface i st.name st.was_up w)
        (set_iface-Off i st.name st.was_up w (λ j _. x j))
        (x i ∙ ap (wanted fnmatch w.cfg) (here ∙ sym (set_iface_self i st.name st.was_up w)))

  change_from-Exact :
      (old : Text) (was_up is_up : Bool) (i : ℕ) (name : Text) (p : ℕ) (w w' : Watcher)
      → Inv fnmatch w
      → Exact w
      → old ≢ []
      → lookup i w.ifaces ≡ some (record { name = old; was_up = was_up })
      → change_from fnmatch (record { name = old; was_up = was_up }) i name is_up (pos (suc p)) w
        ≡ running w'
      → Exact w'
  unfolding change_from
  change_from-Exact [] was_up is_up i name p w w' v x named here e = absurd (named refl)
  change_from-Exact (c ∷ cs) true true i name p w w' v x named here e =
      elim (Bool-cases (text_eq (c ∷ cs) name)) [
        | inl same ↦
            let kept : set_iface i (c ∷ cs) true w ≡ w' =
              ground (arith, text_eq_iff (c ∷ cs) name) in
            subst Exact {y = w'} kept
              (same_state-Exact i (record { name = c ∷ cs; was_up = true }) w x here)
        | inr renamed ↦
            started-Exact i name p (stop_process i w) w' (stop_process-Off i w (λ j _. x j))
              (stop-idle i w.processes) (ground arith)
      ]
  change_from-Exact (c ∷ cs) true false i name p w w' v x named here e =
      let stopped : set_iface i name false (stop_process i w) ≡ w' = ground arith in
      subst Exact {y = w'} stopped (
        down-Exact i name (stop_process i w) (stop_process-Off i w (λ j _. x j))
          (stop-idle i w.processes))
  change_from-Exact (c ∷ cs) false true i name p w w' v x named here e =
      started-Exact i name p w w' (λ j _. x j) (idle_of_down fnmatch i _ w v here refl)
        (ground arith)
  change_from-Exact (c ∷ cs) false false i name p w w' v x named here e =
      let still : set_iface i name false w ≡ w' = ground arith in
      subst Exact {y = w'} still
        (down-Exact i name w (λ j _. x j) (idle_of_down fnmatch i _ w v here refl))

  change_from_unknown-Exact :
      (is_up : Bool) (i : ℕ) (name : Text) (p : ℕ) (w w' : Watcher)
      → Inv fnmatch w
      → Exact w
      → lookup i w.ifaces ≡ none
      → change_from fnmatch (record { name = []; was_up = false }) i name is_up (pos (suc p)) w
        ≡ running w'
      → Exact w'
  unfolding change_from
  change_from_unknown-Exact true i name p w w' v x new e =
      started-Exact i name p w w' (λ j _. x j) (idle_of_unknown fnmatch i w v new) e
  change_from_unknown-Exact false i name p w w' v x new e =
      let still : set_iface i name false w ≡ w' = ground arith in
      subst Exact {y = w'} still
        (down-Exact i name w (λ j _. x j) (idle_of_unknown fnmatch i w v new))

  pub on_change-Exact :
      (i : ℕ) (name : Text) (is_up : Bool) (p : ℕ) (w w' : Watcher)
      → Inv fnmatch w
      → Exact w
      → on_change fnmatch i name is_up (pos (suc p)) w ≡ running w'
      → Exact w'
  unfolding on_change
  on_change-Exact i name is_up p w w' v x e = elim (Option-cases (lookup i w.ifaces)) [
    | inl new ↦ change_from_unknown-Exact is_up i name p w w' v x new (ground arith)
    | inr (st, here) ↦
        change_from-Exact st.name st.was_up is_up i name p w w' v x (v.named i st here) here
          (ground arith)
  ]
