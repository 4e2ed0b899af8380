-- ===== src/Watcher/Changes.antt =====
-- Each handler of the watcher keeps the invariant.
use conwatch.Prelude.{
  ℕ, zero, suc, ◌≡◌, refl, sym, ◌≢◌, Bool, true, false, none, some, [], ◌∷◌, Text, text_eq,
  text_eq_iff, ℤ, pos, negsuc, arith, Option-cases, Bool-cases, inl, inr, subst, ◌==◌,
}
use conwatch.Prelude.Map.{nat_key, lookup, lookup-insert, lookup-erase}
use conwatch.Config.Eligible.{is_eligible}
use conwatch.Processes.{
  ProcessManager, TrackedProcess, Launch, Started, parent, child, start, stop, stop_found,
}
use conwatch.Processes.Pairing.{IsPaired, start-IsPaired}
use conwatch.Processes.Behaviour.{stop_lem, start-parent}
use conwatch.Watcher.{
  Watcher, IfaceState, running, after_start, launch_for, stop_process, set_iface, start_if_eligible,
  change_from, on_change,
}
use conwatch.Watcher.Invariant.{
  Fresh, IsMonitored, Inv, stop_process-Inv, set_iface-Inv, keep_iface-Inv,
}

-- A stop only takes pids out of the table.
Fresh-stop : (r : ℤ) (i : ℕ) (m : ProcessManager) → Fresh r m → Fresh r (stop i m)
Fresh-stop (negsuc n) i m f = tt
Fresh-stop (pos p) i m f = elim (Option-cases (lookup i m.by_ifindex)) [
  | inl e ↦ unfold stop in rw (e, stop_found) f
  | inr (t, e) ↦
      unfold stop in rw (e, stop_found) (ground (arith, lookup-erase t.pid p m.ifindex_by_pid))
]

pub stop-idle : (i : ℕ) (m : ProcessManager) → lookup i (stop i m).by_ifindex ≡ none
stop-idle i m = ground (arith, (stop_lem i m).0 i)

start-any-IsPaired :
    (i : ℕ) (l : Launch) (r : ℤ) (m n : ProcessManager)
    → IsPaired m
    → Fresh r m
    → start i l r m ≡ parent n
    → IsPaired n
start-any-IsPaired i l (pos (suc p)) m n v f e = start-IsPaired i l p m n v f e
start-any-IsPaired i l (pos zero) m n v f e = elim (start-parent i l (pos zero) m n e) [
  | inl (same, _) ↦ subst IsPaired (sym same) v
  | inr (p, r, _, _) ↦ absurd (ground arith)
]
start-any-IsPaired i l (negsuc k) m n v f e = elim (start-parent i l (negsuc k) m n e) [
  | inl (same, _) ↦ subst IsPaired (sym same) v
  | inr (p, r, _, _) ↦ absurd (ground arith)
]

pub after_start-running :
    (w w' : Watcher) (s : Started)
    → after_start w s ≡ running w'
    → (n : ProcessManager) × (s ≡ parent n) × (record w { processes = n } ≡ w')
after_start-running w w' (parent n) e = (n, refl, ground arith)
after_start-running w w' (child x) e = absurd (ground arith)

module _ (fnmatch : Text → Text → Bool) where
  -- What `start` leaves in the table belongs to an interface that is up and eligible.
  started-tracked :
      (i : ℕ) (name : Text) (r : ℤ) (w : Watcher) (n : ProcessManager)
      → Inv fnmatch w
      → lookup i w.ifaces ≡ some (record { name = name; was_up = true })
      → is_eligible fnmatch w.cfg name ≡ true
      → start i (launch_for w.cfg name) r w.processes ≡ parent n
      → (j : ℕ) (t : TrackedProcess) → lookup j n.by_ifindex ≡ some t
      → IsMonitored fnmatch w j t
  started-tracked i name r w n v here eligible e j t h =
      elim (start-parent i (launch_for w.cfg name) r w.processes n e) [
        | inl (same, _) ↦ v.tracked j t (ground arith)
        | inr (p, _, _, spawned) ↦ elim (Bool-cases (i == j)) [
          | inl at ↦ record {
            state = record { name = name; was_up = true };
            known = ground arith;
            up = refl;
            named = ground (arith, spawned.by_ifindex j);
            eligible = eligible;
          }
          | inr other ↦ v.tracked j t (ground (arith, spawned.by_ifindex j))
        ]
      ]

  -- A start for an interface that is up, under its present name.
  start_if_eligible-Inv :
      (i : ℕ) (name : Text) (r : ℤ) (w w' : Watcher)
      → Inv fnmatch w
      → lookup i w.ifaces ≡ some (record { name = name; was_up = true })
      → Fresh r w.processes
      → start_if_eligible fnmatch i name r w ≡ running w'
      → Inv fnmatch w'
  unfolding start_if_eligible
  start_if_eligible-Inv i name r w w' v here fresh e =
      elim (Bool-cases (is_eligible fnmatch w.cfg name)) [
        | inl eligible ↦
            let (n, started, same) =
              after_start-running w w' (start i (launch_for w.cfg name) r w.processes)
                (ground arith) in
            let back = started-tracked i name r w n v here eligible started in
            subst (Inv fnmatch) same (record {
              paired =
                  start-any-IsPaired i (launch_for w.cfg name) r w.processes n v.paired fresh
                    started;
              tracked = λ j t h.
                  let m = back j t h in
                  record {
                    state = m.state;
                    known = m.known;
                    up = m.up;
                    named = m.named;
                    eligible = m.eligible;
                  };
              named = v.named;
            })
        | inr unwanted ↦ subst (Inv fnmatch) (ground arith) v
      ]

  -- An interface that is not known has no process, and neither has one that is down.
  pub idle_of_unknown :
      (i : ℕ) (w : Watcher)
      → Inv fnmatch w
      → lookup i w.ifaces ≡ none
      → lookup i w.processes.by_ifindex ≡ none
  idle_of_unknown i w v e = elim (Option-cases (lookup i w.processes.by_ifindex)) [
    | inl idle ↦ idle
    | inr (t, busy) ↦ let m = v.tracked i t busy in absurd (ground (arith, m.known))
  ]

  pub idle_of_down :
      (i : ℕ) (st : IfaceState) (w : Watcher)
      → Inv fnmatch w
      → lookup i w.ifaces ≡ some st
      → st.was_up ≡ false
      → lookup i w.processes.by_ifindex ≡ none
  idle_of_down i st w v e down = elim (Option-cases (lookup i w.processes.by_ifindex)) [
    | inl idle ↦ idle
    | inr (t, busy) ↦ let m = v.tracked i t busy in absurd (ground (arith, m.known, m.up))
  ]

  -- An index without a process takes a new state, and is started if that is up.
  Fresh-Inv :
      (i : ℕ) (name : Text) (r : ℤ) (w w' : Watcher)
      → Inv fnmatch w
      → name ≢ []
      → lookup i w.processes.by_ifindex ≡ none
      → Fresh r w.processes
      → start_if_eligible fnmatch i name r (set_iface i name true w) ≡ running w'
      → Inv fnmatch w'
  Fresh-Inv i name r w w' v named idle fresh e =
      start_if_eligible-Inv i name r (set_iface i name true w) w'
        (set_iface-Inv fnmatch i name true w v named idle)
        (ground (arith, lookup-insert i i (record { name = name; was_up = true }) w.ifaces)) fresh e

  -- The four ways in which an interface that is known can go from up or down to up or down.
  change_from-Inv :
      (old : Text) (was_up is_up : Bool) (i : ℕ) (name : Text) (r : ℤ) (w w' : Watcher)
      → Inv fnmatch w
      → old ≢ []
      → name ≢ []
      → Fresh r w.processes
      → lookup i w.ifaces ≡ some (record { name = old; was_up = was_up })
      → change_from fnmatch (record { name = old; was_up = was_up }) i name is_up r w ≡ running w'
      → Inv fnmatch w'
  unfolding change_from
  change_from-Inv [] was_up is_up i name r w w' v old_named named fresh here e =
      absurd (old_named refl)
  change_from-Inv (c ∷ cs) true true i name r w w' v old_named named fresh here e =
      elim (Bool-cases (text_eq (c ∷ cs) name)) [
        | inl same ↦
            let kept =
              keep_iface-Inv fnmatch i (record { name = c ∷ cs; was_up = true }) w v here in
            subst (Inv fnmatch) (ground (arith, text_eq_iff (c ∷ cs) name)) kept
        | inr renamed ↦
            Fresh-Inv i name r (stop_process i w) w' (stop_process-Inv fnmatch i w v) named
              (stop-idle i w.processes) (Fresh-stop r i w.processes fresh) (ground arith)
      ]
  change_from-Inv (c ∷ cs) true false i name r w w' v old_named named fresh here e =
      subst (Inv fnmatch) (ground arith) (
        set_iface-Inv fnmatch i name false (stop_process i w) (stop_process-Inv fnmatch i w v) named
          (stop-idle i w.processes))
  change_from-Inv (c ∷ cs) false true i name r w w' v old_named named fresh here e =
      Fresh-Inv i name r w w' v named (idle_of_down i _ w v here refl) fresh (ground arith)
  change_from-Inv (c ∷ cs) false false i name r w w' v old_named named fresh here e =
      subst (Inv fnmatch) (ground arith)
        (set_iface-Inv fnmatch i name false w v named (idle_of_down i _ w v here refl))

  change_from_unknown-Inv :
      (is_up : Bool) (i : ℕ) (name : Text) (r : ℤ) (w w' : Watcher)
      → Inv fnmatch w
      → name ≢ []
      → Fresh r w.processes
      → lookup i w.ifaces ≡ none
      → change_from fnmatch (record { name = []; was_up = false }) i name is_up r w ≡ running w'
      → Inv fnmatch w'
  unfolding change_from
  change_from_unknown-Inv true i name r w w' v named fresh here e =
      Fresh-Inv i name r w w' v named (idle_of_unknown i w v here) fresh e
  change_from_unknown-Inv false i name r w w' v named fresh here e =
      subst (Inv fnmatch) (ground arith)
        (set_iface-Inv fnmatch i name false w v named (idle_of_unknown i w v here))

  pub on_change-Inv :
      (i : ℕ) (name : Text) (is_up : Bool) (r : ℤ) (w w' : Watcher)
      → Inv fnmatch w
      → name ≢ []
      → Fresh r w.processes
      → on_change fnmatch i name is_up r w ≡ running w'
      → Inv fnmatch w'
  unfolding on_change
  on_change-Inv i name is_up r w w' v named fresh e = elim (Option-cases (lookup i w.ifaces)) [
    | inl new ↦ change_from_unknown-Inv is_up i name r w w' v named fresh new (ground arith)
    | inr (st, here) ↦
        change_from-Inv st.name st.was_up is_up i name r w w' v (v.named i st here) named fresh here
          (ground arith)
  ]
