-- ===== src/Watcher/Invariant.antt =====
-- Every running tray belongs to an interface that is up and eligible, under its present name.
use conwatch.Prelude.{
  ℕ, ◌≡◌, ◌≢◌, Bool, true, none, some, [], Text, ℤ, pos, negsuc, arith, Bool-cases, inl, inr, ◌==◌,
}
use conwatch.Prelude.Map.{nat_key, lookup, lookup-insert}
use conwatch.Config.{Config}
use conwatch.Config.Eligible.{is_eligible}
use conwatch.Processes.{ProcessManager, TrackedProcess}
use conwatch.Processes.Pairing.{IsPaired, empty-IsPaired, stop-IsPaired}
use conwatch.Processes.Behaviour.{stop_lem}
use conwatch.Watcher.{Watcher, IfaceState, watching, stop_process, set_iface}

-- The kernel gives no child the pid of another that has not been waited for.
abbrev pub Fresh : ℤ → ProcessManager → Type 0
Fresh (pos p) m = lookup p m.ifindex_by_pid ≡ none
Fresh (negsuc n) m = Unit {0}

module _ (fnmatch : Text → Text → Bool) where
  pub record IsMonitored (w : Watcher) (i : ℕ) (t : TrackedProcess) : Type 0 where
    pub state : IfaceState
    pub known : lookup i w.ifaces ≡ some state
    pub up : state.was_up ≡ true
    pub named : t.iface ≡ state.name
    pub eligible : is_eligible fnmatch w.cfg state.name ≡ true

  pub record Inv (w : Watcher) : Type 0 where
    pub paired : IsPaired w.processes
    pub tracked :
        (i : ℕ) (t : TrackedProcess) → lookup i w.processes.by_ifindex ≡ some t → IsMonitored w i t
    pub named : (i : ℕ) (st : IfaceState) → lookup i w.ifaces ≡ some st → st.name ≢ []

  pub watching-Inv : (cfg : Config) → Inv (watching cfg)
  unfolding lookup
  watching-Inv cfg = record {
    paired = empty-IsPaired;
    tracked = λ i t h. absurd (ground arith);
    named = λ i st h. absurd (ground arith);
  }

  pub stop_process-Inv : (i : ℕ) (w : Watcher) → Inv w → Inv (stop_process i w)
  stop_process-Inv i w v = record {
    paired = stop-IsPaired i w.processes v.paired;
    tracked = λ j t h.
        let m = v.tracked j t (ground (arith, (stop_lem i w.processes).0 j)) in
        record {
          state = m.state;
          known = m.known;
          up = m.up;
          named = m.named;
          eligible = m.eligible;
        };
    named = v.named;
  }

  -- An index without a process may take any state.
  pub set_iface-Inv :
      (i : ℕ) (name : Text) (is_up : Bool) (w : Watcher)
      → Inv w
      → name ≢ []
      → lookup i w.processes.by_ifindex ≡ none
      → Inv (set_iface i name is_up w)
  set_iface-Inv i name is_up w v named idle =
      let st : IfaceState = record { name = name; was_up = is_up } in
      record {
        paired = v.paired;
        tracked = λ j t h.
            let m = v.tracked j t h in
            record {
              state = m.state;
              known = ground (arith, m.known, lookup-insert i j st w.ifaces);
              up = m.up;
              named = m.named;
              eligible = m.eligible;
            };
        named = λ j st' h. elim (Bool-cases (i == j)) [
          | inl same ↦ λ e. named (ground (arith, lookup-insert i j st w.ifaces))
          | inr other ↦ v.named j st' (ground (arith, lookup-insert i j st w.ifaces))
        ];
      }

  -- Writing the state that is there changes nothing that can be seen.
  pub keep_iface-Inv :
      (i : ℕ) (st : IfaceState) (w : Watcher)
      → Inv w
      → lookup i w.ifaces ≡ some st
      → Inv (set_iface i st.name st.was_up w)
  keep_iface-Inv i st w v here = record {
    paired = v.paired;
    tracked = λ j t h.
        let m = v.tracked j t h in
        record {
          state = m.state;
          known = ground (arith, m.known, lookup-insert i j st w.ifaces);
          up = m.up;
          named = m.named;
          eligible = m.eligible;
        };
    named = λ j st' h. v.named j st' (ground (arith, lookup-insert i j st w.ifaces));
  }
