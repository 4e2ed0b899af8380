-- ===== src/Watcher/Commute.antt =====
-- The order in which two interfaces are reported.
use mathlib.Core.List.{Perm, append_assoc, perm_append_comm, perm-append_right_iff}
use mathlib.Core.Quot
use mathlib.Core.Quot.{Quot}
use conwatch.Prelude.{
  ℕ, suc, ◌≡◌, ◌≢◌, sym, ap, ◌∙◌, subst, Bool, false, ◌==◌, none, some, List, [], ◌++◌, Text, pos,
  if◌then◌else◌, arith, Bool-cases, Option-cases, inl, inr,
}
use conwatch.Prelude.Map.{nat_key, lookup, lookup-insert}
use conwatch.Config.Eligible.{is_eligible}
use conwatch.Processes.{TrackedProcess, ProcessManager}
use conwatch.Processes.Layout.{SameMap}
use conwatch.Processes.Pairing.{IsPaired}
use conwatch.Processes.Table.{untracked_pid}
use conwatch.Config.{Config}
use conwatch.Watcher.{
  Watcher, watching, Outcome, running, became, on_change, set_iface, state_or_default,
}
use conwatch.Watcher.Invariant.{Inv, watching-Inv}
use conwatch.Watcher.Reach.{Reach, Reach-Inv}
use conwatch.Watcher.Changes.{on_change-Inv}
use conwatch.Watcher.Noted.{went_on, on_change-GoesOn}
use conwatch.Watcher.Refined.{IfRunning}
use conwatch.Watcher.Fate.{fate, fate-child, Met, as_found, fate_of, on_change-Met}

-- The same daemon, but for the layout of its maps and the order of the signals that it sent.
pub record SameView (w v : Watcher) : Type 0 where
  pub cfg : w.cfg ≡ v.cfg
  pub should_exit : w.should_exit ≡ v.should_exit
  pub ifaces : SameMap w.ifaces v.ifaces
  pub by_ifindex : SameMap w.processes.by_ifindex v.processes.by_ifindex
  pub by_pid : SameMap w.processes.ifindex_by_pid v.processes.ifindex_by_pid
  pub terminated : Perm w.processes.terminated v.processes.terminated

abbrev pub View : Type 0
View = Quot SameView

abbrev pub view_of : Watcher → View
view_of w = Quot.mk w

-- The map from pids is determined by the one from indices.
paired-SameMap :
    (m n : ProcessManager)
    → IsPaired m
    → IsPaired n
    → SameMap m.by_ifindex n.by_ifindex
    → SameMap m.ifindex_by_pid n.ifindex_by_pid
paired-SameMap m n v u same p = elim (Option-cases (lookup p m.ifindex_by_pid)) [
  | inr (i, e) ↦
      let (t, at, pid) = v.backward p i e in
      e
      ∙ sym
          (subst (λ q. lookup q n.ifindex_by_pid ≡ some i) pid (u.forward i t (sym (same i) ∙ at)))
  | inl e ↦ elim (Option-cases (lookup p n.ifindex_by_pid)) [
    | inl f ↦ e ∙ sym f
    | inr (i, f) ↦
        let (t, at, pid) = u.backward p i f in
        absurd (ground (arith, e, v.forward i t, same i, at, pid))
  ]
]

swap_told : (x y t : List ℕ) → Perm (y ++ (x ++ t)) (x ++ (y ++ t))
swap_told x y t =
    subst (λ l. Perm l (x ++ (y ++ t))) (append_assoc y x t)
      (subst (Perm ((y ++ x) ++ t)) (append_assoc x y t)
        ((perm-append_right_iff t).1 (perm_append_comm y x)))

abbrev watcher_behind : Outcome → Watcher → Watcher
watcher_behind (running u) w = u
watcher_behind (became x) w = w

module _ (fnmatch : Text → Text → Bool) where
  -- The daemon behind a report whose fork answers the pid p + 1.
  abbrev pub after : ℕ → Text → Bool → ℕ → Watcher → Watcher
  after i name is_up p w = watcher_behind (on_change fnmatch i name is_up (pos (suc p)) w) w

  -- All that is to be known of it.
  pub record Reported (i : ℕ) (name : Text) (is_up : Bool) (p : ℕ) (w u : Watcher) : Type 0 where
    pub inv : Inv fnmatch u
    pub cfg : u.cfg ≡ w.cfg
    pub should_exit : u.should_exit ≡ w.should_exit
    pub ifaces :
        (k : ℕ)
        → lookup k u.ifaces
          ≡ (if i == k then some (record { name = name; was_up = is_up }) else lookup k w.ifaces)
    pub met : Met i w (fate_of fnmatch i w name is_up p) u

  pub after-Reported :
      (i : ℕ) (name : Text) (is_up : Bool) (p : ℕ) (w : Watcher)
      → Inv fnmatch w
      → name ≢ []
      → lookup (suc p) w.processes.ifindex_by_pid ≡ none
      → (on_change fnmatch i name is_up (pos (suc p)) w ≡ running (after i name is_up p w))
        × Reported i name is_up p w (after i name is_up p w)
  after-Reported i name is_up p w v named fresh =
      let o = on_change fnmatch i name is_up (pos (suc p)) w in
      let (u, e, t) =
        went_on (set_iface i name is_up w) o (on_change-GoesOn fnmatch i name is_up p w) in
      let met = on_change-Met fnmatch i w name is_up p in
      let same : u ≡ watcher_behind o w = ap (λ x. watcher_behind x w) (sym e) in
      let r : Reported i name is_up p w u = record {
        inv = on_change-Inv fnmatch i name is_up (pos (suc p)) w u v named fresh e;
        cfg = t.cfg;
        should_exit = t.should_exit;
        ifaces = λ k.
            ap (lookup k) t.ifaces
            ∙ lookup-insert i k (record { name = name; was_up = is_up }) w.ifaces;
        met = subst (λ x. IfRunning x (Met i w (fate_of fnmatch i w name is_up p))) e met;
      } in
      (e ∙ ap running same, subst (Reported i name is_up p w) same r)

  -- A pid that was free is free behind a report that answers another.
  pub free_behind :
      (i : ℕ) (name : Text) (is_up : Bool) (p q : ℕ) (w u : Watcher)
      → Inv fnmatch w
      → Reported i name is_up p w u
      → p ≢ q
      → lookup (suc q) w.processes.ifindex_by_pid ≡ none
      → lookup (suc q) u.processes.ifindex_by_pid ≡ none
  free_behind i name is_up p q w u v r other free =
      untracked_pid (suc q) u.processes r.inv.paired λ k t h same.
        let known : (l : ℕ) → lookup l w.processes.by_ifindex ≡ some t → ⊥ =
          λ l e. ground (arith, v.paired.forward l t e, free, same) in
        elim (Bool-cases (i == k)) [
          | inr elsewhere ↦ known k (ground (arith, r.met.child k, elsewhere, h))
          | inl own ↦
              elim (fate-child (is_eligible fnmatch w.cfg name)
                (record { pid = suc p; iface = name }) (state_or_default (lookup i w.ifaces)) is_up
                (as_found i w) t (ground (arith, r.met.child k, own, h))) [
                  | inl new ↦ other (ground (arith, ap (λ x. x.pid) new, same))
                  | inr old ↦ known i old
                ]
        ]

  -- What becomes of one interface does not depend on a report about another.
  same_fate :
      (i j : ℕ) (name other : Text) (is_up up : Bool) (p q : ℕ) (w u : Watcher)
      → (i == j) ≡ false
      → Reported i name is_up p w u
      → fate_of fnmatch j u other up q ≡ fate_of fnmatch j w other up q
  same_fate i j name other is_up up p q w u apart r =
      let iface : lookup j u.ifaces ≡ lookup j w.ifaces = ground (arith, r.ifaces j, apart) in
      let child : lookup j u.processes.by_ifindex ≡ lookup j w.processes.by_ifindex =
        ground (arith, r.met.child j, apart) in
      let new : TrackedProcess = record { pid = suc q; iface = other } in
      λ k.
        fate (is_eligible fnmatch (r.cfg k) other) new (state_or_default (iface k)) up
          (record { child = child k; told = [] })

  -- Reports of two interfaces commute: in any state that the daemon can reach, where each fork
  -- answers a pid of its own that is not tracked, the second handler returns in both orders, to the
  -- same daemon but for the layout of its maps and the order of the signals that it has sent.
  pub after_comm :
      (cfg : Config) {w : Watcher} (i j : ℕ) (name other : Text) (is_up up : Bool) (p q : ℕ)
      → Reach fnmatch (watching cfg) w
      → i ≢ j
      → p ≢ q
      → name ≢ []
      → other ≢ []
      → lookup (suc p) w.processes.ifindex_by_pid ≡ none
      → lookup (suc q) w.processes.ifindex_by_pid ≡ none
      → let a = after i name is_up p w in
        let b = after j other up q w in
        (on_change fnmatch j other up (pos (suc q)) a ≡ running (after j other up q a))
        × (on_change fnmatch i name is_up (pos (suc p)) b ≡ running (after i name is_up p b))
        × (view_of (after j other up q a) ≡ view_of (after i name is_up p b))
  after_comm cfg {w} i j name other is_up up p q reached apart pids named named' free free' =
      let v = Reach-Inv fnmatch (watching-Inv fnmatch cfg) reached in
      let ij : (i == j) ≡ false = ground (arith, apart) in
      let ji : (j == i) ≡ false = ground (arith, apart) in
      let ra = (after-Reported i name is_up p w v named free).1 in
      let rb = (after-Reported j other up q w v named' free').1 in
      let a = after i name is_up p w in
      let b = after j other up q w in
      let free_a = free_behind i name is_up p q w a v ra pids free' in
      let free_b = free_behind j other up q p w b v rb (λ e. pids (sym e)) free in
      let ab_runs = after-Reported j other up q a ra.inv named' free_a in
      let ba_runs = after-Reported i name is_up p b rb.inv named free_b in
      let rab = ab_runs.1 in
      let rba = ba_runs.1 in
      let ab = after j other up q a in
      let ba = after i name is_up p b in
      let fi = fate_of fnmatch i w name is_up p in
      let fj = fate_of fnmatch j w other up q in
      let mab : Met j a fj ab =
        subst (λ f. Met j a f ab) (same_fate i j name other is_up up p q w a ij ra) rab.met in
      let mba : Met i b fi ba =
        subst (λ f. Met i b f ba) (same_fate j i other name up is_up q p w b ji rb) rba.met in
      let same : SameMap ab.processes.by_ifindex ba.processes.by_ifindex =
        λ k. ground (arith, mab.child k, mba.child k, ra.met.child k, rb.met.child k, apart) in
      let told_ab : ab.processes.terminated ≡ fj.told ++ (fi.told ++ w.processes.terminated) =
        mab.told ∙ ap (λ l. fj.told ++ l) ra.met.told in
      let told_ba : ba.processes.terminated ≡ fi.told ++ (fj.told ++ w.processes.terminated) =
        mba.told ∙ ap (λ l. fi.told ++ l) rb.met.told in
      (
        ab_runs.0,
        ba_runs.0,
        Quot.sound (record {
          cfg = rab.cfg ∙ ra.cfg ∙ sym (rba.cfg ∙ rb.cfg);
          should_exit = rab.should_exit ∙ ra.should_exit ∙ sym (rba.should_exit ∙ rb.should_exit);
          ifaces = λ k. ground (arith, rab.ifaces k, rba.ifaces k, ra.ifaces k, rb.ifaces k, apart);
          by_ifindex = same;
          by_pid = paired-SameMap ab.processes ba.processes rab.inv.paired rba.inv.paired same;
          terminated =
              subst (λ l. Perm l ba.processes.terminated) (sym told_ab)
                (subst (Perm (fj.told ++ (fi.told ++ w.processes.terminated))) (sym told_ba)
                  (swap_told fi.told fj.told w.processes.terminated));
        }),
      )
