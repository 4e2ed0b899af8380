-- ===== src/Watcher/Revived.antt =====
-- A link that goes down and comes up again.
use conwatch.Prelude.{
  ℕ, suc, ◌≡◌, ◌≢◌, refl, Bool, true, false, none, some, [], Text, pos, if◌then◌else◌, arith,
  Bool-cases, Option-cases, inl, inr,
}
use conwatch.Prelude.Map.{nat_key, lookup}
use conwatch.Config.{Config}
use conwatch.Config.Eligible.{is_eligible}
use conwatch.Watcher.{Watcher, IfaceState, watching, running, on_change}
use conwatch.Watcher.Invariant.{Inv, watching-Inv}
use conwatch.Watcher.Changes.{idle_of_unknown, idle_of_down}
use conwatch.Watcher.Reach.{Reach, Reach-Inv}
use conwatch.Watcher.Fate.{fate_of}
use conwatch.Watcher.Commute.{after, after-Reported, free_behind}

module _ (fnmatch : Text → Text → Bool) where
  -- Behind a report that says down there is no tray.
  down_idle :
      (i : ℕ) (name : Text) (p : ℕ) (w : Watcher)
      → Inv fnmatch w
      → (fate_of fnmatch i w name false p).child ≡ none
  down_idle i name p w v = elim (Option-cases (lookup i w.ifaces)) [
    | inl e ↦ ground (arith, e, idle_of_unknown fnmatch i w v e)
    | inr (st, e) ↦ elim (Bool-cases st.was_up) [
      | inl up ↦ ground (arith, e, up)
      | inr down ↦ ground (arith, e, down, idle_of_down fnmatch i st w v e down)
    ]
  ]

  -- A report that says up, of an interface last seen down and without a tray, starts the tray if the
  -- configuration wants it.
  up_idle :
      (i : ℕ) (name : Text) (q : ℕ) (w : Watcher) (st : IfaceState)
      → lookup i w.ifaces ≡ some st
      → st.was_up ≡ false
      → lookup i w.processes.by_ifindex ≡ none
      → (fate_of fnmatch i w name true q).child ≡ (
          if is_eligible fnmatch w.cfg name
          then some (record { pid = suc q; iface = name })
          else none)
  up_idle i name q w st known down idle = ground (arith, known, down, idle)

  -- A link that goes down and comes up again has its tray, whatever happened before: in any state
  -- that the daemon can reach, also after its tray has died, when i is reported down and then up
  -- under names that are not empty, and each fork answers a pid of its own that is not tracked, both
  -- handlers return; and the child of i is then the one forked last, under the name it came up with,
  -- if the configuration wants that name, and there is none otherwise.
  pub revived :
      (cfg : Config) {w : Watcher} (i : ℕ) (name last : Text) (p q : ℕ)
      → Reach fnmatch (watching cfg) w
      → name ≢ []
      → last ≢ []
      → p ≢ q
      → lookup (suc p) w.processes.ifindex_by_pid ≡ none
      → lookup (suc q) w.processes.ifindex_by_pid ≡ none
      → let a = after fnmatch i name false p w in
        let u = after fnmatch i last true q a in
        (on_change fnmatch i name false (pos (suc p)) w ≡ running a)
        × (on_change fnmatch i last true (pos (suc q)) a ≡ running u)
        × (lookup i u.processes.by_ifindex ≡ (
            if is_eligible fnmatch w.cfg last
            then some (record { pid = suc q; iface = last })
            else none))
  revived cfg {w} i name last p q reached named named' pids free free' =
      let v = Reach-Inv fnmatch (watching-Inv fnmatch cfg) reached in
      let down = after-Reported fnmatch i name false p w v named free in
      let a = after fnmatch i name false p w in
      let rd = down.1 in
      let up =
        after-Reported fnmatch i last true q a rd.inv named'
          (free_behind fnmatch i name false p q w a v rd pids free') in
      let seen : lookup i a.ifaces ≡ some (record { name = name; was_up = false }) =
        ground (arith, rd.ifaces i) in
      let idle : lookup i a.processes.by_ifindex ≡ none =
        ground (arith, rd.met.child i, down_idle i name p w v) in
      let fate = up_idle i last q a (record { name = name; was_up = false }) seen refl idle in
      (down.0, up.0, ground (arith, up.1.met.child i, fate, rd.cfg))
