-- ===== src/Processes/Table.antt =====
-- The two maps as one table: what the process manager promises, and that it keeps it.
use conwatch.Prelude.{
  ℕ, zero, suc, ◌≡◌, ◌≢◌, refl, sym, ap, ◌∙◌, subst, Option, none, some, List, [], ◌∷◌, ◌++◌, ℤ,
  pos, negsuc, ◌==◌, if◌then◌else◌, is_some, Bool-cases, Option-cases, inl, inr, ◌↔◌,
}
use mathlib.Core.Path.{fun_ext}
use conwatch.Prelude.Map.{nat_key, lookup}
use conwatch.Processes.{
  ProcessManager, TrackedProcess, Launch, Started, parent, child, empty, is_running, track, start,
  stop, reap_exited, clear_exited, clear_found,
}
use conwatch.Processes.Pairing.{
  IsPaired, empty-IsPaired, start-IsPaired, stop-IsPaired, reap_exited-IsPaired,
}
use conwatch.Processes.Behaviour.{
  track-Spawned, signalled, stop_lem, reaped, surviving, reap_exited_lem,
}

-- Which child stands for an index, and whom SIGTERM was sent, the latest first.
pub record Table : Type 0 where
  pub child_of : ℕ → Option TrackedProcess
  pub told : List ℕ

abbrev pub view : ProcessManager → Table
view m = record { child_of = λ i. lookup i m.by_ifindex; told = m.terminated }

-- A call in the parent, with the answers of the kernel: a fork that gives the pid p + 1, one that
-- fails, a stop, and a reaping with the answers of waitpid.
pub data Operation : Type 0 where
  launched : ℕ → Launch → ℕ → Operation
  not_launched : ℕ → Launch → ℕ → Operation
  stopped : ℕ → Operation
  reaping : List ℤ → Operation

abbrev pub in_parent : ProcessManager → Started → ProcessManager
in_parent m (parent n) = n
in_parent m (child x) = m

abbrev pub operate : Operation → ProcessManager → ProcessManager
operate (launched i l p) m = in_parent m (start i l (pos (suc p)) m)
operate (not_launched i l k) m = in_parent m (start i l (negsuc k) m)
operate (stopped i) m = stop i m
operate (reaping waits) m = reap_exited waits m

-- The same on the table alone.
abbrev pub promise : Operation → Table → Table
promise (launched i l p) s = if is_some (s.child_of i) then s else record s {
  child_of = λ j. if i == j then some (record { pid = suc p; iface = l.iface }) else s.child_of j;
}
promise (not_launched i l k) s = s
promise (stopped i) s = record {
  child_of = λ j. if i == j then none else s.child_of j;
  told = signalled (s.child_of i) ++ s.told;
}
promise (reaping waits) s = record s { child_of = λ i. surviving (reaped waits) (s.child_of i) }

abbrev pub operate_all : List Operation → ProcessManager → ProcessManager
operate_all [] m = m
operate_all (o ∷ os) m = operate_all os (operate o m)

abbrev pub promise_all : List Operation → Table → Table
promise_all [] s = s
promise_all (o ∷ os) s = promise_all os (promise o s)

-- A fork gives no child the pid of another in the table.
abbrev pub NewPid : Operation → Table → Type 0
NewPid (launched i l p) s = (j : ℕ) (t : TrackedProcess) → s.child_of j ≡ some t → t.pid ≢ suc p
NewPid _ s = Unit {0}

abbrev pub NewPids : List Operation → Table → Type 0
NewPids [] s = Unit {0}
NewPids (o ∷ os) s = NewPid o s × NewPids os (promise o s)

same_table : (s t : Table) → ((i : ℕ) → s.child_of i ≡ t.child_of i) → s.told ≡ t.told → s ≡ t
same_table s t h e = λ k. record { child_of = fun_ext h k; told = e k }

pub untracked_pid :
    (p : ℕ) (m : ProcessManager)
    → IsPaired m
    → ((j : ℕ) (t : TrackedProcess) → lookup j m.by_ifindex ≡ some t → t.pid ≢ p)
    → lookup p m.ifindex_by_pid ≡ none
untracked_pid p m v new = elim (Option-cases (lookup p m.ifindex_by_pid)) [
  | inl e ↦ e
  | inr (i, e) ↦ let (t, at, same) = v.backward p i e in absurd (new i t at same)
]

clear_exited-told : (p : ℕ) (m : ProcessManager) → (clear_exited p m).terminated ≡ m.terminated
unfolding clear_exited
clear_exited-told p m = elim (Option-cases (lookup p m.ifindex_by_pid)) [
  | inl e ↦ rw (e, clear_found) refl
  | inr (i, e) ↦ rw (e, clear_found) refl
]

reap_exited-told :
    (waits : List ℤ) (m : ProcessManager) → (reap_exited waits m).terminated ≡ m.terminated
unfolding reap_exited
reap_exited-told [] m = refl
reap_exited-told (negsuc n ∷ waits) m = refl
reap_exited-told (pos zero ∷ waits) m = refl
reap_exited-told (pos (suc p) ∷ waits) m =
    reap_exited-told waits (clear_exited (suc p) m) ∙ clear_exited-told (suc p) m

launched-view :
    (i : ℕ) (l : Launch) (p : ℕ) (m : ProcessManager)
    → IsPaired m
    → NewPid (launched i l p) (view m)
    → (view (operate (launched i l p) m) ≡ promise (launched i l p) (view m))
      × IsPaired (operate (launched i l p) m)
unfolding start is_running
launched-view i l p m v new = elim (Option-cases (lookup i m.by_ifindex)) [
  | inr (t, busy) ↦ rw busy (refl, v)
  | inl idle ↦
      let child : TrackedProcess = record { pid = suc p; iface = l.iface } in
      let n = track i (suc p) l.iface m in
      let s = track-Spawned i child m in
      let v' = start-IsPaired i l p m n v (untracked_pid (suc p) m v new) (rw idle refl) in
      rw idle (
        same_table (view n)
            (record (view m) {
              child_of = λ j. if i == j then some child else lookup j m.by_ifindex;
            })
            s.by_ifindex s.no_signal,
        v',
      )
]

not_launched-view :
    (i : ℕ) (l : Launch) (k : ℕ) (m : ProcessManager) → operate (not_launched i l k) m ≡ m
unfolding start
not_launched-view i l k m = elim (Bool-cases (is_running i m)) [
  | inl busy ↦ rw busy refl
  | inr idle ↦ rw idle refl
]

-- One call keeps the promise.
operate-view :
    (o : Operation) (m : ProcessManager)
    → IsPaired m
    → NewPid o (view m)
    → (view (operate o m) ≡ promise o (view m)) × IsPaired (operate o m)
operate-view (launched i l p) m v new = launched-view i l p m v new
operate-view (not_launched i l k) m v new =
    let e = not_launched-view i l k m in (ap view e, subst IsPaired (sym e) v)
operate-view (stopped i) m v new =
    let e = stop_lem i m in
    (same_table (view (stop i m)) (promise (stopped i) (view m)) e.0 e.1, stop-IsPaired i m v)
operate-view (reaping waits) m v new = (
  same_table (view (reap_exited waits m)) (promise (reaping waits) (view m))
      (λ i. reap_exited_lem waits i m v) (reap_exited-told waits m),
  reap_exited-IsPaired waits m v,
)

all-view :
    (os : List Operation) (m : ProcessManager)
    → IsPaired m
    → NewPids os (view m)
    → (view (operate_all os m) ≡ promise_all os (view m)) × IsPaired (operate_all os m)
all-view [] m v new = (refl, v)
all-view (o ∷ os) m v (new, later) =
    let (e, v') = operate-view o m v new in
    let (e', v'') = all-view os (operate o m) v' (subst (NewPids os) (sym e) later) in
    (e' ∙ ap (promise_all os) e, v'')

-- The process manager is one table from indices to children, kept as two maps: after any calls of
-- start, stop and reapExited in the parent, where a fork gives no child the pid of another in the
-- table, it tracks the children and has sent the signals that the table has after the same calls,
-- and a pid is mapped to an index exactly if it is that of the index's child.
pub operate_all-view :
    (os : List Operation)
    → NewPids os (view empty)
    → (view (operate_all os empty) ≡ promise_all os (view empty))
      × ((p i : ℕ)
          → (lookup p (operate_all os empty).ifindex_by_pid ≡ some i) ↔ (
              (t : TrackedProcess) × ((promise_all os (view empty)).child_of i ≡ some t)
              × (t.pid ≡ p)))
operate_all-view os new =
    let (e, v) = all-view os empty empty-IsPaired new in
    let at : (i : ℕ)
        → (promise_all os (view empty)).child_of i ≡ lookup i (operate_all os empty).by_ifindex =
      λ i. ap (λ (s : Table). s.child_of i) (sym e) in
    (
      e,
      λ p i. (
        λ h. let (t, here, same) = v.backward p i h in (t, at i ∙ here, same),
        λ h.
            subst (λ q. lookup q (operate_all os empty).ifindex_by_pid ≡ some i) h.2
              (v.forward i h.0 (sym (at i) ∙ h.1)),
      ),
    )
