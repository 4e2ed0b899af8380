-- ===== src/Processes/Behaviour.antt =====
-- Start, stop and reapExited, seen through the lookups of both maps.
use conwatch.Prelude.{
  ℕ, zero, suc, ◌≡◌, refl, true, false, none, some, List, [], ◌∷◌, ◌++◌, ℤ, pos, negsuc, arith,
  ◌==◌, any, Option-cases, Bool-cases, subst, ◌⊎◌, ◌↔◌, inl, inr, Option, if◌then◌else◌,
}
use conwatch.Prelude.Map.{nat_key, lookup, lookup-insert, lookup-erase}
use conwatch.Processes.{
  ProcessManager, TrackedProcess, Launch, Exec, parent, child, is_running, track, tray_exec, start,
  stop_found, stop, clear_found, clear_exited, reap_exited,
}
use conwatch.Processes.Pairing.{IsPaired, clear_exited-IsPaired}

-- The contract of `start` on a fork that answers a pid: the new child is tracked in both maps,
-- everything else stays, and no signal is sent.
pub record Spawned (i : ℕ) (new : TrackedProcess) (m n : ProcessManager) : Type 0 where
  pub by_ifindex :
      (j : ℕ) → lookup j n.by_ifindex ≡ (if i == j then some new else lookup j m.by_ifindex)
  pub by_pid :
      (q : ℕ)
      → lookup q n.ifindex_by_pid ≡ (if new.pid == q then some i else lookup q m.ifindex_by_pid)
  pub no_signal : n.terminated ≡ m.terminated

pub track-Spawned :
    (i : ℕ) (new : TrackedProcess) (m : ProcessManager)
    → Spawned i new m (track i new.pid new.iface m)
unfolding track
track-Spawned i new m = record {
  by_ifindex = λ j. lookup-insert i j new m.by_ifindex;
  by_pid = λ q. lookup-insert new.pid q i m.ifindex_by_pid;
  no_signal = refl;
}

-- What a `start` that comes back in the parent has done.
abbrev pub StartEffect : ℕ → Launch → ℤ → ProcessManager → ProcessManager → Type 0
StartEffect i l r m n =
    ((n ≡ m) × ((is_running i m ≡ true) ⊎ ((k : ℕ) × (r ≡ negsuc k))))
    ⊎ ((p : ℕ) × (r ≡ pos (suc p))
        × (is_running i m ≡ false)
        × Spawned i (record { pid = suc p; iface = l.iface }) m n)

-- If `start` returns in the parent, then either nothing changed, and the index was running or
-- fork failed; or the index was not running, fork answered a pid, and that child is now tracked
-- for the index in both maps, with every other entry and the signals sent as before.
pub start-parent :
    (i : ℕ) (l : Launch) (r : ℤ) (m n : ProcessManager)
    → start i l r m ≡ parent n
    → StartEffect i l r m n
unfolding start
start-parent i l (negsuc k) m n e = inl (ground arith, inr (k, refl))
start-parent i l (pos zero) m n e = elim (Bool-cases (is_running i m)) [
  | inl busy ↦ inl (ground arith, inl busy)
  | inr idle ↦ absurd (ground arith)
]
start-parent i l (pos (suc p)) m n e = elim (Bool-cases (is_running i m)) [
  | inl busy ↦ inl (ground arith, inl busy)
  | inr idle ↦ inr (
    p,
    refl,
    idle,
    subst (Spawned i _ m) (ground arith)
        (track-Spawned i (record { pid = suc p; iface = l.iface }) m),
  )
]

-- `start` becomes another program exactly in the child of a fork for an index that is not
-- running, and that program is the tray with the six arguments in their order.
pub start-child :
    (i : ℕ) (l : Launch) (r : ℤ) (m : ProcessManager) (x : Exec)
    → (start i l r m ≡ child x) ↔ ((r ≡ pos 0) × (is_running i m ≡ false) × (x ≡ tray_exec l))
unfolding start
start-child i l r m x = (λ e. ground arith, λ e. ground arith)

-- The pids that `stop` signals.
abbrev pub signalled : Option TrackedProcess → List ℕ
signalled none = []
signalled (some t) = t.pid ∷ []

-- After `stop` the index is not tracked and the others are as before; exactly the tracked child
-- of that index, if there is one, was sent SIGTERM.
pub stop_lem :
    (i : ℕ) (m : ProcessManager)
    → ((j : ℕ) → lookup j (stop i m).by_ifindex ≡ (if i == j then none else lookup j m.by_ifindex))
      × ((stop i m).terminated ≡ signalled (lookup i m.by_ifindex) ++ m.terminated)
unfolding stop
stop_lem i m = elim (Option-cases (lookup i m.by_ifindex)) [
  | inl e ↦ rw (e, stop_found) (λ j. ground arith, refl)
  | inr (t, e) ↦ rw (e, stop_found) (λ j. lookup-erase i j m.by_ifindex, refl)
]

-- The pids that a reaping loop sees before waitpid first answers 0 or less.
abbrev pub reaped : List ℤ → List ℕ
reaped [] = []
reaped (negsuc n ∷ ws) = []
reaped (pos zero ∷ ws) = []
reaped (pos (suc p) ∷ ws) = suc p ∷ reaped ws

-- What is left of an entry when some pids have exited.
abbrev pub surviving : List ℕ → Option TrackedProcess → Option TrackedProcess
surviving ps none = none
surviving ps (some t) = if any (λ p. p == t.pid) ps then none else some t

pub clear_exited_lem :
    (p i : ℕ) (m : ProcessManager)
    → IsPaired m
    → lookup i (clear_exited p m).by_ifindex ≡ surviving (p ∷ []) (lookup i m.by_ifindex)
unfolding clear_exited
clear_exited_lem p i m v = elim (Option-cases (lookup p m.ifindex_by_pid)) [
  | inl e ↦
      rw (e, clear_found)
        (elim (Option-cases (lookup i m.by_ifindex)) [
          | inl f ↦ rw f
          | inr (t, f) ↦ ground (arith, v.forward i t)
        ])
  | inr (j, e) ↦
      let (s, at, pid) = v.backward p j e in
      rw (e, clear_found)
        (elim (Option-cases (lookup i m.by_ifindex)) [
          | inl f ↦ ground (arith, lookup-erase j i m.by_ifindex)
          | inr (t, f) ↦ ground (arith, v.forward i t, lookup-erase j i m.by_ifindex)
        ])
]

surviving-surviving :
    (p : ℕ) (ps : List ℕ) (o : Option TrackedProcess)
    → surviving ps (surviving (p ∷ []) o) ≡ surviving (p ∷ ps) o
surviving-surviving p ps none = refl
surviving-surviving p ps (some t) = ground arith

-- Where the two maps agree, `reapExited` drops exactly the tracked children whose pid waitpid reports
-- before it first answers 0 or less; every other child stays tracked under its index.
pub reap_exited_lem :
    (ws : List ℤ) (i : ℕ) (m : ProcessManager)
    → IsPaired m
    → lookup i (reap_exited ws m).by_ifindex ≡ surviving (reaped ws) (lookup i m.by_ifindex)
unfolding reap_exited
reap_exited_lem [] i m v = ground arith
reap_exited_lem (negsuc n ∷ ws) i m v = ground arith
reap_exited_lem (pos zero ∷ ws) i m v = ground arith
reap_exited_lem (pos (suc p) ∷ ws) i m v =
    rw
      (
        reap_exited_lem ws i (clear_exited (suc p) m) (clear_exited-IsPaired (suc p) m v),
        clear_exited_lem (suc p) i m v,
      )
      (surviving-surviving (suc p) (reaped ws) (lookup i m.by_ifindex))
