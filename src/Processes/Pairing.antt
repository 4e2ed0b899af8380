-- ===== src/Processes/Pairing.antt =====
-- The two maps of the process manager are inverse to one another.
use conwatch.Prelude.{
  ℕ, zero, suc, ◌≡◌, subst, none, some, List, [], ◌∷◌, ℤ, pos, negsuc, arith, ◌==◌, Option-cases,
  Bool-cases, inl, inr,
}
use conwatch.Prelude.Map.{nat_key, lookup, erase, lookup-insert, lookup-erase}
use conwatch.Processes.{
  ProcessManager, TrackedProcess, Launch, parent, empty, track, start, stop_found, stop,
  clear_found, clear_exited, reap_exited,
}

pub record IsPaired (m : ProcessManager) : Type 0 where
  pub forward :
      (i : ℕ) (t : TrackedProcess)
      → lookup i m.by_ifindex ≡ some t
      → lookup t.pid m.ifindex_by_pid ≡ some i
  pub backward :
      (p i : ℕ)
      → lookup p m.ifindex_by_pid ≡ some i
      → (t : TrackedProcess) × (lookup i m.by_ifindex ≡ some t) × (t.pid ≡ p)

pub empty-IsPaired : IsPaired empty
unfolding lookup
empty-IsPaired = record { forward = λ i t h. cc; backward = λ p i h. cc }

-- A pid that is not yet tracked may be tracked under an index that is not.
pub track-IsPaired :
    (i : ℕ) (new : TrackedProcess) (m : ProcessManager)
    → IsPaired m
    → lookup i m.by_ifindex ≡ none
    → lookup new.pid m.ifindex_by_pid ≡ none
    → IsPaired (track i new.pid new.iface m)
unfolding track
track-IsPaired i new m v fresh_i fresh_p = record {
  forward = λ j t h. ground (
    arith,
    v.forward j t,
    lookup-insert i j new m.by_ifindex,
    lookup-insert new.pid t.pid i m.ifindex_by_pid,
  );
  backward = λ q j h. elim (Bool-cases (new.pid == q)) [
    | inl same ↦ (
      new,
      ground
          (arith, lookup-insert new.pid q i m.ifindex_by_pid, lookup-insert i j new m.by_ifindex),
      ground arith,
    )
    | inr other ↦
        let (t, found, pid) =
          v.backward q j (ground (arith, lookup-insert new.pid q i m.ifindex_by_pid)) in
        (t, ground (arith, lookup-insert i j new m.by_ifindex), pid)
  ];
}

-- Both maps drop a pair together.
pub drop-IsPaired :
    (i : ℕ) (old : TrackedProcess) (m : ProcessManager)
    → IsPaired m
    → lookup i m.by_ifindex ≡ some old
    → IsPaired (record m {
      by_ifindex = erase i m.by_ifindex;
      ifindex_by_pid = erase old.pid m.ifindex_by_pid;
    })
drop-IsPaired i old m v found = record {
  forward = λ j t h. ground (
    arith,
    v.forward j t,
    v.forward i old,
    lookup-erase i j m.by_ifindex,
    lookup-erase old.pid t.pid m.ifindex_by_pid,
  );
  backward = λ q j h.
      let (t, at, pid) = v.backward q j (ground (arith, lookup-erase old.pid q m.ifindex_by_pid)) in
      (
        t,
        ground (arith, lookup-erase i j m.by_ifindex, lookup-erase old.pid q m.ifindex_by_pid),
        pid,
      );
}

-- `start` keeps the two maps inverse to each other, if fork answers a pid that no tracked child has.
pub start-IsPaired :
    (i : ℕ) (l : Launch) (p : ℕ) (m n : ProcessManager)
    → IsPaired m
    → lookup (suc p) m.ifindex_by_pid ≡ none
    → start i l (pos (suc p)) m ≡ parent n
    → IsPaired n
unfolding start
start-IsPaired i l p m n v fresh e = elim (Option-cases (lookup i m.by_ifindex)) [
  | inl idle ↦
      subst IsPaired (ground arith)
        (track-IsPaired i (record { pid = suc p; iface = l.iface }) m v idle fresh)
  | inr (t, busy) ↦ subst IsPaired (ground arith) v
]

-- `stop` keeps the two maps inverse to each other.
pub stop-IsPaired : (i : ℕ) (m : ProcessManager) → IsPaired m → IsPaired (stop i m)
stop-IsPaired i m v = elim (Option-cases (lookup i m.by_ifindex)) [
  | inl e ↦ unfold stop in rw (e, stop_found) v
  | inr (t, e) ↦
      unfold stop in
      rw (e, stop_found)
        (let w = drop-IsPaired i t m v e in record { forward = w.forward; backward = w.backward })
]

pub clear_exited-IsPaired : (p : ℕ) (m : ProcessManager) → IsPaired m → IsPaired (clear_exited p m)
clear_exited-IsPaired p m v = elim (Option-cases (lookup p m.ifindex_by_pid)) [
  | inl e ↦ unfold clear_exited in rw (e, clear_found) v
  | inr (i, e) ↦
      let (t, at, pid) = v.backward p i e in
      unfold clear_exited in rw (e, clear_found) (rw (← pid) (drop-IsPaired i t m v at))
]

pub reap_exited-IsPaired :
    (ws : List ℤ) (m : ProcessManager) → IsPaired m → IsPaired (reap_exited ws m)
unfolding reap_exited
reap_exited-IsPaired [] m v = v
reap_exited-IsPaired (negsuc n ∷ ws) m v = v
reap_exited-IsPaired (pos zero ∷ ws) m v = v
reap_exited-IsPaired (pos (suc p) ∷ ws) m v =
    reap_exited-IsPaired ws _ (clear_exited-IsPaired (suc p) m v)
