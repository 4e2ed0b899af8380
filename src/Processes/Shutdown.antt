-- ===== src/Processes/Shutdown.antt =====
-- stopAll: every tracked child is signalled, and the bounded wait reaps what exits.
use conwatch.Prelude.{
  ℕ, zero, suc, ◌≡◌, refl, sym, ◌∙◌, true, none, some, List, [], ◌∷◌, ◌++◌, ℤ, pos, negsuc, arith,
  ◌==◌, any, any-append, map, take, Option-cases, Bool-cases, inl, inr, is_empty,
}
use conwatch.Prelude.Map.{nat_key, lookup}
use conwatch.Processes.{
  ProcessManager, TrackedProcess, pids, clear_exited, reap_exited, wait_all, terminate_all,
  stop_all, max_waits,
}
use conwatch.Processes.Pairing.{IsPaired, clear_exited-IsPaired}
use conwatch.Processes.Behaviour.{reaped, surviving, reap_exited_lem}

lookup_empty : (p : ℕ) (m : List (ℕ × ℕ)) → is_empty m ≡ true → lookup p m ≡ none
unfolding lookup
lookup_empty p [] e = refl
lookup_empty p (x ∷ m) e = cc

-- With no pid left, no index is tracked, so there is nothing that an exit could clear.
none_left :
    (m : ProcessManager) (i : ℕ)
    → IsPaired m
    → is_empty m.ifindex_by_pid ≡ true
    → lookup i m.by_ifindex ≡ none
none_left m i v e = elim (Option-cases (lookup i m.by_ifindex)) [
  | inl f ↦ f
  | inr (t, f) ↦ cc (v.forward i t f, lookup_empty t.pid m.ifindex_by_pid e)
]

reap_none :
    (ws : List ℤ) (m : ProcessManager) (i : ℕ)
    → IsPaired m
    → lookup i m.by_ifindex ≡ none
    → lookup i (reap_exited ws m).by_ifindex ≡ none
reap_none ws m i v e = rw (reap_exited_lem ws i m v, e)

-- The bounded wait reaps as `reapExited` would on the answers within the bound.
pub wait_all-reap_exited :
    (n : ℕ) (ws : List ℤ) (i : ℕ) (m : ProcessManager)
    → IsPaired m
    → lookup i (wait_all n ws m).by_ifindex ≡ lookup i (reap_exited (take n ws) m).by_ifindex
unfolding wait_all reap_exited
wait_all-reap_exited zero ws i m v = refl
wait_all-reap_exited (suc n) [] i m v = refl
wait_all-reap_exited (suc n) (negsuc k ∷ ws) i m v = refl
wait_all-reap_exited (suc n) (pos zero ∷ ws) i m v = refl
wait_all-reap_exited (suc n) (pos (suc p) ∷ ws) i m v =
    elim (Bool-cases (is_empty m.ifindex_by_pid)) [
      | inl done ↦
          let gone = none_left m i v done in
          rw done (gone ∙ sym (reap_none (pos (suc p) ∷ take n ws) m i v gone))
      | inr more ↦
          rw more (
            wait_all-reap_exited n ws i (clear_exited (suc p) m)
              (clear_exited-IsPaired (suc p) m v))
    ]

wait_all-terminated :
    (n : ℕ) (ws : List ℤ) (m : ProcessManager) → (wait_all n ws m).terminated ≡ m.terminated
unfolding wait_all clear_exited
wait_all-terminated zero ws m = refl
wait_all-terminated (suc n) [] m = refl
wait_all-terminated (suc n) (negsuc k ∷ ws) m = refl
wait_all-terminated (suc n) (pos zero ∷ ws) m = refl
wait_all-terminated (suc n) (pos (suc p) ∷ ws) m =
    ground (arith, wait_all-terminated n ws (clear_exited (suc p) m))

lookup-any :
    (p i : ℕ) (m : List (ℕ × ℕ)) → lookup p m ≡ some i → any (λ q. q == p) (map (λ e. e.0) m) ≡ true
unfolding lookup
lookup-any p i [] h = cc
lookup-any p i ((q, j) ∷ m) h = ground (arith, lookup-any p i m)

-- `stopAll` sends SIGTERM to every tracked child, to no other process, and to each pid once per
-- entry of the pid map; what was signalled before stays on the record.
pub stop_all-terminated :
    (ws : List ℤ) (m : ProcessManager) → (stop_all ws m).terminated ≡ pids m ++ m.terminated
unfolding stop_all
stop_all-terminated ws m = wait_all-terminated max_waits ws (terminate_all m)

pub tracked_signalled :
    (i : ℕ) (t : TrackedProcess) (m : ProcessManager)
    → IsPaired m
    → lookup i m.by_ifindex ≡ some t
    → any (λ q. q == t.pid) (pids m) ≡ true
tracked_signalled i t m v h = lookup-any t.pid i m.ifindex_by_pid (v.forward i t h)

terminate_all-IsPaired : (m : ProcessManager) → IsPaired m → IsPaired (terminate_all m)
unfolding terminate_all
terminate_all-IsPaired m v = record { forward = v.forward; backward = v.backward }

stop_all-by_ifindex :
    (ws : List ℤ) (i : ℕ) (m : ProcessManager)
    → IsPaired m
    → lookup i (stop_all ws m).by_ifindex
      ≡ surviving (reaped (take max_waits ws)) (lookup i m.by_ifindex)
unfolding stop_all
stop_all-by_ifindex ws i m v =
    let w = terminate_all-IsPaired m v in
    wait_all-reap_exited max_waits ws i (terminate_all m) w
    ∙ reap_exited_lem (take max_waits ws) i (terminate_all m) w

-- At shutdown every tracked child is sent SIGTERM, and it is dropped from the table exactly if its
-- pid is among the first 200 answers of waitpid, before the first that reports no child.
pub stop_all_lem :
    (ws : List ℤ) (i : ℕ) (t : TrackedProcess) (m : ProcessManager)
    → IsPaired m
    → lookup i m.by_ifindex ≡ some t
    → (any (λ q. q == t.pid) (stop_all ws m).terminated ≡ true)
      × (lookup i (stop_all ws m).by_ifindex ≡ surviving (reaped (take max_waits ws)) (some t))
stop_all_lem ws i t m v h = (
  rw (stop_all-terminated ws m) (any-append _ (pids m) m.terminated (tracked_signalled i t m v h)),
  rw (stop_all-by_ifindex ws i m v, h),
)
