-- ===== src/Processes/Layout.antt =====
-- How the hash maps keep their entries makes no difference to the children.
use conwatch.Prelude.{
  ℕ, zero, suc, ◌≡◌, refl, ap, subst, Bool, true, false, Option, none, some, List, [], ◌∷◌, ℤ, pos,
  negsuc, is_some, if◌then◌else◌, arith,
}
use conwatch.Prelude.Map.{Map, nat_key, lookup, insert, erase, lookup-insert, lookup-erase}
use conwatch.Processes.{
  ProcessManager, TrackedProcess, Launch, Started, parent, child, is_running, track, on_fork, start,
  stop_found, stop, clear_found, clear_exited, reap_exited,
}

-- The same answer for every key.
abbrev pub SameMap : {V : Type 0} → Map ℕ V → Map ℕ V → Type 0
SameMap a b = (k : ℕ) → lookup k a ≡ lookup k b

pub insert-SameMap :
    {V : Type 0} (k : ℕ) (v : V) (a b : Map ℕ V)
    → SameMap a b
    → SameMap (insert k v a) (insert k v b)
insert-SameMap k v a b s j = ground (arith, lookup-insert k j v a, lookup-insert k j v b, s j)

pub erase-SameMap :
    {V : Type 0} (k : ℕ) (a b : Map ℕ V) → SameMap a b → SameMap (erase k a) (erase k b)
erase-SameMap k a b s j = ground (arith, lookup-erase k j a, lookup-erase k j b, s j)

pub record SameProcesses (m n : ProcessManager) : Type 0 where
  pub by_ifindex : SameMap m.by_ifindex n.by_ifindex
  pub by_pid : SameMap m.ifindex_by_pid n.ifindex_by_pid
  pub terminated : m.terminated ≡ n.terminated

stop_found-Same :
    (i : ℕ) (t : Option TrackedProcess) (m n : ProcessManager)
    → SameProcesses m n
    → SameProcesses (stop_found i t m) (stop_found i t n)
unfolding stop_found
stop_found-Same i none m n s = s
stop_found-Same i (some t) m n s = record {
  by_ifindex = erase-SameMap i m.by_ifindex n.by_ifindex s.by_ifindex;
  by_pid = erase-SameMap t.pid m.ifindex_by_pid n.ifindex_by_pid s.by_pid;
  terminated = ap (λ ts. t.pid ∷ ts) s.terminated;
}

pub stop-Same :
    (i : ℕ) (m n : ProcessManager) → SameProcesses m n → SameProcesses (stop i m) (stop i n)
unfolding stop
stop-Same i m n s =
    subst (λ t. SameProcesses (stop_found i (lookup i m.by_ifindex) m) (stop_found i t n))
      (s.by_ifindex i) (stop_found-Same i (lookup i m.by_ifindex) m n s)

clear_found-Same :
    (p : ℕ) (i : Option ℕ) (m n : ProcessManager)
    → SameProcesses m n
    → SameProcesses (clear_found p i m) (clear_found p i n)
unfolding clear_found
clear_found-Same p none m n s = s
clear_found-Same p (some i) m n s = record {
  by_ifindex = erase-SameMap i m.by_ifindex n.by_ifindex s.by_ifindex;
  by_pid = erase-SameMap p m.ifindex_by_pid n.ifindex_by_pid s.by_pid;
  terminated = s.terminated;
}

pub reap_exited-Same :
    (waits : List ℤ) (m n : ProcessManager)
    → SameProcesses m n
    → SameProcesses (reap_exited waits m) (reap_exited waits n)
unfolding reap_exited clear_exited
reap_exited-Same [] m n s = s
reap_exited-Same (negsuc k ∷ waits) m n s = s
reap_exited-Same (pos zero ∷ waits) m n s = s
reap_exited-Same (pos (suc p) ∷ waits) m n s =
    let i = lookup (suc p) m.ifindex_by_pid in
    reap_exited-Same waits (clear_exited (suc p) m) (clear_exited (suc p) n) (
      subst (λ j. SameProcesses (clear_found (suc p) i m) (clear_found (suc p) j n))
        (s.by_pid (suc p)) (clear_found-Same (suc p) i m n s))

abbrev pub SameStarted : Started → Started → Type 0
SameStarted (parent m) (parent n) = SameProcesses m n
SameStarted (child x) (child y) = x ≡ y
SameStarted (parent m) (child y) = ⊥
SameStarted (child x) (parent n) = ⊥

on_fork-Same :
    (i : ℕ) (l : Launch) (r : ℤ) (m n : ProcessManager)
    → SameProcesses m n
    → SameStarted (on_fork i l r m) (on_fork i l r n)
unfolding on_fork track
on_fork-Same i l (negsuc k) m n s = s
on_fork-Same i l (pos zero) m n s = refl
on_fork-Same i l (pos (suc p)) m n s = record {
  by_ifindex = insert-SameMap i _ m.by_ifindex n.by_ifindex s.by_ifindex;
  by_pid = insert-SameMap (suc p) i m.ifindex_by_pid n.ifindex_by_pid s.by_pid;
  terminated = s.terminated;
}

either_Started :
    (b : Bool) (x x' y y' : Started)
    → SameStarted x x'
    → SameStarted y y'
    → SameStarted (if b then x else y) (if b then x' else y')
either_Started true x x' y y' s t = s
either_Started false x x' y y' s t = t

pub start-Same :
    (i : ℕ) (l : Launch) (r : ℤ) (m n : ProcessManager)
    → SameProcesses m n
    → SameStarted (start i l r m) (start i l r n)
unfolding start is_running
start-Same i l r m n s =
    subst (λ t. SameStarted (start i l r m) (if is_some t then parent n else on_fork i l r n))
      (s.by_ifindex i)
      (either_Started (is_some (lookup i m.by_ifindex)) (parent m) (parent n) (on_fork i l r m)
        (on_fork i l r n) s (on_fork-Same i l r m n s))
