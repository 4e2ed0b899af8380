-- ===== src/Watcher/Fate.antt =====
-- What a report makes of the child of its own interface; the other children stay.
use conwatch.Prelude.{
  ℕ, suc, ◌≡◌, refl, sym, ap, ◌∙◌, Bool, true, false, not, ◌&&◌, ◌==◌, Option, none, some, List, [],
  ◌++◌, ◌⊎◌, Text, text_eq, is_empty, is_some, pos, if◌then◌else◌, arith, Bool-cases, Option-cases,
  inl, inr,
}
use mathlib.Core.List.{append_assoc}
use conwatch.Prelude.Map.{nat_key, lookup}
use conwatch.Config.Eligible.{is_eligible}
use conwatch.Processes.{TrackedProcess, is_running, start}
use conwatch.Processes.Behaviour.{track-Spawned, signalled, stop_lem}
use conwatch.Watcher.{
  Watcher, IfaceState, Outcome, running, on_change, change_from, start_if_eligible, set_iface,
  stop_process, state_or_default, same_bool,
}
use conwatch.Watcher.Refined.{IfRunning}

-- The child of the interface, and the pids that were sent SIGTERM on the way, the latest first.
pub record Fate : Type 0 where
  pub child : Option TrackedProcess
  pub told : List ℕ

abbrev pub begun : Bool → TrackedProcess → Fate → Fate
begun eligible new f =
    if eligible then (if is_some f.child then f else record f { child = some new }) else f

abbrev pub ended : Fate → Fate
ended f = record { child = none; told = signalled f.child ++ f.told }

abbrev pub fate : Bool → TrackedProcess → IfaceState → Bool → Fate → Fate
fate eligible new st is_up f =
    let renamed = not (is_empty st.name) && not (text_eq st.name new.iface) in
    if renamed && st.was_up
    then (if is_up then begun eligible new (ended f) else ended f)
    else (if same_bool is_up st.was_up
        then f
        else (if is_up then begun eligible new f else ended f))

pub fate-child :
    (eligible : Bool) (new : TrackedProcess) (st : IfaceState) (is_up : Bool) (f : Fate)
    (t : TrackedProcess)
    → (fate eligible new st is_up f).child ≡ some t
    → (t ≡ new) ⊎ (f.child ≡ some t)
fate-child eligible new st is_up f t h = ground arith

-- From w to u the child of i met its fate, and no other child anything.
pub record Met (i : ℕ) (w : Watcher) (f : Fate) (u : Watcher) : Type 0 where
  pub child :
      (k : ℕ)
      → lookup k u.processes.by_ifindex
        ≡ (if i == k then f.child else lookup k w.processes.by_ifindex)
  pub told : u.processes.terminated ≡ f.told ++ w.processes.terminated

abbrev pub as_found : ℕ → Watcher → Fate
as_found i w = record { child = lookup i w.processes.by_ifindex; told = [] }

module _ (i : ℕ) (w : Watcher) where
  as_found-Met : (name : Text) (is_up : Bool) → Met i w (as_found i w) (set_iface i name is_up w)
  as_found-Met name is_up = record { child = λ k. ground arith; told = refl }

  own_child : (f : Fate) (u : Watcher) → Met i w f u → lookup i u.processes.by_ifindex ≡ f.child
  own_child f u m = ground (arith, m.child i)

  ended-Met : (f : Fate) (u : Watcher) → Met i w f u → Met i w (ended f) (stop_process i u)
  ended-Met f u m =
      let s = stop_lem i u.processes in
      record {
        child = λ k. ground (arith, s.0 k, m.child k);
        told =
            s.1
            ∙ ap (λ c. signalled c ++ u.processes.terminated) (own_child f u m)
            ∙ ap (λ l. signalled f.child ++ l) m.told
            ∙ sym (append_assoc (signalled f.child) f.told w.processes.terminated);
      }

  either_Met :
      (b : Bool) (x y : Outcome) (f g : Fate)
      → IfRunning x (Met i w f)
      → IfRunning y (Met i w g)
      → IfRunning (if b then x else y) (Met i w (if b then f else g))
  either_Met true x y f g p q = p
  either_Met false x y f g p q = q

module _ (fnmatch : Text → Text → Bool) (i : ℕ) (w : Watcher) where
  begun-Met :
      (name : Text) (p : ℕ) (f : Fate) (u : Watcher)
      → Met i w f u
      → IfRunning (start_if_eligible fnmatch i name (pos (suc p)) u) (
          Met i w (begun (is_eligible fnmatch u.cfg name) (record { pid = suc p; iface = name }) f))
  unfolding start_if_eligible start is_running
  begun-Met name p f u m =
      let new : TrackedProcess = record { pid = suc p; iface = name } in
      let own = own_child i w f u m in
      elim (Bool-cases (is_eligible fnmatch u.cfg name)) [
        | inr unwanted ↦ rw unwanted (record { child = m.child; told = m.told })
        | inl eligible ↦ elim (Option-cases (lookup i u.processes.by_ifindex)) [
          | inr (t, busy) ↦
              rw (eligible, busy, sym own ∙ busy)
                (record { child = λ k. ground (arith, m.child k, own, busy); told = m.told })
          | inl idle ↦
              let s = track-Spawned i new u.processes in
              rw (eligible, idle, sym own ∙ idle)
                (record { child = λ k. ground (arith, s.by_ifindex k, m.child k); told = m.told })
        ]
      ]

  -- The fate of the child of i at a report whose fork answers the pid p + 1.
  abbrev pub fate_of : Text → Bool → ℕ → Fate
  fate_of name is_up p =
      fate (is_eligible fnmatch w.cfg name) (record { pid = suc p; iface = name })
        (state_or_default (lookup i w.ifaces)) is_up (as_found i w)

  pub on_change-Met :
      (name : Text) (is_up : Bool) (p : ℕ)
      → IfRunning (on_change fnmatch i name is_up (pos (suc p)) w) (Met i w (fate_of name is_up p))
  unfolding on_change change_from
  on_change-Met name is_up p =
      let st = state_or_default (lookup i w.ifaces) in
      let new : TrackedProcess = record { pid = suc p; iface = name } in
      let eligible = is_eligible fnmatch w.cfg name in
      let f0 = as_found i w in
      let w1 = set_iface i name is_up w in
      let w2 = stop_process i w1 in
      let begin = start_if_eligible fnmatch i name (pos (suc p)) in
      let m1 = as_found-Met i w name is_up in
      let m2 = ended-Met i w f0 w1 m1 in
      let renamed = not (is_empty st.name) && not (text_eq st.name name) in
      let either = either_Met i w in
      either (renamed && st.was_up) (if is_up then begin w2 else running w2)
        (if same_bool is_up st.was_up then running w1 else (if is_up then begin w1 else running w2))
        (if is_up then begun eligible new (ended f0) else ended f0)
        (if same_bool is_up st.was_up
          then f0
          else (if is_up then begun eligible new f0 else ended f0))
        (either is_up (begin w2) (running w2) (begun eligible new (ended f0)) (ended f0)
          (begun-Met name p (ended f0) w2 m2) m2)
        (either (same_bool is_up st.was_up) (running w1) (if is_up then begin w1 else running w2) f0
          (if is_up then begun eligible new f0 else ended f0) m1
          (either is_up (begin w1) (running w2) (begun eligible new f0) (ended f0)
            (begun-Met name p f0 w1 m1) m2))
