-- ===== src/Watcher/Noted.antt =====
-- What a handler notes of a report or a removal, and that it goes on where its fork succeeds.
use conwatch.Prelude.{
  ℕ, suc, ◌≡◌, refl, Bool, true, false, ◌==◌, Option, none, some, List, [], ◌∷◌, ◌++◌, Text, pos,
  is_empty, text_eq, not, ◌&&◌, if◌then◌else◌, arith, Bool-cases, Option-cases, inl, inr,
}
use conwatch.Prelude.Map.{nat_key, lookup, lookup-erase}
use conwatch.Processes.{is_running, start}
use conwatch.Netlink.{Call, change, remove}
use conwatch.Watcher.{
  Watcher, IfaceState, Outcome, running, became, on_change, change_from, start_if_eligible,
  on_removed, on_removed_found, set_iface, stop_process, state_or_default, same_bool,
}
use conwatch.Config.Eligible.{is_eligible}

-- What is known of an interface behind some calls, if `old` was known before.
abbrev pub spoken : ℕ → List Call → Option IfaceState → Option IfaceState
spoken i [] old = old
spoken i (change j name is_up ∷ calls) old =
    spoken i calls (if j == i then some (record { name = name; was_up = is_up }) else old)
spoken i (remove j ∷ calls) old = spoken i calls (if j == i then none else old)

pub spoken-append :
    (i : ℕ) (xs ys : List Call) (old : Option IfaceState)
    → spoken i (xs ++ ys) old ≡ spoken i ys (spoken i xs old)
spoken-append i [] ys old = refl
spoken-append i (change j name is_up ∷ xs) ys old =
    spoken-append i xs ys (if j == i then some (record { name = name; was_up = is_up }) else old)
spoken-append i (remove j ∷ xs) ys old = spoken-append i xs ys (if j == i then none else old)

-- The same but for the children.
pub record SameTable (w w' : Watcher) : Type 0 where
  pub cfg : w'.cfg ≡ w.cfg
  pub should_exit : w'.should_exit ≡ w.should_exit
  pub ifaces : w'.ifaces ≡ w.ifaces

-- The handler goes on, and has changed the children at most.
abbrev pub GoesOn : Watcher → Outcome → Type 0
GoesOn w (running w') = SameTable w w'
GoesOn w (became x) = ⊥

either_GoesOn :
    (w : Watcher) (b : Bool) (x y : Outcome)
    → GoesOn w x
    → GoesOn w y
    → GoesOn w (if b then x else y)
either_GoesOn w true x y p q = p
either_GoesOn w false x y p q = q

pub went_on :
    (w : Watcher) (o : Outcome) → GoesOn w o → (w' : Watcher) × (o ≡ running w') × SameTable w w'
went_on w (running w') g = (w', refl, g)
went_on w (became x) g = absurd g

module _ (fnmatch : Text → Text → Bool) where
  start_if_eligible-GoesOn :
      (i : ℕ) (name : Text) (p : ℕ) (w v : Watcher)
      → SameTable v w
      → GoesOn v (start_if_eligible fnmatch i name (pos (suc p)) w)
  unfolding start_if_eligible start
  start_if_eligible-GoesOn i name p w v s = elim (Bool-cases (is_eligible fnmatch w.cfg name)) [
    | inl eligible ↦ elim (Bool-cases (is_running i w.processes)) [
      | inl busy ↦
          rw (eligible, busy)
            (record { cfg = s.cfg; should_exit = s.should_exit; ifaces = s.ifaces })
      | inr idle ↦
          rw (eligible, idle)
            (record { cfg = s.cfg; should_exit = s.should_exit; ifaces = s.ifaces })
    ]
    | inr unwanted ↦ rw unwanted s
  ]

  -- A handler whose fork answers in the parent goes on, and has noted the report.
  pub on_change-GoesOn :
      (i : ℕ) (name : Text) (is_up : Bool) (p : ℕ) (w : Watcher)
      → GoesOn (set_iface i name is_up w) (on_change fnmatch i name is_up (pos (suc p)) w)
  unfolding on_change change_from
  on_change-GoesOn i name is_up p w =
      let st = state_or_default (lookup i w.ifaces) in
      let w1 = set_iface i name is_up w in
      let w2 = stop_process i w1 in
      let same : SameTable w1 w1 = record { cfg = refl; should_exit = refl; ifaces = refl } in
      let stopped : SameTable w1 w2 = record { cfg = refl; should_exit = refl; ifaces = refl } in
      let begin = start_if_eligible fnmatch i name (pos (suc p)) in
      let fresh = start_if_eligible-GoesOn i name p w1 w1 same in
      let again = start_if_eligible-GoesOn i name p w2 w1 stopped in
      let renamed = not (is_empty st.name) && not (text_eq st.name name) in
      either_GoesOn w1 (renamed && st.was_up) (if is_up then begin w2 else running w2)
        (if same_bool is_up st.was_up then running w1 else (if is_up then begin w1 else running w2))
        (either_GoesOn w1 is_up (begin w2) (running w2) again stopped)
        (either_GoesOn w1 (same_bool is_up st.was_up) (running w1)
          (if is_up then begin w1 else running w2) same
          (either_GoesOn w1 is_up (begin w1) (running w2) fresh stopped))

  pub on_removed-notes :
      (i : ℕ) (w : Watcher)
      → ((on_removed i w).cfg ≡ w.cfg)
        × ((on_removed i w).should_exit ≡ w.should_exit)
        × ((j : ℕ)
            → lookup j (on_removed i w).ifaces ≡ (if i == j then none else lookup j w.ifaces))
  unfolding on_removed on_removed_found
  on_removed-notes i w = elim (Option-cases (lookup i w.ifaces)) [
    | inl e ↦ rw e (refl, refl, λ j. ground (arith, e))
    | inr (st, e) ↦ elim (Bool-cases st.was_up) [
      | inl up ↦ rw (e, up) (refl, refl, λ j. lookup-erase i j w.ifaces)
      | inr down ↦ rw (e, down) (refl, refl, λ j. lookup-erase i j w.ifaces)
    ]
  ]
