-- ===== src/Watcher/QuietRun.antt =====
-- Runs of the event loop that fork and parse without failures, and what their calls leave.
use conwatch.Prelude.{
  ℕ, suc, ◌≡◌, refl, sym, ap, ◌∙◌, subst, Bool, false, Option, none, some, List, [], ◌∷◌, ◌++◌, ◌≢◌,
  Text, ℤ, pos, if◌then◌else◌, arith, Bool-cases, inl, inr,
}
use conwatch.Prelude.Map.{nat_key, lookup, lookup-insert}
use conwatch.Rtnetlink.{Rtnetlink, messages}
use conwatch.Netlink.{Call, change, remove, process_pending_messages, handle_message}
use conwatch.Netlink.Calls.{all_calls, handle_message_lem, AllNamed}
use conwatch.Watcher.{Watcher, IfaceState, running, on_change, on_removed, set_iface}
use conwatch.Watcher.Loop.{
  Wakeup, interrupted, failed, ready, Ended, next_fork, later_forks, continue,
  handle_readable_signals, dispatch, dispatch_all,
}
use conwatch.Watcher.Quiet.{changed, removed, Good, QuietStep-Good}
use conwatch.Watcher.Refined.{IfRunning}
use conwatch.Watcher.Noted.{spoken, went_on, on_change-GoesOn, on_removed-notes}
use conwatch.Watcher.Strangers.{ReadStrangers, reads_end}

module _ (nl : Rtnetlink) where
  -- The calls that the messages of some buffers stand for, each message alone.
  abbrev pub told_by : List nl.Messages → List Call
  told_by [] = []
  told_by (buf ∷ bufs) = all_calls nl (messages nl buf) ++ told_by bufs

  -- Those of all wakeups that are handled: none behind an error of poll(2), or behind the wakeup
  -- that brings a SIGTERM or SIGINT.
  abbrev pub heard : List (Wakeup nl) → Bool → List Call
  heard [] exit = []
  heard (interrupted ∷ wakeups) exit = if exit then [] else heard wakeups false
  heard (failed ∷ wakeups) exit = []
  heard (ready none signals ∷ wakeups) exit = if exit then [] else heard wakeups (reads_end signals)
  heard (ready (some (bufs, forks)) signals ∷ wakeups) exit =
      if exit then [] else told_by bufs ++ heard wakeups (reads_end signals)

  pub told_by_lem :
      (bufs : List nl.Messages)
      → (process_pending_messages nl bufs).thrown ≡ false
      → (process_pending_messages nl bufs).calls ≡ told_by bufs
  unfolding process_pending_messages
  told_by_lem [] e = refl
  told_by_lem (buf ∷ bufs) e = elim (Bool-cases (handle_message nl buf).thrown) [
    | inl thrown ↦ absurd (ground (arith, e, thrown))
    | inr whole ↦
        let later : (process_pending_messages nl bufs).thrown ≡ false = ground (arith, e, whole) in
        rw whole (rw (handle_message_lem nl buf whole, told_by_lem bufs later) refl)
  ]

module _ (nl : Rtnetlink) (fnmatch : Text → Text → Bool) where
  abbrev pub ParentCall : Call → ℤ → Watcher → Type 0
  ParentCall (change i name is_up) forked w =
      (p : ℕ) × (forked ≡ pos (suc p)) × (lookup (suc p) w.processes.ifindex_by_pid ≡ none)
  ParentCall (remove i) forked w = Unit {0}

  -- Each fork of a list of calls succeeds, with a pid that is not tracked at that point, and
  -- `later` holds behind them.
  abbrev pub ParentCalls : List Call → List ℤ → (Watcher → Type 0) → Watcher → Type 0
  ParentCalls [] forks later w = later w
  ParentCalls (c ∷ calls) forks later w =
      ParentCall c (next_fork forks) w
      × IfRunning (dispatch nl fnmatch c (next_fork forks) w)
          (λ w'. ParentCalls calls (later_forks forks) later w')

  -- A run of the loop in which each fork succeeds, no attribute is malformed, and no tray exits
  -- that was not stopped.
  abbrev pub QuietRun : List (Wakeup nl) → Watcher → Type 0
  QuietRun [] w = Unit {0}
  QuietRun (interrupted ∷ wakeups) w = QuietRun wakeups w
  QuietRun (failed ∷ wakeups) w = Unit {0}
  QuietRun (ready none signals ∷ wakeups) w =
      ReadStrangers signals w × QuietRun wakeups (handle_readable_signals signals w)
  QuietRun (ready (some (bufs, forks)) signals ∷ wakeups) w =
      ((process_pending_messages nl bufs).thrown ≡ false)
      × ParentCalls (process_pending_messages nl bufs).calls forks
          (λ w'. ReadStrangers signals w' × QuietRun wakeups (handle_readable_signals signals w')) w

  -- What a watcher has become behind some calls.
  pub record Behind (calls : List Call) (w w' : Watcher) : Type 0 where
    pub good : Good fnmatch w'
    pub cfg : w'.cfg ≡ w.cfg
    pub should_exit : w'.should_exit ≡ w.should_exit
    pub known : (i : ℕ) → lookup i w'.ifaces ≡ spoken i calls (lookup i w.ifaces)

  Behind-cons :
      (c : Call) (calls : List Call) (w u v : Watcher)
      → ((i : ℕ) → lookup i u.ifaces ≡ spoken i (c ∷ []) (lookup i w.ifaces))
      → ((i : ℕ) (old : Option IfaceState)
          → spoken i (c ∷ calls) old ≡ spoken i calls (spoken i (c ∷ []) old))
      → u.cfg ≡ w.cfg
      → u.should_exit ≡ w.should_exit
      → Behind calls u v
      → Behind (c ∷ calls) w v
  Behind-cons c calls w u v noted split cfg exit b = record {
    good = b.good;
    cfg = b.cfg ∙ cfg;
    should_exit = b.should_exit ∙ exit;
    known = λ i. b.known i ∙ ap (spoken i calls) (noted i) ∙ sym (split i (lookup i w.ifaces));
  }

  -- A report whose fork succeeds.
  reported :
      (i : ℕ) (name : Text) (is_up : Bool) (p : ℕ) (w : Watcher)
      → Good fnmatch w
      → name ≢ []
      → lookup (suc p) w.processes.ifindex_by_pid ≡ none
      → (u : Watcher) × (on_change fnmatch i name is_up (pos (suc p)) w ≡ running u)
        × Behind (change i name is_up ∷ []) w u
  reported i name is_up p w g named fresh =
      let st : IfaceState = record { name = name; was_up = is_up } in
      let o = on_change fnmatch i name is_up (pos (suc p)) w in
      let (u, e, t) =
        went_on (set_iface i name is_up w) o (on_change-GoesOn fnmatch i name is_up p w) in
      (
        u,
        e,
        record {
          good = QuietStep-Good fnmatch (changed i name is_up p named fresh e) g;
          cfg = t.cfg;
          should_exit = t.should_exit;
          known = λ j. ap (lookup j) t.ifaces ∙ lookup-insert i j st w.ifaces;
        },
      )

  pub dispatch_all-Behind :
      (calls : List Call) (forks : List ℤ) (rest : Watcher → Ended) (later : Watcher → Type 0)
      (w : Watcher)
      → Good fnmatch w
      → AllNamed calls
      → ParentCalls calls forks later w
      → (u : Watcher) × (dispatch_all nl fnmatch calls forks rest w ≡ rest u)
        × later u
        × Behind calls w u
  unfolding dispatch_all dispatch
  dispatch_all-Behind [] forks rest later w g n f =
      (w, refl, f, record { good = g; cfg = refl; should_exit = refl; known = λ i. refl })
  dispatch_all-Behind (change i name is_up ∷ calls) forks rest later w g n ((p, r, fresh), f) =
      let (u, e, b) = reported i name is_up p w g n.0 fresh in
      let e' : on_change fnmatch i name is_up (next_fork forks) w ≡ running u = rw r e in
      let later_on = λ (x : Watcher). ParentCalls calls (later_forks forks) later x in
      let (v, d, l, c) =
        dispatch_all-Behind calls (later_forks forks) rest later u b.good n.1
          (subst (λ o. IfRunning o later_on) e' f) in
      (
        v,
        ap (λ o. continue o (λ x. dispatch_all nl fnmatch calls (later_forks forks) rest x)) e' ∙ d,
        l,
        Behind-cons (change i name is_up) calls w u v b.known (λ j old. refl) b.cfg b.should_exit c,
      )
  dispatch_all-Behind (remove i ∷ calls) forks rest later w g n (_, f) =
      let u = on_removed i w in
      let o = on_removed-notes fnmatch i w in
      let (v, d, l, c) =
        dispatch_all-Behind calls (later_forks forks) rest later u
          (QuietStep-Good fnmatch (removed i) g) n.1 f in
      (v, d, l, Behind-cons (remove i) calls w u v o.2 (λ j old. refl) o.0 o.1 c)
