-- ===== src/Watcher/Heard.antt =====
-- From what the kernel sends to the trays that run, over a whole run of the event loop.
use conwatch.Prelude.{
  ℕ, ◌≡◌, refl, sym, ap, ◌∙◌, subst, Bool, true, false, ◌||◌, Option, none, some, List, [], ◌∷◌,
  ◌++◌, Text, if◌then◌else◌, arith,
}
use conwatch.Prelude.Map.{nat_key, lookup}
use conwatch.Config.{Config}
use conwatch.Processes.{is_running}
use conwatch.Rtnetlink.{Rtnetlink}
use conwatch.Netlink.{Call, process_pending_messages}
use conwatch.Netlink.Calls.{process_pending_messages-AllNamed}
use conwatch.Watcher.{Watcher, watching}
use conwatch.Watcher.Loop.{
  Signal, Wakeup, interrupted, failed, ready, Ended, returned, handle_readable_signals, or_throw,
  handle_links, poll,
}
use conwatch.Watcher.Monitored.{wanted}
use conwatch.Watcher.Quiet.{Good, watching-Good}
use conwatch.Watcher.Noted.{spoken-append, spoken}
use conwatch.Watcher.Strangers.{ReadStrangers, reads_end, readable-AllStrangers}
use conwatch.Watcher.QuietRun.{QuietRun, told_by, heard, told_by_lem, dispatch_all-Behind}

module _ (nl : Rtnetlink) (fnmatch : Text → Text → Bool) where
  -- The loop ends, with what the calls say of the interfaces, and the trays that this asks for.
  abbrev LoopEnds : Ended → List Call → Watcher → Type 0
  LoopEnds ended calls w =
      (v : Watcher) × (ended ≡ returned v)
      × Good fnmatch v
      × (v.cfg ≡ w.cfg)
      × ((i : ℕ) → lookup i v.ifaces ≡ spoken i calls (lookup i w.ifaces))

  ended_here : (w : Watcher) → Good fnmatch w → LoopEnds (returned w) [] w
  ended_here w g = (w, refl, g, refl, λ i. refl)

  -- The loop's test.
  guarded :
      (exit : Bool) (w : Watcher) (rest : Ended) (calls : List Call)
      → Good fnmatch w
      → (exit ≡ false → LoopEnds rest calls w)
      → LoopEnds (if exit then returned w else rest) (if exit then [] else calls) w
  guarded true w rest calls g k = ended_here w g
  guarded false w rest calls g k = k refl

  exiting-Good :
      (b : Bool) (w : Watcher) → Good fnmatch w → Good fnmatch (record w { should_exit = b })
  exiting-Good b w (v, x) = (
    record {
      paired = v.paired;
      tracked = λ j t h.
          let m = v.tracked j t h in
          record {
            state = m.state;
            known = m.known;
            up = m.up;
            named = m.named;
            eligible = m.eligible;
          };
      named = v.named;
    },
    x,
  )

  readable-Good :
      (signals : Option (List Signal)) (w : Watcher)
      → Good fnmatch w
      → ReadStrangers signals w
      → Good fnmatch (handle_readable_signals signals w)
  readable-Good signals w g s =
      subst (Good fnmatch) (sym (readable-AllStrangers signals w s))
        (exiting-Good (reads_end signals || w.should_exit) w g)

  -- The loop behind the signals of a wakeup.
  behind_signals :
      (signals : Option (List Signal)) (wakeups : List (Wakeup nl)) (w : Watcher)
      → w.should_exit ≡ false
      → ReadStrangers signals w
      → let u = handle_readable_signals signals w in
        LoopEnds (poll nl fnmatch wakeups u) (heard nl wakeups u.should_exit) u
        → LoopEnds (poll nl fnmatch wakeups u) (heard nl wakeups (reads_end signals)) w
  behind_signals signals wakeups w going s (v, e, g, cfg, known) =
      let same = readable-AllStrangers signals w s in
      let exit : (handle_readable_signals signals w).should_exit ≡ reads_end signals =
        ap (λ x. x.should_exit) same ∙ ground (arith, going) in
      (
        v,
        e,
        g,
        cfg ∙ ap (λ x. x.cfg) same,
        λ i.
            known i
            ∙ ap
                (λ b.
                  spoken i (heard nl wakeups b)
                    (lookup i (handle_readable_signals signals w).ifaces))
                exit
            ∙ ap
                (λ (x : Watcher).
                  spoken i (heard nl wakeups (reads_end signals)) (lookup i x.ifaces))
                same,
      )

  poll-LoopEnds :
      (wakeups : List (Wakeup nl)) (w : Watcher)
      → Good fnmatch w
      → QuietRun nl fnmatch wakeups w
      → LoopEnds (poll nl fnmatch wakeups w) (heard nl wakeups w.should_exit) w
  unfolding poll handle_links
  poll-LoopEnds [] w g q = ended_here w g
  poll-LoopEnds (interrupted ∷ wakeups) w g q =
      guarded w.should_exit w (poll nl fnmatch wakeups w) (heard nl wakeups false) g (λ going.
        subst (λ b. LoopEnds (poll nl fnmatch wakeups w) (heard nl wakeups b) w) going
          (poll-LoopEnds wakeups w g q))
  poll-LoopEnds (failed ∷ wakeups) w g q = ended_here w g
  poll-LoopEnds (ready none signals ∷ wakeups) w g (s, q) =
      let u = handle_readable_signals signals w in
      guarded w.should_exit w (poll nl fnmatch wakeups u) (heard nl wakeups (reads_end signals)) g
        (λ going.
          behind_signals signals wakeups w going s
            (poll-LoopEnds wakeups u (readable-Good signals w g s) q))
  poll-LoopEnds (ready (some (bufs, forks)) signals ∷ wakeups) w g (whole, q) =
      let calls = (process_pending_messages nl bufs).calls in
      let after : Watcher → Ended =
        λ x. poll nl fnmatch wakeups (handle_readable_signals signals x) in
      let rest = or_throw nl fnmatch (process_pending_messages nl bufs).thrown after in
      let (u, d, (s, q'), b) =
        dispatch_all-Behind nl fnmatch calls forks rest
          (λ x.
            ReadStrangers signals x
            × QuietRun nl fnmatch wakeups (handle_readable_signals signals x))
          w g (process_pending_messages-AllNamed nl bufs) q in
      let u' = handle_readable_signals signals u in
      let later = heard nl wakeups (reads_end signals) in
      guarded w.should_exit w (handle_links nl fnmatch bufs forks after w)
        (told_by nl bufs ++ later) g
        (λ going.
          let (v, e, g', cfg, known) =
            behind_signals signals wakeups u (b.should_exit ∙ going) s
              (poll-LoopEnds wakeups u' (readable-Good signals u b.good s) q') in
          (
            v,
            d ∙ ap (λ t. or_throw nl fnmatch t after u) whole ∙ e,
            g',
            cfg ∙ b.cfg,
            λ i.
                known i
                ∙ ap (spoken i later) (b.known i)
                ∙ sym (spoken-append i calls later (lookup i w.ifaces))
                ∙ ap (λ cs. spoken i (cs ++ later) (lookup i w.ifaces)) (told_by_lem nl bufs whole),
          ))

  -- Where every fork succeeds with a pid that is not tracked at that point, no attribute is
  -- malformed, and no tray exits that was not stopped: for any wakeups the loop that started without
  -- children returns, and then an interface has a tray exactly if the last message that removes it
  -- or reports it under a name, among those of the wakeups that were handled, reports it up and
  -- the name is eligible.
  pub poll-wanted :
      (cfg : Config) (wakeups : List (Wakeup nl))
      → QuietRun nl fnmatch wakeups (watching cfg)
      → (w : Watcher) × (poll nl fnmatch wakeups (watching cfg) ≡ returned w)
        × ((i : ℕ)
            → is_running i w.processes
              ≡ wanted fnmatch cfg (spoken i (heard nl wakeups false) none))
  unfolding lookup
  poll-wanted cfg wakeups q =
      let (w, e, g, same, known) =
        poll-LoopEnds wakeups (watching cfg) (watching-Good fnmatch cfg) q in
      (
        w,
        e,
        λ i.
            g.1 i
            ∙ ap (λ c. wanted fnmatch c (lookup i w.ifaces)) same
            ∙ ap (wanted fnmatch cfg) (known i),
      )
