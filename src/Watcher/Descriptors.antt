-- ===== src/Watcher/Descriptors.antt =====
-- What a run of the watcher leaves open, and what it has done where it fails.
use conwatch.Prelude.{
  is_negative, ℕ, ◌≡◌, refl, sym, ap, ◌∙◌, Bool, true, false, not, ◌&&◌, ◌||◌, Bool-cases, inl, inr,
  List, [], ◌∷◌, ◌⊎◌, Text, ℤ, arith,
}
use conwatch.Rtnetlink.{Rtnetlink}
use conwatch.Netlink.Socket.{
  Kernel, NetlinkWatcher, open_netlink, bind_new, request_dump, dump_request, destroy,
}
use conwatch.Netlink.Descriptors.{IsLawful, same_fd, made_closed, open_netlink-destroy}
use conwatch.Watcher.Loop.{Wakeup, Ended, returned, replaced, thrown, run_loop}
use conwatch.Watcher.Run.{
  SignalCalls, Daemon, RunEnd, status, became, threw, open_signal_fd, finish, run,
}

-- Blocking signals opens nothing, and signalfd at most one descriptor, that was not open.
pub record IsLawfulSignals (k : Kernel) (calls : SignalCalls k) (is_open : k.World → ℤ → Bool)
    : Type 0 where
  pub blocked :
      (mask : List ℕ) (w : k.World) (d : ℤ)
      → is_open (calls.sigprocmask_block mask w).1 d ≡ is_open w d
  pub made :
      (mask : List ℕ) (w : k.World)
      → let (s, w') = calls.signalfd mask w in
        is_negative s ≡ false
        → (is_open w s ≡ false) × ((d : ℤ) → is_open w' d ≡ same_fd d s || is_open w d)
  pub not_made :
      (mask : List ℕ) (w : k.World)
      → let (s, w') = calls.signalfd mask w in
        is_negative s ≡ true → (d : ℤ) → is_open w' d ≡ is_open w d

module _ (k : Kernel) (calls : SignalCalls k) (is_open : k.World → ℤ → Bool)
    (lawful : IsLawful k is_open) (signals : IsLawfulSignals k calls is_open) where
  abbrev pub SameOpen : k.World → k.World → Type 0
  SameOpen u v = (d : ℤ) → is_open u d ≡ is_open v d

  destroy-SameOpen :
      (n : NetlinkWatcher) (u v : k.World) → SameOpen u v → SameOpen (destroy k n u) (destroy k n v)
  unfolding destroy
  destroy-SameOpen n u v same d = elim (Bool-cases (is_negative n.fd)) [
    | inl closed ↦ rw closed (same d)
    | inr held ↦ rw held (
        lawful.closed n.fd u d
        ∙ ap (λ b. not (same_fd d n.fd) && b) (same d)
        ∙ sym (lawful.closed n.fd v d))
  ]

  -- What is left for the end of a run: the descriptor if there is one, and the watcher's own.
  open_signal_fd-SameOpen :
      (d : Daemon) (w : k.World)
      → let s = open_signal_fd k calls d w in
        (s.ok ≡ false → SameOpen s.world w)
        × (s.ok ≡ true → SameOpen (k.close s.daemon.sig_fd s.world) w)
        × (s.daemon.netlink ≡ d.netlink)
        × (s.daemon.watcher ≡ d.watcher)
  unfolding open_signal_fd
  open_signal_fd-SameOpen d w =
      let mask = calls.sigchld ∷ calls.sigterm ∷ calls.sigint ∷ [] in
      let (b, w1) = calls.sigprocmask_block mask w in
      let (fd, w2) = calls.signalfd mask w1 in
      let same = signals.blocked mask w in
      elim (Bool-cases (is_negative b)) [
        | inl refused ↦ rw refused (λ _. same, λ e. absurd (ground (arith, e)), refl, refl)
        | inr done ↦ elim (Bool-cases (is_negative fd)) [
          | inl none_made ↦
              rw (done, none_made)
                (
                  λ _ x. signals.not_made mask w1 none_made x ∙ same x,
                  λ e. absurd (ground (arith, e)),
                  refl,
                  refl,
                )
          | inr got ↦
              let m = signals.made mask w1 got in
              rw (done, got)
                (
                  λ e. absurd (ground (arith, e)),
                  λ _ x.
                      made_closed (is_open w1) (is_open w2) (is_open (k.close fd w2)) fd m.0 m.1
                        (lawful.closed fd w2) x
                      ∙ same x,
                  refl,
                  refl,
                )
        ]
      ]

  module _ (nl : Rtnetlink) (fnmatch : Text → Text → Bool) where
    -- The kernel gives a netlink socket, binds it, blocks the signals, and gives a descriptor for
    -- them.
    abbrev pub has_descriptors : k.World → Bool
    has_descriptors w =
        let (s, w1) = k.socket_route w in
        let (bound, w2) = k.bind s k.af_netlink k.rtmgrp_link w1 in
        let w3 = (k.sendto s (dump_request k) w2).1 in
        let mask = calls.sigchld ∷ calls.sigterm ∷ calls.sigint ∷ [] in
        let (blocked, w4) = calls.sigprocmask_block mask w3 in
        let (fd, w5) = calls.signalfd mask w4 in
        not (is_negative s)
        && not (is_negative bound)
        && not (is_negative blocked)
        && not (is_negative fd)

    -- A status of 0 comes from the loop, 1 from a run that lacks a descriptor and does not enter the
    -- loop; either leaves the descriptors as they were once the watcher is destroyed.
    abbrev pub EndsWell : List (Wakeup nl) → List ℤ → Daemon → k.World → RunEnd k calls → Type 0
    EndsWell wakeups waits d0 w (status n d w') =
        SameOpen (destroy k d.netlink w') w
        × (((n ≡ 0)
              × (has_descriptors w ≡ true)
              × (run_loop nl fnmatch wakeups waits d0.watcher ≡ returned d.watcher))
            ⊎ ((n ≡ 1) × (has_descriptors w ≡ false) × (d.watcher ≡ d0.watcher)))
    EndsWell wakeups waits d0 w (became x) =
        (has_descriptors w ≡ true) × (run_loop nl fnmatch wakeups waits d0.watcher ≡ replaced x)
    EndsWell wakeups waits d0 w threw =
        (has_descriptors w ≡ true) × (run_loop nl fnmatch wakeups waits d0.watcher ≡ thrown)

    finish-EndsWell :
        (wakeups : List (Wakeup nl)) (waits : List ℤ) (d0 d : Daemon) (w u : k.World) (e : Ended)
        → has_descriptors w ≡ true
        → run_loop nl fnmatch wakeups waits d0.watcher ≡ e
        → SameOpen (destroy k d.netlink (k.close d.sig_fd u)) w
        → EndsWell wakeups waits d0 w (finish k calls e d u)
    finish-EndsWell wakeups waits d0 d w u (returned v) had ran same = (same, inl (refl, had, ran))
    finish-EndsWell wakeups waits d0 d w u (replaced x) had ran same = (had, ran)
    finish-EndsWell wakeups waits d0 d w u thrown had ran same = (had, ran)

    -- What holds of the two openings: they succeed exactly if the kernel gives what they ask for.
    opened_lem :
        (d : Daemon) (w : k.World)
        → let o = open_netlink k w in
          let s = open_signal_fd k calls (record d { netlink = o.netlink }) o.world in
          has_descriptors w ≡ o.ok && s.ok
    unfolding open_netlink bind_new request_dump open_signal_fd
    opened_lem d w = ground arith

    -- A run of the watcher enters its loop exactly if the kernel gives it a bound netlink socket,
    -- blocks the signals, and gives a descriptor for them. It then ends with status 0 behind its
    -- loop and the end of its children, as the program that the loop became in a fork, or by its
    -- exception; and otherwise with status 1 and no change to the children. What a run that ends
    -- with a status opened is closed once the watcher is destroyed, where only the calls that make a
    -- descriptor open one, a fresh one, and only close(2) ends one.
    pub run-EndsWell :
        (wakeups : List (Wakeup nl)) (waits : List ℤ) (d : Daemon) (w : k.World)
        → EndsWell wakeups waits d w (run k calls nl fnmatch wakeups waits d w)
    unfolding run
    run-EndsWell wakeups waits d w =
        let o = open_netlink k w in
        let d1 = record d { netlink = o.netlink } in
        let s = open_signal_fd k calls d1 o.world in
        let sound = open_netlink-destroy k is_open lawful w in
        let opened = open_signal_fd-SameOpen d1 o.world in
        let closes : (u : k.World)
            → SameOpen u o.world
            → SameOpen (destroy k s.daemon.netlink u) w =
          λ u same x.
            ap (λ n. is_open (destroy k n u) x) opened.2
            ∙ destroy-SameOpen o.netlink u o.world same x
            ∙ sound.0 x in
        let had = opened_lem d w in
        elim (Bool-cases o.ok) [
          | inr closed ↦ rw closed (sound.0, inr (refl, had ∙ ground (arith, closed), refl))
          | inl got ↦ elim (Bool-cases s.ok) [
            | inr refused ↦
                rw (got, refused)
                  (
                    closes s.world (opened.0 refused),
                    inr (refl, had ∙ ground (arith, got, refused), opened.3),
                  )
            | inl ready ↦
                rw (got, ready)
                  (finish-EndsWell wakeups waits d s.daemon w s.world
                    (run_loop nl fnmatch wakeups waits s.daemon.watcher)
                    (had ∙ ground (arith, got, ready))
                    (ap (run_loop nl fnmatch wakeups waits) (sym opened.3))
                    (closes (k.close s.daemon.sig_fd s.world) (opened.1 ready)))
          ]
        ]
