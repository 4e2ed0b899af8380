-- ===== src/Ping/Remade/V4.antt =====
-- The socket of the IPv4 part of a tick.
use conwatch.Prelude.{
  ℕ, ◌+◌, ◌%◌, ◌≡◌, refl, ap, ◌∙◌, true, false, not, ◌||◌, ◌==◌, leb, Text, c_str, arith,
  Bool-cases, Option-cases, inl, inr, if◌then◌else◌,
}
use conwatch.Icmp.{echo_request4}
use conwatch.Ping.{System, Monitor}
use conwatch.Ping.Sockets.{is_open, is_whole, close_open, send_ping4, ping4, open_socket4}
use conwatch.Ping.Tick.{
  set_v4, maybe_recheck_local_address, resolve_once, check_gateway4, lost4, tick_v4,
}
use conwatch.Ping.Track.{is_active, ping4-tracks, open_socket4-Alike, check_gateway4-Checked}
use conwatch.Ping.Unseen.{
  prepare-unseen, close_open-unseen, resolve_once-unseen, recheck-unseen, recv_reply4-unseen,
}
use conwatch.Ping.Remade.Count.{Tally, IsTally, tenth, remade, recheck-streak}

module _ (sys : System) (tally : sys.World → Tally) (lawful : IsTally sys tally) where
  abbrev more : ℕ → Tally → Tally
  more n t = (t.0 + n, t.1)

  open_socket4-tally : (m : Monitor sys) → tally (open_socket4 sys m).world ≡ more 1 (tally m.world)
  unfolding open_socket4
  open_socket4-tally m =
      let w = close_open sys m.v4.sock m.world in
      let (s, w') = sys.socket4 w in
      prepare-unseen sys tally lawful.unseen s m.iface w'
      ∙ lawful.made4 w
      ∙ ap (more 1) (close_open-unseen sys tally lawful.unseen m.v4.sock m.world)

  ping4-tally : (ip : Text) (m : Monitor sys) → tally (ping4 sys ip m).1.world ≡ tally m.world
  unfolding ping4 send_ping4
  ping4-tally ip m = elim (Bool-cases (is_open m.v4.sock)) [
    | inr closed ↦ rw closed refl
    | inl open_sock ↦ elim (Option-cases (sys.pton4 (c_str ip))) [
      | inl e ↦ rw (open_sock, e) refl
      | inr (addr, e) ↦
          let packet = echo_request4 m.pid m.seq4 in
          let (n, w) = sys.sendto m.v4.sock packet addr m.world in
          let m' = record m { seq4 = (m.seq4 + 1) % 65536; world = w } in
          let sent = lawful.sent m.v4.sock packet addr m.world in
          elim (Bool-cases (is_whole n)) [
            | inl whole ↦
                rw (open_sock, e, whole) (recv_reply4-unseen sys tally lawful.unseen m' ∙ sent)
            | inr cut ↦ rw (open_sock, e, cut) sent
          ]
    ]
  ]

  check_gateway4-tally : (m : Monitor sys) → tally (check_gateway4 sys m).world ≡ tally m.world
  unfolding check_gateway4
  check_gateway4-tally m =
      let r = resolve_once sys m.v4 sys.nl.af_inet m in
      let m2 = set_v4 sys r.0 r.1 in
      let quiet = resolve_once-unseen sys tally lawful.unseen m.v4 sys.nl.af_inet m in
      ground (arith, quiet, ping4-tally r.0.gateway_ip m2)

  -- A loss makes a new socket if it is the tenth, the twentieth and so on.
  lost4-tally :
      (m : Monitor sys)
      → (tally (lost4 sys m).world ≡ more (tenth (m.v4.fail_streak + 1)) (tally m.world))
        × ((lost4 sys m).v4.fail_streak ≡ m.v4.fail_streak + 1)
  unfolding lost4
  lost4-tally m =
      let streak = m.v4.fail_streak + 1 in
      let m1 = set_v4 sys (record m.v4 { fail_streak = streak }) m in
      let m2 = if streak % 10 == 0 then open_socket4 sys m1 else m1 in
      let opened : tally m2.world ≡ more (tenth streak) (tally m.world) =
        ground (arith, open_socket4-tally m1) in
      let same : m2.v4.fail_streak ≡ streak = ground (arith, open_socket4-Alike sys m1) in
      elim (Bool-cases (leb 10 streak)) [
        | inl due ↦
            rw due
              (check_gateway4-tally m2 ∙ opened, (check_gateway4-Checked sys m2).0.streak ∙ same)
        | inr early ↦ rw early (opened, same)
      ]

  -- The IPv4 part of a tick makes a new socket exactly if it brings the streak to a multiple of ten.
  pub tick_v4-tally :
      (m : Monitor sys)
      → tally (tick_v4 sys m).world ≡ more (remade m.v4 (tick_v4 sys m).v4) (tally m.world)
  unfolding tick_v4
  tick_v4-tally m =
      let r = maybe_recheck_local_address sys m.v4 sys.nl.af_inet m in
      let streak : r.0.fail_streak ≡ m.v4.fail_streak = recheck-streak sys m.v4 sys.nl.af_inet m in
      let quiet = recheck-unseen sys tally lawful.unseen m.v4 sys.nl.af_inet m in
      let m1 = set_v4 sys r.0 r.1 in
      let ip = r.0.target_ip in
      let m2 = (ping4 sys ip m1).1 in
      let tracks : m2.v4 ≡ r.0 = (ping4-tracks sys ip m1).0 in
      let pinged : tally m2.world ≡ tally m.world = ping4-tally ip m1 ∙ quiet in
      elim (Bool-cases (is_active r.0)) [
        | inr idle ↦
            let off : not r.0.configured || not r.0.has_local_address ≡ true = ground arith in
            rw off (ground (arith, streak, quiet))
        | inl active ↦
            let on : not r.0.configured || not r.0.has_local_address ≡ false = ground arith in
            elim (Bool-cases (ping4 sys ip m1).0) [
              | inl ok ↦ rw (on, ok) (ground (arith, pinged))
              | inr no_reply ↦
                  let l = lost4-tally m2 in
                  let before : m2.v4.fail_streak ≡ m.v4.fail_streak =
                    ap (λ t. t.fail_streak) tracks ∙ streak in
                  rw (on, no_reply) (ground (arith, l, before, pinged))
            ]
      ]
