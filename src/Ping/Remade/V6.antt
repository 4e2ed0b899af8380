-- ===== src/Ping/Remade/V6.antt =====
-- The socket of the IPv6 part of a tick.
use conwatch.Prelude.{
  ℕ, ◌+◌, ◌%◌, ◌≡◌, refl, ap, ◌∙◌, true, false, not, ◌||◌, ◌==◌, leb, Text, c_str, arith,
  Bool-cases, Option-cases, inl, inr, if◌then◌else◌,
}
use conwatch.Icmp.{echo_request6}
use conwatch.Ping.{System, Monitor}
use conwatch.Ping.Sockets.{is_open, is_whole, close_open, send_ping6, ping6, open_socket6}
use conwatch.Ping.Tick.{
  set_v6, maybe_recheck_local_address, resolve_once, check_gateway6, lost6, tick_v6,
}
use conwatch.Ping.Track.{is_active, ping6-tracks, open_socket6-Alike, check_gateway6-Checked}
use conwatch.Ping.Unseen.{
  prepare-unseen, close_open-unseen, resolve_once-unseen, recheck-unseen, recv_reply6-unseen,
}
use conwatch.Ping.Remade.Count.{Tally, IsTally, tenth, remade, recheck-streak}

module _ (sys : System) (tally : sys.World → Tally) (lawful : IsTally sys tally) where
  abbrev more : ℕ → Tally → Tally
  more n t = (t.0, t.1 + n)

  open_socket6-tally : (m : Monitor sys) → tally (open_socket6 sys m).world ≡ more 1 (tally m.world)
  unfolding open_socket6
  open_socket6-tally m =
      let w = close_open sys m.v6.sock m.world in
      let (s, w') = sys.socket6 w in
      prepare-unseen sys tally lawful.unseen s m.iface w'
      ∙ lawful.made6 w
      ∙ ap (more 1) (close_open-unseen sys tally lawful.unseen m.v6.sock m.world)

  ping6-tally : (ip : Text) (m : Monitor sys) → tally (ping6 sys ip m).1.world ≡ tally m.world
  unfolding ping6 send_ping6
  ping6-tally ip m = elim (Bool-cases (is_open m.v6.sock)) [
    | inr closed ↦ rw closed refl
    | inl open_sock ↦ elim (Option-cases (sys.pton6 (c_str ip))) [
      | inl e ↦ rw (open_sock, e) refl
      | inr (addr, e) ↦
          let packet = echo_request6 m.pid m.seq6 in
          let (n, w) = sys.sendto m.v6.sock packet addr m.world in
          let m' = record m { seq6 = (m.seq6 + 1) % 65536; world = w } in
          let sent = lawful.sent m.v6.sock packet addr m.world in
          elim (Bool-cases (is_whole n)) [
            | inl whole ↦
                rw (open_sock, e, whole) (recv_reply6-unseen sys tally lawful.unseen m' ∙ sent)
            | inr cut ↦ rw (open_sock, e, cut) sent
          ]
    ]
  ]

  check_gateway6-tally : (m : Monitor sys) → tally (check_gateway6 sys m).world ≡ tally m.world
  unfolding check_gateway6
  check_gateway6-tally m =
      let r = resolve_once sys m.v6 sys.nl.af_inet6 m in
      let m2 = set_v6 sys r.0 r.1 in
      let quiet = resolve_once-unseen sys tally lawful.unseen m.v6 sys.nl.af_inet6 m in
      ground (arith, quiet, ping6-tally r.0.gateway_ip m2)

  -- A loss makes a new socket if it is the tenth, the twentieth and so on.
  lost6-tally :
      (m : Monitor sys)
      → (tally (lost6 sys m).world ≡ more (tenth (m.v6.fail_streak + 1)) (tally m.world))
        × ((lost6 sys m).v6.fail_streak ≡ m.v6.fail_streak + 1)
  unfolding lost6
  lost6-tally m =
      let streak = m.v6.fail_streak + 1 in
      let m1 = set_v6 sys (record m.v6 { fail_streak = streak }) m in
      let m2 = if streak % 10 == 0 then open_socket6 sys m1 else m1 in
      let opened : tally m2.world ≡ more (tenth streak) (tally m.world) =
        ground (arith, open_socket6-tally m1) in
      let same : m2.v6.fail_streak ≡ streak = ground (arith, open_socket6-Alike sys m1) in
      elim (Bool-cases (leb 10 streak)) [
        | inl due ↦
            rw due
              (check_gateway6-tally m2 ∙ opened, (check_gateway6-Checked sys m2).0.streak ∙ same)
        | inr early ↦ rw early (opened, same)
      ]

  -- The IPv6 part of a tick makes a new socket exactly if it brings the streak to a multiple of ten.
  pub tick_v6-tally :
      (m : Monitor sys)
      → tally (tick_v6 sys m).world ≡ more (remade m.v6 (tick_v6 sys m).v6) (tally m.world)
  unfolding tick_v6
  tick_v6-tally m =
      let r = maybe_recheck_local_address sys m.v6 sys.nl.af_inet6 m in
      let streak : r.0.fail_streak ≡ m.v6.fail_streak = recheck-streak sys m.v6 sys.nl.af_inet6 m in
      let quiet = recheck-unseen sys tally lawful.unseen m.v6 sys.nl.af_inet6 m in
      let m1 = set_v6 sys r.0 r.1 in
      let ip = r.0.target_ip in
      let m2 = (ping6 sys ip m1).1 in
      let tracks : m2.v6 ≡ r.0 = (ping6-tracks sys ip m1).1 in
      let pinged : tally m2.world ≡ tally m.world = ping6-tally ip m1 ∙ quiet in
      elim (Bool-cases (is_active r.0)) [
        | inr idle ↦
            let off : not r.0.configured || not r.0.has_local_address ≡ true = ground arith in
            rw off (ground (arith, streak, quiet))
        | inl active ↦
            let on : not r.0.configured || not r.0.has_local_address ≡ false = ground arith in
            elim (Bool-cases (ping6 sys ip m1).0) [
              | inl ok ↦ rw (on, ok) (ground (arith, pinged))
              | inr no_reply ↦
                  let l = lost6-tally m2 in
                  let before : m2.v6.fail_streak ≡ m.v6.fail_streak =
                    ap (λ t. t.fail_streak) tracks ∙ streak in
                  rw (on, no_reply) (ground (arith, l, before, pinged))
            ]
      ]
