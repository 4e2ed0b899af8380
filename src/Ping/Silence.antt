-- ===== src/Ping/Silence.antt =====
-- A network that never answers.
use conwatch.Prelude.{◌+◌, ◌%◌, ◌≤◌, ◌≡◌, true, false, ◌==◌, [], Text, if◌then◌else◌, arith, ℤ}
use conwatch.Ping.{System, Monitor, ProtoTrack}
use conwatch.Ping.Sockets.{
  open_socket4, open_socket6, send_ping4, send_ping6, recv_reply4, recv_reply6, ping4, ping6,
  drain_replies,
}
use conwatch.Ping.Tick.{
  set_v4, set_v6, maybe_recheck_local_address, resolve_once, check_gateway4, check_gateway6, lost4,
  lost6, tick_v4, tick_v6,
}
use conwatch.Ping.Track.{
  Alike, open_socket4-Alike, open_socket6-Alike, check_gateway4-Checked, check_gateway6-Checked,
  is_active, ping4-tracks, ping6-tracks,
}

module _ (sys : System) (silent : (s : ℤ) (w : sys.World) → sys.datagrams s w ≡ []) where
  ping4-silent : (ip : Text) (m : Monitor sys) → (ping4 sys ip m).0 ≡ false
  unfolding ping4 recv_reply4 drain_replies
  ping4-silent ip m = let m' = (send_ping4 sys ip m).1 in ground (arith, silent m'.v4.sock m'.world)

  ping6-silent : (ip : Text) (m : Monitor sys) → (ping6 sys ip m).0 ≡ false
  unfolding ping6 recv_reply6 drain_replies
  ping6-silent ip m = let m' = (send_ping6 sys ip m).1 in ground (arith, silent m'.v6.sock m'.world)

  check_gateway4-silent : (m : Monitor sys) → (check_gateway4 sys m).v4.gateway_reachable ≡ false
  unfolding check_gateway4
  check_gateway4-silent m =
      let r = resolve_once sys m.v4 sys.nl.af_inet m in
      ground (arith, ping4-silent r.0.gateway_ip (set_v4 sys r.0 r.1))

  check_gateway6-silent : (m : Monitor sys) → (check_gateway6 sys m).v6.gateway_reachable ≡ false
  unfolding check_gateway6
  check_gateway6-silent m =
      let r = resolve_once sys m.v6 sys.nl.af_inet6 m in
      ground (arith, ping6-silent r.0.gateway_ip (set_v6 sys r.0 r.1))

  -- A tick of an active protocol: one more loss, and no gateway from the tenth on.
  pub record Lost (t t' : ProtoTrack) : Type 0 where
    pub active : is_active t' ≡ true
    pub streak : t'.fail_streak ≡ t.fail_streak + 1
    pub unreachable : 10 ≤ t'.fail_streak → t'.gateway_reachable ≡ false

  lost4-Lost : (m : Monitor sys) → is_active m.v4 ≡ true → Lost m.v4 (lost4 sys m).v4
  unfolding lost4
  lost4-Lost m on =
      let streak = m.v4.fail_streak + 1 in
      let m1 = set_v4 sys (record m.v4 { fail_streak = streak }) m in
      let m2 = if streak % 10 == 0 then open_socket4 sys m1 else m1 in
      let a : Alike m1.v4 m2.v4 × (m2.v6 ≡ m.v6) = ground (arith, open_socket4-Alike sys m1) in
      ground (arith, a, check_gateway4-Checked sys m2, check_gateway4-silent m2)

  pub tick_v4-Lost : (m : Monitor sys) → is_active m.v4 ≡ true → Lost m.v4 (tick_v4 sys m).v4
  unfolding tick_v4 maybe_recheck_local_address
  tick_v4-Lost m on =
      let p = ping4-silent m.v4.target_ip m in
      let q = ping4-tracks sys m.v4.target_ip m in
      let m2 = (ping4 sys m.v4.target_ip m).1 in ground (arith, p, q, lost4-Lost m2)

  lost6-Lost : (m : Monitor sys) → is_active m.v6 ≡ true → Lost m.v6 (lost6 sys m).v6
  unfolding lost6
  lost6-Lost m on =
      let streak = m.v6.fail_streak + 1 in
      let m1 = set_v6 sys (record m.v6 { fail_streak = streak }) m in
      let m2 = if streak % 10 == 0 then open_socket6 sys m1 else m1 in
      let a : Alike m1.v6 m2.v6 × (m2.v4 ≡ m.v4) = ground (arith, open_socket6-Alike sys m1) in
      ground (arith, a, check_gateway6-Checked sys m2, check_gateway6-silent m2)

  pub tick_v6-Lost : (m : Monitor sys) → is_active m.v6 ≡ true → Lost m.v6 (tick_v6 sys m).v6
  unfolding tick_v6 maybe_recheck_local_address
  tick_v6-Lost m on =
      let p = ping6-silent m.v6.target_ip m in
      let q = ping6-tracks sys m.v6.target_ip m in
      let m2 = (ping6 sys m.v6.target_ip m).1 in ground (arith, p, q, lost6-Lost m2)
