-- ===== src/Ping/Unseen.antt =====
-- What the calls of a tick leave unseen, but for those that make a socket or send a packet.
use conwatch.Prelude.{ℕ, ◌≡◌, refl, Bool, Bool-cases, inl, inr, List, Text, ℤ, arith, c_str}
use conwatch.Gateway.Lookup.{
  RouteRequest, resolve, resolve_gateway, send_request_and_drain, build_request, drain_calls,
}
use conwatch.Icmp.{is_matching_reply4, is_matching_reply6}
use conwatch.Ping.{System, Monitor, ProtoTrack}
use conwatch.Ping.Sockets.{
  iface_has_address, prepare, close_open, drain_replies, recv_reply4, recv_reply6,
}
use conwatch.Ping.Tick.{maybe_recheck_local_address, resolve_once, tick_v4, tick_v6}
use conwatch.Ping.Status.{
  icon_for, set_tray_icon, apply_status, render_tray, tick, tick_state_of, same_tick_state,
}

-- `seen w` is something that is read from the world w, and that these calls do not change.
pub record Unseen {A : Type 0} (sys : System) (seen : sys.World → A) : Type 0 where
  pub bound : (s : ℤ) (name : Text) (w : sys.World) → seen (sys.bind_to_device s name w) ≡ seen w
  pub timed : (s : ℤ) (w : sys.World) → seen (sys.set_recv_timeout s w) ≡ seen w
  pub closed : (s : ℤ) (w : sys.World) → seen (sys.close s w) ≡ seen w
  pub heard : (s : ℤ) (n : ℕ) (w : sys.World) → seen (sys.received s n w) ≡ seen w
  pub listed : (w : sys.World) → seen (sys.getifaddrs w).1 ≡ seen w
  pub route_made : (w : sys.World) → seen (sys.route.socket_route w).1 ≡ seen w
  pub route_sent :
      (s : ℤ) (r : RouteRequest) (w : sys.World) → seen (sys.route.send s r w).1 ≡ seen w
  pub route_heard : (s : ℤ) (n : ℕ) (w : sys.World) → seen (sys.route.received s n w) ≡ seen w

module _ {A : Type 0} (sys : System) (seen : sys.World → A) (lawful : Unseen sys seen) where
  pub prepare-unseen :
      (s : ℤ) (iface : Text) (w : sys.World) → seen (prepare sys s iface w) ≡ seen w
  prepare-unseen s iface w =
      ground (arith, lawful.timed s (sys.bind_to_device s iface w), lawful.bound s iface w)

  pub close_open-unseen : (s : ℤ) (w : sys.World) → seen (close_open sys s w) ≡ seen w
  close_open-unseen s w = ground (arith, lawful.closed s w)

  resolve_gateway-unseen :
      (iface : Text) (family : ℕ) (w : sys.World)
      → seen
          (resolve_gateway sys.nl sys.addresses.ntop4 sys.addresses.ntop6 sys.World sys.route
            sys.close iface family w).1
        ≡ seen w
  unfolding resolve send_request_and_drain
  resolve_gateway-unseen iface family w =
      let ntop4 = sys.addresses.ntop4 in
      let ntop6 = sys.addresses.ntop6 in
      let ifindex = sys.route.if_nametoindex (c_str iface) w in
      let (fd, w1) = sys.route.socket_route w in
      let request = build_request sys.nl ntop4 ntop6 sys.World sys.route sys.close family in
      let (sent, w2) = sys.route.send fd request w1 in
      let n =
        drain_calls sys.nl ntop4 ntop6 sys.World sys.route sys.close family ifindex
          (sys.route.batches fd w2) in
      ground (
        arith,
        lawful.route_made w,
        lawful.route_sent fd request w1,
        lawful.route_heard fd n w2,
        lawful.closed fd w2,
        lawful.closed fd (sys.route.received fd n w2),
      )

  pub resolve_once-unseen :
      (t : ProtoTrack) (family : ℕ) (m : Monitor sys)
      → seen (resolve_once sys t family m).1.world ≡ seen m.world
  unfolding resolve_once
  resolve_once-unseen t family m = ground (arith, resolve_gateway-unseen m.iface family m.world)

  pub recheck-unseen :
      (t : ProtoTrack) (family : ℕ) (m : Monitor sys)
      → seen (maybe_recheck_local_address sys t family m).1.world ≡ seen m.world
  unfolding maybe_recheck_local_address iface_has_address
  recheck-unseen t family m = ground (arith, lawful.listed m.world)

  pub recv_reply4-unseen : (m : Monitor sys) → seen (recv_reply4 sys m).1.world ≡ seen m.world
  unfolding recv_reply4
  recv_reply4-unseen m =
      let matches : List ℕ → Bool = λ buf. is_matching_reply4 buf m.pid in
      let n = (drain_replies sys matches (sys.datagrams m.v4.sock m.world) 0).1 in
      ground (arith, lawful.heard m.v4.sock n m.world)

  pub recv_reply6-unseen : (m : Monitor sys) → seen (recv_reply6 sys m).1.world ≡ seen m.world
  unfolding recv_reply6
  recv_reply6-unseen m =
      let matches : List ℕ → Bool = λ buf. is_matching_reply6 buf m.pid in
      let n = (drain_replies sys matches (sys.datagrams m.v6.sock m.world) 0).1 in
      ground (arith, lawful.heard m.v6.sock n m.world)

module _ (sys : System) where
  render_tray-world : (m : Monitor sys) → (render_tray sys m).world ≡ m.world
  unfolding render_tray apply_status set_tray_icon icon_for
  render_tray-world m = ground arith

  -- A redraw makes no system call.
  pub tick-world : (m : Monitor sys) → (tick sys m).world ≡ (tick_v6 sys (tick_v4 sys m)).world
  unfolding tick
  tick-world m =
      let m1 = tick_v6 sys (tick_v4 sys m) in
      let state = tick_state_of sys m1 in
      elim (Bool-cases (same_tick_state state m1.last_tick_state)) [
        | inl same ↦ rw same refl
        | inr changed ↦ rw changed (render_tray-world (record m1 { last_tick_state = state }))
      ]
