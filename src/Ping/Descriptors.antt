-- ===== src/Ping/Descriptors.antt =====
-- The sockets of a monitor among the descriptors of its process.
use conwatch.Prelude.{
  ℕ, ◌≡◌, refl, Bool, true, false, not, ◌&&◌, ◌||◌, Option, none, some, List, Text, c_str, ℤ, arith,
}
use conwatch.Icmp.{is_matching_reply4, is_matching_reply6, echo_request4, echo_request6}
use conwatch.Netlink.Descriptors.{same_fd}
use conwatch.Gateway.LastRoute
use conwatch.Gateway.LastRoute.{resolve_gateway-is_open}
use conwatch.Ping.{System, Monitor, ProtoTrack}
use conwatch.Ping.Sockets.{
  drain_replies, is_open, send_packet4, send_packet6, send_ping4, send_ping6, recv_reply4,
  recv_reply6, ping4, ping6, iface_has_address,
}
use conwatch.Ping.Tick.{maybe_recheck_local_address, resolve_once}

-- `held w d` says that the descriptor d is open in the world w. Only the calls that make a socket
-- make a descriptor, which was not open, and only close ends one.
pub record IsLawful (sys : System) (held : sys.World → ℤ → Bool) : Type 0 where
  pub made4 :
      (w : sys.World)
      → let (s, w') = sys.socket4 w in
        is_open s ≡ true → (held w s ≡ false) × ((d : ℤ) → held w' d ≡ same_fd d s || held w d)
  pub not_made4 :
      (w : sys.World)
      → let (s, w') = sys.socket4 w in is_open s ≡ false → (d : ℤ) → held w' d ≡ held w d
  pub made6 :
      (w : sys.World)
      → let (s, w') = sys.socket6 w in
        is_open s ≡ true → (held w s ≡ false) × ((d : ℤ) → held w' d ≡ same_fd d s || held w d)
  pub not_made6 :
      (w : sys.World)
      → let (s, w') = sys.socket6 w in is_open s ≡ false → (d : ℤ) → held w' d ≡ held w d
  pub bound :
      (s : ℤ) (name : Text) (w : sys.World) (d : ℤ)
      → held (sys.bind_to_device s name w) d ≡ held w d
  pub timed : (s : ℤ) (w : sys.World) (d : ℤ) → held (sys.set_recv_timeout s w) d ≡ held w d
  pub sent :
      (s : ℤ) (packet : List ℕ) (to : Text) (w : sys.World) (d : ℤ)
      → held (sys.sendto s packet to w).1 d ≡ held w d
  pub heard : (s : ℤ) (n : ℕ) (w : sys.World) (d : ℤ) → held (sys.received s n w) d ≡ held w d
  pub listed : (w : sys.World) (d : ℤ) → held (sys.getifaddrs w).1 d ≡ held w d
  pub closed :
      (s : ℤ) (w : sys.World) (d : ℤ) → held (sys.close s w) d ≡ not (same_fd d s) && held w d
  pub routes : LastRoute.IsLawful sys.nl sys.World sys.route sys.close held

module _ (sys : System) (held : sys.World → ℤ → Bool) (lawful : IsLawful sys held) where
  SameHeld : sys.World → sys.World → Type 0
  SameHeld u v = (d : ℤ) → held u d ≡ held v d

  send_packet4-Same :
      (to : Option Text) (m : Monitor sys) (d : ℤ)
      → held (send_packet4 sys to m).1.world d ≡ held m.world d
  send_packet4-Same none m d = refl
  send_packet4-Same (some addr) m d =
      lawful.sent m.v4.sock (echo_request4 m.pid m.seq4) addr m.world d

  send_packet6-Same :
      (to : Option Text) (m : Monitor sys) (d : ℤ)
      → held (send_packet6 sys to m).1.world d ≡ held m.world d
  send_packet6-Same none m d = refl
  send_packet6-Same (some addr) m d =
      lawful.sent m.v6.sock (echo_request6 m.pid m.seq6) addr m.world d

  send_ping4-Same :
      (ip : Text) (m : Monitor sys) (d : ℤ) → held (send_ping4 sys ip m).1.world d ≡ held m.world d
  unfolding send_ping4
  send_ping4-Same ip m d = ground (arith, send_packet4-Same (sys.pton4 (c_str ip)) m d)

  send_ping6-Same :
      (ip : Text) (m : Monitor sys) (d : ℤ) → held (send_ping6 sys ip m).1.world d ≡ held m.world d
  unfolding send_ping6
  send_ping6-Same ip m d = ground (arith, send_packet6-Same (sys.pton6 (c_str ip)) m d)

  recv_reply4-Same : (m : Monitor sys) (d : ℤ) → held (recv_reply4 sys m).1.world d ≡ held m.world d
  unfolding recv_reply4
  recv_reply4-Same m d =
      let matches : List ℕ → Bool = λ buf. is_matching_reply4 buf m.pid in
      let n = (drain_replies sys matches (sys.datagrams m.v4.sock m.world) 0).1 in
      ground (arith, lawful.heard m.v4.sock n m.world d)

  recv_reply6-Same : (m : Monitor sys) (d : ℤ) → held (recv_reply6 sys m).1.world d ≡ held m.world d
  unfolding recv_reply6
  recv_reply6-Same m d =
      let matches : List ℕ → Bool = λ buf. is_matching_reply6 buf m.pid in
      let n = (drain_replies sys matches (sys.datagrams m.v6.sock m.world) 0).1 in
      ground (arith, lawful.heard m.v6.sock n m.world d)

  pub ping4-Same :
      (ip : Text) (m : Monitor sys) (d : ℤ) → held (ping4 sys ip m).1.world d ≡ held m.world d
  unfolding ping4
  ping4-Same ip m d =
      let m' = (send_ping4 sys ip m).1 in
      ground (arith, send_ping4-Same ip m d, recv_reply4-Same m' d)

  pub ping6-Same :
      (ip : Text) (m : Monitor sys) (d : ℤ) → held (ping6 sys ip m).1.world d ≡ held m.world d
  unfolding ping6
  ping6-Same ip m d =
      let m' = (send_ping6 sys ip m).1 in
      ground (arith, send_ping6-Same ip m d, recv_reply6-Same m' d)

  pub recheck-Same :
      (t : ProtoTrack) (family : ℕ) (m : Monitor sys) (d : ℤ)
      → held (maybe_recheck_local_address sys t family m).1.world d ≡ held m.world d
  unfolding maybe_recheck_local_address iface_has_address
  recheck-Same t family m d = ground (arith, lawful.listed m.world d)

  pub resolve_once-Same :
      (t : ProtoTrack) (family : ℕ) (m : Monitor sys) (d : ℤ)
      → held (resolve_once sys t family m).1.world d ≡ held m.world d
  unfolding resolve_once
  resolve_once-Same t family m d =
      let r =
        resolve_gateway-is_open sys.nl sys.addresses.ntop4 sys.addresses.ntop6 sys.World sys.route
          sys.close held lawful.routes m.iface family m.world in
      ground (arith, r d)
