-- ===== src/Ping/Sockets.antt =====
-- src/conwatch-tray/ping_monitor_socket4.cpp and ping_monitor_socket6.cpp, and the address test of
-- ping_monitor_addr.cpp.
use conwatch.Prelude.{
  ℕ, ◌+◌, ◌%◌, Bool, true, false, not, ◌&&◌, ◌==◌, Option, none, some, List, [], ◌∷◌, Text, text_eq,
  c_str, any, ℤ, pos, negsuc, if◌then◌else◌,
}
use conwatch.Icmp.{echo_request4, echo_request6, is_matching_reply4, is_matching_reply6}
use conwatch.Ping.{System, Monitor, IfAddr}

abbrev pub is_open : ℤ → Bool
is_open (pos n) = true
is_open (negsuc n) = false

-- `n == sizeof(packet)`
abbrev pub is_whole : ℤ → Bool
is_whole (pos n) = n == 24
is_whole (negsuc n) = false

module _ (sys : System) where
  abbrev pub set_world : sys.World → Monitor sys → Monitor sys
  set_world w m = record m { world = w }

  abbrev pub close_open : ℤ → sys.World → sys.World
  close_open s w = if is_open s then sys.close s w else w

  -- What is done with a new socket; a failed setsockopt is only reported.
  abbrev pub prepare : ℤ → Text → sys.World → sys.World
  prepare s iface w = if is_open s then sys.set_recv_timeout s (sys.bind_to_device s iface w) else w

  unfoldable pub open_socket4 : Monitor sys → Monitor sys
  open_socket4 m =
      let (s, w) = sys.socket4 (close_open m.v4.sock m.world) in
      record m { v4 = record m.v4 { sock = s }; world = prepare s m.iface w }

  unfoldable pub open_socket6 : Monitor sys → Monitor sys
  open_socket6 m =
      let (s, w) = sys.socket6 (close_open m.v6.sock m.world) in
      record m { v6 = record m.v6 { sock = s }; world = prepare s m.iface w }

  abbrev pub send_packet4 : Option Text → Monitor sys → Bool × Monitor sys
  send_packet4 none m = (false, m)
  send_packet4 (some addr) m =
      let (n, w) = sys.sendto m.v4.sock (echo_request4 m.pid m.seq4) addr m.world in
      (is_whole n, record m { seq4 = (m.seq4 + 1) % 65536; world = w })

  unfoldable pub send_ping4 : Text → Monitor sys → Bool × Monitor sys
  send_ping4 dest_ip m =
      if is_open m.v4.sock then send_packet4 (sys.pton4 (c_str dest_ip)) m else (false, m)

  abbrev pub send_packet6 : Option Text → Monitor sys → Bool × Monitor sys
  send_packet6 none m = (false, m)
  send_packet6 (some addr) m =
      let (n, w) = sys.sendto m.v6.sock (echo_request6 m.pid m.seq6) addr m.world in
      (is_whole n, record m { seq6 = (m.seq6 + 1) % 65536; world = w })

  unfoldable pub send_ping6 : Text → Monitor sys → Bool × Monitor sys
  send_ping6 dest_ip m =
      if is_open m.v6.sock then send_packet6 (sys.pton6 (c_str dest_ip)) m else (false, m)

  -- Whether a datagram matches before the one that ends the wait, and the calls of recvfrom made.
  -- The buffer of the source holds 512 bytes, and recvfrom cuts a longer datagram off.
  unfoldable pub drain_replies : (List ℕ → Bool) → List (List ℕ) → ℕ → Bool × ℕ
  drain_replies matches [] calls = (false, calls + 1)
  drain_replies matches (buf ∷ bufs) calls =
      let rest = drain_replies matches bufs (calls + 1) in
      if matches buf then (true, calls + 1) else rest

  unfoldable pub recv_reply4 : Monitor sys → Bool × Monitor sys
  recv_reply4 m =
      let s = m.v4.sock in
      let (found, calls) =
        drain_replies (λ buf. is_matching_reply4 buf m.pid) (sys.datagrams s m.world) 0 in
      if is_open s then (found, set_world (sys.received s calls m.world) m) else (false, m)

  unfoldable pub recv_reply6 : Monitor sys → Bool × Monitor sys
  recv_reply6 m =
      let s = m.v6.sock in
      let (found, calls) =
        drain_replies (λ buf. is_matching_reply6 buf m.pid) (sys.datagrams s m.world) 0 in
      if is_open s then (found, set_world (sys.received s calls m.world) m) else (false, m)

  -- `sendPing(ip) && recvReply()`
  unfoldable pub ping4 : Text → Monitor sys → Bool × Monitor sys
  ping4 ip m = let (sent, m') = send_ping4 ip m in if sent then recv_reply4 m' else (false, m')

  unfoldable pub ping6 : Text → Monitor sys → Bool × Monitor sys
  ping6 ip m = let (sent, m') = send_ping6 ip m in if sent then recv_reply6 m' else (false, m')

  abbrev pub has_family : Option ℕ → ℕ → Bool
  has_family none family = false
  has_family (some f) family = f == family

  unfoldable pub matches_iface_address : IfAddr → Text → ℕ → Bool
  matches_iface_address a iface family =
      if not (has_family a.family family)
      then false
      else (if not (text_eq iface a.name)
          then false
          else (if (family == sys.nl.af_inet6) && a.link_local then false else true))

  abbrev pub any_address : Option (List IfAddr) → Text → ℕ → Bool
  any_address none iface family = false
  any_address (some addrs) iface family = any (λ a. matches_iface_address a iface family) addrs

  unfoldable pub iface_has_address : ℕ → Monitor sys → Bool × Monitor sys
  iface_has_address family m =
      let (addrs, w) = sys.getifaddrs m.world in (any_address addrs m.iface family, set_world w m)
