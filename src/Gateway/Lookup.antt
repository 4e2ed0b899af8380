-- ===== src/Gateway/Lookup.antt =====
-- src/shared/gateway_resolver.cpp: the request and the socket of a GatewayResolver, and resolveGateway
-- of src/shared/gateway_resolve.hpp. The calls of the kernel are parameters.
use Prim.Native.Nat.{bit_or}
use conwatch.Prelude.{
  ℕ, suc, ◌%◌, Bool, false, not, ◌==◌, Option, none, List, [], ◌∷◌, Text, c_str, ℤ, pos, negsuc,
  is_negative, if◌then◌else◌,
}
use conwatch.Rtnetlink.{Rtnetlink}
use conwatch.Gateway.{scan_batch, drain}

pub record RouteRequest : Type 0 where
  pub nlmsg_len : ℕ
  pub nlmsg_type : ℕ
  pub nlmsg_flags : ℕ
  pub nlmsg_seq : ℕ
  pub rtm_family : ℕ

-- `socket_route` is socket(AF_NETLINK, SOCK_RAW, NETLINK_ROUTE); `batches s w` is what successive
-- calls of recv on `s` return until one returns 0 or less, and `received s n w` the world after `n`
-- calls.
pub record RouteCalls (nl : Rtnetlink) (World : Type 0) : Type 0 where
  pub if_nametoindex : Text → World → ℕ
  pub socket_route : World → ℤ × World
  pub send : ℤ → RouteRequest → World → ℤ × World
  pub batches : ℤ → World → List nl.Messages
  pub received : ℤ → ℕ → World → World
  pub sizeof_request : ℕ
  pub rtm_getroute : ℕ
  pub nlm_f_request : ℕ
  pub nlm_f_dump : ℕ

-- `n == sizeof(req)`
abbrev pub is_size : ℕ → ℤ → Bool
is_size size (pos n) = n == size
is_size size (negsuc n) = false

module _ (nl : Rtnetlink) (ntop4 ntop6 : Text → Option Text) (World : Type 0)
    (calls : RouteCalls nl World) (close : ℤ → World → World) where
  -- The family is an `unsigned char` in the request.
  unfoldable pub build_request : ℕ → RouteRequest
  build_request family = record {
    nlmsg_len = calls.sizeof_request;
    nlmsg_type = calls.rtm_getroute;
    nlmsg_flags = bit_or calls.nlm_f_request calls.nlm_f_dump;
    nlmsg_seq = 1;
    rtm_family = family % 256;
  }

  -- The calls of recv that `drain` makes.
  unfoldable pub drain_calls : ℕ → ℕ → List nl.Messages → ℕ
  drain_calls family ifindex [] = 1
  drain_calls family ifindex (b ∷ bs) =
      let rest = drain_calls family ifindex bs in
      if (scan_batch nl ntop4 ntop6 family ifindex b).done then 1 else suc rest

  unfoldable pub send_request_and_drain : ℕ → ℕ → ℤ → World → Option Text × World
  send_request_and_drain family ifindex fd w =
      let (sent, w1) = calls.send fd (build_request family) w in
      let bs = calls.batches fd w1 in
      if not (is_size calls.sizeof_request sent) then (none, w1) else (
        drain nl ntop4 ntop6 family ifindex bs none,
        calls.received fd (drain_calls family ifindex bs) w1,
      )

  -- `GatewayResolver(iface, family).resolve()`.
  unfoldable pub resolve : Text → ℕ → World → Option Text × World
  resolve iface family w =
      let ifindex = calls.if_nametoindex (c_str iface) w in
      let (fd, w1) = calls.socket_route w in
      let (result, w2) = send_request_and_drain family ifindex fd w1 in
      if ifindex == 0
      then (none, w)
      else (if is_negative fd then (none, w1) else (result, close fd w2))

  -- `resolveGateway(iface, family)`.
  abbrev pub resolve_gateway : Text → ℕ → World → Option Text × World
  resolve_gateway iface family w = resolve iface family w
