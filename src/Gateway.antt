-- ===== src/Gateway.antt =====
-- src/shared/gateway_resolver.hpp and gateway_resolver.cpp: from the batches of a dump to the gateway.
pub mod LastRoute
pub mod Lookup
mod Tests
use Prim.Native.Nat.{bit_and}
use conwatch.Prelude.{
  ℕ, ◌+◌, ◌*◌, Bool, true, false, not, ◌&&◌, ◌||◌, ◌==◌, Option, none, some, List, [], ◌∷◌, Text,
  length, get_or, if◌then◌else◌, is_some,
}
use conwatch.Rtnetlink.{Rtnetlink, messages, attributes}

-- The attributes of a route that the resolver keeps. `oif` is the bit pattern of an `int`.
pub record RouteAttrs : Type 0 where
  pub oif : ℕ
  pub gateway : Option Text

abbrev pub no_attrs : RouteAttrs
no_attrs = record { oif = 4294967295; gateway = none }

-- `*static_cast<const int *>(RTA_DATA(rta))` on a little-endian host.
abbrev pub read_int : Text → ℕ
read_int d = get_or d 0 0 + 256 * get_or d 1 0 + 65536 * get_or d 2 0 + 16777216 * get_or d 3 0

-- The result of a batch, and whether the dump has ended.
pub record Scan : Type 0 where
  pub result : Option Text
  pub done : Bool

abbrev pub or_keep : Option Text → Option Text → Option Text
or_keep none old = old
or_keep (some g) old = some g

-- inet_ntop for the two families is a parameter.
module _ (nl : Rtnetlink) (ntop4 ntop6 : Text → Option Text) (family ifindex : ℕ) where
  unfoldable pub scan_attr : nl.Attrs → RouteAttrs → RouteAttrs
  scan_attr a r =
      if nl.rta_type a == nl.rta_oif
      then record r { oif = read_int (nl.rta_data a) }
      else (if nl.rta_type a == nl.rta_gateway
          then record r { gateway = some (nl.rta_data a) }
          else r)

  unfoldable pub scan_attrs : List nl.Attrs → RouteAttrs → RouteAttrs
  scan_attrs [] r = r
  scan_attrs (a ∷ as') r = scan_attrs as' (scan_attr a r)

  unfoldable pub format_gateway : Text → Option Text
  format_gateway g =
      if (family == nl.af_inet) && (length g == 4)
      then ntop4 g
      else (if (family == nl.af_inet6) && (length g == 16) then ntop6 g else none)

  abbrev pub gateway_of : RouteAttrs → Option Text → Option Text
  gateway_of r none = none
  gateway_of r (some g) = if r.oif == ifindex then format_gateway g else none

  unfoldable pub parse_default_route_gateway : nl.Messages → Option Text
  parse_default_route_gateway m =
      if not (nl.rtm_family m == family) || not (nl.rtm_dst_len m == 0)
      then none
      else (let r = scan_attrs (attributes nl (nl.rtm_rta m)) no_attrs in gateway_of r r.gateway)

  -- The loop over the headers of a batch; the result is the last gateway that was found.
  unfoldable pub scan_messages : List nl.Messages → Option Text → Scan
  scan_messages [] result = record { result = result; done = false }
  scan_messages (m ∷ ms) result =
      let rest = scan_messages ms (
        if nl.nlmsg_type m == nl.rtm_newroute
        then or_keep (parse_default_route_gateway m) result
        else result) in
      if (nl.nlmsg_type m == nl.nlmsg_done) || (nl.nlmsg_type m == nl.nlmsg_error)
      then record { result = result; done = true }
      else rest

  unfoldable pub scan_batch : nl.Messages → Scan
  scan_batch m = scan_messages (messages nl m) none

  unfoldable pub drain : List nl.Messages → Option Text → Option Text
  drain [] result = result
  drain (b ∷ bs) result =
      let s = scan_batch b in
      let result' = or_keep s.result result in
      let rest = drain bs result' in if s.done then result' else rest
