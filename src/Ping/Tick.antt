-- ===== src/Ping/Tick.antt =====
-- src/conwatch-tray/ping_monitor_tick.cpp, but for `tick` itself.
use conwatch.Prelude.{
  ℕ, ◌+◌, ◌-◌, ◌%◌, Bool, true, false, not, ◌||◌, ◌==◌, Option, none, some, Text, ltb, leb,
  if◌then◌else◌, is_empty,
}
use conwatch.Override.{Mode, auto, fixed, disabled}
use conwatch.Gateway.Lookup.{resolve_gateway}
use conwatch.Ping.{
  System, Monitor, ProtoTrack, Severity, blue, yellow, red, ProtoState, no_local_address, failing,
  healthy,
}
use conwatch.Ping.Sockets.{set_world, open_socket4, open_socket6, ping4, ping6, iface_has_address}

abbrev pub fail_streak_for_gateway_check : ℕ
fail_streak_for_gateway_check = 10

abbrev pub fail_streak_for_socket_recreate : ℕ
fail_streak_for_socket_recreate = 10

abbrev pub local_address_recheck_ticks : ℕ
local_address_recheck_ticks = 10

abbrev pub is_disabled : Mode → Bool
is_disabled disabled = true
is_disabled auto = false
is_disabled fixed = false

abbrev pub keep_or : Text → Option Text → Text
keep_or old none = old
keep_or old (some gw) = gw

unfoldable pub state_of : ProtoTrack → ProtoState
state_of t =
    if not t.configured || not t.has_local_address
    then no_local_address
    else (if t.fail_streak == 0 then healthy else failing)

unfoldable pub severity_of : ProtoTrack → Severity
severity_of t =
    if ltb t.fail_streak fail_streak_for_gateway_check
    then yellow
    else (if t.gateway_reachable then blue else red)

module _ (sys : System) where
  abbrev pub set_v4 : ProtoTrack → Monitor sys → Monitor sys
  set_v4 t m = record m { v4 = t }

  abbrev pub set_v6 : ProtoTrack → Monitor sys → Monitor sys
  set_v6 t m = record m { v6 = t }

  -- `maybeRecheckLocalAddress(t, family)`, which answers the new `t`.
  unfoldable pub maybe_recheck_local_address :
      ProtoTrack → ℕ → Monitor sys → ProtoTrack × Monitor sys
  maybe_recheck_local_address t family m =
      let (found, m') = iface_has_address sys family m in
      if not t.configured || t.has_local_address
      then (t, m)
      else (if ltb 0 t.recheck_ticks_left
          then (record t { recheck_ticks_left = t.recheck_ticks_left - 1 }, m)
          else (
            record t {
              has_local_address = found;
              recheck_ticks_left = local_address_recheck_ticks;
            },
            m',
          ))

  -- `resolveGateway(iface, family)` the first time, and what the cached address becomes.
  unfoldable pub resolve_once : ProtoTrack → ℕ → Monitor sys → ProtoTrack × Monitor sys
  resolve_once t family m =
      let (found, w) =
        resolve_gateway sys.nl sys.addresses.ntop4 sys.addresses.ntop6 sys.World sys.route sys.close
          m.iface family m.world in
      if t.gateway_resolved then (t, m) else (
        record t { gateway_resolved = true; gateway_ip = keep_or t.gateway_ip found },
        set_world sys w m,
      )

  unfoldable pub check_gateway4 : Monitor sys → Monitor sys
  check_gateway4 m =
      let (t, m1) = resolve_once m.v4 sys.nl.af_inet m in
      let m2 = set_v4 t m1 in
      let (reached, m3) = ping4 sys t.gateway_ip m2 in
      if is_disabled m.v4.gateway_mode
      then set_v4 (record m.v4 { gateway_reachable = false }) m
      else (if is_empty t.gateway_ip
          then set_v4 (record t { gateway_reachable = false }) m2
          else set_v4 (record m3.v4 { gateway_reachable = reached }) m3)

  unfoldable pub check_gateway6 : Monitor sys → Monitor sys
  check_gateway6 m =
      let (t, m1) = resolve_once m.v6 sys.nl.af_inet6 m in
      let m2 = set_v6 t m1 in
      let (reached, m3) = ping6 sys t.gateway_ip m2 in
      if is_disabled m.v6.gateway_mode
      then set_v6 (record m.v6 { gateway_reachable = false }) m
      else (if is_empty t.gateway_ip
          then set_v6 (record t { gateway_reachable = false }) m2
          else set_v6 (record m3.v6 { gateway_reachable = reached }) m3)

  -- The branch of a lost ping.
  unfoldable pub lost4 : Monitor sys → Monitor sys
  lost4 m =
      let streak = m.v4.fail_streak + 1 in
      let m1 = set_v4 (record m.v4 { fail_streak = streak }) m in
      let m2 = if streak % fail_streak_for_socket_recreate == 0 then open_socket4 sys m1 else m1 in
      if leb fail_streak_for_gateway_check streak then check_gateway4 m2 else m2

  unfoldable pub lost6 : Monitor sys → Monitor sys
  lost6 m =
      let streak = m.v6.fail_streak + 1 in
      let m1 = set_v6 (record m.v6 { fail_streak = streak }) m in
      let m2 = if streak % fail_streak_for_socket_recreate == 0 then open_socket6 sys m1 else m1 in
      if leb fail_streak_for_gateway_check streak then check_gateway6 m2 else m2

  unfoldable pub tick_v4 : Monitor sys → Monitor sys
  tick_v4 m =
      let (t, m0) = maybe_recheck_local_address m.v4 sys.nl.af_inet m in
      let m1 = set_v4 t m0 in
      let (ok, m2) = ping4 sys t.target_ip m1 in
      if not t.configured || not t.has_local_address
      then m1
      else (if ok
          then set_v4 (record m2.v4 { fail_streak = 0; gateway_reachable = false }) m2
          else lost4 m2)

  unfoldable pub tick_v6 : Monitor sys → Monitor sys
  tick_v6 m =
      let (t, m0) = maybe_recheck_local_address m.v6 sys.nl.af_inet6 m in
      let m1 = set_v6 t m0 in
      let (ok, m2) = ping6 sys t.target_ip m1 in
      if not t.configured || not t.has_local_address
      then m1
      else (if ok
          then set_v6 (record m2.v6 { fail_streak = 0; gateway_reachable = false }) m2
          else lost6 m2)
