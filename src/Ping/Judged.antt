-- ===== src/Ping/Judged.antt =====
-- What a tick makes of the answer of each protocol's target.
use conwatch.Prelude.{◌+◌, ◌≡◌, Bool, false, ◌&&◌, none, some, Text, c_str, any, if◌then◌else◌}
use conwatch.Icmp.{echo_request4, echo_request6, is_matching_reply4, is_matching_reply6}
use conwatch.Ping.{System, Monitor, ProtoTrack}
use conwatch.Ping.Sockets.{is_open, is_whole}
use conwatch.Ping.Tick.{set_v4, set_v6, maybe_recheck_local_address}
use conwatch.Ping.Track.{is_active}

-- The streak of a protocol behind a tick that pinged it or not, and was answered or not.
pub record Judged (pinged replied : Bool) (t t' : ProtoTrack) : Type 0 where
  pub active : is_active t' ≡ pinged
  pub streak :
      t'.fail_streak
      ≡ (if pinged then (if replied then 0 else t.fail_streak + 1) else t.fail_streak)

module _ (sys : System) where
  -- A ping of `ip` goes out whole over an open socket, and a reply to this process is among the
  -- datagrams that arrive behind it.
  abbrev pub replied4 : Text → Monitor sys → Bool
  replied4 ip m = is_open m.v4.sock && elim (sys.pton4 (c_str ip)) [
    | none ↦ false
    | some address ↦
        let (n, w) = sys.sendto m.v4.sock (echo_request4 m.pid m.seq4) address m.world in
        is_whole n && any (λ buf. is_matching_reply4 buf m.pid) (sys.datagrams m.v4.sock w)
  ]

  -- The monitor behind the recheck of the local address, which the ping of the tick sees.
  abbrev pub rechecked4 : Monitor sys → Monitor sys
  rechecked4 m =
      let (t, m0) = maybe_recheck_local_address sys m.v4 sys.nl.af_inet m in set_v4 sys t m0

  -- A ping of `ip` goes out whole over an open socket, and a reply to this process is among the
  -- datagrams that arrive behind it.
  abbrev pub replied6 : Text → Monitor sys → Bool
  replied6 ip m = is_open m.v6.sock && elim (sys.pton6 (c_str ip)) [
    | none ↦ false
    | some address ↦
        let (n, w) = sys.sendto m.v6.sock (echo_request6 m.pid m.seq6) address m.world in
        is_whole n && any (λ buf. is_matching_reply6 buf m.pid) (sys.datagrams m.v6.sock w)
  ]

  -- The monitor behind the recheck of the local address, which the ping of the tick sees.
  abbrev pub rechecked6 : Monitor sys → Monitor sys
  rechecked6 m =
      let (t, m0) = maybe_recheck_local_address sys m.v6 sys.nl.af_inet6 m in set_v6 sys t m0
