-- ===== src/Ping/Untouched.antt =====
-- The pings of a tick leave the tray alone.
use conwatch.Prelude.{ℕ, ◌≡◌, ◌∙◌, ◌==◌, Text, if◌then◌else◌, arith, ◌%◌, ◌+◌}
use conwatch.Ping.{System, Monitor, ProtoTrack, icon_key}
use conwatch.Ping.Sockets.{
  open_socket4, open_socket6, ping4, ping6, send_ping4, send_ping6, recv_reply4, recv_reply6,
  iface_has_address,
}
use conwatch.Ping.Tick.{
  tick_v4, tick_v6, maybe_recheck_local_address, resolve_once, check_gateway4, check_gateway6,
  lost4, lost6, set_v4, set_v6,
}

module _ (sys : System) where
  -- What the protocols' part of a tick leaves alone.
  pub record SameTray (m m' : Monitor sys) : Type 1 where
    pub severity : m'.current_severity ≡ m.current_severity
    pub glyph : m'.current_glyph ≡ m.current_glyph
    pub last : m'.last_tick_state ≡ m.last_tick_state
    pub calls : m'.calls ≡ m.calls
    pub cache : m'.icon_cache ≡ m.icon_cache
    pub tag : m'.iface_tag ≡ m.iface_tag
    pub iface : m'.iface ≡ m.iface
    pub pid : m'.pid ≡ m.pid
    pub label : m'.label ≡ m.label
    pub tooltip : m'.current_tooltip ≡ m.current_tooltip

  pub SameTray-trans : {m m' m'' : Monitor sys} → SameTray m m' → SameTray m' m'' → SameTray m m''
  SameTray-trans a b = record {
    severity = b.severity ∙ a.severity;
    glyph = b.glyph ∙ a.glyph;
    last = b.last ∙ a.last;
    calls = b.calls ∙ a.calls;
    cache = b.cache ∙ a.cache;
    tag = b.tag ∙ a.tag;
    iface = b.iface ∙ a.iface;
    pid = b.pid ∙ a.pid;
    label = b.label ∙ a.label;
    tooltip = b.tooltip ∙ a.tooltip;
  }

  pub ping4-SameTray : (ip : Text) (m : Monitor sys) → SameTray m (ping4 sys ip m).1
  unfolding ping4 send_ping4 recv_reply4
  ping4-SameTray ip m = ground arith

  pub ping6-SameTray : (ip : Text) (m : Monitor sys) → SameTray m (ping6 sys ip m).1
  unfolding ping6 send_ping6 recv_reply6
  ping6-SameTray ip m = ground arith

  pub open_socket4-SameTray : (m : Monitor sys) → SameTray m (open_socket4 sys m)
  unfolding open_socket4
  open_socket4-SameTray m = ground arith

  pub open_socket6-SameTray : (m : Monitor sys) → SameTray m (open_socket6 sys m)
  unfolding open_socket6
  open_socket6-SameTray m = ground arith

  pub resolve_once-SameTray :
      (t : ProtoTrack) (family : ℕ) (m : Monitor sys) → SameTray m (resolve_once sys t family m).1
  unfolding resolve_once
  resolve_once-SameTray t family m = ground arith

  pub recheck-SameTray :
      (t : ProtoTrack) (family : ℕ) (m : Monitor sys)
      → SameTray m (maybe_recheck_local_address sys t family m).1
  unfolding maybe_recheck_local_address iface_has_address
  recheck-SameTray t family m = ground arith

  check_gateway4-SameTray : (m : Monitor sys) → SameTray m (check_gateway4 sys m)
  unfolding check_gateway4
  check_gateway4-SameTray m =
      let r = resolve_once sys m.v4 sys.nl.af_inet m in
      ground (
        arith,
        resolve_once-SameTray m.v4 sys.nl.af_inet m,
        ping4-SameTray r.0.gateway_ip (set_v4 sys r.0 r.1),
      )

  check_gateway6-SameTray : (m : Monitor sys) → SameTray m (check_gateway6 sys m)
  unfolding check_gateway6
  check_gateway6-SameTray m =
      let r = resolve_once sys m.v6 sys.nl.af_inet6 m in
      ground (
        arith,
        resolve_once-SameTray m.v6 sys.nl.af_inet6 m,
        ping6-SameTray r.0.gateway_ip (set_v6 sys r.0 r.1),
      )

  lost4-SameTray : (m : Monitor sys) → SameTray m (lost4 sys m)
  unfolding lost4
  lost4-SameTray m =
      let streak = m.v4.fail_streak + 1 in
      let m1 = set_v4 sys (record m.v4 { fail_streak = streak }) m in
      let m2 = if streak % 10 == 0 then open_socket4 sys m1 else m1 in
      let o : SameTray m m2 = ground (arith, open_socket4-SameTray m1) in
      ground (arith, o, check_gateway4-SameTray m2)

  lost6-SameTray : (m : Monitor sys) → SameTray m (lost6 sys m)
  unfolding lost6
  lost6-SameTray m =
      let streak = m.v6.fail_streak + 1 in
      let m1 = set_v6 sys (record m.v6 { fail_streak = streak }) m in
      let m2 = if streak % 10 == 0 then open_socket6 sys m1 else m1 in
      let o : SameTray m m2 = ground (arith, open_socket6-SameTray m1) in
      ground (arith, o, check_gateway6-SameTray m2)

  pub tick_v4-SameTray : (m : Monitor sys) → SameTray m (tick_v4 sys m)
  unfolding tick_v4
  tick_v4-SameTray m =
      let r = maybe_recheck_local_address sys m.v4 sys.nl.af_inet m in
      let m1 = set_v4 sys r.0 r.1 in
      let p = ping4 sys r.0.target_ip m1 in
      ground (
        arith,
        recheck-SameTray m.v4 sys.nl.af_inet m,
        ping4-SameTray r.0.target_ip m1,
        lost4-SameTray p.1,
      )

  pub tick_v6-SameTray : (m : Monitor sys) → SameTray m (tick_v6 sys m)
  unfolding tick_v6
  tick_v6-SameTray m =
      let r = maybe_recheck_local_address sys m.v6 sys.nl.af_inet6 m in
      let m1 = set_v6 sys r.0 r.1 in
      let p = ping6 sys r.0.target_ip m1 in
      ground (
        arith,
        recheck-SameTray m.v6 sys.nl.af_inet6 m,
        ping6-SameTray r.0.target_ip m1,
        lost6-SameTray p.1,
      )
