-- ===== src/Ping/Addressed.antt =====
-- The first tick of an interface that has an address.
use conwatch.Prelude.{ℕ, ◌≡◌, refl, sym, ap, ◌∙◌, subst, Bool, true, false, Text, codes, arith, ◌∷◌}
use conwatch.Ping.{System, Monitor, ProtoTrack, set_text, set_tool_tip}
use conwatch.Ping.Sockets.{any_address, open_socket4, open_socket6, ping4, ping6, iface_has_address}
use conwatch.Ping.Tick.{set_v4, set_v6, maybe_recheck_local_address, tick_v4, tick_v6}
use conwatch.Ping.Setup.{
  apply_gateway_override, Arguments, resolve_initial_targets, setup_tray, blank, open_if4, open_if6,
  construct,
}
use conwatch.Ping.Status.{render_tray, apply_status, set_tray_icon, icon_for}
use conwatch.Ping.Track.{is_active, ping4-tracks, ping6-tracks, lost4-TrackStep, lost6-TrackStep}
use conwatch.Ping.History.{render_tray-tracks}

-- A protocol whose address is looked for at the next tick.
abbrev pub IsFresh : ProtoTrack → Type 0
IsFresh t = (t.recheck_ticks_left ≡ 0) × (t.has_local_address ≡ false)

module _ (sys : System) where
  -- The interface has an address of the family, whenever it is asked.
  abbrev pub HasAddress : Text → ℕ → Type 0
  HasAddress iface family =
      (w : sys.World) → any_address sys (sys.getifaddrs w).0 iface family ≡ true

  pub recheck-finds :
      (t : ProtoTrack) (family : ℕ) (m : Monitor sys)
      → IsFresh t
      → t.configured ≡ true
      → HasAddress m.iface family
      → is_active (maybe_recheck_local_address sys t family m).0 ≡ true
  unfolding maybe_recheck_local_address iface_has_address
  recheck-finds t family m f on found = ground (arith, f, found m.world)

  pub tick_v4-finds :
      (m : Monitor sys)
      → IsFresh m.v4
      → m.v4.configured ≡ true
      → HasAddress m.iface sys.nl.af_inet
      → is_active (tick_v4 sys m).v4 ≡ true
  unfolding tick_v4
  tick_v4-finds m f on found =
      let r = maybe_recheck_local_address sys m.v4 sys.nl.af_inet m in
      let active = recheck-finds m.v4 sys.nl.af_inet m f on found in
      let m1 = set_v4 sys r.0 r.1 in
      let m2 = (ping4 sys r.0.target_ip m1).1 in
      let p = ping4-tracks sys r.0.target_ip m1 in
      let still : is_active m2.v4 ≡ true = ap is_active p.0 ∙ active in
      let l = lost4-TrackStep sys m2 still in
      ground (arith, active, still, l.0.configured, l.0.address)

  pub tick_v6-finds :
      (m : Monitor sys)
      → IsFresh m.v6
      → m.v6.configured ≡ true
      → HasAddress m.iface sys.nl.af_inet6
      → is_active (tick_v6 sys m).v6 ≡ true
  unfolding tick_v6
  tick_v6-finds m f on found =
      let r = maybe_recheck_local_address sys m.v6 sys.nl.af_inet6 m in
      let active = recheck-finds m.v6 sys.nl.af_inet6 m f on found in
      let m1 = set_v6 sys r.0 r.1 in
      let m2 = (ping6 sys r.0.target_ip m1).1 in
      let p = ping6-tracks sys r.0.target_ip m1 in
      let still : is_active m2.v6 ≡ true = ap is_active p.1 ∙ active in
      let l = lost6-TrackStep sys m2 still in
      ground (arith, active, still, l.0.configured, l.0.address)

  module _ (is_letter is_digit : ℕ → Bool) where
    render_tray-iface : (m : Monitor sys) → (render_tray sys m).iface ≡ m.iface
    unfolding render_tray apply_status set_tray_icon icon_for
    render_tray-iface m = ground arith

    resolve_initial_targets-IsFresh :
        (target target6 : Text) (m : Monitor sys)
        → IsFresh m.v4
        → IsFresh m.v6
        → let m' = resolve_initial_targets sys is_letter is_digit target target6 m in
          IsFresh m'.v4 × IsFresh m'.v6
    unfolding resolve_initial_targets
    resolve_initial_targets-IsFresh target target6 m f4 f6 = ground (arith, f4, f6)

    IsFresh-override :
        (value : Text) (t : ProtoTrack) → IsFresh t → IsFresh (apply_gateway_override value t)
    unfolding apply_gateway_override
    IsFresh-override value t f = ground (arith, f)

    -- What opening the sockets leaves alone.
    open_both-IsFresh :
        (m : Monitor sys)
        → IsFresh m.v4
        → IsFresh m.v6
        → let m' = open_if6 sys is_letter is_digit (open_if4 sys is_letter is_digit m) in
          IsFresh m'.v4 × IsFresh m'.v6 × (m'.iface ≡ m.iface)
    unfolding open_socket4 open_socket6
    open_both-IsFresh m f4 f6 = ground (arith, f4, f6)

    pub construct-IsFresh :
        (a : Arguments) (pid : ℕ) (world : sys.World)
        → let m = construct sys is_letter is_digit a pid world in
          IsFresh m.v4 × IsFresh m.v6 × (m.iface ≡ a.iface)
    unfolding construct setup_tray resolve_initial_targets
    construct-IsFresh a pid world =
        let b = blank sys is_letter is_digit a pid world in
        let m1 = resolve_initial_targets sys is_letter is_digit a.target a.target6 b in
        let f1 = resolve_initial_targets-IsFresh a.target a.target6 b (refl, refl) (refl, refl) in
        let m2 = record m1 { v4 = apply_gateway_override a.gateway_ip_override4 m1.v4 } in
        let m3 = record m2 { v6 = apply_gateway_override a.gateway_ip_override6 m2.v6 } in
        let calls =
          set_tool_tip m3.label
          ∷ set_text (sys.arg (codes "%1: starting...") m3.label)
          ∷ m3.calls in
        let m3' = record m3 { calls = calls } in
        let t = render_tray-tracks sys m3' in
        let m4 = setup_tray sys is_letter is_digit m3 in
        let o =
          open_both-IsFresh m4
            (subst IsFresh (sym t.0) (IsFresh-override a.gateway_ip_override4 m1.v4 f1.0))
            (subst IsFresh (sym t.1) (IsFresh-override a.gateway_ip_override6 m1.v6 f1.1)) in
        (o.0, o.1, o.2 ∙ render_tray-iface m3')
