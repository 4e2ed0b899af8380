-- ===== src/Ping/Redraw.antt =====
-- The tray is redrawn only when a tick changed something, and the colour and the glyph that the
-- monitor remembers are never stale.
use conwatch.Prelude.{
  ℕ, zero, suc, ◌≡◌, refl, sym, ◌∙◌, subst, Bool, true, codes, arith, Bool-cases, inl, inr, ◌⊎◌,
  ◌∷◌, text_eq_iff,
}
use conwatch.Ping.{
  severity_code_injective, System, Monitor, ProtoTrack, set_text, set_tool_tip, icon_key,
}
use conwatch.Ping.Sockets.{open_socket4, open_socket6}
use conwatch.Ping.Tick.{state_of, severity_of, tick_v4, tick_v6}
use conwatch.Ping.Status.{
  icon_for, set_tray_icon, apply_status, render_tray, tick, same_tick_state, tick_state_of,
}
use conwatch.Ping.Setup.{
  Arguments, blank, apply_gateway_override, resolve_initial_targets, setup_tray, open_if4, open_if6,
  construct, never_ticked,
}
use conwatch.Ping.Outcome.{tick_protocols-TrackStep}
use conwatch.Ping.History.{ticks, render_tray-tracks, ticks-BothSound}
use conwatch.Ping.Rules.{colour, glyph, FollowsRules, colour_lem}
use conwatch.Ping.Untouched.{tick_v4-SameTray, tick_v6-SameTray}

module _ (sys : System) where
  -- The tray shows the tracks, and `last_tick_state` is theirs unless no tick has run.
  pub record Current (m : Monitor sys) : Type 0 where
    pub severity : m.current_severity ≡ colour m.v4 m.v6
    pub glyph : m.current_glyph ≡ glyph m.v4 m.v6
    pub last : (m.last_tick_state ≡ never_ticked) ⊎ (m.last_tick_state ≡ tick_state_of sys m)

  render_tray-shows :
      (m : Monitor sys)
      → ((render_tray sys m).current_severity ≡ colour m.v4 m.v6)
        × ((render_tray sys m).current_glyph ≡ glyph m.v4 m.v6)
        × ((render_tray sys m).last_tick_state ≡ m.last_tick_state)
  unfolding render_tray set_tray_icon apply_status icon_for
  render_tray-shows m = ground (
    arith,
    severity_code_injective (colour m.v4 m.v6) m.current_severity,
    text_eq_iff (glyph m.v4 m.v6) m.current_glyph,
  )

  -- What the colour and the glyph depend on.
  pub record SameShown (t t' : ProtoTrack) : Type 0 where
    pub configured : t'.configured ≡ t.configured
    pub address : t'.has_local_address ≡ t.has_local_address
    pub streak : t'.fail_streak ≡ t.fail_streak
    pub reachable : t'.gateway_reachable ≡ t.gateway_reachable

  pub SameShown-state : (t t' : ProtoTrack) → SameShown t t' → state_of t' ≡ state_of t
  unfolding state_of
  SameShown-state t t' h = rw (h.configured, h.address, h.streak) refl

  SameShown-severity : (t t' : ProtoTrack) → SameShown t t' → severity_of t' ≡ severity_of t
  unfolding severity_of
  SameShown-severity t t' h = rw (h.streak, h.reachable) refl

  shown :
      (t4 t6 t4' t6' : ProtoTrack)
      → SameShown t4 t4'
      → SameShown t6 t6'
      → (colour t4' t6' ≡ colour t4 t6) × (glyph t4' t6' ≡ glyph t4 t6)
  shown t4 t6 t4' t6' a b =
      rw
        (
          SameShown-state t4 t4' a,
          SameShown-state t6 t6' b,
          SameShown-severity t4 t4' a,
          SameShown-severity t6 t6' b,
        )
        (refl, refl)

  pub unchanged :
      (m m' : Monitor sys)
      → (m'.v4.configured ≡ m.v4.configured) × (m'.v6.configured ≡ m.v6.configured)
      → (m.last_tick_state ≡ never_ticked) ⊎ (m.last_tick_state ≡ tick_state_of sys m)
      → same_tick_state (tick_state_of sys m') m.last_tick_state ≡ true
      → SameShown m.v4 m'.v4 × SameShown m.v6 m'.v6 × (tick_state_of sys m' ≡ tick_state_of sys m)
  unchanged m m' c last h = ground arith

  drawn-Current :
      (m : Monitor sys)
      → (m.last_tick_state ≡ never_ticked) ⊎ (m.last_tick_state ≡ tick_state_of sys m)
      → Current (render_tray sys m)
  drawn-Current m last =
      let d = render_tray-shows m in
      let t = render_tray-tracks sys m in
      record {
        severity = rw (t.0, t.1) d.0;
        glyph = rw (t.0, t.1) d.1;
        last = rw (d.2, t.0, t.1) last;
      }

  tick-Current : (m : Monitor sys) → Current m → Current (tick sys m)
  unfolding tick
  tick-Current m c =
      let o = tick_protocols-TrackStep sys m in
      let m1 = tick_v6 sys (tick_v4 sys m) in
      let a = tick_v4-SameTray sys m in
      let b = tick_v6-SameTray sys (tick_v4 sys m) in
      let last : m1.last_tick_state ≡ m.last_tick_state = b.last ∙ a.last in
      let state = tick_state_of sys m1 in
      elim (Bool-cases (same_tick_state state m1.last_tick_state)) [
        | inl same ↦
            let u =
              unchanged m m1 (o.0.configured, o.2.configured) c.last
                (subst (λ l. same_tick_state state l ≡ true) last same) in
            let s = shown m.v4 m.v6 m1.v4 m1.v6 u.0 u.1 in
            rw same (record {
              severity = b.severity ∙ a.severity ∙ c.severity ∙ sym s.0;
              glyph = b.glyph ∙ a.glyph ∙ c.glyph ∙ sym s.1;
              last = elim c.last [
                | inl never ↦ inl (last ∙ never)
                | inr as_left ↦ inr (last ∙ as_left ∙ sym u.2)
              ];
            })
        | inr changed ↦
            rw changed (drawn-Current (record m1 { last_tick_state = state }) (inr refl))
      ]

  -- A tick after which every streak, address and gateway reads as the last tick left it tells the
  -- tray nothing, not even a line that it already shows.
  pub tick-calls :
      (m : Monitor sys)
      → same_tick_state (tick_state_of sys (tick_v6 sys (tick_v4 sys m))) m.last_tick_state ≡ true
      → (tick sys m).calls ≡ m.calls
  unfolding tick
  tick-calls m same =
      let m1 = tick_v6 sys (tick_v4 sys m) in
      let a = tick_v4-SameTray sys m in
      let b = tick_v6-SameTray sys (tick_v4 sys m) in
      let last : m1.last_tick_state ≡ m.last_tick_state = b.last ∙ a.last in
      let same' : same_tick_state (tick_state_of sys m1) m1.last_tick_state ≡ true =
        subst (λ l. same_tick_state (tick_state_of sys m1) l ≡ true) (sym last) same in
      rw same' (b.calls ∙ a.calls)

  module _ (is_letter is_digit : ℕ → Bool) where
    open4-Current : (m : Monitor sys) → Current m → Current (open_if4 sys is_letter is_digit m)
    unfolding open_socket4 state_of severity_of
    open4-Current m c = ground (arith, c.severity, c.glyph, c.last)

    open6-Current : (m : Monitor sys) → Current m → Current (open_if6 sys is_letter is_digit m)
    unfolding open_socket6 state_of severity_of
    open6-Current m c = ground (arith, c.severity, c.glyph, c.last)

    setup_tray-Current :
        (m : Monitor sys)
        → m.last_tick_state ≡ never_ticked
        → Current (setup_tray sys is_letter is_digit m)
    unfolding setup_tray
    setup_tray-Current m never =
        let calls =
          set_tool_tip m.label ∷ set_text (sys.arg (codes "%1: starting...") m.label) ∷ m.calls in
        drawn-Current (record m { calls = calls }) (inl never)

    construct-Current :
        (a : Arguments) (pid : ℕ) (world : sys.World)
        → Current (construct sys is_letter is_digit a pid world)
    unfolding construct resolve_initial_targets
    construct-Current a pid world =
        let b = blank sys is_letter is_digit a pid world in
        let m1 = resolve_initial_targets sys is_letter is_digit a.target a.target6 b in
        let m2 = record m1 { v4 = apply_gateway_override a.gateway_ip_override4 m1.v4 } in
        let m3 = record m2 { v6 = apply_gateway_override a.gateway_ip_override6 m2.v6 } in
        let m4 = setup_tray sys is_letter is_digit m3 in
        let m5 = open_if4 sys is_letter is_digit m4 in
        open6-Current m5 (open4-Current m4 (setup_tray-Current m3 refl))

    pub ticks-Current :
        (a : Arguments) (pid : ℕ) (world : sys.World) (n : ℕ)
        → Current (ticks sys n (construct sys is_letter is_digit a pid world))
    unfolding ticks
    ticks-Current a pid world zero = construct-Current a pid world
    ticks-Current a pid world (suc n) =
        tick-Current (ticks sys n (construct sys is_letter is_digit a pid world))
          (ticks-Current a pid world n)

    -- What is remembered is never stale: after any number of ticks of a monitor made by the
    -- constructor, the current colour and glyph are those of its two tracks, also behind ticks that
    -- skipped the redraw.
    pub ticks-shown :
        (a : Arguments) (pid : ℕ) (world : sys.World) (n : ℕ)
        → let m = ticks sys n (construct sys is_letter is_digit a pid world) in
          (m.current_severity ≡ colour m.v4 m.v6) × (m.current_glyph ≡ glyph m.v4 m.v6)
    ticks-shown a pid world n = let c = ticks-Current a pid world n in (c.severity, c.glyph)

    -- After any number of ticks of a monitor made by the constructor, the current colour follows the
    -- README's rules for the two tracks, but for two things: blue is tried before yellow, and the
    -- colour is also green where no protocol is active.
    pub ticks-FollowsRules :
        (a : Arguments) (pid : ℕ) (world : sys.World) (n : ℕ)
        → let m = ticks sys n (construct sys is_letter is_digit a pid world) in
          FollowsRules m.current_severity m.v4 m.v6
    ticks-FollowsRules a pid world n =
        let m = ticks sys n (construct sys is_letter is_digit a pid world) in
        let s = ticks-BothSound sys is_letter is_digit a pid world n in
        subst (λ c. FollowsRules c m.v4 m.v6) (sym (ticks-shown a pid world n).0)
          (colour_lem m.v4 m.v6 s.0 s.1)
