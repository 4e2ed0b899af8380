-- ===== src/Ping/History.antt =====
-- What holds of both protocols after any number of ticks.
use conwatch.Prelude.{
  ℕ, zero, suc, ◌+◌, ◌≤◌, ◌≡◌, refl, sym, ◌≢◌, subst, Bool, true, false, Text, codes, arith, ◌∷◌,
}
use conwatch.Override.{disabled}
use conwatch.Ping.{System, Monitor, ProtoTrack, icon_key, set_text, set_tool_tip}
use conwatch.Ping.Sockets.{open_socket4, open_socket6}
use conwatch.Ping.Tick.{tick_v4, tick_v6}
use conwatch.Ping.Status.{icon_for, set_tray_icon, apply_status, render_tray, tick, tick_state_of}
use conwatch.Ping.Setup.{
  apply_gateway_override, Arguments, resolve_initial_targets, setup_tray, blank, open_if4, open_if6,
  construct,
}
use conwatch.Ping.Track.{is_active, Kept, TrackStep, skipped, answered, lost}
use conwatch.Ping.Outcome.{tick_protocols-TrackStep}

-- Only a protocol that is pinged has losses; the gateway counts as reachable only from the tenth
-- loss on, and only where its check is not disabled.
pub record IsSound (t : ProtoTrack) : Type 0 where
  pub streak_active : is_active t ≡ false → t.fail_streak ≡ 0
  pub reachable_late : t.gateway_reachable ≡ true → 10 ≤ t.fail_streak
  pub reachable_enabled : t.gateway_reachable ≡ true → t.gateway_mode ≢ disabled

pub TrackStep-IsSound : {t t' : ProtoTrack} → Kept t t' → TrackStep t t' → IsSound t → IsSound t'
TrackStep-IsSound k (skipped a e f) s = record {
  streak_active = λ _. ground (arith, k.address, s.streak_active);
  reachable_late = λ h. ground (arith, s.reachable_late);
  reachable_enabled = λ h d. s.reachable_enabled (ground arith) (ground (arith, k.mode));
}
TrackStep-IsSound k (answered a e f) s = record {
  streak_active = λ _. e;
  reachable_late = λ h. absurd (ground arith);
  reachable_enabled = λ h. absurd (ground arith);
}
TrackStep-IsSound {t} {t'} k (lost a e f g) s =
    let late : t'.gateway_reachable ≡ true → 10 ≤ t'.fail_streak =
      λ h. ground (arith, f, s.reachable_late) in
    record {
      streak_active = λ h. absurd (ground arith);
      reachable_late = late;
      reachable_enabled = λ h d. ground (arith, g (late h) d);
    }

TrackStep-fail_streak : {t t' : ProtoTrack} → TrackStep t t' → t'.fail_streak ≤ t.fail_streak + 1
TrackStep-fail_streak (skipped a e f) = omega arith
TrackStep-fail_streak (answered a e f) = omega arith
TrackStep-fail_streak (lost a e f g) = omega arith

module _ (sys : System) where
  abbrev pub BothSound : Monitor sys → Type 0
  BothSound m = IsSound m.v4 × IsSound m.v6

  pub render_tray-tracks :
      (m : Monitor sys) → ((render_tray sys m).v4 ≡ m.v4) × ((render_tray sys m).v6 ≡ m.v6)
  unfolding render_tray apply_status set_tray_icon icon_for
  render_tray-tracks m = ground arith

  pub tick-tracks :
      (m : Monitor sys)
      → let m' = tick_v6 sys (tick_v4 sys m) in
        ((tick sys m).v4 ≡ m'.v4) × ((tick sys m).v6 ≡ m'.v6)
  unfolding tick
  tick-tracks m =
      let m1 = tick_v6 sys (tick_v4 sys m) in
      ground (arith, render_tray-tracks (record m1 { last_tick_state = tick_state_of sys m1 }))

  tick-BothSound : (m : Monitor sys) → BothSound m → BothSound (tick sys m)
  tick-BothSound m s =
      let o = tick_protocols-TrackStep sys m in
      let t = tick-tracks m in
      (
        subst IsSound (sym t.0) (TrackStep-IsSound o.0 o.1 s.0),
        subst IsSound (sym t.1) (TrackStep-IsSound o.2 o.3 s.1),
      )

  -- The timer.
  unfoldable pub ticks : ℕ → Monitor sys → Monitor sys
  ticks zero m = m
  ticks (suc n) m = tick sys (ticks n m)

  -- Before the first tick: no losses, and no gateway has been checked.
  abbrev IsUntried : ProtoTrack → Type 0
  IsUntried t = (t.fail_streak ≡ 0) × (t.gateway_reachable ≡ false)

  IsUntried-IsSound : (t : ProtoTrack) → IsUntried t → IsSound t
  IsUntried-IsSound t u = record {
    streak_active = λ _. u.0;
    reachable_late = λ h. absurd (ground arith);
    reachable_enabled = λ h. absurd (ground arith);
  }

  IsUntried-override :
      (value : Text) (t : ProtoTrack) → IsUntried t → IsUntried (apply_gateway_override value t)
  unfolding apply_gateway_override
  IsUntried-override value t u = ground arith

  abbrev BothUntried : Monitor sys → Type 0
  BothUntried m = IsUntried m.v4 × IsUntried m.v6

  module _ (is_letter is_digit : ℕ → Bool) where
    resolve_initial_targets-BothUntried :
        (target target6 : Text) (m : Monitor sys)
        → BothUntried m
        → BothUntried (resolve_initial_targets sys is_letter is_digit target target6 m)
    unfolding resolve_initial_targets
    resolve_initial_targets-BothUntried target target6 m u = ground arith

    setup_tray-BothUntried :
        (m : Monitor sys) → BothUntried m → BothUntried (setup_tray sys is_letter is_digit m)
    unfolding setup_tray
    setup_tray-BothUntried m u =
        let calls =
          set_tool_tip m.label ∷ set_text (sys.arg (codes "%1: starting...") m.label) ∷ m.calls in
        let t = render_tray-tracks (record m { calls = calls }) in
        (subst IsUntried (sym t.0) u.0, subst IsUntried (sym t.1) u.1)

    open_if4-BothUntried :
        (m : Monitor sys) → BothUntried m → BothUntried (open_if4 sys is_letter is_digit m)
    unfolding open_socket4
    open_if4-BothUntried m u = ground arith

    open_if6-BothUntried :
        (m : Monitor sys) → BothUntried m → BothUntried (open_if6 sys is_letter is_digit m)
    unfolding open_socket6
    open_if6-BothUntried m u = ground arith

    -- The members behind the two overrides, before the tray is set up.
    abbrev pub overridden : Arguments → ℕ → sys.World → Monitor sys
    overridden a pid world =
        let b = blank sys is_letter is_digit a pid world in
        let m1 = resolve_initial_targets sys is_letter is_digit a.target a.target6 b in
        let m2 = record m1 { v4 = apply_gateway_override a.gateway_ip_override4 m1.v4 } in
        record m2 { v6 = apply_gateway_override a.gateway_ip_override6 m2.v6 }

    overridden-BothUntried :
        (a : Arguments) (pid : ℕ) (world : sys.World) → BothUntried (overridden a pid world)
    overridden-BothUntried a pid world =
        let b = blank sys is_letter is_digit a pid world in
        let m1 = resolve_initial_targets sys is_letter is_digit a.target a.target6 b in
        let u1 =
          resolve_initial_targets-BothUntried a.target a.target6 b ((refl, refl), (refl, refl)) in
        (
          IsUntried-override a.gateway_ip_override4 m1.v4 u1.0,
          IsUntried-override a.gateway_ip_override6 m1.v6 u1.1,
        )

    pub overridden-BothSound :
        (a : Arguments) (pid : ℕ) (world : sys.World) → BothSound (overridden a pid world)
    overridden-BothSound a pid world =
        let m = overridden a pid world in
        let u = overridden-BothUntried a pid world in
        (IsUntried-IsSound m.v4 u.0, IsUntried-IsSound m.v6 u.1)

    construct-BothUntried :
        (a : Arguments) (pid : ℕ) (world : sys.World)
        → BothUntried (construct sys is_letter is_digit a pid world)
    unfolding construct
    construct-BothUntried a pid world =
        let m3 = overridden a pid world in
        let m4 = setup_tray sys is_letter is_digit m3 in
        let m5 = open_if4 sys is_letter is_digit m4 in
        open_if6-BothUntried m5
          (open_if4-BothUntried m4 (setup_tray-BothUntried m3 (overridden-BothUntried a pid world)))

    -- After any number of ticks of a monitor made by the constructor, for both protocols: one that
    -- is not pinged counts no losses, and a gateway counts as reachable only after ten losses in a
    -- row and only where its check is not disabled.
    pub ticks-BothSound :
        (a : Arguments) (pid : ℕ) (world : sys.World) (n : ℕ)
        → BothSound (ticks n (construct sys is_letter is_digit a pid world))
    unfolding ticks
    ticks-BothSound a pid world zero =
        let u = construct-BothUntried a pid world in
        let m = construct sys is_letter is_digit a pid world in
        (IsUntried-IsSound m.v4 u.0, IsUntried-IsSound m.v6 u.1)
    ticks-BothSound a pid world (suc n) =
        tick-BothSound (ticks n (construct sys is_letter is_digit a pid world))
          (ticks-BothSound a pid world n)

    -- After n ticks of a monitor made by the constructor no protocol counts more than n losses.
    pub ticks-fail_streak :
        (a : Arguments) (pid : ℕ) (world : sys.World) (n : ℕ)
        → let m = ticks n (construct sys is_letter is_digit a pid world) in
          (m.v4.fail_streak ≤ n) × (m.v6.fail_streak ≤ n)
    unfolding ticks
    ticks-fail_streak a pid world zero =
        let u = construct-BothUntried a pid world in (omega (arith, u.0.0), omega (arith, u.1.0))
    ticks-fail_streak a pid world (suc n) =
        let m = ticks n (construct sys is_letter is_digit a pid world) in
        let h = ticks-fail_streak a pid world n in
        let o = tick_protocols-TrackStep sys m in
        let t = tick-tracks m in
        (
          subst (λ p. p.fail_streak ≤ suc n) (sym t.0)
              (omega (arith, TrackStep-fail_streak o.1, h.0)),
          subst (λ p. p.fail_streak ≤ suc n) (sym t.1)
              (omega (arith, TrackStep-fail_streak o.3, h.1)),
        )
