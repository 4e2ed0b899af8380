-- ===== src/Ping/Recovery.antt =====
-- How a target that answers comes to be shown.
use conwatch.Prelude.{
  ℕ, zero, suc, ◌≤◌, ◌≡◌, ◌⊎◌, refl, sym, ap, ◌∙◌, subst, Bool, true, ◌||◌, arith, inl, inr,
}
use conwatch.Ping.{System, Monitor, ProtoTrack, Severity, green}
use conwatch.Ping.Setup.{
  blank, apply_gateway_override, Arguments, construct, open_if4, open_if6, setup_tray,
  resolve_initial_targets,
}
use conwatch.Ping.Sockets.{close_open, is_open, open_socket4, open_socket6}
use conwatch.Ping.Tick.{maybe_recheck_local_address, tick_v4, tick_v6}
use conwatch.Ping.Status.{tick, tick_state_of, render_tray, apply_status, set_tray_icon, icon_for}
use conwatch.Ping.Track.{is_active}
use conwatch.Ping.Outcome.{tick_v4-TrackStep, tick_v6-TrackStep}
use conwatch.Ping.History.{ticks, tick-tracks}
use conwatch.Ping.Rules.{both_inactive, is_answering, is_green}
use conwatch.Ping.Redraw.{ticks-FollowsRules}
use conwatch.Ping.Untouched.{tick_v4-SameTray, tick_v6-SameTray}
use conwatch.Ping.Addressed.{IsFresh, HasAddress, recheck-finds, construct-IsFresh}
use conwatch.Ping.Contact.{Answered, Answers4, Answers6, tick_v4-Answered, tick_v6-Answered}

is_green-green : (s : Severity) → is_green s ≡ true → s ≡ green
is_green-green s h = ground arith

module _ (sys : System) where
  render_tray-place :
      (m : Monitor sys) → ((render_tray sys m).pid ≡ m.pid) × ((render_tray sys m).iface ≡ m.iface)
  unfolding render_tray apply_status set_tray_icon icon_for
  render_tray-place m = ground arith

  -- A monitor keeps its process and its interface.
  pub tick-place : (m : Monitor sys) → ((tick sys m).pid ≡ m.pid) × ((tick sys m).iface ≡ m.iface)
  unfolding tick
  tick-place m =
      let m1 = tick_v6 sys (tick_v4 sys m) in
      let a = tick_v4-SameTray sys m in
      let b = tick_v6-SameTray sys (tick_v4 sys m) in
      ground (
        arith,
        render_tray-place (record m1 { last_tick_state = tick_state_of sys m1 }),
        a.pid,
        b.pid,
        a.iface,
        b.iface,
      )

  pub recheck-active :
      (t : ProtoTrack) (family : ℕ) (m : Monitor sys)
      → is_active t ≡ true
      → is_active (maybe_recheck_local_address sys t family m).0 ≡ true
  unfolding maybe_recheck_local_address
  recheck-active t family m on = ground (arith, on)

  -- A track that is pinged and was answered, on an open socket to the target of `t0`.
  record Held (t0 t : ProtoTrack) : Type 0 where
    active : is_active t ≡ true
    streak : t.fail_streak ≡ 0
    opened : is_open t.sock ≡ true
    target_ip : t.target_ip ≡ t0.target_ip

  Answered-Held :
      {t0 t t' : ProtoTrack}
      → is_open t.sock ≡ true
      → t.target_ip ≡ t0.target_ip
      → Answered t t'
      → Held t0 t'
  Answered-Held opened same a = record {
    active = a.active;
    streak = a.streak;
    opened = ap is_open a.sock ∙ opened;
    target_ip = a.target_ip ∙ same;
  }

  tick-Held4 :
      (t0 : ProtoTrack) (m : Monitor sys)
      → Answers4 sys m.pid t0.target_ip
      → is_open m.v4.sock ≡ true
      → m.v4.target_ip ≡ t0.target_ip
      → is_active (maybe_recheck_local_address sys m.v4 sys.nl.af_inet m).0 ≡ true
      → Held t0 (tick sys m).v4
  tick-Held4 t0 m a opened same active =
      let kept = (tick_v6-TrackStep sys (tick_v4 sys m)).2 in
      let step = tick_v4-Answered sys m (subst (Answers4 sys m.pid) (sym same) a) opened active in
      subst (Held t0) (sym ((tick-tracks sys m).0 ∙ kept)) (Answered-Held opened same step)

  ticks-Held4 :
      (n : ℕ) (t0 : ProtoTrack) (m : Monitor sys)
      → Answers4 sys m.pid t0.target_ip
      → is_open m.v4.sock ≡ true
      → m.v4.target_ip ≡ t0.target_ip
      → is_active (maybe_recheck_local_address sys m.v4 sys.nl.af_inet m).0 ≡ true
      → Held t0 (ticks sys (suc n) m).v4 × ((ticks sys (suc n) m).pid ≡ m.pid)
  unfolding ticks
  ticks-Held4 zero t0 m a opened same active =
      (tick-Held4 t0 m a opened same active, (tick-place m).0)
  ticks-Held4 (suc n) t0 m a opened same active =
      let (h, p) = ticks-Held4 n t0 m a opened same active in
      let m' = ticks sys (suc n) m in
      (
        tick-Held4 t0 m' (subst (λ q. Answers4 sys q t0.target_ip) (sym p) a) h.opened h.target_ip
            (recheck-active m'.v4 sys.nl.af_inet m' h.active),
        (tick-place m').0 ∙ p,
      )

  tick-Held6 :
      (t0 : ProtoTrack) (m : Monitor sys)
      → let m' = tick_v4 sys m in
        Answers6 sys m.pid t0.target_ip
        → is_open m.v6.sock ≡ true
        → m.v6.target_ip ≡ t0.target_ip
        → is_active (maybe_recheck_local_address sys m'.v6 sys.nl.af_inet6 m').0 ≡ true
        → Held t0 (tick sys m).v6
  tick-Held6 t0 m a opened same active =
      let m' = tick_v4 sys m in
      let kept = (tick_v4-TrackStep sys m).2 in
      let same' : m'.v6.target_ip ≡ t0.target_ip = ap (λ t. t.target_ip) kept ∙ same in
      let opened' : is_open m'.v6.sock ≡ true = ap (λ t. is_open t.sock) kept ∙ opened in
      let a' : Answers6 sys m'.pid m'.v6.target_ip =
        subst (λ q. Answers6 sys q m'.v6.target_ip) (sym (tick_v4-SameTray sys m).pid)
          (subst (Answers6 sys m.pid) (sym same') a) in
      let step = tick_v6-Answered sys m' a' opened' active in
      subst (Held t0) (sym (tick-tracks sys m).1) (Answered-Held opened' same' step)

  ticks-Held6 :
      (n : ℕ) (t0 : ProtoTrack) (m : Monitor sys)
      → let m' = tick_v4 sys m in
        Answers6 sys m.pid t0.target_ip
        → is_open m.v6.sock ≡ true
        → m.v6.target_ip ≡ t0.target_ip
        → is_active (maybe_recheck_local_address sys m'.v6 sys.nl.af_inet6 m').0 ≡ true
        → Held t0 (ticks sys (suc n) m).v6 × ((ticks sys (suc n) m).pid ≡ m.pid)
  unfolding ticks
  ticks-Held6 zero t0 m a opened same active =
      (tick-Held6 t0 m a opened same active, (tick-place m).0)
  ticks-Held6 (suc n) t0 m a opened same active =
      let (h, p) = ticks-Held6 n t0 m a opened same active in
      let m' = ticks sys (suc n) m in
      let m'' = tick_v4 sys m' in
      let on : is_active m''.v6 ≡ true = ap is_active (tick_v4-TrackStep sys m').2 ∙ h.active in
      (
        tick-Held6 t0 m' (subst (λ q. Answers6 sys q t0.target_ip) (sym p) a) h.opened h.target_ip
            (recheck-active m''.v6 sys.nl.af_inet6 m'' on),
        (tick-place m').0 ∙ p,
      )

  Held-is_answering : {t0 t : ProtoTrack} → Held t0 t → is_answering t ≡ true
  Held-is_answering h = ground (arith, h.active, h.streak)

  module _ (is_letter is_digit : ℕ → Bool) where
    open_both-opened :
        (m : Monitor sys)
        → let m' = open_if6 sys is_letter is_digit (open_if4 sys is_letter is_digit m) in
          (((w : sys.World) → is_open (sys.socket4 w).0 ≡ true)
            → m'.v4.configured ≡ true
            → is_open m'.v4.sock ≡ true)
          × (((w : sys.World) → is_open (sys.socket6 w).0 ≡ true)
              → m'.v6.configured ≡ true
              → is_open m'.v6.sock ≡ true)
    unfolding open_socket4 open_socket6
    open_both-opened m =
        let m4 = open_if4 sys is_letter is_digit m in
        (
          λ opens on. ground (arith, opens (close_open sys m.v4.sock m.world), on),
          λ opens on. ground (arith, opens (close_open sys m4.v6.sock m4.world), on),
        )

    pub construct-opened :
        (a : Arguments) (pid : ℕ) (world : sys.World)
        → let m' = construct sys is_letter is_digit a pid world in
          (((w : sys.World) → is_open (sys.socket4 w).0 ≡ true)
            → m'.v4.configured ≡ true
            → is_open m'.v4.sock ≡ true)
          × (((w : sys.World) → is_open (sys.socket6 w).0 ≡ true)
              → m'.v6.configured ≡ true
              → is_open m'.v6.sock ≡ true)
    unfolding construct
    construct-opened a pid world =
        let b = blank sys is_letter is_digit a pid world in
        let m1 = resolve_initial_targets sys is_letter is_digit a.target a.target6 b in
        let m2 = record m1 { v4 = apply_gateway_override a.gateway_ip_override4 m1.v4 } in
        let m3 = record m2 { v6 = apply_gateway_override a.gateway_ip_override6 m2.v6 } in
        open_both-opened (setup_tray sys is_letter is_digit m3)

    -- Where a target answers, the tray is green from the first tick on: for a monitor made by the
    -- constructor, and for one of the protocols a target that answers every ping of that protocol,
    -- sockets that open and take these pings whole, and an address of the interface, whatever
    -- becomes of the other protocol, whose sockets and pings may all fail.
    pub ticks-green :
        (a : Arguments) (pid : ℕ) (world : sys.World) (n : ℕ)
        → let m = construct sys is_letter is_digit a pid world in
          ((m.v4.configured ≡ true)
              × HasAddress sys a.iface sys.nl.af_inet
              × Answers4 sys m.pid m.v4.target_ip)
            ⊎ ((m.v6.configured ≡ true)
                × HasAddress sys a.iface sys.nl.af_inet6
                × Answers6 sys m.pid m.v6.target_ip)
          → 1 ≤ n
          → (ticks sys n m).current_severity ≡ green
    ticks-green a pid world zero reach late = absurd (omega (arith, late))
    ticks-green a pid world (suc n) reach late =
        let m = construct sys is_letter is_digit a pid world in
        let m' = tick_v4 sys m in
        let f = construct-IsFresh sys is_letter is_digit a pid world in
        let opened = construct-opened a pid world in
        let rules = ticks-FollowsRules sys is_letter is_digit a pid world (suc n) in
        let u = ticks sys (suc n) m in
        let answers : is_answering u.v4 || is_answering u.v6 ≡ true = elim reach [
          | inl (on, has, answers) ↦
              let found =
                recheck-finds sys m.v4 sys.nl.af_inet m f.0 on
                  (subst (λ i. HasAddress sys i sys.nl.af_inet) (sym f.2) has) in
              let h = ticks-Held4 n m.v4 m answers (opened.0 answers.opens on) refl found in
              ap (λ b. b || is_answering u.v6) (Held-is_answering h.0)
          | inr (on, has, answers) ↦
              let kept = (tick_v4-TrackStep sys m).2 in
              let iface' : m'.iface ≡ a.iface = (tick_v4-SameTray sys m).iface ∙ f.2 in
              let found =
                recheck-finds sys m'.v6 sys.nl.af_inet6 m' (subst IsFresh (sym kept) f.1)
                  (ap (λ t. t.configured) kept ∙ on)
                  (subst (λ i. HasAddress sys i sys.nl.af_inet6) (sym iface') has) in
              let h = ticks-Held6 n m.v6 m answers (opened.1 answers.opens on) refl found in
              ground (arith, Held-is_answering h.0)
        ] in
        is_green-green u.current_severity
          (rules.green_rule ∙ ap (λ b. b || both_inactive u.v4 u.v6) answers)
