-- ===== src/Ping/Icon.antt =====
-- The icon that the tray shows, and the cache it is taken from.
use mathlib.Core.Option.{some_inj}
use mathlib.Core.Path.{ap₂}
use mathlib.Core.Bool.{true≢false}
use conwatch.Prelude.{
  ℕ, zero, suc, ◌≡◌, refl, sym, ap, ◌∙◌, Bool, true, false, ◌&&◌, Option, none, some, List, [], ◌∷◌,
  Text, text_eq, codes, arith, Bool-cases, Option-cases, inl, inr, ◌⊎◌,
}
use conwatch.Prelude.Map.{lookup, lookup-insert}
use conwatch.Ping.{
  severity_code_injective, System, Monitor, ProtoState, Severity, severity_code, same_key,
  same_key_iff, icon_key, TrayCall, set_text, set_icon, set_tool_tip,
}
use conwatch.Ping.Paint.{paint_icon}
use conwatch.Ping.Status.{
  Icon, icon_found, icon_for, set_tray_icon, apply_status, render_tray, glyph_for,
  worst_severity_of, same_severity, tick, tick_state_of, same_tick_state, status_text_for,
}
use conwatch.Ping.Tick.{state_of, severity_of, tick_v4, tick_v6}
use conwatch.Ping.Setup.{
  Arguments, blank, resolve_initial_targets, apply_gateway_override, setup_tray, open_if4, open_if6,
  construct,
}
use conwatch.Ping.History.{ticks}
use conwatch.Ping.Untouched.{
  SameTray, tick_v4-SameTray, tick_v6-SameTray, open_socket4-SameTray, open_socket6-SameTray,
}

module _ (sys : System) where
  -- What the tray was last told to show.
  abbrev pub shown_icon : List (TrayCall sys) → Option (Icon sys)
  shown_icon [] = none
  shown_icon (set_icon icon ∷ calls) = some icon
  shown_icon (set_text text ∷ calls) = shown_icon calls
  shown_icon (set_tool_tip text ∷ calls) = shown_icon calls

  -- Every cached icon is the one that would be painted.
  abbrev Cached : Monitor sys → Type 0
  Cached m =
      (s : Severity) (g : Text) (icon : Icon sys)
      → lookup {K = ℕ × Text} (severity_code s, g) m.icon_cache ≡ some icon
      → icon ≡ paint_icon sys.fonts m.iface_tag s g

  abbrev ShowsIcon : Monitor sys → Type 0
  ShowsIcon m =
      shown_icon m.calls
      ≡ some (paint_icon sys.fonts m.iface_tag m.current_severity m.current_glyph)

  stored-Cached :
      (worst : Severity) (glyph : Text) (m : Monitor sys)
      → Cached m
      → Cached (icon_found sys worst glyph none m).1
  stored-Cached worst glyph m c s g icon h =
      let k : ℕ × Text = (severity_code worst, glyph) in
      let k' : ℕ × Text = (severity_code s, g) in
      let l = lookup-insert k k' (paint_icon sys.fonts m.iface_tag worst glyph) m.icon_cache in
      elim (Bool-cases (same_key k k')) [
        | inl same ↦
            let e = (same_key_iff k k').0 same in
            let e0 = severity_code_injective worst s (ap (λ p. p.0) e) in
            let found : some (paint_icon sys.fonts m.iface_tag worst glyph) ≡ some icon =
              ground (arith, l, same, h) in
            (some_inj.0 (sym found)) ∙ ap₂ (paint_icon sys.fonts m.iface_tag) e0 (ap (λ p. p.1) e)
        | inr other ↦ c s g icon (ground (arith, l, other, h))
      ]

  -- What `iconFor` answers and leaves.
  record Supplied (worst : Severity) (glyph : Text) (m : Monitor sys) (r : Icon sys × Monitor sys)
      : Type 1 where
    icon : r.0 ≡ paint_icon sys.fonts m.iface_tag worst glyph
    cached : Cached r.1
    calls : r.1.calls ≡ m.calls
    tag : r.1.iface_tag ≡ m.iface_tag
    severity : r.1.current_severity ≡ m.current_severity
    glyph_kept : r.1.current_glyph ≡ m.current_glyph

  icon_for-Supplied :
      (worst : Severity) (glyph : Text) (m : Monitor sys)
      → Cached m
      → Supplied worst glyph m (icon_for sys worst glyph m)
  unfolding icon_for
  icon_for-Supplied worst glyph m c =
      elim (Option-cases (lookup {K = ℕ × Text} (severity_code worst, glyph) m.icon_cache)) [
        | inl e ↦ rw e (record {
          icon = refl;
          cached = stored-Cached worst glyph m c;
          calls = refl;
          tag = refl;
          severity = refl;
          glyph_kept = refl;
        })
        | inr (icon, e) ↦ rw e (record {
          icon = c worst glyph icon e;
          cached = c;
          calls = refl;
          tag = refl;
          severity = refl;
          glyph_kept = refl;
        })
      ]

  -- The picture is the right one, and so is every picture to come.
  abbrev pub Pictured : Monitor sys → Type 0
  Pictured m = Cached m × ShowsIcon m

  set_tray_icon-Pictured :
      (worst : Severity) (glyph : Text) (m : Monitor sys)
      → Cached m
      → (text_eq glyph m.current_glyph ≡ true → ShowsIcon m)
      → Pictured (set_tray_icon sys worst glyph m)
  unfolding set_tray_icon
  set_tray_icon-Pictured worst glyph m c k =
      let m1 = record m { current_severity = worst; current_glyph = glyph } in
      let s = icon_for-Supplied worst glyph m1 c in
      elim (Bool-cases (same_severity worst m.current_severity && text_eq glyph m.current_glyph)) [
        | inl same ↦ rw same (c, k (ground (arith, same)))
        | inr other ↦
            rw other (s.cached, ap some s.icon ∙ rw (s.tag, s.severity, s.glyph_kept) refl)
      ]

  apply_status-Pictured :
      (status : Text) (m : Monitor sys) → Pictured m → Pictured (apply_status sys status m)
  unfolding apply_status
  apply_status-Pictured status m p = elim (Bool-cases (text_eq status m.current_tooltip)) [
    | inl same ↦ rw same p
    | inr other ↦ rw other p
  ]

  -- The first glyph is drawn even where the colour is that of a new monitor.
  glyph_for-real :
      (a b : ProtoState) (c d : Severity) → text_eq (glyph_for a b c d) (1 ∷ []) ≡ false
  unfolding glyph_for text_eq
  glyph_for-real a b c d = ground arith

  render_tray-Pictured :
      (m : Monitor sys)
      → Cached m
      → ShowsIcon m ⊎ (m.current_glyph ≡ 1 ∷ [])
      → Pictured (render_tray sys m)
  unfolding render_tray
  render_tray-Pictured m c k =
      let glyph = glyph_for (state_of m.v4) (state_of m.v6) (severity_of m.v4) (severity_of m.v6) in
      let color =
        worst_severity_of (state_of m.v4) (state_of m.v6) (severity_of m.v4) (severity_of m.v6) in
      let real =
        glyph_for-real (state_of m.v4) (state_of m.v6) (severity_of m.v4) (severity_of m.v6) in
      let shows : text_eq glyph m.current_glyph ≡ true → ShowsIcon m = λ same. elim k [
        | inl drawn ↦ drawn
        | inr blank ↦ absurd (true≢false (sym same ∙ ap (text_eq glyph) blank ∙ real))
      ] in
      apply_status-Pictured (status_text_for sys (state_of m.v4) (state_of m.v6) m)
        (set_tray_icon sys color glyph m) (set_tray_icon-Pictured color glyph m c shows)

  SameTray-Pictured : {m m' : Monitor sys} → SameTray sys m m' → Pictured m → Pictured m'
  SameTray-Pictured {m} {m'} t p = (
    λ s g icon h.
        rw t.tag (p.0 s g icon (ap (lookup {K = ℕ × Text} (severity_code s, g)) (sym t.cache) ∙ h)),
    rw (t.tag, t.severity, t.glyph, t.calls) p.1,
  )

  tick-Pictured : (m : Monitor sys) → Pictured m → Pictured (tick sys m)
  unfolding tick
  tick-Pictured m p =
      let m1 = tick_v6 sys (tick_v4 sys m) in
      let state = tick_state_of sys m1 in
      let p1 =
        SameTray-Pictured (tick_v6-SameTray sys (tick_v4 sys m))
          (SameTray-Pictured (tick_v4-SameTray sys m) p) in
      elim (Bool-cases (same_tick_state state m1.last_tick_state)) [
        | inl same ↦ rw same p1
        | inr changed ↦
            rw changed
              (render_tray-Pictured (record m1 { last_tick_state = state }) p1.0 (inl p1.1))
      ]

  module _ (is_letter is_digit : ℕ → Bool) where
    pub open4-SameTray : (m : Monitor sys) → SameTray sys m (open_if4 sys is_letter is_digit m)
    open4-SameTray m = ground (arith, open_socket4-SameTray sys m)

    pub open6-SameTray : (m : Monitor sys) → SameTray sys m (open_if6 sys is_letter is_digit m)
    open6-SameTray m = ground (arith, open_socket6-SameTray sys m)

    construct-Pictured :
        (a : Arguments) (pid : ℕ) (world : sys.World)
        → Pictured (construct sys is_letter is_digit a pid world)
    unfolding construct resolve_initial_targets setup_tray lookup
    construct-Pictured a pid world =
        let b = blank sys is_letter is_digit a pid world in
        let m1 = resolve_initial_targets sys is_letter is_digit a.target a.target6 b in
        let m2 = record m1 { v4 = apply_gateway_override a.gateway_ip_override4 m1.v4 } in
        let m3 = record m2 { v6 = apply_gateway_override a.gateway_ip_override6 m2.v6 } in
        let m4 = setup_tray sys is_letter is_digit m3 in
        let m5 = open_if4 sys is_letter is_digit m4 in
        let calls =
          set_tool_tip m3.label
          ∷ set_text (sys.arg (codes "%1: starting...") m3.label)
          ∷ m3.calls in
        let p4 : Pictured m4 =
          render_tray-Pictured (record m3 { calls = calls }) (λ s g icon h. absurd (ground arith))
            (inr refl) in
        SameTray-Pictured (open6-SameTray m5) (SameTray-Pictured (open4-SameTray m4) p4)

    ticks-Pictured :
        (a : Arguments) (pid : ℕ) (world : sys.World) (n : ℕ)
        → Pictured (ticks sys n (construct sys is_letter is_digit a pid world))
    unfolding ticks
    ticks-Pictured a pid world zero = construct-Pictured a pid world
    ticks-Pictured a pid world (suc n) =
        tick-Pictured (ticks sys n (construct sys is_letter is_digit a pid world))
          (ticks-Pictured a pid world n)

    -- After any number of ticks of a monitor made by the constructor, the tray shows the picture that
    -- is painted for its colour and its glyph, whether it was painted for this or came from the cache.
    pub ticks-shown_icon :
        (a : Arguments) (pid : ℕ) (world : sys.World) (n : ℕ)
        → let m = ticks sys n (construct sys is_letter is_digit a pid world) in
          shown_icon m.calls
          ≡ some (paint_icon sys.fonts m.iface_tag m.current_severity m.current_glyph)
    ticks-shown_icon a pid world n = (ticks-Pictured a pid world n).1
