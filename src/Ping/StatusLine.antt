-- ===== src/Ping/StatusLine.antt =====
-- The line of the menu and the tooltip.
use conwatch.Prelude.{
  ℕ, zero, suc, ◌≡◌, ◌⊎◌, refl, sym, ap, ◌∙◌, subst, Bool, true, Bool-cases, inl, inr, Option, none,
  some, List, [], ◌∷◌, ◌++◌, ◌==◌, if◌then◌else◌, Text, text_eq, text_eq_iff, codes, arith,
}
use conwatch.Ping.{
  System, Monitor, ProtoTrack, Severity, TrayCall, set_text, set_icon, set_tool_tip, icon_key,
}
use conwatch.Ping.Sockets.{open_socket4, open_socket6}
use conwatch.Ping.Tick.{state_of, severity_of, tick_v4, tick_v6}
use conwatch.Ping.Status.{
  icon_for, set_tray_icon, apply_status, render_tray, tick, same_tick_state, tick_state_of,
  status_text_for, proto_status_text, glyph_for, worst_severity_of,
}
use conwatch.Ping.Setup.{
  Arguments, blank, apply_gateway_override, resolve_initial_targets, setup_tray, open_if4, open_if6,
  construct,
}
use conwatch.Ping.Track.{is_active}
use conwatch.Ping.Rules.{both_inactive}
use conwatch.Ping.Outcome.{tick_protocols-TrackStep}
use conwatch.Ping.History.{ticks}
use conwatch.Ping.Redraw.{Current, SameShown, SameShown-state, unchanged, ticks-Current}
use conwatch.Ping.Untouched.{SameTray, SameTray-trans, tick_v4-SameTray, tick_v6-SameTray}

module _ (sys : System) where
  -- What the menu and the tooltip were last told to say.
  abbrev pub shown_line : List (TrayCall sys) → Option Text
  shown_line [] = none
  shown_line (set_text text ∷ calls) = some text
  shown_line (set_icon icon ∷ calls) = shown_line calls
  shown_line (set_tool_tip text ∷ calls) = shown_line calls

  abbrev pub shown_tip : List (TrayCall sys) → Option Text
  shown_tip [] = none
  shown_tip (set_tool_tip text ∷ calls) = some text
  shown_tip (set_icon icon ∷ calls) = shown_tip calls
  shown_tip (set_text text ∷ calls) = shown_tip calls

  -- The text for the two tracks as they are.
  abbrev pub status : Monitor sys → Text
  status m = status_text_for sys (state_of m.v4) (state_of m.v6) m

  -- What is to be said of a protocol: nothing if it is not active.
  abbrev pub words_for : Text → ProtoTrack → List Text
  words_for tag t =
      if is_active t
      then (if t.fail_streak == 0
          then sys.arg (codes "%1 connected") tag
          else sys.arg_number (sys.arg (codes "%1: %2 consecutive losses") tag) t.fail_streak
            ++ (if t.gateway_reachable then codes " (gateway reachable)" else []))
        ∷ []
      else []

  abbrev pub words : Monitor sys → Text
  words m =
      if both_inactive m.v4 m.v6
      then sys.arg (codes "%1: no target resolved") m.label
      else sys.arg2 (codes "%1: %2") m.label
          (sys.join (words_for (codes "v4") m.v4 ++ words_for (codes "v6") m.v6) (codes ", "))

  status-words : (m : Monitor sys) → status m ≡ words m
  unfolding status_text_for proto_status_text state_of
  status-words m = ground arith

  -- The tooltip that is remembered is shown, unless none is.
  abbrev TipShown : Monitor sys → Type 0
  TipShown m = (shown_tip m.calls ≡ some m.current_tooltip) ⊎ (m.current_tooltip ≡ [])

  record Told (m : Monitor sys) : Type 0 where
    line : shown_line m.calls ≡ some (status m)
    remembered : m.current_tooltip ≡ status m
    tip : TipShown m

  set_tray_icon-told :
      (worst : Severity) (glyph : Text) (m : Monitor sys)
      → let m' = set_tray_icon sys worst glyph m in
        (m'.v4 ≡ m.v4)
        × (m'.v6 ≡ m.v6)
        × (m'.label ≡ m.label)
        × (m'.current_tooltip ≡ m.current_tooltip)
        × (shown_tip m'.calls ≡ shown_tip m.calls)
  unfolding set_tray_icon icon_for
  set_tray_icon-told worst glyph m = ground arith

  apply_status-told :
      (text : Text) (m : Monitor sys)
      → TipShown m
      → let m' = apply_status sys text m in
        (m'.v4 ≡ m.v4)
        × (m'.v6 ≡ m.v6)
        × (m'.label ≡ m.label)
        × (shown_line m'.calls ≡ some text)
        × (m'.current_tooltip ≡ text)
        × TipShown m'
  unfolding apply_status
  apply_status-told text m tip = elim (Bool-cases (text_eq text m.current_tooltip)) [
    | inl same ↦
        let e = (text_eq_iff text m.current_tooltip).0 same in
        rw same (refl, refl, refl, refl, sym e, tip)
    | inr other ↦ rw other (refl, refl, refl, refl, refl, inl refl)
  ]

  status-same :
      (m m' : Monitor sys)
      → SameShown sys m.v4 m'.v4
      → SameShown sys m.v6 m'.v6
      → m'.label ≡ m.label
      → status m' ≡ status m
  unfolding status_text_for proto_status_text
  status-same m m' a b l =
      rw
        (
          SameShown-state sys m.v4 m'.v4 a,
          SameShown-state sys m.v6 m'.v6 b,
          a.streak,
          a.reachable,
          b.streak,
          b.reachable,
          l,
        )
        refl

  same_SameShown : (t t' : ProtoTrack) → t' ≡ t → SameShown sys t t'
  same_SameShown t t' e = record {
    configured = ap (λ u. u.configured) e;
    address = ap (λ u. u.has_local_address) e;
    streak = ap (λ u. u.fail_streak) e;
    reachable = ap (λ u. u.gateway_reachable) e;
  }

  render_tray-Told : (m : Monitor sys) → TipShown m → Told (render_tray sys m)
  unfolding render_tray
  render_tray-Told m tip =
      let v4 = state_of m.v4 in
      let v6 = state_of m.v6 in
      let glyph = glyph_for v4 v6 (severity_of m.v4) (severity_of m.v6) in
      let color = worst_severity_of v4 v6 (severity_of m.v4) (severity_of m.v6) in
      let m1 = set_tray_icon sys color glyph m in
      let s = set_tray_icon-told color glyph m in
      let tip1 : TipShown m1 =
        subst (λ x. (shown_tip m1.calls ≡ some x) ⊎ (x ≡ [])) (sym s.3)
          (subst (λ o. (o ≡ some m.current_tooltip) ⊎ (m.current_tooltip ≡ [])) (sym s.4) tip) in
      let a = apply_status-told (status m) m1 tip1 in
      let m2 = apply_status sys (status m) m1 in
      let same =
        status-same m m2 (same_SameShown m.v4 m2.v4 (a.0 ∙ s.0))
          (same_SameShown m.v6 m2.v6 (a.1 ∙ s.1)) (a.2 ∙ s.2) in
      record { line = a.3 ∙ ap some (sym same); remembered = a.4 ∙ sym same; tip = a.5 }

  -- A step that leaves the tray alone and the tracks as they are shown.
  kept-Told :
      (m m' : Monitor sys)
      → SameTray sys m m'
      → SameShown sys m.v4 m'.v4
      → SameShown sys m.v6 m'.v6
      → Told m
      → Told m'
  kept-Told m m' t a b d =
      let same = status-same m m' a b t.label in
      record {
        line = ap shown_line t.calls ∙ d.line ∙ ap some (sym same);
        remembered = t.tooltip ∙ d.remembered ∙ sym same;
        tip =
            subst (λ x. (shown_tip m'.calls ≡ some x) ⊎ (x ≡ [])) (sym t.tooltip)
              (subst (λ c. (shown_tip c ≡ some m.current_tooltip) ⊎ (m.current_tooltip ≡ []))
                (sym t.calls) d.tip);
      }

  tick-Told : (m : Monitor sys) → Current sys m → Told m → Told (tick sys m)
  unfolding tick
  tick-Told m c d =
      let o = tick_protocols-TrackStep sys m in
      let m1 = tick_v6 sys (tick_v4 sys m) in
      let a = tick_v4-SameTray sys m in
      let b = tick_v6-SameTray sys (tick_v4 sys m) in
      let last = b.last ∙ a.last in
      let state = tick_state_of sys m1 in
      let ab = SameTray-trans sys a b in
      elim (Bool-cases (same_tick_state state m1.last_tick_state)) [
        | inl same ↦
            let u =
              unchanged sys m m1 (o.0.configured, o.2.configured) c.last
                (subst (λ l. same_tick_state state l ≡ true) last same) in
            rw same (kept-Told m m1 ab u.0 u.1 d)
        | inr changed ↦ rw changed (
            render_tray-Told (record m1 { last_tick_state = state })
              (subst (λ x. (shown_tip m1.calls ≡ some x) ⊎ (x ≡ [])) (sym ab.tooltip)
                (subst (λ c. (shown_tip c ≡ some m.current_tooltip) ⊎ (m.current_tooltip ≡ []))
                  (sym ab.calls) d.tip)))
      ]

  module _ (is_letter is_digit : ℕ → Bool) where
    opened-Told :
        (m : Monitor sys)
        → Told m
        → Told (open_if6 sys is_letter is_digit (open_if4 sys is_letter is_digit m))
    unfolding open_socket4 open_socket6
    opened-Told m d =
        let m4 = open_if4 sys is_letter is_digit m in
        let m6 = open_if6 sys is_letter is_digit m4 in
        let k : SameTray sys m m6 × SameShown sys m.v4 m6.v4 × SameShown sys m.v6 m6.v6 =
          ground arith in
        kept-Told m m6 k.0 k.1 k.2 d

    construct-Told :
        (a : Arguments) (pid : ℕ) (world : sys.World)
        → Told (construct sys is_letter is_digit a pid world)
    unfolding construct setup_tray resolve_initial_targets
    construct-Told a pid world =
        let b = blank sys is_letter is_digit a pid world in
        let m1 = resolve_initial_targets sys is_letter is_digit a.target a.target6 b in
        let m2 = record m1 { v4 = apply_gateway_override a.gateway_ip_override4 m1.v4 } in
        let m3 = record m2 { v6 = apply_gateway_override a.gateway_ip_override6 m2.v6 } in
        let calls =
          set_tool_tip m3.label
          ∷ set_text (sys.arg (codes "%1: starting...") m3.label)
          ∷ m3.calls in
        opened-Told (setup_tray sys is_letter is_digit m3)
          (render_tray-Told (record m3 { calls = calls }) (inr refl))

    ticks-Told :
        (a : Arguments) (pid : ℕ) (world : sys.World) (n : ℕ)
        → Told (ticks sys n (construct sys is_letter is_digit a pid world))
    unfolding ticks
    ticks-Told a pid world zero = construct-Told a pid world
    ticks-Told a pid world (suc n) =
        tick-Told (ticks sys n (construct sys is_letter is_digit a pid world))
          (ticks-Current sys is_letter is_digit a pid world n) (ticks-Told a pid world n)

    -- The words are never stale, and say what the two tracks are: after any number of ticks of a
    -- monitor made by the constructor, also behind ticks that skipped the redraw, the line of the
    -- menu names each protocol that is active, in order, as connected if it has lost no ping since
    -- its last reply, and otherwise with the number of its losses and whether its gateway is
    -- reachable; or it says that no target is resolved if none is active. The tooltip says the same,
    -- unless there is nothing to say.
    pub ticks-status :
        (a : Arguments) (pid : ℕ) (world : sys.World) (n : ℕ)
        → let m = ticks sys n (construct sys is_letter is_digit a pid world) in
          (shown_line m.calls ≡ some (words m))
          × ((shown_tip m.calls ≡ some (words m)) ⊎ (words m ≡ []))
    ticks-status a pid world n =
        let m = ticks sys n (construct sys is_letter is_digit a pid world) in
        let d = ticks-Told a pid world n in
        subst (λ x. (shown_line m.calls ≡ some x) × ((shown_tip m.calls ≡ some x) ⊎ (x ≡ [])))
          (status-words m)
          (d.line, subst (λ x. (shown_tip m.calls ≡ some x) ⊎ (x ≡ [])) d.remembered d.tip)
