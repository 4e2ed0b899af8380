-- ===== src/Ping/Cache.antt =====
-- How many icons the cache can come to hold.
use conwatch.Prelude.{
  ℕ, zero, suc, ◌+◌, ◌≤◌, ◌≡◌, refl, sym, ap, ◌∙◌, subst, Bool, none, List, [], ◌∷◌, Text, text_eq,
  codes, length, if◌then◌else◌, is_some, arith, Bool-cases, Option-cases, inl, inr, ◌&&◌,
}
use conwatch.Prelude.Map.{Map, lookup, insert, lookup-insert}
use conwatch.Ping.{
  System, Monitor, ProtoTrack, Severity, severity_code, icon_key, same_key, same_key_iff, set_text,
  set_tool_tip,
}
use conwatch.Ping.Paint.{paint_icon}
use conwatch.Ping.Tick.{state_of, tick_v4, tick_v6}
use conwatch.Ping.Status.{
  Icon, icon_for, set_tray_icon, apply_status, render_tray, glyph_for, worst_severity_of,
  same_severity, tick, tick_state_of, same_tick_state, status_text_for,
}
use conwatch.Ping.Setup.{resolve_initial_targets, Arguments, setup_tray, open_if4, construct}
use conwatch.Ping.Outcome.{tick_protocols-TrackStep}
use conwatch.Ping.History.{
  IsSound, BothSound, TrackStep-IsSound, ticks, ticks-BothSound, overridden, overridden-BothSound,
}
use conwatch.Ping.Rules.{colour, glyph, readings}
use conwatch.Ping.Icon.{open4-SameTray, open6-SameTray}
use conwatch.Ping.Untouched.{tick_v4-SameTray, tick_v6-SameTray}

-- The pictures that two sound tracks can ask for: green with any glyph, blue with all but the
-- empty one, yellow and red with none.
abbrev pub kinds : List (ℕ × Text)
kinds =
    (0, [])
    ∷ (0, codes "4")
    ∷ (0, codes "6")
    ∷ (0, codes "4/6")
    ∷ (1, codes "4")
    ∷ (1, codes "6")
    ∷ (1, codes "4/6")
    ∷ (2, [])
    ∷ (3, [])
    ∷ []

abbrev occurs : ℕ × Text → List (ℕ × Text) → ℕ
occurs k [] = 0
occurs k (c ∷ cs) = (if same_key k c then 1 else 0) + occurs k cs

kind_once :
    (m4 m6 : ProtoTrack)
    → IsSound m4
    → IsSound m6
    → occurs (severity_code (colour m4 m6), glyph m4 m6) kinds ≡ 1
unfolding worst_severity_of glyph_for text_eq
kind_once m4 m6 s4 s6 = ground (arith, readings m4 s4, readings m6 s6)

module _ {V : Type 0} where
  -- How many of some keys a map has.
  abbrev present : List (ℕ × Text) → Map (ℕ × Text) V → ℕ
  present [] m = 0
  present (c ∷ cs) m = (if is_some (lookup {K = ℕ × Text} c m) then 1 else 0) + present cs m

  present_bound : (cs : List (ℕ × Text)) (m : Map (ℕ × Text) V) → present cs m ≤ length cs
  present_bound [] m = omega arith
  present_bound (c ∷ cs) m = ground (arith, present_bound cs m)

  length-insert_new :
      (k : ℕ × Text) (v : V) (m : Map (ℕ × Text) V)
      → lookup {K = ℕ × Text} k m ≡ none
      → length (insert {K = ℕ × Text} k v m) ≡ suc (length m)
  unfolding lookup insert
  length-insert_new k v [] new = refl
  length-insert_new k v ((c, w) ∷ m) new = elim (Bool-cases (same_key c k)) [
    | inl same ↦ absurd (ground (arith, new, same))
    | inr other ↦ ground (arith, other, length-insert_new k v m, new)
  ]

  present-insert_new :
      (cs : List (ℕ × Text)) (k : ℕ × Text) (v : V) (m : Map (ℕ × Text) V)
      → lookup {K = ℕ × Text} k m ≡ none
      → present cs (insert {K = ℕ × Text} k v m) ≡ occurs k cs + present cs m
  present-insert_new [] k v m new = refl
  present-insert_new (c ∷ cs) k v m new =
      let rest = present-insert_new cs k v m new in
      elim (Bool-cases (same_key k c)) [
        | inl same ↦
            let gone : lookup {K = ℕ × Text} c m ≡ none =
              subst (λ x. lookup {K = ℕ × Text} x m ≡ none) ((same_key_iff k c).0 same) new in
            rw (lookup-insert {K = ℕ × Text} k c v m, same, gone) (ground (arith, rest))
        | inr other ↦ rw (lookup-insert {K = ℕ × Text} k c v m, other) (ground (arith, rest))
      ]

module _ (sys : System) where
  -- Each icon is of one of the kinds, and no two are of the same.
  abbrev Fits : Map (ℕ × Text) (Icon sys) → Type 0
  Fits c = length c ≡ present kinds c

  abbrev Snug : Monitor sys → Type 0
  Snug m = Fits m.icon_cache

  icon_for-Snug :
      (worst : Severity) (glyph : Text) (m : Monitor sys)
      → occurs (severity_code worst, glyph) kinds ≡ 1
      → Snug m
      → Snug (icon_for sys worst glyph m).1
  unfolding icon_for
  icon_for-Snug worst glyph m once s =
      let k : ℕ × Text = (severity_code worst, glyph) in
      let icon = paint_icon sys.fonts m.iface_tag worst glyph in
      elim (Option-cases (lookup {K = ℕ × Text} k m.icon_cache)) [
        | inl new ↦ rw new (
            length-insert_new k icon m.icon_cache new
            ∙ ap suc s
            ∙ sym (
                present-insert_new kinds k icon m.icon_cache new
                ∙ ap (λ n. n + present kinds m.icon_cache) once
                ∙ omega arith))
        | inr (old, e) ↦ rw e s
      ]

  set_tray_icon-Snug :
      (worst : Severity) (glyph : Text) (m : Monitor sys)
      → occurs (severity_code worst, glyph) kinds ≡ 1
      → Snug m
      → Snug (set_tray_icon sys worst glyph m)
  unfolding set_tray_icon
  set_tray_icon-Snug worst glyph m once s =
      elim (Bool-cases (same_severity worst m.current_severity && text_eq glyph m.current_glyph)) [
        | inl same ↦ rw same s
        | inr other ↦
            let m1 = record m { current_severity = worst; current_glyph = glyph } in
            rw other (icon_for-Snug worst glyph m1 once s)
      ]

  apply_status-cache :
      (status : Text) (m : Monitor sys) → (apply_status sys status m).icon_cache ≡ m.icon_cache
  unfolding apply_status
  apply_status-cache status m = ground arith

  render_tray-Snug : (m : Monitor sys) → BothSound sys m → Snug m → Snug (render_tray sys m)
  unfolding render_tray
  render_tray-Snug m (s4, s6) s =
      let m1 = set_tray_icon sys (colour m.v4 m.v6) (glyph m.v4 m.v6) m in
      let status = status_text_for sys (state_of m.v4) (state_of m.v6) m in
      subst Fits (sym (apply_status-cache status m1))
        (set_tray_icon-Snug (colour m.v4 m.v6) (glyph m.v4 m.v6) m (kind_once m.v4 m.v6 s4 s6) s)

  tick-Snug : (m : Monitor sys) → BothSound sys m → Snug m → Snug (tick sys m)
  unfolding tick
  tick-Snug m (s4, s6) s =
      let m1 = tick_v6 sys (tick_v4 sys m) in
      let state = tick_state_of sys m1 in
      let o = tick_protocols-TrackStep sys m in
      let cache = (tick_v6-SameTray sys (tick_v4 sys m)).cache ∙ (tick_v4-SameTray sys m).cache in
      let s1 : Snug m1 = subst Fits (sym cache) s in
      elim (Bool-cases (same_tick_state state m1.last_tick_state)) [
        | inl same ↦ rw same s1
        | inr changed ↦ rw changed (
            render_tray-Snug (record m1 { last_tick_state = state })
              (TrackStep-IsSound o.0 o.1 s4, TrackStep-IsSound o.2 o.3 s6) s1)
      ]

  module _ (is_letter is_digit : ℕ → Bool) where
    construct-Snug :
        (a : Arguments) (pid : ℕ) (world : sys.World)
        → Snug (construct sys is_letter is_digit a pid world)
    unfolding construct setup_tray resolve_initial_targets lookup
    construct-Snug a pid world =
        let m3 = overridden sys is_letter is_digit a pid world in
        let m4 = setup_tray sys is_letter is_digit m3 in
        let m5 = open_if4 sys is_letter is_digit m4 in
        let calls =
          set_tool_tip m3.label
          ∷ set_text (sys.arg (codes "%1: starting...") m3.label)
          ∷ m3.calls in
        let s4 : Snug m4 =
          render_tray-Snug (record m3 { calls = calls })
            (overridden-BothSound sys is_letter is_digit a pid world) refl in
        let cache =
          (open6-SameTray sys is_letter is_digit m5).cache
          ∙ (open4-SameTray sys is_letter is_digit m4).cache in
        subst Fits (sym cache) s4

    ticks-Snug :
        (a : Arguments) (pid : ℕ) (world : sys.World) (n : ℕ)
        → Snug (ticks sys n (construct sys is_letter is_digit a pid world))
    unfolding ticks
    ticks-Snug a pid world zero = construct-Snug a pid world
    ticks-Snug a pid world (suc n) =
        tick-Snug (ticks sys n (construct sys is_letter is_digit a pid world))
          (ticks-BothSound sys is_letter is_digit a pid world n) (ticks-Snug a pid world n)

    -- The cache never holds more than nine icons: after any number of ticks of a monitor made by the
    -- constructor, whatever the network does.
    pub ticks-icon_cache :
        (a : Arguments) (pid : ℕ) (world : sys.World) (n : ℕ)
        → length (ticks sys n (construct sys is_letter is_digit a pid world)).icon_cache ≤ 9
    ticks-icon_cache a pid world n =
        let m = ticks sys n (construct sys is_letter is_digit a pid world) in
        omega (arith, ticks-Snug a pid world n, present_bound kinds m.icon_cache)
