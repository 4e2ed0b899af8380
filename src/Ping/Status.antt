-- ===== src/Ping/Status.antt =====
-- src/conwatch-tray/ping_monitor_status_text.cpp, the icon cache of ping_monitor_icon.cpp, and `tick`
-- of ping_monitor_tick.cpp.
use conwatch.Prelude.{
  ℕ, Bool, true, false, not, ◌&&◌, ◌||◌, ◌==◌, Option, none, some, List, [], ◌∷◌, ◌++◌, Text, codes,
  text_eq, ℤ, pos, negsuc, if◌then◌else◌, is_empty,
}
use conwatch.Prelude.Map.{lookup, insert}
use conwatch.Ping.{
  System, Monitor, ProtoTrack, Severity, green, blue, yellow, red, ProtoState, no_local_address,
  failing, healthy, TickState, set_text, set_icon, set_tool_tip, severity_code, icon_key,
}
use conwatch.Drawing.{Pixmap}
use conwatch.Ping.Paint.{paint_icon}
use conwatch.Ping.Tick.{state_of, severity_of, tick_v4, tick_v6}

abbrev pub is_healthy : ProtoState → Bool
is_healthy healthy = true
is_healthy failing = false
is_healthy no_local_address = false

abbrev pub is_failing : ProtoState → Bool
is_failing failing = true
is_failing healthy = false
is_failing no_local_address = false

abbrev pub is_blue : Severity → Bool
is_blue blue = true
is_blue green = false
is_blue yellow = false
is_blue red = false

abbrev pub is_yellow : Severity → Bool
is_yellow yellow = true
is_yellow green = false
is_yellow blue = false
is_yellow red = false

abbrev pub same_severity : Severity → Severity → Bool
same_severity a b = severity_code a == severity_code b

unfoldable pub glyph_for : ProtoState → ProtoState → Severity → Severity → Text
glyph_for v4_state v6_state v4_severity v6_severity =
    let glyph = if is_healthy v4_state || is_blue v4_severity then codes "4" else [] in
    if is_healthy v6_state || is_blue v6_severity
    then (if is_empty glyph then glyph else glyph ++ codes "/") ++ codes "6"
    else glyph

unfoldable pub worst_severity_of : ProtoState → ProtoState → Severity → Severity → Severity
worst_severity_of v4_state v6_state v4_severity v6_severity =
    let any_healthy = is_healthy v4_state || is_healthy v6_state in
    let any_blue = is_blue v4_severity || is_blue v6_severity in
    let any_yellow =
      (is_failing v4_state && is_yellow v4_severity)
      || (is_failing v6_state && is_yellow v6_severity) in
    if any_healthy
    then green
    else (if any_blue
        then blue
        else (if any_yellow
            then yellow
            else (if is_failing v4_state || is_failing v6_state then red else green)))

abbrev pub same_int : ℤ → ℤ → Bool
same_int (pos a) (pos b) = a == b
same_int (negsuc a) (negsuc b) = a == b
same_int _ _ = false

abbrev pub same_flag : Bool → Bool → Bool
same_flag true b = b
same_flag false b = not b

abbrev pub same_tick_state : TickState → TickState → Bool
same_tick_state a b =
    same_int a.fail_streak4 b.fail_streak4
    && same_flag a.has_local_address4 b.has_local_address4
    && same_flag a.gateway_reachable4 b.gateway_reachable4
    && same_int a.fail_streak6 b.fail_streak6
    && same_flag a.has_local_address6 b.has_local_address6
    && same_flag a.gateway_reachable6 b.gateway_reachable6

module _ (sys : System) where
  abbrev pub tick_state_of : Monitor sys → TickState
  tick_state_of m = record {
    fail_streak4 = pos m.v4.fail_streak;
    has_local_address4 = m.v4.has_local_address;
    gateway_reachable4 = m.v4.gateway_reachable;
    fail_streak6 = pos m.v6.fail_streak;
    has_local_address6 = m.v6.has_local_address;
    gateway_reachable6 = m.v6.gateway_reachable;
  }

  unfoldable pub proto_status_text : Text → ProtoState → ProtoTrack → Text
  proto_status_text tag state t =
      if is_healthy state
      then sys.arg (codes "%1 connected") tag
      else sys.arg_number (sys.arg (codes "%1: %2 consecutive losses") tag) t.fail_streak
        ++ (if t.gateway_reachable then codes " (gateway reachable)" else [])

  abbrev pub active_part : ProtoState → Text → List Text
  active_part no_local_address text = []
  active_part failing text = text ∷ []
  active_part healthy text = text ∷ []

  -- The two place markers of the last text are filled at once: what the label holds is not read.
  unfoldable pub status_text_for : ProtoState → ProtoState → Monitor sys → Text
  status_text_for v4_state v6_state m =
      let parts =
        active_part v4_state (proto_status_text (codes "v4") v4_state m.v4)
        ++ active_part v6_state (proto_status_text (codes "v6") v6_state m.v6) in
      if is_empty parts
      then sys.arg (codes "%1: no target resolved") m.label
      else sys.arg2 (codes "%1: %2") m.label (sys.join parts (codes ", "))

  abbrev pub Icon : Type 0
  Icon = List (Pixmap sys.fonts)

  -- The two ends of `iconFor`: a hit, and a miss that paints and stores.
  abbrev pub icon_found : Severity → Text → Option Icon → Monitor sys → Icon × Monitor sys
  icon_found worst glyph (some icon) m = (icon, m)
  icon_found worst glyph none m =
      let icon = paint_icon sys.fonts m.iface_tag worst glyph in
      (icon, record m { icon_cache = insert (severity_code worst, glyph) icon m.icon_cache })

  -- `iconFor`: the icon, and the monitor with the cache that holds it.
  unfoldable pub icon_for : Severity → Text → Monitor sys → Icon × Monitor sys
  icon_for worst glyph m =
      icon_found worst glyph (lookup {K = ℕ × Text} (severity_code worst, glyph) m.icon_cache) m

  unfoldable pub set_tray_icon : Severity → Text → Monitor sys → Monitor sys
  set_tray_icon worst glyph m =
      let m1 = record m { current_severity = worst; current_glyph = glyph } in
      let (icon, m2) = icon_for worst glyph m1 in
      if same_severity worst m.current_severity && text_eq glyph m.current_glyph
      then m
      else record m2 { calls = set_icon icon ∷ m2.calls }

  unfoldable pub apply_status : Text → Monitor sys → Monitor sys
  apply_status status m =
      let m1 = record m { calls = set_text status ∷ m.calls } in
      if text_eq status m.current_tooltip
      then m1
      else record m1 { current_tooltip = status; calls = set_tool_tip status ∷ m1.calls }

  unfoldable pub render_tray : Monitor sys → Monitor sys
  render_tray m =
      let v4_state = state_of m.v4 in
      let v6_state = state_of m.v6 in
      let v4_severity = severity_of m.v4 in
      let v6_severity = severity_of m.v6 in
      let glyph = glyph_for v4_state v6_state v4_severity v6_severity in
      let color = worst_severity_of v4_state v6_state v4_severity v6_severity in
      apply_status (status_text_for v4_state v6_state m) (set_tray_icon color glyph m)

  unfoldable pub tick : Monitor sys → Monitor sys
  tick m =
      let m1 = tick_v6 sys (tick_v4 sys m) in
      let state = tick_state_of m1 in
      let redrawn = render_tray (record m1 { last_tick_state = state }) in
      if same_tick_state state m1.last_tick_state then m1 else redrawn
