-- ===== src/Ping/Setup.antt =====
-- src/conwatch-tray/ping_monitor.cpp: the constructor, and shortIfaceTag. `QChar::isLetter` and
-- `QChar::isDigit` are parameters of the latter.
use Prim.Native.Nat.{bit_and}
use mathlib.Core.List.{reverse}
use conwatch.Prelude.{
  ℕ, Bool, true, false, not, ◌&&◌, Option, none, some, [], ◌∷◌, ◌++◌, Text, codes, take, drop,
  length, ◌-◌, negsuc, if◌then◌else◌, is_empty,
}
use conwatch.Override.{auto, fixed, disabled, parse}
use conwatch.Targets.{resolve_targets}
use conwatch.Ping.{
  System, Monitor, ProtoTrack, new_track, yellow, TickState, set_text, set_tool_tip,
}
use conwatch.Ping.Sockets.{open_socket4, open_socket6}
use conwatch.Ping.Status.{render_tray}

-- The leading letters, by the first loop.
unfoldable pub leading : (ℕ → Bool) → Text → Text
leading is_letter [] = []
leading is_letter (c ∷ s) = let rest = c ∷ leading is_letter s in if is_letter c then rest else []

-- `right(n)` and the trailing digits, which the second loop collects from the end.
abbrev pub right : ℕ → Text → Text
right n s = drop (length s - n) s

unfoldable pub trailing_digits : (ℕ → Bool) → Text → Text
unfolding leading
trailing_digits is_digit s = reverse (leading is_digit (reverse s))

unfoldable pub short_iface_tag : (ℕ → Bool) → (ℕ → Bool) → Text → Text
unfolding leading trailing_digits
short_iface_tag is_letter is_digit iface =
    take 2 (leading is_letter iface) ++ right 1 (trailing_digits is_digit iface)

abbrev pub with_target : Option Text → ProtoTrack → ProtoTrack
with_target none t = t
with_target (some ip) t = record t { target_ip = ip; configured = true }

unfoldable pub apply_gateway_override : Text → ProtoTrack → ProtoTrack
apply_gateway_override value t =
    let ov = parse value in
    let t1 = record t { gateway_mode = ov.mode } in
    elim ov.mode [
      | fixed ↦ record t1 { gateway_ip = ov.fixed_ip; gateway_resolved = true }
      | auto ↦ t1
      | disabled ↦ t1
    ]

-- The arguments of the constructor.
pub record Arguments : Type 0 where
  pub iface : Text
  pub target : Text
  pub target6 : Text
  pub label : Text
  pub gateway_ip_override4 : Text
  pub gateway_ip_override6 : Text

abbrev pub never_ticked : TickState
never_ticked = record {
  fail_streak4 = negsuc 0;
  has_local_address4 = false;
  gateway_reachable4 = false;
  fail_streak6 = negsuc 0;
  has_local_address6 = false;
  gateway_reachable6 = false;
}

module _ (sys : System) (is_letter is_digit : ℕ → Bool) where
  -- The members before the constructor's body has resolved anything; "\x01" is no glyph.
  abbrev pub blank : Arguments → ℕ → sys.World → Monitor sys
  blank a pid world = record {
    iface = a.iface;
    label = a.label;
    iface_tag = short_iface_tag is_letter is_digit a.iface;
    v4 = new_track;
    v6 = new_track;
    pid = bit_and pid 0xffff;
    seq4 = 0;
    seq6 = 0;
    current_severity = yellow;
    current_glyph = 1 ∷ [];
    icon_cache = [];
    current_tooltip = [];
    last_tick_state = never_ticked;
    calls = [];
    world = world;
  }

  unfoldable pub resolve_initial_targets : Text → Text → Monitor sys → Monitor sys
  resolve_initial_targets target target6 m =
      let resolved = resolve_targets sys.addresses target in
      let v4 = with_target resolved.v4 m.v4 in
      let v6 = with_target resolved.v6 m.v6 in
      let resolved6 = resolve_targets sys.addresses target6 in
      record m {
        v4 = v4;
        v6 =
            if not v6.configured && not (is_empty target6) then with_target resolved6.v6 v6 else v6;
      }

  -- The menu's line and the first tooltip, which is not remembered, and the first picture.
  unfoldable pub setup_tray : Monitor sys → Monitor sys
  setup_tray m = render_tray sys (record m {
    calls = set_tool_tip m.label ∷ set_text (sys.arg (codes "%1: starting...") m.label) ∷ m.calls;
  })

  abbrev pub open_if4 : Monitor sys → Monitor sys
  open_if4 m = if m.v4.configured then open_socket4 sys m else m

  abbrev pub open_if6 : Monitor sys → Monitor sys
  open_if6 m = if m.v6.configured then open_socket6 sys m else m

  -- The constructor, up to the start of the timer that calls `tick` every second.
  unfoldable pub construct : Arguments → ℕ → sys.World → Monitor sys
  construct a pid world =
      let m1 = resolve_initial_targets a.target a.target6 (blank a pid world) in
      let m2 = record m1 { v4 = apply_gateway_override a.gateway_ip_override4 m1.v4 } in
      let m3 = record m2 { v6 = apply_gateway_override a.gateway_ip_override6 m2.v6 } in
      open_if6 (open_if4 (setup_tray m3))
