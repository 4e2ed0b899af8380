-- ===== src/Ping/Rules.antt =====
-- The colour and the glyph against the README's account of them.
use conwatch.Prelude.{
  is_empty, ◌≡◌, Bool, true, false, not, ◌&&◌, ◌||◌, ◌==◌, Text, codes, leb, if◌then◌else◌, arith,
  [], Bool-cases, inl, inr,
}
use conwatch.Ping.{
  ProtoTrack, ProtoState, no_local_address, failing, healthy, Severity, green, blue, yellow, red,
}
use conwatch.Ping.Tick.{state_of, severity_of}
use conwatch.Ping.Status.{glyph_for, worst_severity_of, is_healthy, is_failing, is_blue, is_yellow}
use conwatch.Ping.Track.{is_active}
use conwatch.Ping.History.{IsSound}

-- What `renderTray` shows for two tracks.
abbrev pub colour : ProtoTrack → ProtoTrack → Severity
colour t4 t6 = worst_severity_of (state_of t4) (state_of t6) (severity_of t4) (severity_of t6)

abbrev pub glyph : ProtoTrack → ProtoTrack → Text
glyph t4 t6 = glyph_for (state_of t4) (state_of t6) (severity_of t4) (severity_of t6)

-- The README's words for one protocol: its last ping succeeded, it lost 1 to 9 in a row, it lost 10
-- or more and its gateway responds, it lost 10 or more and its gateway does not.
abbrev pub is_answering : ProtoTrack → Bool
is_answering t = is_active t && (t.fail_streak == 0)

abbrev pub is_losing : ProtoTrack → Bool
is_losing t = is_active t && leb 1 t.fail_streak && leb t.fail_streak 9

abbrev pub is_behind_gateway : ProtoTrack → Bool
is_behind_gateway t = is_active t && leb 10 t.fail_streak && t.gateway_reachable

abbrev pub is_down : ProtoTrack → Bool
is_down t = is_active t && leb 10 t.fail_streak && not t.gateway_reachable

-- An inactive protocol is excluded from the colour.
abbrev pub down_if_active : ProtoTrack → Bool
down_if_active t = not (is_active t) || is_down t

abbrev pub is_red : Severity → Bool
is_red red = true
is_red _ = false

abbrev pub is_green : Severity → Bool
is_green green = true
is_green _ = false

abbrev pub both_inactive : ProtoTrack → ProtoTrack → Bool
both_inactive t4 t6 = not (is_active t4) && not (is_active t6)

-- What the colour and the glyph read of a track.
pub record Reading (t : ProtoTrack) (s : ProtoState) (v : Severity) : Type 0 where
  pub state : state_of t ≡ s
  pub severity : severity_of t ≡ v
  pub answering : is_answering t ≡ is_healthy s
  pub losing : is_losing t ≡ is_failing s && is_yellow v
  pub behind : is_behind_gateway t ≡ is_blue v
  pub down : is_down t ≡ is_failing s && is_red v
  pub active : is_active t ≡ is_healthy s || is_failing s

-- The five readings there are.
pub data Readings (t : ProtoTrack) : Type 0 where
  inactive : Reading t no_local_address yellow → Readings t
  answering : Reading t healthy yellow → Readings t
  losing : Reading t failing yellow → Readings t
  behind : Reading t failing blue → Readings t
  down : Reading t failing red → Readings t

pub readings : (t : ProtoTrack) → IsSound t → Readings t
unfolding state_of severity_of
readings t s = elim (Bool-cases (is_active t)) [
  | inr off ↦ inactive (ground (arith, s.streak_active))
  | inl on ↦ elim (Bool-cases (t.fail_streak == 0)) [
    | inl none_lost ↦ answering (ground arith)
    | inr some_lost ↦ elim (Bool-cases (leb 10 t.fail_streak)) [
      | inr few ↦ losing (ground (arith, s.reachable_late))
      | inl many ↦ elim (Bool-cases t.gateway_reachable) [
        | inl reached ↦ behind (ground arith)
        | inr lost ↦ down (ground arith)
      ]
    ]
  ]
]

-- The colour shown is red exactly if some protocol is active and every active one is down, blue
-- exactly if none answers and one is behind its gateway, yellow exactly if none answers or is behind
-- its gateway and one is losing, and green otherwise: if one answers, or none is active.
pub record FollowsRules (shown : Severity) (t4 t6 : ProtoTrack) : Type 0 where
  pub red_rule : is_red shown ≡ down_if_active t4 && down_if_active t6 && not (both_inactive t4 t6)
  pub blue_rule :
      is_blue shown
      ≡ not (is_answering t4 || is_answering t6) && (is_behind_gateway t4 || is_behind_gateway t6)
  pub yellow_rule :
      is_yellow shown
      ≡ not (is_answering t4 || is_answering t6)
        && not (is_behind_gateway t4 || is_behind_gateway t6)
        && (is_losing t4 || is_losing t6)
  pub green_rule : is_green shown ≡ is_answering t4 || is_answering t6 || both_inactive t4 t6

pub colour_lem : (t4 t6 : ProtoTrack) → IsSound t4 → IsSound t6 → FollowsRules (colour t4 t6) t4 t6
unfolding worst_severity_of
colour_lem t4 t6 s4 s6 = ground (arith, readings t4 s4, readings t6 s6)

-- For two sound tracks the glyph names exactly the protocols that answer or are behind their
-- gateway, and is empty while the tray is red.
pub glyph_lem :
    (t4 t6 : ProtoTrack)
    → IsSound t4
    → IsSound t6
    → (glyph t4 t6 ≡ (
        if is_answering t4 || is_behind_gateway t4
        then (if is_answering t6 || is_behind_gateway t6 then codes "4/6" else codes "4")
        else (if is_answering t6 || is_behind_gateway t6 then codes "6" else [])))
      × (is_red (colour t4 t6) && not (is_empty (glyph t4 t6)) ≡ false)
unfolding glyph_for worst_severity_of
glyph_lem t4 t6 s4 s6 = ground (arith, readings t4 s4, readings t6 s6)
