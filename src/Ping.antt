-- ===== src/Ping.antt =====
-- src/conwatch-tray/ping_monitor.hpp: the state of the monitor of one interface, and what it asks of
-- the kernel and of Qt, which is a parameter. A `QString` is its text; the program's own are ASCII.
pub mod Sockets
pub mod Tick
pub mod Paint
pub mod Status
pub mod Setup
pub mod Track
pub mod Outcome
pub mod History
pub mod Rules
pub mod Untouched
pub mod Redraw
pub mod Main
pub mod Handover
pub mod Tag
pub mod Silence
pub mod Contact
pub mod Addressed
pub mod Outage
pub mod Recovery
pub mod Owned
pub mod Descriptors
pub mod Leaks
pub mod Icon
pub mod Shown
pub mod Cache
pub mod Unseen
pub mod Sent
pub mod Probes
pub mod Remade
pub mod Judged
pub mod Fallback
pub mod StatusLine
pub mod Picture
pub mod Lab
mod Tests
mod NetworkTests
mod LeakTests
mod LoadTests
use conwatch.Prelude.{
  ℕ, Bool, true, false, ◌&&◌, ◌==◌, ◌≡◌, ◌↔◌, Option, none, some, List, [], ◌∷◌, Text, text_eq,
  text_eq_iff, ℤ, pos, negsuc, arith, ==_iff,
}
use conwatch.Prelude.Map.{Map, Key}
use conwatch.Override.{Mode, auto}
use conwatch.Rtnetlink.{Rtnetlink}
use conwatch.Gateway.Lookup.{RouteCalls}
use conwatch.Targets.{Addresses}
use conwatch.Drawing.{Fonts, Pixmap}

pub data Severity : Type 0 where
  green blue yellow red : Severity

pub data ProtoState : Type 0 where
  no_local_address failing healthy : ProtoState

-- An entry of getifaddrs: the family of its address if it has one, its name, and the answer of
-- IN6_IS_ADDR_LINKLOCAL on an IPv6 address.
pub record IfAddr : Type 0 where
  pub family : Option ℕ
  pub name : Text
  pub link_local : Bool

-- `datagrams s w` is what successive calls of recvfrom on `s` return until one returns 0 or less,
-- and `received s n w` the world after `n` calls. `arg`, `arg_number` and `arg2` are QString::arg.
-- A datagram is what the buffer of 512 bytes holds of it.
pub record System : Type 1 where
  pub World : Type 0
  pub nl : Rtnetlink
  pub addresses : Addresses
  pub socket4 : World → ℤ × World
  pub socket6 : World → ℤ × World
  pub bind_to_device : ℤ → Text → World → World
  pub set_recv_timeout : ℤ → World → World
  pub close : ℤ → World → World
  pub pton4 : Text → Option Text
  pub pton6 : Text → Option Text
  pub sendto : ℤ → List ℕ → Text → World → ℤ × World
  pub datagrams : ℤ → World → List (List ℕ)
  pub received : ℤ → ℕ → World → World
  pub getifaddrs : World → Option (List IfAddr) × World
  pub route : RouteCalls nl World
  pub fonts : Fonts
  pub arg : Text → Text → Text
  pub arg_number : Text → ℕ → Text
  pub arg2 : Text → Text → Text → Text
  pub join : List Text → Text → Text

pub record ProtoTrack : Type 0 where
  pub configured : Bool
  pub target_ip : Text
  pub sock : ℤ
  pub fail_streak : ℕ
  pub has_local_address : Bool
  pub recheck_ticks_left : ℕ
  pub gateway_mode : Mode
  pub gateway_ip : Text
  pub gateway_resolved : Bool
  pub gateway_reachable : Bool

abbrev pub new_track : ProtoTrack
new_track = record {
  configured = false;
  target_ip = [];
  sock = negsuc 0;
  fail_streak = 0;
  has_local_address = false;
  recheck_ticks_left = 0;
  gateway_mode = auto;
  gateway_ip = [];
  gateway_resolved = false;
  gateway_reachable = false;
}

-- The tuple by which a tick sees whether anything changed.
pub record TickState : Type 0 where
  pub fail_streak4 : ℤ
  pub has_local_address4 : Bool
  pub gateway_reachable4 : Bool
  pub fail_streak6 : ℤ
  pub has_local_address6 : Bool
  pub gateway_reachable6 : Bool

-- A call on the tray icon or on the status line of its menu.
pub data TrayCall (sys : System) : Type 0 where
  set_text : Text → TrayCall sys
  set_icon : List (Pixmap sys.fonts) → TrayCall sys
  set_tool_tip : Text → TrayCall sys

-- The icon cache is keyed by severity and glyph.
abbrev pub severity_code : Severity → ℕ
severity_code green = 0
severity_code blue = 1
severity_code yellow = 2
severity_code red = 3

pub severity_code_injective : (a b : Severity) → severity_code a ≡ severity_code b → a ≡ b
severity_code_injective a b h = ground arith

abbrev pub same_key : ℕ × Text → ℕ × Text → Bool
same_key (a, s) (b, t) = (a == b) && text_eq s t

pub same_key_iff : (x y : ℕ × Text) → (same_key x y ≡ true) ↔ (x ≡ y)
same_key_iff (a, s) (b, t) =
    (λ h. ground (arith, text_eq_iff s t), λ e. ground (arith, text_eq_iff s t))

instance abbrev pub icon_key : Key (ℕ × Text)
icon_key = record { same = same_key; same_iff = same_key_iff }

-- `world` is the state of everything outside, `calls` what the tray was told, the latest first.
-- `fail_streak` is an `int` in the source; it counts ticks of a second.
pub record Monitor (sys : System) : Type 0 where
  pub iface : Text
  pub label : Text
  pub iface_tag : Text
  pub v4 : ProtoTrack
  pub v6 : ProtoTrack
  pub pid : ℕ
  pub seq4 : ℕ
  pub seq6 : ℕ
  pub current_severity : Severity
  pub current_glyph : Text
  pub icon_cache : Map (ℕ × Text) (List (Pixmap sys.fonts))
  pub current_tooltip : Text
  pub last_tick_state : TickState
  pub calls : List (TrayCall sys)
  pub world : sys.World
