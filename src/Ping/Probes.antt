-- ===== src/Ping/Probes.antt =====
-- What a tick sends, and how much.
pub mod Kinds
pub mod V4
pub mod V6
use conwatch.Prelude.{refl, sym, ap, Bool-cases}
use conwatch.Ping.Status.{
  icon_for, set_tray_icon, apply_status, render_tray, tick_state_of, same_tick_state,
}
