-- ===== src/Ping/NetworkTests.antt =====
-- A monitor in networks that are silent, answer every ping, or end at the gateway.
use conwatch.Prelude.Map.{lookup}
use conwatch.Prelude.{
  inl, inr, ℕ, List, if◌then◌else◌, subst, sym, ◌≡◌, refl, true, false, [], ◌∷◌, codes, text_eq,
  c_str, arith,
}
use conwatch.Icmp.{echo_packet, is_matching_reply4}
use conwatch.Ping.{green, blue, red, System, Monitor}
use conwatch.Ping.Setup.{resolve_initial_targets, apply_gateway_override, setup_tray, construct}
use conwatch.Ping.Tick.{state_of, severity_of, is_disabled}
use conwatch.Override.{parse}
use conwatch.Targets.{resolve as resolve_host, try_literal}
use conwatch.Ping.Sockets.{matches_iface_address, open_socket4, open_socket6}
use conwatch.Ping.Status.{
  status_text_for, worst_severity_of, render_tray, apply_status, set_tray_icon, icon_for,
}
use conwatch.Ping.History.{ticks}
use conwatch.Ping.Lab.{reply, lab, Lab, is_letter, is_digit, arguments, quiet_lab}
use conwatch.Ping.Contact.{Answers4}
use conwatch.Ping.Recovery.{ticks-green}
use conwatch.Ping.Outage.{ticks-red, ticks-configured}
use conwatch.Gateway.Lookup.{resolve, send_request_and_drain}
use conwatch.Gateway.{
  drain, scan_batch, scan_messages, parse_default_route_gateway, scan_attrs, scan_attr,
  format_gateway,
}
use conwatch.Rtnetlink.{messages, attributes, walk}
use conwatch.Ping.Rules.{is_answering}
use conwatch.Ping.Fallback.V4.{OnlyGateway4}
use conwatch.Ping.Fallback.{OneWay4, ticks-blue}

-- The same network, gone silent.
abbrev dark : System
dark = record lab { datagrams = λ s w. [] }

abbrev dark_monitor : Monitor dark
dark_monitor = construct dark is_letter is_digit arguments 0x1234 quiet_lab

dark_targets : (dark_monitor.v4.configured ≡ true) × (dark_monitor.v6.configured ≡ false)
unfolding construct resolve_initial_targets resolve_host try_literal apply_gateway_override parse
    setup_tray render_tray apply_status set_tray_icon icon_for open_socket4 open_socket6 text_eq
    c_str status_text_for state_of worst_severity_of severity_of lookup
dark_targets = (refl, refl)

ticks-red_example :
    let m = ticks dark 11 dark_monitor in (m.current_severity ≡ red) × (m.current_glyph ≡ [])
unfolding text_eq matches_iface_address
ticks-red_example =
    ticks-red dark (λ s w. refl) is_letter is_digit arguments 0x1234 quiet_lab 11
      (ground (arith, dark_targets)) (λ on w. refl)
      (λ on. absurd (ground (arith, dark_targets, on))) (omega arith)

-- Every request is answered.
abbrev lively : System
lively = record lab { datagrams = λ s w. reply ∷ [] }

abbrev lively_monitor : Monitor lively
lively_monitor = construct lively is_letter is_digit arguments 0x1234 quiet_lab

lively_target :
    (lively_monitor.v4.configured ≡ true)
    × (lively_monitor.v4.target_ip ≡ codes "1.1.1.1")
    × (lively_monitor.pid ≡ 0x1234)
unfolding construct resolve_initial_targets resolve_host try_literal apply_gateway_override parse
    setup_tray render_tray apply_status set_tray_icon icon_for open_socket4 open_socket6 text_eq
    c_str status_text_for state_of worst_severity_of severity_of lookup
lively_target = (refl, refl, refl)

lively-Answers4 : Answers4 lively 0x1234 (codes "1.1.1.1")
unfolding is_matching_reply4 echo_packet
lively-Answers4 = record {
  opens = λ w. refl;
  address = c_str (codes "1.1.1.1");
  parses = refl;
  sends = λ s seq w. refl;
  replies = λ s seq w. refl;
}

ticks-green_example : (ticks lively 3 lively_monitor).current_severity ≡ green
unfolding text_eq matches_iface_address
ticks-green_example =
    ticks-green lively is_letter is_digit arguments 0x1234 quiet_lab 3
      (inl (
        lively_target.0,
        λ w. refl,
        subst (λ p. Answers4 lively p lively_monitor.v4.target_ip) (sym lively_target.2)
            (subst (Answers4 lively 0x1234) (sym lively_target.1) lively-Answers4),
      ))
      (omega arith)

-- The target is lost, and the gateway of the default route answers.
abbrev by_gateway : Lab → List (List ℕ)
by_gateway w = if text_eq w.last_to (c_str (codes "1.1.1.1")) then [] else reply ∷ []

abbrev cut_off : System
cut_off = record lab { datagrams = λ s w. by_gateway w }

abbrev cut_off_monitor : Monitor cut_off
cut_off_monitor = construct cut_off is_letter is_digit arguments 0x1234 quiet_lab

cut_off_track :
    (cut_off_monitor.v4.configured ≡ true)
    × (cut_off_monitor.v4.target_ip ≡ codes "1.1.1.1")
    × (cut_off_monitor.pid ≡ 0x1234)
    × (cut_off_monitor.v6.configured ≡ false)
    × (is_disabled cut_off_monitor.v4.gateway_mode ≡ false)
    × (cut_off_monitor.v4.gateway_resolved ≡ false)
unfolding construct resolve_initial_targets resolve_host try_literal apply_gateway_override parse
    setup_tray render_tray apply_status set_tray_icon icon_for open_socket4 open_socket6 text_eq
    c_str status_text_for state_of worst_severity_of severity_of lookup
cut_off_track = (refl, refl, refl, refl, refl, refl)

cut_off-OnlyGateway4 : OnlyGateway4 cut_off 0x1234 (codes "1.1.1.1") (codes "192.168.1.1")
unfolding is_matching_reply4 echo_packet text_eq c_str
cut_off-OnlyGateway4 = record {
  opens = λ w. refl;
  address = c_str (codes "192.168.1.1");
  parses = refl;
  sends = λ s seq w. refl;
  silent = λ s seq to w e. ground (arith, e);
  replies = λ s seq w. refl;
}

cut_off-OneWay4 :
    OneWay4 cut_off is_letter is_digit arguments 0x1234 quiet_lab (codes "192.168.1.1")
unfolding text_eq matches_iface_address resolve send_request_and_drain drain scan_batch
    scan_messages parse_default_route_gateway scan_attrs scan_attr format_gateway messages
    attributes walk
cut_off-OneWay4 = record {
  configured = cut_off_track.0;
  has_address = λ w. refl;
  enabled = cut_off_track.4;
  located = inr (cut_off_track.5, λ w. refl);
  net =
      subst (λ p. OnlyGateway4 cut_off p cut_off_monitor.v4.target_ip (codes "192.168.1.1"))
        (sym cut_off_track.2)
        (subst (λ t. OnlyGateway4 cut_off 0x1234 t (codes "192.168.1.1")) (sym cut_off_track.1)
          cut_off-OnlyGateway4);
}

no_ipv6 : is_answering (ticks cut_off 10 cut_off_monitor).v6 ≡ false
no_ipv6 = ground (arith, ticks-configured cut_off 10 cut_off_monitor, cut_off_track)

ticks-blue_example : (ticks cut_off 10 cut_off_monitor).current_severity ≡ blue
ticks-blue_example =
    ticks-blue cut_off is_letter is_digit arguments 0x1234 quiet_lab 10 (codes "192.168.1.1")
      (inl (cut_off-OneWay4, no_ipv6)) refl (omega arith)
