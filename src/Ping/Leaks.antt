-- ===== src/Ping/Leaks.antt =====
-- No socket is lost, however often the sockets are made anew.
pub mod Steps
pub mod V4
pub mod V6
use conwatch.Prelude.{
  is_empty, ℕ, zero, suc, ◌+◌, ◌%◌, ◌≡◌, refl, sym, ap, ◌∙◌, subst, Bool, true, false, not, ◌&&◌,
  ◌||◌, ◌==◌, leb, Text, codes, ◌∷◌, ℤ, pos, negsuc, arith, Bool-cases, inl, inr, if◌then◌else◌,
}
use conwatch.Netlink.Descriptors.{same_fd}
use conwatch.Ping.{System, Monitor, ProtoTrack, set_text, set_tool_tip}
use conwatch.Ping.Sockets.{
  iface_has_address, prepare, is_open, close_open, ping4, ping6, open_socket4, open_socket6,
}
use conwatch.Ping.Tick.{
  is_disabled, set_v4, set_v6, maybe_recheck_local_address, resolve_once, check_gateway4,
  check_gateway6, lost4, lost6, tick_v4, tick_v6,
}
use conwatch.Ping.Status.{
  same_tick_state, tick, tick_state_of, render_tray, apply_status, set_tray_icon, icon_for,
}
use conwatch.Ping.Setup.{
  Arguments, blank, apply_gateway_override, resolve_initial_targets, setup_tray, open_if4, open_if6,
  construct,
}
use conwatch.Ping.Track.{ping4-tracks, ping6-tracks}
use conwatch.Ping.History.{ticks}
use conwatch.Ping.Owned.{is_it, Owns, Owns-comm, closed_Owns, made_Owns}
use conwatch.Ping.Descriptors.{IsLawful, ping4-Same, ping6-Same, recheck-Same, resolve_once-Same}
use conwatch.Ping.Leaks.Steps.{Quiet, OwnsBoth, Quiet-OwnsBoth}
use conwatch.Ping.Leaks.V4.{tick_v4-OwnsBoth, open_socket4-OwnsBoth}
use conwatch.Ping.Leaks.V6.{tick_v6-OwnsBoth, open_socket6-OwnsBoth}

module _ (sys : System) (held : sys.World → ℤ → Bool) (lawful : IsLawful sys held) where
  render_tray-world :
      (m : Monitor sys)
      → let m' = render_tray sys m in
        (m'.v4.sock ≡ m.v4.sock) × (m'.v6.sock ≡ m.v6.sock) × (m'.world ≡ m.world)
  unfolding render_tray apply_status set_tray_icon icon_for
  render_tray-world m = ground arith

  tick-Quiet : (m : Monitor sys) → Quiet sys held lawful (tick_v6 sys (tick_v4 sys m)) (tick sys m)
  unfolding tick
  tick-Quiet m =
      let m1 = tick_v6 sys (tick_v4 sys m) in
      let state = tick_state_of sys m1 in
      let r = render_tray-world (record m1 { last_tick_state = state }) in
      elim (Bool-cases (same_tick_state state m1.last_tick_state)) [
        | inl same ↦ rw same (record { sock4 = refl; sock6 = refl; same = λ d. refl })
        | inr changed ↦
            rw changed (record { sock4 = r.0; sock6 = r.1; same = λ d. ap (λ w. held w d) r.2 })
      ]

  tick-OwnsBoth :
      (base : ℤ → Bool) (m : Monitor sys)
      → OwnsBoth sys held lawful base m
      → OwnsBoth sys held lawful base (tick sys m)
  tick-OwnsBoth base m o =
      let m1 = tick_v6 sys (tick_v4 sys m) in
      let o1 =
        tick_v6-OwnsBoth sys held lawful base (tick_v4 sys m)
          (tick_v4-OwnsBoth sys held lawful base m o) in
      Quiet-OwnsBoth sys held lawful base m1 (tick sys m) (tick-Quiet m) o1

  module _ (is_letter is_digit : ℕ → Bool) where
    either :
        (base : ℤ → Bool) (b : Bool) (x y : Monitor sys)
        → OwnsBoth sys held lawful base x
        → OwnsBoth sys held lawful base y
        → OwnsBoth sys held lawful base (if b then x else y)
    either base true x y o p = o
    either base false x y o p = p

    open_both-OwnsBoth :
        (base : ℤ → Bool) (m : Monitor sys)
        → OwnsBoth sys held lawful base m
        → OwnsBoth sys held lawful base
            (open_if6 sys is_letter is_digit (open_if4 sys is_letter is_digit m))
    open_both-OwnsBoth base m o =
        let m4 = open_if4 sys is_letter is_digit m in
        let o4 : OwnsBoth sys held lawful base m4 =
          either base m.v4.configured (open_socket4 sys m) m
            (open_socket4-OwnsBoth sys held lawful base m o) o in
        either base m4.v6.configured (open_socket6 sys m4) m4
          (open_socket6-OwnsBoth sys held lawful base m4 o4) o4

    -- Before the sockets are opened.
    NoSockets : sys.World → Monitor sys → Type 0
    NoSockets world m = (m.v4.sock ≡ negsuc 0) × (m.v6.sock ≡ negsuc 0) × (m.world ≡ world)

    NoSockets-OwnsBoth :
        (world : sys.World) (m : Monitor sys)
        → NoSockets world m
        → OwnsBoth sys held lawful (held world) m
    unfolding NoSockets
    NoSockets-OwnsBoth world m e =
        rw (e.0, e.1, e.2)
          (record {
            apart = λ h. absurd (ground (arith, h));
            new = λ h. absurd (ground (arith, h));
            new_other = λ h. absurd (ground (arith, h));
            all = λ d. refl;
          })

    targets-NoSockets :
        (target target6 : Text) (world : sys.World) (m : Monitor sys)
        → NoSockets world m
        → NoSockets world (resolve_initial_targets sys is_letter is_digit target target6 m)
    unfolding resolve_initial_targets NoSockets
    targets-NoSockets target target6 world m e = ground (arith, e)

    override-sock : (value : Text) (t : ProtoTrack) → (apply_gateway_override value t).sock ≡ t.sock
    unfolding apply_gateway_override
    override-sock value t = ground arith

    setup_tray-NoSockets :
        (world : sys.World) (m : Monitor sys)
        → NoSockets world m
        → NoSockets world (setup_tray sys is_letter is_digit m)
    unfolding setup_tray NoSockets
    setup_tray-NoSockets world m e =
        let calls =
          set_tool_tip m.label ∷ set_text (sys.arg (codes "%1: starting...") m.label) ∷ m.calls in
        let r = render_tray-world (record m { calls = calls }) in (r.0 ∙ e.0, r.1 ∙ e.1, r.2 ∙ e.2)

    construct-OwnsBoth :
        (a : Arguments) (pid : ℕ) (world : sys.World)
        → OwnsBoth sys held lawful (held world) (construct sys is_letter is_digit a pid world)
    unfolding construct NoSockets
    construct-OwnsBoth a pid world =
        let b = blank sys is_letter is_digit a pid world in
        let m1 = resolve_initial_targets sys is_letter is_digit a.target a.target6 b in
        let m2 = record m1 { v4 = apply_gateway_override a.gateway_ip_override4 m1.v4 } in
        let m3 = record m2 { v6 = apply_gateway_override a.gateway_ip_override6 m2.v6 } in
        let m4 = setup_tray sys is_letter is_digit m3 in
        let n1 = targets-NoSockets a.target a.target6 world b (refl, refl, refl) in
        let n3 : NoSockets world m3 = (
          override-sock a.gateway_ip_override4 m1.v4 ∙ n1.0,
          override-sock a.gateway_ip_override6 m1.v6 ∙ n1.1,
          n1.2,
        ) in
        open_both-OwnsBoth (held world) m4
          (NoSockets-OwnsBoth world m4 (setup_tray-NoSockets world m3 n3))

    -- The tray keeps no socket but those of its two protocols, however often they are made anew:
    -- after any number of ticks of a monitor made by the constructor, the open descriptors are
    -- those that were open before it was made and its open sockets, which are none of those and,
    -- if both are open, not one and the same. Of the calls of the kernel, only those that make a
    -- socket may open a descriptor, a fresh one, and only close(2) ends one.
    pub ticks-Owns :
        (a : Arguments) (pid : ℕ) (world : sys.World) (n : ℕ)
        → let m = ticks sys n (construct sys is_letter is_digit a pid world) in
          Owns (held world) (held m.world) m.v4.sock m.v6.sock
    unfolding ticks
    ticks-Owns a pid world zero = construct-OwnsBoth a pid world
    ticks-Owns a pid world (suc n) =
        tick-OwnsBoth (held world) (ticks sys n (construct sys is_letter is_digit a pid world))
          (ticks-Owns a pid world n)
