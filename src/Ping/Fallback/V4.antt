-- ===== src/Ping/Fallback/V4.antt =====
-- The IPv4 part of a tick where only the gateway answers.
use conwatch.Prelude.{
  is_empty, ℕ, ◌+◌, ◌%◌, ◌≡◌, refl, sym, ap, ◌∙◌, subst, Bool, true, false, not, ◌||◌, ◌==◌, leb,
  List, some, Text, c_str, any, ℤ, arith, Bool-cases, Option-cases, inl, inr, if◌then◌else◌,
}
use conwatch.Icmp.{echo_request4, is_matching_reply4}
use conwatch.Ping.{System, Monitor}
use conwatch.Ping.Sockets.{
  is_open, is_whole, send_ping4, ping4, recv_reply4, open_socket4, close_open,
}
use conwatch.Ping.Tick.{
  is_disabled, set_v4, maybe_recheck_local_address, resolve_once, check_gateway4, lost4, tick_v4,
}
use conwatch.Ping.Track.{is_active, ping4-tracks}
use conwatch.Ping.Untouched.{open_socket4-SameTray, recheck-SameTray, ping4-SameTray}
use conwatch.Ping.Contact.{drain_replies-any}
use conwatch.Ping.Fallback.State.{Located, Poised, LostButReached, recheck-Poised}

module _ (sys : System) where
  -- Pings of the gateway go out whole; no reply to this process comes after a ping of the target, and
  -- one does after a ping of the gateway.
  pub record OnlyGateway4 (pid : ℕ) (target gateway : Text) : Type 0 where
    pub opens : (w : sys.World) → is_open (sys.socket4 w).0 ≡ true
    pub address : Text
    pub parses : sys.pton4 (c_str gateway) ≡ some address
    pub sends :
        (s : ℤ) (seq : ℕ) (w : sys.World)
        → is_whole (sys.sendto s (echo_request4 pid seq) address w).0 ≡ true
    pub silent :
        (s : ℤ) (seq : ℕ) (to : Text) (w : sys.World)
        → sys.pton4 (c_str target) ≡ some to
        → any
            (λ buf. is_matching_reply4 buf pid)
            (sys.datagrams s (sys.sendto s (echo_request4 pid seq) to w).1)
          ≡ false
    pub replies :
        (s : ℤ) (seq : ℕ) (w : sys.World)
        → any
            (λ buf. is_matching_reply4 buf pid)
            (sys.datagrams s (sys.sendto s (echo_request4 pid seq) address w).1)
          ≡ true

  module _ (target gateway : Text) where
    ping4-unanswered :
        (m : Monitor sys) → OnlyGateway4 m.pid target gateway → (ping4 sys target m).0 ≡ false
    unfolding ping4 send_ping4 recv_reply4
    ping4-unanswered m net = elim (Option-cases (sys.pton4 (c_str target))) [
      | inl e ↦ ground (arith, e)
      | inr (to, e) ↦
          let packet = echo_request4 m.pid m.seq4 in
          let w = (sys.sendto m.v4.sock packet to m.world).1 in
          let matches : List ℕ → Bool = λ buf. is_matching_reply4 buf m.pid in
          ground (
            arith,
            e,
            drain_replies-any sys matches (sys.datagrams m.v4.sock w) 0,
            net.silent m.v4.sock m.seq4 to m.world e,
          )
    ]

    ping4-reached :
        (m : Monitor sys)
        → OnlyGateway4 m.pid target gateway
        → is_open m.v4.sock ≡ true
        → (ping4 sys gateway m).0 ≡ true
    unfolding ping4 send_ping4 recv_reply4
    ping4-reached m net open_sock =
        let packet = echo_request4 m.pid m.seq4 in
        let w = (sys.sendto m.v4.sock packet net.address m.world).1 in
        let matches : List ℕ → Bool = λ buf. is_matching_reply4 buf m.pid in
        ground (
          arith,
          open_sock,
          net.parses,
          net.sends m.v4.sock m.seq4 m.world,
          drain_replies-any sys matches (sys.datagrams m.v4.sock w) 0,
          net.replies m.v4.sock m.seq4 m.world,
        )

    abbrev Ready : Text → Monitor sys → Type 0
    Ready iface m = Poised sys m.v4 iface sys.nl.af_inet target gateway

    -- What asking for the route once leaves.
    resolve_once-Located :
        (m : Monitor sys)
        → Located sys m.v4 m.iface sys.nl.af_inet gateway
        → let r = resolve_once sys m.v4 sys.nl.af_inet m in
          (r.0.gateway_ip ≡ gateway)
          × (r.0.gateway_resolved ≡ true)
          × (r.0.sock ≡ m.v4.sock)
          × (r.0.target_ip ≡ m.v4.target_ip)
          × (r.0.gateway_mode ≡ m.v4.gateway_mode)
          × (is_active r.0 ≡ is_active m.v4)
          × (r.0.fail_streak ≡ m.v4.fail_streak)
          × (r.1.pid ≡ m.pid)
    unfolding resolve_once
    resolve_once-Located m (inl known) = ground (arith, known)
    resolve_once-Located m (inr asked) = ground (arith, asked.0, asked.1 m.world)

    check_gateway4-reached :
        (m : Monitor sys)
        → OnlyGateway4 m.pid target gateway
        → is_empty gateway ≡ false
        → Ready m.iface m
        → let m' = check_gateway4 sys m in
          Ready m.iface m'
          × (is_active m'.v4 ≡ is_active m.v4)
          × (m'.v4.fail_streak ≡ m.v4.fail_streak)
          × (m'.v4.gateway_reachable ≡ true)
    unfolding check_gateway4
    check_gateway4-reached m net some_ip p =
        let r = resolve_once sys m.v4 sys.nl.af_inet m in
        let l = resolve_once-Located m p.located in
        let m2 = set_v4 sys r.0 r.1 in
        let q = ping4-tracks sys r.0.gateway_ip m2 in
        let opened : is_open m2.v4.sock ≡ true = ap is_open l.2 ∙ p.opened in
        let ok : (ping4 sys r.0.gateway_ip m2).0 ≡ true =
          subst (λ ip. (ping4 sys ip m2).0 ≡ true) (sym l.0)
            (ping4-reached m2 (subst (λ k. OnlyGateway4 k target gateway) (sym l.7) net) opened) in
        let some_ip' : is_empty r.0.gateway_ip ≡ false = ap is_empty l.0 ∙ some_ip in
        rw (p.enabled, some_ip', ok, q.0)
          (
            record {
              opened = opened;
              target_ip = l.3 ∙ p.target_ip;
              located = inl (l.1, l.0);
              enabled = ap is_disabled l.4 ∙ p.enabled;
            },
            l.5,
            l.6,
            refl,
          )

    lost4-reached :
        (m : Monitor sys)
        → OnlyGateway4 m.pid target gateway
        → is_empty gateway ≡ false
        → is_active m.v4 ≡ true
        → Ready m.iface m
        → Ready m.iface (lost4 sys m) × LostButReached m.v4 (lost4 sys m).v4
    unfolding lost4 open_socket4
    lost4-reached m net some_ip on p =
        let streak = m.v4.fail_streak + 1 in
        let m1 = set_v4 sys (record m.v4 { fail_streak = streak }) m in
        let m2 = if streak % 10 == 0 then open_socket4 sys m1 else m1 in
        let tray : (m2.pid ≡ m.pid) × (m2.iface ≡ m.iface) =
          ground
            (arith, (open_socket4-SameTray sys m1).pid, (open_socket4-SameTray sys m1).iface) in
        let active : is_active m2.v4 ≡ true = ground (arith, on) in
        let count : m2.v4.fail_streak ≡ streak = ground arith in
        let p2 : Ready m.iface m2 = record {
          opened = ground (arith, p.opened, net.opens (close_open sys m1.v4.sock m1.world));
          target_ip = ground (arith, p.target_ip);
          located = ground (arith, p.located);
          enabled = ground (arith, p.enabled);
        } in
        let c =
          check_gateway4-reached m2 (subst (λ k. OnlyGateway4 k target gateway) (sym tray.0) net)
            some_ip (subst (λ i. Ready i m2) (sym tray.1) p2) in
        elim (Bool-cases (leb 10 streak)) [
          | inl due ↦ rw due (
            subst (λ i. Ready i (check_gateway4 sys m2)) tray.1 c.0,
            record { active = c.1 ∙ active; streak = c.2 ∙ count; reached = λ h. c.3 },
          )
          | inr early ↦ rw early (
            p2,
            record {
              active = active;
              streak = count;
              reached = λ h. absurd (ground (arith, count));
            },
          )
        ]

    pub tick_v4-reached :
        (m : Monitor sys)
        → OnlyGateway4 m.pid target gateway
        → is_empty gateway ≡ false
        → is_active (maybe_recheck_local_address sys m.v4 sys.nl.af_inet m).0 ≡ true
        → Ready m.iface m
        → Ready m.iface (tick_v4 sys m) × LostButReached m.v4 (tick_v4 sys m).v4
    unfolding tick_v4
    tick_v4-reached m net some_ip active p =
        let r = maybe_recheck_local_address sys m.v4 sys.nl.af_inet m in
        let t = recheck-SameTray sys m.v4 sys.nl.af_inet m in
        let c = recheck-Poised sys m.v4 m.iface sys.nl.af_inet target gateway m p in
        let m1 = set_v4 sys r.0 r.1 in
        let m2 = (ping4 sys r.0.target_ip m1).1 in
        let q = (ping4-tracks sys r.0.target_ip m1).0 in
        let u = ping4-SameTray sys r.0.target_ip m1 in
        let pid1 : m1.pid ≡ m.pid = t.pid in
        let iface2 : m2.iface ≡ m.iface = u.iface ∙ t.iface in
        let on : not r.0.configured || not r.0.has_local_address ≡ false = ground (arith, active) in
        let no_reply : (ping4 sys r.0.target_ip m1).0 ≡ false =
          subst (λ ip. (ping4 sys ip m1).0 ≡ false) (sym c.0.target_ip)
            (ping4-unanswered m1 (subst (λ k. OnlyGateway4 k target gateway) (sym pid1) net)) in
        let p2 : Poised sys m2.v4 m2.iface sys.nl.af_inet target gateway =
          subst (λ x. Poised sys x m2.iface sys.nl.af_inet target gateway) (sym q)
            (subst (λ i. Poised sys r.0 i sys.nl.af_inet target gateway) (sym iface2) c.0) in
        let l =
          lost4-reached m2 (subst (λ k. OnlyGateway4 k target gateway) (sym (u.pid ∙ pid1)) net)
            some_ip (ap is_active q ∙ active) p2 in
        let m3 = lost4 sys m2 in
        rw (on, no_reply)
          (
            subst (λ i. Ready i m3) iface2 l.0,
            record {
              active = l.1.active;
              streak = l.1.streak ∙ ap (λ n. n + 1) (ap (λ x. x.fail_streak) q ∙ c.1);
              reached = l.1.reached;
            },
          )
