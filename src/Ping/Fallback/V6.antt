-- ===== src/Ping/Fallback/V6.antt =====
-- The IPv6 part of a tick where only the gateway answers.
use conwatch.Prelude.{
  is_empty, ℕ, ◌+◌, ◌%◌, ◌≡◌, refl, sym, ap, ◌∙◌, subst, Bool, true, false, not, ◌||◌, ◌==◌, leb,
  List, some, Text, c_str, any, ℤ, arith, Bool-cases, Option-cases, inl, inr, if◌then◌else◌,
}
use conwatch.Icmp.{echo_request6, is_matching_reply6}
use conwatch.Ping.{System, Monitor}
use conwatch.Ping.Sockets.{
  is_open, is_whole, send_ping6, ping6, recv_reply6, open_socket6, close_open,
}
use conwatch.Ping.Tick.{
  is_disabled, set_v6, maybe_recheck_local_address, resolve_once, check_gateway6, lost6, tick_v6,
}
use conwatch.Ping.Track.{is_active, ping6-tracks}
use conwatch.Ping.Untouched.{open_socket6-SameTray, recheck-SameTray, ping6-SameTray}
use conwatch.Ping.Contact.{drain_replies-any}
use conwatch.Ping.Fallback.State.{Located, Poised, LostButReached, recheck-Poised}

module _ (sys : System) where
  -- Pings of the gateway go out whole; no reply to this process comes after a ping of the target, and
  -- one does after a ping of the gateway.
  pub record OnlyGateway6 (pid : ℕ) (target gateway : Text) : Type 0 where
    pub opens : (w : sys.World) → is_open (sys.socket6 w).0 ≡ true
    pub address : Text
    pub parses : sys.pton6 (c_str gateway) ≡ some address
    pub sends :
        (s : ℤ) (seq : ℕ) (w : sys.World)
        → is_whole (sys.sendto s (echo_request6 pid seq) address w).0 ≡ true
    pub silent :
        (s : ℤ) (seq : ℕ) (to : Text) (w : sys.World)
        → sys.pton6 (c_str target) ≡ some to
        → any
            (λ buf. is_matching_reply6 buf pid)
            (sys.datagrams s (sys.sendto s (echo_request6 pid seq) to w).1)
          ≡ false
    pub replies :
        (s : ℤ) (seq : ℕ) (w : sys.World)
        → any
            (λ buf. is_matching_reply6 buf pid)
            (sys.datagrams s (sys.sendto s (echo_request6 pid seq) address w).1)
          ≡ true

  module _ (target gateway : Text) where
    ping6-unanswered :
        (m : Monitor sys) → OnlyGateway6 m.pid target gateway → (ping6 sys target m).0 ≡ false
    unfolding ping6 send_ping6 recv_reply6
    ping6-unanswered m net = elim (Option-cases (sys.pton6 (c_str target))) [
      | inl e ↦ ground (arith, e)
      | inr (to, e) ↦
          let packet = echo_request6 m.pid m.seq6 in
          let w = (sys.sendto m.v6.sock packet to m.world).1 in
          let matches : List ℕ → Bool = λ buf. is_matching_reply6 buf m.pid in
          ground (
            arith,
            e,
            drain_replies-any sys matches (sys.datagrams m.v6.sock w) 0,
            net.silent m.v6.sock m.seq6 to m.world e,
          )
    ]

    ping6-reached :
        (m : Monitor sys)
        → OnlyGateway6 m.pid target gateway
        → is_open m.v6.sock ≡ true
        → (ping6 sys gateway m).0 ≡ true
    unfolding ping6 send_ping6 recv_reply6
    ping6-reached m net open_sock =
        let packet = echo_request6 m.pid m.seq6 in
        let w = (sys.sendto m.v6.sock packet net.address m.world).1 in
        let matches : List ℕ → Bool = λ buf. is_matching_reply6 buf m.pid in
        ground (
          arith,
          open_sock,
          net.parses,
          net.sends m.v6.sock m.seq6 m.world,
          drain_replies-any sys matches (sys.datagrams m.v6.sock w) 0,
          net.replies m.v6.sock m.seq6 m.world,
        )

    abbrev Ready : Text → Monitor sys → Type 0
    Ready iface m = Poised sys m.v6 iface sys.nl.af_inet6 target gateway

    -- What asking for the route once leaves.
    resolve_once-Located :
        (m : Monitor sys)
        → Located sys m.v6 m.iface sys.nl.af_inet6 gateway
        → let r = resolve_once sys m.v6 sys.nl.af_inet6 m in
          (r.0.gateway_ip ≡ gateway)
          × (r.0.gateway_resolved ≡ true)
          × (r.0.sock ≡ m.v6.sock)
          × (r.0.target_ip ≡ m.v6.target_ip)
          × (r.0.gateway_mode ≡ m.v6.gateway_mode)
          × (is_active r.0 ≡ is_active m.v6)
          × (r.0.fail_streak ≡ m.v6.fail_streak)
          × (r.1.pid ≡ m.pid)
    unfolding resolve_once
    resolve_once-Located m (inl known) = ground (arith, known)
    resolve_once-Located m (inr asked) = ground (arith, asked.0, asked.1 m.world)

    check_gateway6-reached :
        (m : Monitor sys)
        → OnlyGateway6 m.pid target gateway
        → is_empty gateway ≡ false
        → Ready m.iface m
        → let m' = check_gateway6 sys m in
          Ready m.iface m'
          × (is_active m'.v6 ≡ is_active m.v6)
          × (m'.v6.fail_streak ≡ m.v6.fail_streak)
          × (m'.v6.gateway_reachable ≡ true)
    unfolding check_gateway6
    check_gateway6-reached m net some_ip p =
        let r = resolve_once sys m.v6 sys.nl.af_inet6 m in
        let l = resolve_once-Located m p.located in
        let m2 = set_v6 sys r.0 r.1 in
        let q = ping6-tracks sys r.0.gateway_ip m2 in
        let opened : is_open m2.v6.sock ≡ true = ap is_open l.2 ∙ p.opened in
        let ok : (ping6 sys r.0.gateway_ip m2).0 ≡ true =
          subst (λ ip. (ping6 sys ip m2).0 ≡ true) (sym l.0)
            (ping6-reached m2 (subst (λ k. OnlyGateway6 k target gateway) (sym l.7) net) opened) in
        let some_ip' : is_empty r.0.gateway_ip ≡ false = ap is_empty l.0 ∙ some_ip in
        rw (p.enabled, some_ip', ok, q.1)
          (
            record {
              opened = opened;
              target_ip = l.3 ∙ p.target_ip;
              located = inl (l.1, l.0);
              enabled = ap is_disabled l.4 ∙ p.enabled;
            },
            l.5,
            l.6,
            refl,
          )

    lost6-reached :
        (m : Monitor sys)
        → OnlyGateway6 m.pid target gateway
        → is_empty gateway ≡ false
        → is_active m.v6 ≡ true
        → Ready m.iface m
        → Ready m.iface (lost6 sys m) × LostButReached m.v6 (lost6 sys m).v6
    unfolding lost6 open_socket6
    lost6-reached m net some_ip on p =
        let streak = m.v6.fail_streak + 1 in
        let m1 = set_v6 sys (record m.v6 { fail_streak = streak }) m in
        let m2 = if streak % 10 == 0 then open_socket6 sys m1 else m1 in
        let tray : (m2.pid ≡ m.pid) × (m2.iface ≡ m.iface) =
          ground
            (arith, (open_socket6-SameTray sys m1).pid, (open_socket6-SameTray sys m1).iface) in
        let active : is_active m2.v6 ≡ true = ground (arith, on) in
        let count : m2.v6.fail_streak ≡ streak = ground arith in
        let p2 : Ready m.iface m2 = record {
          opened = ground (arith, p.opened, net.opens (close_open sys m1.v6.sock m1.world));
          target_ip = ground (arith, p.target_ip);
          located = ground (arith, p.located);
          enabled = ground (arith, p.enabled);
        } in
        let c =
          check_gateway6-reached m2 (subst (λ k. OnlyGateway6 k target gateway) (sym tray.0) net)
            some_ip (subst (λ i. Ready i m2) (sym tray.1) p2) in
        elim (Bool-cases (leb 10 streak)) [
          | inl due ↦ rw due (
            subst (λ i. Ready i (check_gateway6 sys m2)) tray.1 c.0,
            record { active = c.1 ∙ active; streak = c.2 ∙ count; reached = λ h. c.3 },
          )
          | inr early ↦ rw early (
            p2,
            record {
              active = active;
              streak = count;
              reached = λ h. absurd (ground (arith, count));
            },
          )
        ]

    pub tick_v6-reached :
        (m : Monitor sys)
        → OnlyGateway6 m.pid target gateway
        → is_empty gateway ≡ false
        → is_active (maybe_recheck_local_address sys m.v6 sys.nl.af_inet6 m).0 ≡ true
        → Ready m.iface m
        → Ready m.iface (tick_v6 sys m) × LostButReached m.v6 (tick_v6 sys m).v6
    unfolding tick_v6
    tick_v6-reached m net some_ip active p =
        let r = maybe_recheck_local_address sys m.v6 sys.nl.af_inet6 m in
        let t = recheck-SameTray sys m.v6 sys.nl.af_inet6 m in
        let c = recheck-Poised sys m.v6 m.iface sys.nl.af_inet6 target gateway m p in
        let m1 = set_v6 sys r.0 r.1 in
        let m2 = (ping6 sys r.0.target_ip m1).1 in
        let q = (ping6-tracks sys r.0.target_ip m1).1 in
        let u = ping6-SameTray sys r.0.target_ip m1 in
        let pid1 : m1.pid ≡ m.pid = t.pid in
        let iface2 : m2.iface ≡ m.iface = u.iface ∙ t.iface in
        let on : not r.0.configured || not r.0.has_local_address ≡ false = ground (arith, active) in
        let no_reply : (ping6 sys r.0.target_ip m1).0 ≡ false =
          subst (λ ip. (ping6 sys ip m1).0 ≡ false) (sym c.0.target_ip)
            (ping6-unanswered m1 (subst (λ k. OnlyGateway6 k target gateway) (sym pid1) net)) in
        let p2 : Poised sys m2.v6 m2.iface sys.nl.af_inet6 target gateway =
          subst (λ x. Poised sys x m2.iface sys.nl.af_inet6 target gateway) (sym q)
            (subst (λ i. Poised sys r.0 i sys.nl.af_inet6 target gateway) (sym iface2) c.0) in
        let l =
          lost6-reached m2 (subst (λ k. OnlyGateway6 k target gateway) (sym (u.pid ∙ pid1)) net)
            some_ip (ap is_active q ∙ active) p2 in
        let m3 = lost6 sys m2 in
        rw (on, no_reply)
          (
            subst (λ i. Ready i m3) iface2 l.0,
            record {
              active = l.1.active;
              streak = l.1.streak ∙ ap (λ n. n + 1) (ap (λ x. x.fail_streak) q ∙ c.1);
              reached = l.1.reached;
            },
          )
