-- ===== src/Ping/Leaks/V4.antt =====
-- The IPv4 socket of a monitor.
use conwatch.Prelude.{
  is_empty, ◌+◌, ◌%◌, ◌≡◌, refl, ap, ◌∙◌, Bool, not, ◌||◌, ◌==◌, leb, Text, ℤ, arith, Bool-cases,
  inl, inr, if◌then◌else◌,
}
use conwatch.Ping.{System, Monitor}
use conwatch.Ping.Sockets.{iface_has_address, prepare, close_open, ping4, open_socket4}
use conwatch.Ping.Tick.{
  is_disabled, set_v4, maybe_recheck_local_address, resolve_once, check_gateway4, lost4, tick_v4,
}
use conwatch.Ping.Track.{ping4-tracks}
use conwatch.Ping.Owned.{is_it, closed_Owns, made_Owns}
use conwatch.Ping.Descriptors.{IsLawful, ping4-Same, recheck-Same, resolve_once-Same}
use conwatch.Ping.Leaks.Steps.{Quiet, OwnsBoth, Quiet-OwnsBoth, Quiet-trans}

module _ (sys : System) (held : sys.World → ℤ → Bool) (lawful : IsLawful sys held) where
  ping4-Quiet : (ip : Text) (m : Monitor sys) → Quiet sys held lawful m (ping4 sys ip m).1
  ping4-Quiet ip m =
      let t = ping4-tracks sys ip m in
      record {
        sock4 = ap (λ p. p.sock) t.0;
        sock6 = ap (λ p. p.sock) t.1;
        same = ping4-Same sys held lawful ip m;
      }

  recheck-Quiet :
      (m : Monitor sys)
      → let r = maybe_recheck_local_address sys m.v4 sys.nl.af_inet m in
        Quiet sys held lawful m (set_v4 sys r.0 r.1)
  unfolding maybe_recheck_local_address iface_has_address
  recheck-Quiet m = record {
    sock4 = ground arith;
    sock6 = ground arith;
    same = recheck-Same sys held lawful m.v4 sys.nl.af_inet m;
  }

  resolve-Quiet :
      (m : Monitor sys)
      → let r = resolve_once sys m.v4 sys.nl.af_inet m in
        Quiet sys held lawful m (set_v4 sys r.0 r.1)
  unfolding resolve_once
  resolve-Quiet m = record {
    sock4 = ground arith;
    sock6 = ground arith;
    same = resolve_once-Same sys held lawful m.v4 sys.nl.af_inet m;
  }

  check_gateway4-Quiet : (m : Monitor sys) → Quiet sys held lawful m (check_gateway4 sys m)
  unfolding check_gateway4
  check_gateway4-Quiet m =
      let r = resolve_once sys m.v4 sys.nl.af_inet m in
      let m2 = set_v4 sys r.0 r.1 in
      let q = resolve-Quiet m in
      let p = Quiet-trans sys held lawful q (ping4-Quiet r.0.gateway_ip m2) in
      elim (Bool-cases (is_disabled m.v4.gateway_mode)) [
        | inl off ↦ rw off (record { sock4 = refl; sock6 = refl; same = λ d. refl })
        | inr on ↦ elim (Bool-cases (is_empty r.0.gateway_ip)) [
          | inl none ↦ rw (on, none) (record { sock4 = q.sock4; sock6 = q.sock6; same = q.same })
          | inr some ↦ rw (on, some) (record { sock4 = p.sock4; sock6 = p.sock6; same = p.same })
        ]
      ]

  pub open_socket4-OwnsBoth :
      (base : ℤ → Bool) (m : Monitor sys)
      → OwnsBoth sys held lawful base m
      → OwnsBoth sys held lawful base (open_socket4 sys m)
  unfolding open_socket4
  open_socket4-OwnsBoth base m o =
      let w1 = close_open sys m.v4.sock m.world in
      let (s, w2) = sys.socket4 w1 in
      let w3 = prepare sys s m.iface w2 in
      let closed : (d : ℤ) → held w1 d ≡ is_it d m.v6.sock || base d =
        closed_Owns base (held m.world) (held w1) m.v4.sock m.v6.sock o
          (λ d. ground (arith, lawful.closed m.v4.sock m.world d)) in
      let prepared : (d : ℤ) → held w3 d ≡ held w2 d = λ d.
        ground (
          arith,
          lawful.timed s (sys.bind_to_device s m.iface w2) d,
          lawful.bound s m.iface w2 d,
        ) in
      made_Owns base (held w1) (held w3) s m.v6.sock o.new_other closed
        (λ h. let made = lawful.made4 w1 h in (made.0, λ d. prepared d ∙ made.1 d))
        (λ h d. prepared d ∙ lawful.not_made4 w1 h d)

  lost4-OwnsBoth :
      (base : ℤ → Bool) (m : Monitor sys)
      → OwnsBoth sys held lawful base m
      → OwnsBoth sys held lawful base (lost4 sys m)
  unfolding lost4
  lost4-OwnsBoth base m o =
      let streak = m.v4.fail_streak + 1 in
      let m1 = set_v4 sys (record m.v4 { fail_streak = streak }) m in
      let m2 = if streak % 10 == 0 then open_socket4 sys m1 else m1 in
      let o1 : OwnsBoth sys held lawful base m1 = record {
        apart = o.apart;
        new = o.new;
        new_other = o.new_other;
        all = o.all;
      } in
      let o2 : OwnsBoth sys held lawful base m2 = elim (Bool-cases (streak % 10 == 0)) [
        | inl due ↦ rw due (open_socket4-OwnsBoth base m1 o1)
        | inr not_due ↦ rw not_due o1
      ] in
      elim (Bool-cases (leb 10 streak)) [
        | inl late ↦ rw late (
            Quiet-OwnsBoth sys held lawful base m2 (check_gateway4 sys m2) (check_gateway4-Quiet m2)
              o2)
        | inr early ↦ rw early o2
      ]

  pub tick_v4-OwnsBoth :
      (base : ℤ → Bool) (m : Monitor sys)
      → OwnsBoth sys held lawful base m
      → OwnsBoth sys held lawful base (tick_v4 sys m)
  unfolding tick_v4
  tick_v4-OwnsBoth base m o =
      let r = maybe_recheck_local_address sys m.v4 sys.nl.af_inet m in
      let m1 = set_v4 sys r.0 r.1 in
      let o1 = Quiet-OwnsBoth sys held lawful base m m1 (recheck-Quiet m) o in
      let m2 = (ping4 sys r.0.target_ip m1).1 in
      let o2 = Quiet-OwnsBoth sys held lawful base m1 m2 (ping4-Quiet r.0.target_ip m1) o1 in
      elim (Bool-cases (not r.0.configured || not r.0.has_local_address)) [
        | inl idle ↦ rw idle o1
        | inr active ↦ elim (Bool-cases (ping4 sys r.0.target_ip m1).0) [
          | inl ok ↦
              rw (active, ok)
                (record { apart = o2.apart; new = o2.new; new_other = o2.new_other; all = o2.all })
          | inr no_reply ↦ rw (active, no_reply) (lost4-OwnsBoth base m2 o2)
        ]
      ]
