-- ===== src/Ping/Fallback/Run6.antt =====
-- A run of ticks over IPv6 where only the gateway answers.
use conwatch.Prelude.{
  ℕ, zero, suc, ◌+◌, ◌≤◌, ◌≡◌, refl, sym, ap, ◌∙◌, subst, true, false, Text, is_empty, arith,
}
use conwatch.Ping.{System, Monitor, ProtoTrack}
use conwatch.Ping.Tick.{maybe_recheck_local_address, tick_v4, tick_v6}
use conwatch.Ping.Status.{tick}
use conwatch.Ping.Track.{is_active}
use conwatch.Ping.Outcome.{tick_v4-TrackStep}
use conwatch.Ping.History.{ticks, tick-tracks}
use conwatch.Ping.Untouched.{tick_v4-SameTray}
use conwatch.Ping.Recovery.{tick-place, recheck-active}
use conwatch.Ping.Fallback.State.{Poised, LostButReached}
use conwatch.Ping.Fallback.V6.{OnlyGateway6, tick_v6-reached}

module _ (sys : System) where
  module _ (target gateway : Text) where
    abbrev pub Ready6 : Text → ProtoTrack → Type 0
    Ready6 iface t = Poised sys t iface sys.nl.af_inet6 target gateway

    tick-reached6 :
        (m : Monitor sys)
        → OnlyGateway6 sys m.pid target gateway
        → is_empty gateway ≡ false
        → is_active
            (maybe_recheck_local_address sys (tick_v4 sys m).v6 sys.nl.af_inet6 (tick_v4 sys m)).0
          ≡ true
        → Ready6 m.iface m.v6
        → Ready6 m.iface (tick sys m).v6 × LostButReached m.v6 (tick sys m).v6
    tick-reached6 m net some_ip active p =
        let m' = tick_v4 sys m in
        let kept = (tick_v4-TrackStep sys m).2 in
        let tray = tick_v4-SameTray sys m in
        let p' : Ready6 m'.iface m'.v6 =
          subst (λ i. Ready6 i m'.v6) (sym tray.iface) (subst (Ready6 m.iface) (sym kept) p) in
        let net' = subst (λ k. OnlyGateway6 sys k target gateway) (sym tray.pid) net in
        let s = tick_v6-reached sys target gateway m' net' some_ip active p' in
        let same : (tick_v6 sys m').v6 ≡ (tick sys m).v6 = sym (tick-tracks sys m).1 in
        (
          subst (λ i. Ready6 i (tick sys m).v6) tray.iface (subst (Ready6 m'.iface) same s.0),
          subst (λ t. LostButReached t (tick sys m).v6) kept
              (subst (LostButReached m'.v6) same s.1),
        )

    -- What n ticks of losses leave.
    pub record Down6 (m : Monitor sys) (n : ℕ) (u : Monitor sys) : Type 0 where
      pub active : is_active u.v6 ≡ true
      pub ready : Ready6 u.iface u.v6
      pub streak : u.v6.fail_streak ≡ m.v6.fail_streak + n
      pub reached : 10 ≤ u.v6.fail_streak → u.v6.gateway_reachable ≡ true
      pub pid : u.pid ≡ m.pid

    tick-Down6 :
        (m : Monitor sys) (n : ℕ) (u : Monitor sys)
        → OnlyGateway6 sys m.pid target gateway
        → is_empty gateway ≡ false
        → is_active
            (maybe_recheck_local_address sys (tick_v4 sys u).v6 sys.nl.af_inet6 (tick_v4 sys u)).0
          ≡ true
        → Ready6 u.iface u.v6
        → u.v6.fail_streak ≡ m.v6.fail_streak + n
        → u.pid ≡ m.pid
        → Down6 m (suc n) (tick sys u)
    tick-Down6 m n u net some_ip active p count pid =
        let net' = subst (λ k. OnlyGateway6 sys k target gateway) (sym pid) net in
        let s = tick-reached6 u net' some_ip active p in
        let place = tick-place sys u in
        record {
          active = s.1.active;
          ready = subst (λ i. Ready6 i (tick sys u).v6) (sym place.1) s.0;
          streak = omega (arith, s.1.streak, count);
          reached = s.1.reached;
          pid = place.0 ∙ pid;
        }

    pub ticks-Down6 :
        (n : ℕ) (m : Monitor sys)
        → OnlyGateway6 sys m.pid target gateway
        → is_empty gateway ≡ false
        → is_active
            (maybe_recheck_local_address sys (tick_v4 sys m).v6 sys.nl.af_inet6 (tick_v4 sys m)).0
          ≡ true
        → Ready6 m.iface m.v6
        → Down6 m (suc n) (ticks sys (suc n) m)
    unfolding ticks
    ticks-Down6 zero m net some_ip active p =
        tick-Down6 m zero m net some_ip active p (omega arith) refl
    ticks-Down6 (suc n) m net some_ip active p =
        let ih = ticks-Down6 n m net some_ip active p in
        let u = ticks sys (suc n) m in
        tick-Down6 m (suc n) u net some_ip
          (recheck-active sys (tick_v4 sys u).v6 sys.nl.af_inet6 (tick_v4 sys u)
            (ap is_active (tick_v4-TrackStep sys u).2 ∙ ih.active))
          ih.ready ih.streak ih.pid
