-- ===== src/Ping/Fallback/Run4.antt =====
-- A run of ticks over IPv4 where only the gateway answers.
use conwatch.Prelude.{
  ℕ, zero, suc, ◌+◌, ◌≤◌, ◌≡◌, refl, sym, ◌∙◌, subst, true, false, Text, is_empty, arith,
}
use conwatch.Ping.{System, Monitor, ProtoTrack}
use conwatch.Ping.Tick.{maybe_recheck_local_address, tick_v4}
use conwatch.Ping.Status.{tick}
use conwatch.Ping.Track.{is_active}
use conwatch.Ping.Outcome.{tick_v6-TrackStep}
use conwatch.Ping.History.{ticks, tick-tracks}
use conwatch.Ping.Recovery.{tick-place, recheck-active}
use conwatch.Ping.Fallback.State.{Poised, LostButReached}
use conwatch.Ping.Fallback.V4.{OnlyGateway4, tick_v4-reached}

module _ (sys : System) where
  module _ (target gateway : Text) where
    abbrev pub Ready4 : Text → ProtoTrack → Type 0
    Ready4 iface t = Poised sys t iface sys.nl.af_inet target gateway

    tick-reached4 :
        (m : Monitor sys)
        → OnlyGateway4 sys m.pid target gateway
        → is_empty gateway ≡ false
        → is_active (maybe_recheck_local_address sys m.v4 sys.nl.af_inet m).0 ≡ true
        → Ready4 m.iface m.v4
        → Ready4 m.iface (tick sys m).v4 × LostButReached m.v4 (tick sys m).v4
    tick-reached4 m net some_ip active p =
        let kept = (tick_v6-TrackStep sys (tick_v4 sys m)).2 in
        let s = tick_v4-reached sys target gateway m net some_ip active p in
        let same : (tick_v4 sys m).v4 ≡ (tick sys m).v4 = sym ((tick-tracks sys m).0 ∙ kept) in
        (subst (λ t. Ready4 m.iface t) same s.0, subst (LostButReached m.v4) same s.1)

    -- What n ticks of losses leave.
    pub record Down4 (m : Monitor sys) (n : ℕ) (u : Monitor sys) : Type 0 where
      pub active : is_active u.v4 ≡ true
      pub ready : Ready4 u.iface u.v4
      pub streak : u.v4.fail_streak ≡ m.v4.fail_streak + n
      pub reached : 10 ≤ u.v4.fail_streak → u.v4.gateway_reachable ≡ true
      pub pid : u.pid ≡ m.pid

    tick-Down4 :
        (m : Monitor sys) (n : ℕ) (u : Monitor sys)
        → OnlyGateway4 sys m.pid target gateway
        → is_empty gateway ≡ false
        → is_active (maybe_recheck_local_address sys u.v4 sys.nl.af_inet u).0 ≡ true
        → Ready4 u.iface u.v4
        → u.v4.fail_streak ≡ m.v4.fail_streak + n
        → u.pid ≡ m.pid
        → Down4 m (suc n) (tick sys u)
    tick-Down4 m n u net some_ip active p count pid =
        let net' = subst (λ k. OnlyGateway4 sys k target gateway) (sym pid) net in
        let s = tick-reached4 u net' some_ip active p in
        let place = tick-place sys u in
        record {
          active = s.1.active;
          ready = subst (λ i. Ready4 i (tick sys u).v4) (sym place.1) s.0;
          streak = omega (arith, s.1.streak, count);
          reached = s.1.reached;
          pid = place.0 ∙ pid;
        }

    pub ticks-Down4 :
        (n : ℕ) (m : Monitor sys)
        → OnlyGateway4 sys m.pid target gateway
        → is_empty gateway ≡ false
        → is_active (maybe_recheck_local_address sys m.v4 sys.nl.af_inet m).0 ≡ true
        → Ready4 m.iface m.v4
        → Down4 m (suc n) (ticks sys (suc n) m)
    unfolding ticks
    ticks-Down4 zero m net some_ip active p =
        tick-Down4 m zero m net some_ip active p (omega arith) refl
    ticks-Down4 (suc n) m net some_ip active p =
        let ih = ticks-Down4 n m net some_ip active p in
        let u = ticks sys (suc n) m in
        tick-Down4 m (suc n) u net some_ip (recheck-active sys u.v4 sys.nl.af_inet u ih.active)
          ih.ready ih.streak ih.pid
