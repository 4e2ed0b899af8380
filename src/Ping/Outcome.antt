-- ===== src/Ping/Outcome.antt =====
-- The outcome of a tick of each protocol.
use conwatch.Prelude.{
  ℕ, ◌+◌, ◌≡◌, refl, sym, ap, ◌∙◌, subst, true, false, not, ◌||◌, arith, Bool-cases, inl, inr,
}
use conwatch.Ping.{System, Monitor, ProtoTrack}
use conwatch.Ping.Sockets.{ping4, ping6, iface_has_address}
use conwatch.Ping.Tick.{set_v4, set_v6, maybe_recheck_local_address, tick_v4, tick_v6}
use conwatch.Ping.Track.{
  is_active, Kept, TrackStep, skipped, answered, lost, SameTracks, ping4-tracks, ping6-tracks,
  lost4-TrackStep, lost6-TrackStep,
}

-- What a recheck of the local address changes.
record Rechecked (t t' : ProtoTrack) : Type 0 where
  configured : t'.configured ≡ t.configured
  target_ip : t'.target_ip ≡ t.target_ip
  mode : t'.gateway_mode ≡ t.gateway_mode
  address : t.has_local_address ≡ true → t'.has_local_address ≡ true
  streak : t'.fail_streak ≡ t.fail_streak
  reachable : t'.gateway_reachable ≡ t.gateway_reachable

Rechecked-Kept : (t t' : ProtoTrack) → Rechecked t t' → Kept t t'
Rechecked-Kept t t' c = record {
  configured = c.configured;
  target_ip = c.target_ip;
  mode = c.mode;
  address = c.address;
}

Kept-trans : {s t u : ProtoTrack} → Kept s t → Kept t u → Kept s u
Kept-trans a b = record {
  configured = b.configured ∙ a.configured;
  target_ip = b.target_ip ∙ a.target_ip;
  mode = b.mode ∙ a.mode;
  address = λ h. b.address (a.address h);
}

Rechecked-TrackStep : {s t u : ProtoTrack} → Rechecked s t → TrackStep t u → TrackStep s u
Rechecked-TrackStep c (skipped a e f) = skipped a (e ∙ c.streak) (f ∙ c.reachable)
Rechecked-TrackStep c (answered a e f) = answered a e f
Rechecked-TrackStep c (lost a e f g) =
    lost a (e ∙ ap (λ n. n + 1) c.streak) (λ h. f h ∙ c.reachable) g

module _ (sys : System) where
  iface_has_address-tracks :
      (family : ℕ) (m : Monitor sys) → SameTracks sys m (iface_has_address sys family m).1
  unfolding iface_has_address
  iface_has_address-tracks family m = (refl, refl)

  maybe_recheck-Rechecked :
      (t : ProtoTrack) (family : ℕ) (m : Monitor sys)
      → Rechecked t (maybe_recheck_local_address sys t family m).0
        × SameTracks sys m (maybe_recheck_local_address sys t family m).1
  unfolding maybe_recheck_local_address
  maybe_recheck-Rechecked t family m = ground (arith, iface_has_address-tracks family m)

  pub tick_v4-TrackStep :
      (m : Monitor sys)
      → Kept m.v4 (tick_v4 sys m).v4
        × TrackStep m.v4 (tick_v4 sys m).v4
        × ((tick_v4 sys m).v6 ≡ m.v6)
  unfolding tick_v4
  tick_v4-TrackStep m =
      let r = maybe_recheck_local_address sys m.v4 sys.nl.af_inet m in
      let c = maybe_recheck-Rechecked m.v4 sys.nl.af_inet m in
      let m1 = set_v4 sys r.0 r.1 in
      let p = ping4-tracks sys r.0.target_ip m1 in
      let m2 = (ping4 sys r.0.target_ip m1).1 in
      elim (Bool-cases (is_active r.0)) [
        | inr idle ↦
            let off : not r.0.configured || not r.0.has_local_address ≡ true = ground arith in
            rw off (Rechecked-Kept m.v4 r.0 c.0, skipped idle c.0.streak c.0.reachable, c.1.1)
        | inl active ↦
            let on : not r.0.configured || not r.0.has_local_address ≡ false = ground arith in
            elim (Bool-cases (ping4 sys r.0.target_ip m1).0) [
              | inl ok ↦
                  rw (on, ok)
                    (
                      Kept-trans (Rechecked-Kept m.v4 r.0 c.0) (ground (arith, p)),
                      answered (ground (arith, p)) refl refl,
                      p.1 ∙ c.1.1,
                    )
              | inr no_reply ↦
                  let l = lost4-TrackStep sys m2 (ground (arith, p)) in
                  let c2 = subst (Rechecked m.v4) (sym p.0) c.0 in
                  rw (on, no_reply)
                    (
                      Kept-trans (Rechecked-Kept m.v4 m2.v4 c2) l.0,
                      Rechecked-TrackStep c2 l.1,
                      l.2 ∙ p.1 ∙ c.1.1,
                    )
            ]
      ]

  pub tick_v6-TrackStep :
      (m : Monitor sys)
      → Kept m.v6 (tick_v6 sys m).v6
        × TrackStep m.v6 (tick_v6 sys m).v6
        × ((tick_v6 sys m).v4 ≡ m.v4)
  unfolding tick_v6
  tick_v6-TrackStep m =
      let r = maybe_recheck_local_address sys m.v6 sys.nl.af_inet6 m in
      let c = maybe_recheck-Rechecked m.v6 sys.nl.af_inet6 m in
      let m1 = set_v6 sys r.0 r.1 in
      let p = ping6-tracks sys r.0.target_ip m1 in
      let m2 = (ping6 sys r.0.target_ip m1).1 in
      elim (Bool-cases (is_active r.0)) [
        | inr idle ↦
            let off : not r.0.configured || not r.0.has_local_address ≡ true = ground arith in
            rw off (Rechecked-Kept m.v6 r.0 c.0, skipped idle c.0.streak c.0.reachable, c.1.0)
        | inl active ↦
            let on : not r.0.configured || not r.0.has_local_address ≡ false = ground arith in
            elim (Bool-cases (ping6 sys r.0.target_ip m1).0) [
              | inl ok ↦
                  rw (on, ok)
                    (
                      Kept-trans (Rechecked-Kept m.v6 r.0 c.0) (ground (arith, p)),
                      answered (ground (arith, p)) refl refl,
                      p.0 ∙ c.1.0,
                    )
              | inr no_reply ↦
                  let l = lost6-TrackStep sys m2 (ground (arith, p)) in
                  let c2 = subst (Rechecked m.v6) (sym p.1) c.0 in
                  rw (on, no_reply)
                    (
                      Kept-trans (Rechecked-Kept m.v6 m2.v6 c2) l.0,
                      Rechecked-TrackStep c2 l.1,
                      l.2 ∙ p.0 ∙ c.1.0,
                    )
            ]
      ]

  -- Within one tick each protocol takes one step of its own, and neither touches the other: it is
  -- skipped without an address or a target, it is answered, or it loses one more ping.
  pub tick_protocols-TrackStep :
      (m : Monitor sys)
      → let m' = tick_v6 sys (tick_v4 sys m) in
        Kept m.v4 m'.v4 × TrackStep m.v4 m'.v4 × Kept m.v6 m'.v6 × TrackStep m.v6 m'.v6
  tick_protocols-TrackStep m =
      let a = tick_v4-TrackStep m in
      let b = tick_v6-TrackStep (tick_v4 sys m) in
      (
        subst (Kept m.v4) (sym b.2) a.0,
        subst (TrackStep m.v4) (sym b.2) a.1,
        subst (λ t. Kept t (tick_v6 sys (tick_v4 sys m)).v6) a.2 b.0,
        subst (λ t. TrackStep t (tick_v6 sys (tick_v4 sys m)).v6) a.2 b.1,
      )
