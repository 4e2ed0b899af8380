-- ===== src/Ping/Contact.antt =====
-- A network that answers every ping.
use conwatch.Prelude.{
  ℕ, ◌+◌, ◌≡◌, refl, sym, ap, ◌∙◌, subst, Bool, true, some, List, [], ◌∷◌, Text, c_str, any, ℤ,
  arith,
}
use conwatch.Icmp.{echo_request4, echo_request6, is_matching_reply4, is_matching_reply6}
use conwatch.Ping.{System, Monitor, ProtoTrack}
use conwatch.Ping.Sockets.{
  is_open, is_whole, drain_replies, send_ping4, send_ping6, recv_reply4, recv_reply6, ping4, ping6,
  iface_has_address,
}
use conwatch.Ping.Tick.{set_v4, set_v6, maybe_recheck_local_address, tick_v4, tick_v6}
use conwatch.Ping.Track.{is_active, ping4-tracks, ping6-tracks}

-- What an answered ping leaves of a track.
pub record Answered (t t' : ProtoTrack) : Type 0 where
  pub active : is_active t' ≡ true
  pub streak : t'.fail_streak ≡ 0
  pub sock : t'.sock ≡ t.sock
  pub target_ip : t'.target_ip ≡ t.target_ip

module _ (sys : System) where
  pub drain_replies-any :
      (matches : List ℕ → Bool) (bufs : List (List ℕ)) (calls : ℕ)
      → (drain_replies sys matches bufs calls).0 ≡ any matches bufs
  unfolding drain_replies
  drain_replies-any matches [] calls = refl
  drain_replies-any matches (buf ∷ bufs) calls =
      ground (arith, drain_replies-any matches bufs (calls + 1))

  -- Sockets are to be had; a ping of the target goes out whole, and a reply to this process arrives
  -- behind it before the wait ends.
  pub record Answers4 (pid : ℕ) (ip : Text) : Type 0 where
    pub opens : (w : sys.World) → is_open (sys.socket4 w).0 ≡ true
    pub address : Text
    pub parses : sys.pton4 (c_str ip) ≡ some address
    pub sends :
        (s : ℤ) (seq : ℕ) (w : sys.World)
        → is_whole (sys.sendto s (echo_request4 pid seq) address w).0 ≡ true
    pub replies :
        (s : ℤ) (seq : ℕ) (w : sys.World)
        → any
            (λ buf. is_matching_reply4 buf pid)
            (sys.datagrams s (sys.sendto s (echo_request4 pid seq) address w).1)
          ≡ true

  pub record Answers6 (pid : ℕ) (ip : Text) : Type 0 where
    pub opens : (w : sys.World) → is_open (sys.socket6 w).0 ≡ true
    pub address : Text
    pub parses : sys.pton6 (c_str ip) ≡ some address
    pub sends :
        (s : ℤ) (seq : ℕ) (w : sys.World)
        → is_whole (sys.sendto s (echo_request6 pid seq) address w).0 ≡ true
    pub replies :
        (s : ℤ) (seq : ℕ) (w : sys.World)
        → any
            (λ buf. is_matching_reply6 buf pid)
            (sys.datagrams s (sys.sendto s (echo_request6 pid seq) address w).1)
          ≡ true

  ping4-answered :
      (ip : Text) (m : Monitor sys)
      → Answers4 m.pid ip
      → is_open m.v4.sock ≡ true
      → (ping4 sys ip m).0 ≡ true
  unfolding ping4 send_ping4 recv_reply4
  ping4-answered ip m a open_sock =
      let packet = echo_request4 m.pid m.seq4 in
      let w = (sys.sendto m.v4.sock packet a.address m.world).1 in
      let matches : List ℕ → Bool = λ buf. is_matching_reply4 buf m.pid in
      ground (
        arith,
        open_sock,
        a.parses,
        a.sends m.v4.sock m.seq4 m.world,
        drain_replies-any matches (sys.datagrams m.v4.sock w) 0,
        a.replies m.v4.sock m.seq4 m.world,
      )

  pub recheck-keeps :
      (t : ProtoTrack) (family : ℕ) (m : Monitor sys)
      → let r = maybe_recheck_local_address sys t family m in
        (r.0.sock ≡ t.sock) × (r.0.target_ip ≡ t.target_ip) × (r.1.pid ≡ m.pid)
  unfolding maybe_recheck_local_address iface_has_address
  recheck-keeps t family m = ground arith

  ping6-answered :
      (ip : Text) (m : Monitor sys)
      → Answers6 m.pid ip
      → is_open m.v6.sock ≡ true
      → (ping6 sys ip m).0 ≡ true
  unfolding ping6 send_ping6 recv_reply6
  ping6-answered ip m a open_sock =
      let packet = echo_request6 m.pid m.seq6 in
      let w = (sys.sendto m.v6.sock packet a.address m.world).1 in
      let matches : List ℕ → Bool = λ buf. is_matching_reply6 buf m.pid in
      ground (
        arith,
        open_sock,
        a.parses,
        a.sends m.v6.sock m.seq6 m.world,
        drain_replies-any matches (sys.datagrams m.v6.sock w) 0,
        a.replies m.v6.sock m.seq6 m.world,
      )

  pub tick_v4-Answered :
      (m : Monitor sys)
      → Answers4 m.pid m.v4.target_ip
      → is_open m.v4.sock ≡ true
      → is_active (maybe_recheck_local_address sys m.v4 sys.nl.af_inet m).0 ≡ true
      → Answered m.v4 (tick_v4 sys m).v4
  unfolding tick_v4
  tick_v4-Answered m a opened active =
      let r = maybe_recheck_local_address sys m.v4 sys.nl.af_inet m in
      let k = recheck-keeps m.v4 sys.nl.af_inet m in
      let m1 = set_v4 sys r.0 r.1 in
      let reached = subst (Answers4 m.pid) (sym k.1) a in
      let ok =
        ping4-answered r.0.target_ip m1 (subst (λ p. Answers4 p r.0.target_ip) (sym k.2) reached)
          (ap is_open k.0 ∙ opened) in
      ground (arith, ok, ping4-tracks sys r.0.target_ip m1, active, k)

  pub tick_v6-Answered :
      (m : Monitor sys)
      → Answers6 m.pid m.v6.target_ip
      → is_open m.v6.sock ≡ true
      → is_active (maybe_recheck_local_address sys m.v6 sys.nl.af_inet6 m).0 ≡ true
      → Answered m.v6 (tick_v6 sys m).v6
  unfolding tick_v6
  tick_v6-Answered m a opened active =
      let r = maybe_recheck_local_address sys m.v6 sys.nl.af_inet6 m in
      let k = recheck-keeps m.v6 sys.nl.af_inet6 m in
      let m1 = set_v6 sys r.0 r.1 in
      let reached = subst (Answers6 m.pid) (sym k.1) a in
      let ok =
        ping6-answered r.0.target_ip m1 (subst (λ p. Answers6 p r.0.target_ip) (sym k.2) reached)
          (ap is_open k.0 ∙ opened) in
      ground (arith, ok, ping6-tracks sys r.0.target_ip m1, active, k)
