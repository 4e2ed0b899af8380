-- ===== src/Ping/Probes/V6.antt =====
-- What the IPv6 part of a tick sends.
use conwatch.Prelude.{
  is_empty, ℕ, ◌+◌, ◌%◌, ◌≤◌, ◌≡◌, refl, sym, ap, ◌∙◌, subst, true, false, not, ◌||◌, ◌==◌, leb,
  List, Text, c_str, arith, Bool-cases, Option-cases, inl, inr, if◌then◌else◌,
}
use conwatch.Icmp.{echo_request6}
use conwatch.Ping.{System, Monitor}
use conwatch.Ping.Sockets.{is_open, is_whole, send_ping6, ping6, recv_reply6, open_socket6}
use conwatch.Ping.Tick.{
  is_disabled, set_v6, maybe_recheck_local_address, resolve_once, check_gateway6, lost6, tick_v6,
}
use conwatch.Ping.Track.{
  is_active, Alike, ping6-tracks, lost6-TrackStep, open_socket6-Alike, check_gateway6-Checked,
}
use conwatch.Ping.Untouched.{
  open_socket6-SameTray, resolve_once-SameTray, recheck-SameTray, ping6-SameTray,
}
use conwatch.Ping.Sent.{
  Log, Sends, Sends-none, Sends-one, Sends-trans, Sends-weaken, IsLog, open_socket6-log,
}
use conwatch.Ping.Unseen.{resolve_once-unseen, recheck-unseen, recv_reply6-unseen}
use conwatch.Ping.Probes.Kinds.{allowed, Echo6, Probe6}

module _ (sys : System) (log : sys.World → Log) (lawful : IsLog sys log) where
  ping6-Sends :
      (ip : Text) (m : Monitor sys)
      → Sends (Echo6 sys m.pid ip) 1 (log m.world) (log (ping6 sys ip m).1.world)
  unfolding ping6 send_ping6
  ping6-Sends ip m = elim (Bool-cases (is_open m.v6.sock)) [
    | inr closed ↦ rw closed (Sends-none (Echo6 sys m.pid ip) 1 (log m.world) (log m.world) refl)
    | inl open_sock ↦ elim (Option-cases (sys.pton6 (c_str ip))) [
      | inl e ↦
          rw (open_sock, e) (Sends-none (Echo6 sys m.pid ip) 1 (log m.world) (log m.world) refl)
      | inr (addr, e) ↦
          let packet = echo_request6 m.pid m.seq6 in
          let (n, w) = sys.sendto m.v6.sock packet addr m.world in
          let m' = record m { seq6 = (m.seq6 + 1) % 65536; world = w } in
          let sent = lawful.sent m.v6.sock packet addr m.world in
          let one = Sends-one (Echo6 sys m.pid ip) (log m.world) in
          elim (Bool-cases (is_whole n)) [
            | inl whole ↦
                rw (open_sock, e, whole)
                  (one (log (recv_reply6 sys m').1.world) (packet, addr) (m.seq6, refl, e)
                    (recv_reply6-unseen sys log lawful.unseen m' ∙ sent))
            | inr cut ↦ rw (open_sock, e, cut) (one (log w) (packet, addr) (m.seq6, refl, e) sent)
          ]
    ]
  ]

  -- A check of the gateway.
  check_gateway6-Sends :
      (m : Monitor sys)
      → let m' = check_gateway6 sys m in
        Sends (Echo6 sys m.pid m'.v6.gateway_ip) 1 (log m.world) (log m'.world)
  unfolding check_gateway6
  check_gateway6-Sends m =
      let r = resolve_once sys m.v6 sys.nl.af_inet6 m in
      let m2 = set_v6 sys r.0 r.1 in
      let ip = r.0.gateway_ip in
      let quiet = resolve_once-unseen sys log lawful.unseen m.v6 sys.nl.af_inet6 m in
      let pid = (resolve_once-SameTray sys m.v6 sys.nl.af_inet6 m).pid in
      let m3 = (ping6 sys ip m2).1 in
      elim (Bool-cases (is_disabled m.v6.gateway_mode)) [
        | inl off ↦ rw off (Sends-none _ 1 (log m.world) (log m.world) refl)
        | inr on ↦ elim (Bool-cases (is_empty ip)) [
          | inl unknown ↦ rw (on, unknown) (Sends-none _ 1 (log m.world) (log r.1.world) quiet)
          | inr known ↦
              let s : Sends (Echo6 sys m2.pid ip) 1 (log m2.world) (log m3.world) =
                ping6-Sends ip m2 in
              let s' : Sends (Echo6 sys m.pid ip) 1 (log m.world) (log m3.world) =
                subst (λ l. Sends (Echo6 sys m.pid ip) 1 l (log m3.world)) quiet
                  (subst (λ q. Sends (Echo6 sys q ip) 1 (log m2.world) (log m3.world)) pid s) in
              let same : m3.v6.gateway_ip ≡ ip =
                ap (λ t. t.gateway_ip) (ping6-tracks sys ip m2).1 in
              rw (on, known)
                (subst (λ g. Sends (Echo6 sys m.pid g) 1 (log m.world) (log m3.world)) (sym same)
                  s')
        ]
      ]

  -- A loss sends nothing before the tenth, and then one request at most.
  lost6-Sends :
      (m : Monitor sys)
      → let m' = lost6 sys m in
        Sends
          (Echo6 sys m.pid m'.v6.gateway_ip)
          (if leb 10 (m.v6.fail_streak + 1) then 1 else 0)
          (log m.world)
          (log m'.world)
  unfolding lost6
  lost6-Sends m =
      let streak = m.v6.fail_streak + 1 in
      let m1 = set_v6 sys (record m.v6 { fail_streak = streak }) m in
      let m2 = if streak % 10 == 0 then open_socket6 sys m1 else m1 in
      let opened : log m2.world ≡ log m.world =
        ground (arith, open_socket6-log sys log lawful m1) in
      let pid : m2.pid ≡ m.pid = ground (arith, (open_socket6-SameTray sys m1).pid) in
      let m3 = check_gateway6 sys m2 in
      elim (Bool-cases (leb 10 streak)) [
        | inl due ↦ rw due (
            subst (λ l. Sends (Echo6 sys m.pid m3.v6.gateway_ip) 1 l (log m3.world)) opened
              (subst (λ q. Sends (Echo6 sys q m3.v6.gateway_ip) 1 (log m2.world) (log m3.world)) pid
                (check_gateway6-Sends m2)))
        | inr early ↦ rw early (Sends-none _ 0 (log m.world) (log m2.world) opened)
      ]

  lost6-allowed :
      (m : Monitor sys)
      → is_active m.v6 ≡ true
      → 1 + (if leb 10 (m.v6.fail_streak + 1) then 1 else 0) ≤ allowed (lost6 sys m).v6
  unfolding lost6
  lost6-allowed m active =
      let streak = m.v6.fail_streak + 1 in
      let m1 = set_v6 sys (record m.v6 { fail_streak = streak }) m in
      let m2 = if streak % 10 == 0 then open_socket6 sys m1 else m1 in
      let a : Alike m1.v6 m2.v6 × (m2.v4 ≡ m.v4) = ground (arith, open_socket6-Alike sys m1) in
      let c = check_gateway6-Checked sys m2 in
      let on : is_active m2.v6 ≡ true = ground (arith, a, active) in ground (arith, a, c, on)

  -- The IPv6 part of a tick.
  pub tick_v6-Sends :
      (m : Monitor sys)
      → let m' = tick_v6 sys m in
        Sends (Probe6 sys m.pid m'.v6) (allowed m'.v6) (log m.world) (log m'.world)
  unfolding tick_v6
  tick_v6-Sends m =
      let r = maybe_recheck_local_address sys m.v6 sys.nl.af_inet6 m in
      let quiet = recheck-unseen sys log lawful.unseen m.v6 sys.nl.af_inet6 m in
      let m1 = set_v6 sys r.0 r.1 in
      let ip = r.0.target_ip in
      let m2 = (ping6 sys ip m1).1 in
      let tracks = (ping6-tracks sys ip m1).1 in
      let pid1 : m1.pid ≡ m.pid = (recheck-SameTray sys m.v6 sys.nl.af_inet6 m).pid in
      let pid2 : m2.pid ≡ m.pid = (ping6-SameTray sys ip m1).pid ∙ pid1 in
      let s : Sends (Echo6 sys m.pid ip) 1 (log m.world) (log m2.world) =
        subst (λ l. Sends (Echo6 sys m.pid ip) 1 l (log m2.world)) quiet
          (subst (λ q. Sends (Echo6 sys q ip) 1 (log m1.world) (log m2.world)) pid1
            (ping6-Sends ip m1)) in
      elim (Bool-cases (is_active r.0)) [
        | inr idle ↦
            let off : not r.0.configured || not r.0.has_local_address ≡ true = ground arith in
            rw off (Sends-none _ _ (log m.world) (log r.1.world) quiet)
        | inl active ↦
            let on : not r.0.configured || not r.0.has_local_address ≡ false = ground arith in
            elim (Bool-cases (ping6 sys ip m1).0) [
              | inl ok ↦
                  let m3 =
                    set_v6 sys (record m2.v6 { fail_streak = 0; gateway_reachable = false }) m2 in
                  let one : 1 ≤ allowed m3.v6 = ground (arith, tracks, active) in
                  let to_target : (e : List ℕ × Text)
                      → Echo6 sys m.pid ip e
                      → Probe6 sys m.pid m3.v6 e =
                    λ e h. inl (subst (λ t. Echo6 sys m.pid t.target_ip e) (sym tracks) h) in
                  rw (on, ok)
                    (Sends-weaken (Echo6 sys m.pid ip) (Probe6 sys m.pid m3.v6) 1 (allowed m3.v6)
                      (log m.world) (log m2.world) to_target one s)
              | inr no_reply ↦
                  let m3 = lost6 sys m2 in
                  let l = lost6-TrackStep sys m2 (ground (arith, tracks, active)) in
                  let target : m3.v6.target_ip ≡ ip =
                    l.0.target_ip ∙ ap (λ t. t.target_ip) tracks in
                  let n : ℕ = if leb 10 (m2.v6.fail_streak + 1) then 1 else 0 in
                  let Q = Probe6 sys m.pid m3.v6 in
                  let first =
                    Sends-weaken (Echo6 sys m.pid ip) Q 1 1 (log m.world) (log m2.world)
                      (λ e h. inl (subst (λ t. Echo6 sys m.pid t e) (sym target) h)) (omega arith)
                      s in
                  let second =
                    Sends-weaken (Echo6 sys m2.pid m3.v6.gateway_ip) Q n n (log m2.world)
                      (log m3.world)
                      (λ e h. inr (subst (λ q. Echo6 sys q m3.v6.gateway_ip e) pid2 h))
                      (omega arith) (lost6-Sends m2) in
                  rw (on, no_reply)
                    (Sends-weaken Q Q (1 + n) (allowed m3.v6) (log m.world) (log m3.world)
                      (λ e h. h) (lost6-allowed m2 (ground (arith, tracks, active)))
                      (Sends-trans Q 1 n (log m.world) (log m2.world) (log m3.world) first second))
            ]
      ]
