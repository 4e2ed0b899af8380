-- ===== src/Ping/Probes/V4.antt =====
-- What the IPv4 part of a tick sends.
use conwatch.Prelude.{
  is_empty, ℕ, ◌+◌, ◌%◌, ◌≤◌, ◌≡◌, refl, sym, ap, ◌∙◌, subst, true, false, not, ◌||◌, ◌==◌, leb,
  List, Text, c_str, arith, Bool-cases, Option-cases, inl, inr, if◌then◌else◌,
}
use conwatch.Icmp.{echo_request4}
use conwatch.Ping.{System, Monitor}
use conwatch.Ping.Sockets.{is_open, is_whole, send_ping4, ping4, recv_reply4, open_socket4}
use conwatch.Ping.Tick.{
  is_disabled, set_v4, maybe_recheck_local_address, resolve_once, check_gateway4, lost4, tick_v4,
}
use conwatch.Ping.Track.{
  is_active, Alike, ping4-tracks, lost4-TrackStep, open_socket4-Alike, check_gateway4-Checked,
}
use conwatch.Ping.Untouched.{
  open_socket4-SameTray, resolve_once-SameTray, recheck-SameTray, ping4-SameTray,
}
use conwatch.Ping.Sent.{
  Log, Sends, Sends-none, Sends-one, Sends-trans, Sends-weaken, IsLog, open_socket4-log,
}
use conwatch.Ping.Unseen.{resolve_once-unseen, recheck-unseen, recv_reply4-unseen}
use conwatch.Ping.Probes.Kinds.{allowed, Echo4, Probe4}

module _ (sys : System) (log : sys.World → Log) (lawful : IsLog sys log) where
  ping4-Sends :
      (ip : Text) (m : Monitor sys)
      → Sends (Echo4 sys m.pid ip) 1 (log m.world) (log (ping4 sys ip m).1.world)
  unfolding ping4 send_ping4
  ping4-Sends ip m = elim (Bool-cases (is_open m.v4.sock)) [
    | inr closed ↦ rw closed (Sends-none (Echo4 sys m.pid ip) 1 (log m.world) (log m.world) refl)
    | inl open_sock ↦ elim (Option-cases (sys.pton4 (c_str ip))) [
      | inl e ↦
          rw (open_sock, e) (Sends-none (Echo4 sys m.pid ip) 1 (log m.world) (log m.world) refl)
      | inr (addr, e) ↦
          let packet = echo_request4 m.pid m.seq4 in
          let (n, w) = sys.sendto m.v4.sock packet addr m.world in
          let m' = record m { seq4 = (m.seq4 + 1) % 65536; world = w } in
          let sent = lawful.sent m.v4.sock packet addr m.world in
          let one = Sends-one (Echo4 sys m.pid ip) (log m.world) in
          elim (Bool-cases (is_whole n)) [
            | inl whole ↦
                rw (open_sock, e, whole)
                  (one (log (recv_reply4 sys m').1.world) (packet, addr) (m.seq4, refl, e)
                    (recv_reply4-unseen sys log lawful.unseen m' ∙ sent))
            | inr cut ↦ rw (open_sock, e, cut) (one (log w) (packet, addr) (m.seq4, refl, e) sent)
          ]
    ]
  ]

  -- A check of the gateway.
  check_gateway4-Sends :
      (m : Monitor sys)
      → let m' = check_gateway4 sys m in
        Sends (Echo4 sys m.pid m'.v4.gateway_ip) 1 (log m.world) (log m'.world)
  unfolding check_gateway4
  check_gateway4-Sends m =
      let r = resolve_once sys m.v4 sys.nl.af_inet m in
      let m2 = set_v4 sys r.0 r.1 in
      let ip = r.0.gateway_ip in
      let quiet = resolve_once-unseen sys log lawful.unseen m.v4 sys.nl.af_inet m in
      let pid = (resolve_once-SameTray sys m.v4 sys.nl.af_inet m).pid in
      let m3 = (ping4 sys ip m2).1 in
      elim (Bool-cases (is_disabled m.v4.gateway_mode)) [
        | inl off ↦ rw off (Sends-none _ 1 (log m.world) (log m.world) refl)
        | inr on ↦ elim (Bool-cases (is_empty ip)) [
          | inl unknown ↦ rw (on, unknown) (Sends-none _ 1 (log m.world) (log r.1.world) quiet)
          | inr known ↦
              let s : Sends (Echo4 sys m2.pid ip) 1 (log m2.world) (log m3.world) =
                ping4-Sends ip m2 in
              let s' : Sends (Echo4 sys m.pid ip) 1 (log m.world) (log m3.world) =
                subst (λ l. Sends (Echo4 sys m.pid ip) 1 l (log m3.world)) quiet
                  (subst (λ q. Sends (Echo4 sys q ip) 1 (log m2.world) (log m3.world)) pid s) in
              let same : m3.v4.gateway_ip ≡ ip =
                ap (λ t. t.gateway_ip) (ping4-tracks sys ip m2).0 in
              rw (on, known)
                (subst (λ g. Sends (Echo4 sys m.pid g) 1 (log m.world) (log m3.world)) (sym same)
                  s')
        ]
      ]

  -- A loss sends nothing before the tenth, and then one request at most.
  lost4-Sends :
      (m : Monitor sys)
      → let m' = lost4 sys m in
        Sends
          (Echo4 sys m.pid m'.v4.gateway_ip)
          (if leb 10 (m.v4.fail_streak + 1) then 1 else 0)
          (log m.world)
          (log m'.world)
  unfolding lost4
  lost4-Sends m =
      let streak = m.v4.fail_streak + 1 in
      let m1 = set_v4 sys (record m.v4 { fail_streak = streak }) m in
      let m2 = if streak % 10 == 0 then open_socket4 sys m1 else m1 in
      let opened : log m2.world ≡ log m.world =
        ground (arith, open_socket4-log sys log lawful m1) in
      let pid : m2.pid ≡ m.pid = ground (arith, (open_socket4-SameTray sys m1).pid) in
      let m3 = check_gateway4 sys m2 in
      elim (Bool-cases (leb 10 streak)) [
        | inl due ↦ rw due (
            subst (λ l. Sends (Echo4 sys m.pid m3.v4.gateway_ip) 1 l (log m3.world)) opened
              (subst (λ q. Sends (Echo4 sys q m3.v4.gateway_ip) 1 (log m2.world) (log m3.world)) pid
                (check_gateway4-Sends m2)))
        | inr early ↦ rw early (Sends-none _ 0 (log m.world) (log m2.world) opened)
      ]

  lost4-allowed :
      (m : Monitor sys)
      → is_active m.v4 ≡ true
      → 1 + (if leb 10 (m.v4.fail_streak + 1) then 1 else 0) ≤ allowed (lost4 sys m).v4
  unfolding lost4
  lost4-allowed m active =
      let streak = m.v4.fail_streak + 1 in
      let m1 = set_v4 sys (record m.v4 { fail_streak = streak }) m in
      let m2 = if streak % 10 == 0 then open_socket4 sys m1 else m1 in
      let a : Alike m1.v4 m2.v4 × (m2.v6 ≡ m.v6) = ground (arith, open_socket4-Alike sys m1) in
      let c = check_gateway4-Checked sys m2 in
      let on : is_active m2.v4 ≡ true = ground (arith, a, active) in ground (arith, a, c, on)

  -- The IPv4 part of a tick.
  pub tick_v4-Sends :
      (m : Monitor sys)
      → let m' = tick_v4 sys m in
        Sends (Probe4 sys m.pid m'.v4) (allowed m'.v4) (log m.world) (log m'.world)
  unfolding tick_v4
  tick_v4-Sends m =
      let r = maybe_recheck_local_address sys m.v4 sys.nl.af_inet m in
      let quiet = recheck-unseen sys log lawful.unseen m.v4 sys.nl.af_inet m in
      let m1 = set_v4 sys r.0 r.1 in
      let ip = r.0.target_ip in
      let m2 = (ping4 sys ip m1).1 in
      let tracks = (ping4-tracks sys ip m1).0 in
      let pid1 : m1.pid ≡ m.pid = (recheck-SameTray sys m.v4 sys.nl.af_inet m).pid in
      let pid2 : m2.pid ≡ m.pid = (ping4-SameTray sys ip m1).pid ∙ pid1 in
      let s : Sends (Echo4 sys m.pid ip) 1 (log m.world) (log m2.world) =
        subst (λ l. Sends (Echo4 sys m.pid ip) 1 l (log m2.world)) quiet
          (subst (λ q. Sends (Echo4 sys q ip) 1 (log m1.world) (log m2.world)) pid1
            (ping4-Sends ip m1)) in
      elim (Bool-cases (is_active r.0)) [
        | inr idle ↦
            let off : not r.0.configured || not r.0.has_local_address ≡ true = ground arith in
            rw off (Sends-none _ _ (log m.world) (log r.1.world) quiet)
        | inl active ↦
            let on : not r.0.configured || not r.0.has_local_address ≡ false = ground arith in
            elim (Bool-cases (ping4 sys ip m1).0) [
              | inl ok ↦
                  let m3 =
                    set_v4 sys (record m2.v4 { fail_streak = 0; gateway_reachable = false }) m2 in
                  let one : 1 ≤ allowed m3.v4 = ground (arith, tracks, active) in
                  let to_target : (e : List ℕ × Text)
                      → Echo4 sys m.pid ip e
                      → Probe4 sys m.pid m3.v4 e =
                    λ e h. inl (subst (λ t. Echo4 sys m.pid t.target_ip e) (sym tracks) h) in
                  rw (on, ok)
                    (Sends-weaken (Echo4 sys m.pid ip) (Probe4 sys m.pid m3.v4) 1 (allowed m3.v4)
                      (log m.world) (log m2.world) to_target one s)
              | inr no_reply ↦
                  let m3 = lost4 sys m2 in
                  let l = lost4-TrackStep sys m2 (ground (arith, tracks, active)) in
                  let target : m3.v4.target_ip ≡ ip =
                    l.0.target_ip ∙ ap (λ t. t.target_ip) tracks in
                  let n : ℕ = if leb 10 (m2.v4.fail_streak + 1) then 1 else 0 in
                  let Q = Probe4 sys m.pid m3.v4 in
                  let first =
                    Sends-weaken (Echo4 sys m.pid ip) Q 1 1 (log m.world) (log m2.world)
                      (λ e h. inl (subst (λ t. Echo4 sys m.pid t e) (sym target) h)) (omega arith)
                      s in
                  let second =
                    Sends-weaken (Echo4 sys m2.pid m3.v4.gateway_ip) Q n n (log m2.world)
                      (log m3.world)
                      (λ e h. inr (subst (λ q. Echo4 sys q m3.v4.gateway_ip e) pid2 h))
                      (omega arith) (lost4-Sends m2) in
                  rw (on, no_reply)
                    (Sends-weaken Q Q (1 + n) (allowed m3.v4) (log m.world) (log m3.world)
                      (λ e h. h) (lost4-allowed m2 (ground (arith, tracks, active)))
                      (Sends-trans Q 1 n (log m.world) (log m2.world) (log m3.world) first second))
            ]
      ]
