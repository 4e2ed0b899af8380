-- ===== src/Ping/Track.antt =====
-- One tick of one protocol, as a relation between the old and the new track.
use conwatch.Prelude.{
  ℕ, ◌+◌, ◌%◌, ◌≤◌, ◌<◌, ◌≡◌, ◌∙◌, Bool, true, false, ◌&&◌, ◌==◌, Text, leb, if◌then◌else◌, arith,
  Bool-cases, inl, inr,
}
use conwatch.Override.{disabled}
use conwatch.Ping.{System, Monitor, ProtoTrack}
use conwatch.Ping.Sockets.{
  open_socket4, open_socket6, send_ping4, send_ping6, recv_reply4, recv_reply6, ping4, ping6,
}
use conwatch.Ping.Tick.{set_v4, set_v6, resolve_once, check_gateway4, check_gateway6, lost4, lost6}

abbrev pub is_active : ProtoTrack → Bool
is_active t = t.configured && t.has_local_address

-- What no tick changes, and an address that is not lost again.
pub record Kept (t t' : ProtoTrack) : Type 0 where
  pub configured : t'.configured ≡ t.configured
  pub target_ip : t'.target_ip ≡ t.target_ip
  pub mode : t'.gateway_mode ≡ t.gateway_mode
  pub address : t.has_local_address ≡ true → t'.has_local_address ≡ true

-- The three outcomes of a tick: no ping, a reply, a loss. A loss below the threshold leaves the
-- gateway's reachability alone, and without a gateway check there is none behind it.
pub data TrackStep (t t' : ProtoTrack) : Type 0 where
  skipped :
      is_active t' ≡ false
      → t'.fail_streak ≡ t.fail_streak
      → t'.gateway_reachable ≡ t.gateway_reachable
      → TrackStep t t'
  answered :
      is_active t' ≡ true → t'.fail_streak ≡ 0 → t'.gateway_reachable ≡ false → TrackStep t t'
  lost :
      is_active t' ≡ true
      → t'.fail_streak ≡ t.fail_streak + 1
      → (t'.fail_streak < 10 → t'.gateway_reachable ≡ t.gateway_reachable)
      → (10 ≤ t'.fail_streak → t'.gateway_mode ≡ disabled → t'.gateway_reachable ≡ false)
      → TrackStep t t'

-- Two tracks that a tick's outcome cannot tell apart.
pub record Alike (t t' : ProtoTrack) : Type 0 where
  pub configured : t'.configured ≡ t.configured
  pub target_ip : t'.target_ip ≡ t.target_ip
  pub mode : t'.gateway_mode ≡ t.gateway_mode
  pub address : t'.has_local_address ≡ t.has_local_address
  pub streak : t'.fail_streak ≡ t.fail_streak
  pub reachable : t'.gateway_reachable ≡ t.gateway_reachable

-- A gateway check changes the reachability only, and clears it where checks are disabled.
pub record Checked (t t' : ProtoTrack) : Type 0 where
  pub configured : t'.configured ≡ t.configured
  pub target_ip : t'.target_ip ≡ t.target_ip
  pub mode : t'.gateway_mode ≡ t.gateway_mode
  pub address : t'.has_local_address ≡ t.has_local_address
  pub streak : t'.fail_streak ≡ t.fail_streak
  pub off : t.gateway_mode ≡ disabled → t'.gateway_reachable ≡ false

module _ (sys : System) where
  -- What a ping leaves alone.
  abbrev pub SameTracks : Monitor sys → Monitor sys → Type 0
  SameTracks m m' = (m'.v4 ≡ m.v4) × (m'.v6 ≡ m.v6)

  pub ping4-tracks : (ip : Text) (m : Monitor sys) → SameTracks m (ping4 sys ip m).1
  unfolding ping4 send_ping4 recv_reply4
  ping4-tracks ip m = ground arith

  pub ping6-tracks : (ip : Text) (m : Monitor sys) → SameTracks m (ping6 sys ip m).1
  unfolding ping6 send_ping6 recv_reply6
  ping6-tracks ip m = ground arith

  pub open_socket4-Alike :
      (m : Monitor sys) → Alike m.v4 (open_socket4 sys m).v4 × ((open_socket4 sys m).v6 ≡ m.v6)
  unfolding open_socket4
  open_socket4-Alike m = ground arith

  pub open_socket6-Alike :
      (m : Monitor sys) → Alike m.v6 (open_socket6 sys m).v6 × ((open_socket6 sys m).v4 ≡ m.v4)
  unfolding open_socket6
  open_socket6-Alike m = ground arith

  resolve_once-Alike :
      (t : ProtoTrack) (family : ℕ) (m : Monitor sys)
      → Alike t (resolve_once sys t family m).0 × SameTracks m (resolve_once sys t family m).1
  unfolding resolve_once
  resolve_once-Alike t family m = ground arith

  pub check_gateway4-Checked :
      (m : Monitor sys)
      → Checked m.v4 (check_gateway4 sys m).v4 × ((check_gateway4 sys m).v6 ≡ m.v6)
  unfolding check_gateway4
  check_gateway4-Checked m =
      let r = resolve_once sys m.v4 sys.nl.af_inet m in
      let m2 = set_v4 sys r.0 r.1 in
      ground (arith, resolve_once-Alike m.v4 sys.nl.af_inet m, ping4-tracks r.0.gateway_ip m2)

  pub lost4-TrackStep :
      (m : Monitor sys)
      → is_active m.v4 ≡ true
      → Kept m.v4 (lost4 sys m).v4 × TrackStep m.v4 (lost4 sys m).v4 × ((lost4 sys m).v6 ≡ m.v6)
  unfolding lost4
  lost4-TrackStep m active =
      let streak = m.v4.fail_streak + 1 in
      let m1 = set_v4 sys (record m.v4 { fail_streak = streak }) m in
      let m2 = if streak % 10 == 0 then open_socket4 sys m1 else m1 in
      let a : Alike m1.v4 m2.v4 × (m2.v6 ≡ m.v6) = ground (arith, open_socket4-Alike m1) in
      let c = check_gateway4-Checked m2 in
      elim (Bool-cases (leb 10 streak)) [
        | inl due ↦ rw due (
          record {
            configured = c.0.configured ∙ a.0.configured;
            target_ip = c.0.target_ip ∙ a.0.target_ip;
            mode = c.0.mode ∙ a.0.mode;
            address = λ h. c.0.address ∙ a.0.address ∙ h;
          },
          lost (ground arith) (c.0.streak ∙ a.0.streak) (λ h. absurd (ground arith))
              (λ h d. c.0.off (ground arith)),
          c.1 ∙ a.1,
        )
        | inr early ↦ rw early (
          record {
            configured = a.0.configured;
            target_ip = a.0.target_ip;
            mode = a.0.mode;
            address = λ h. a.0.address ∙ h;
          },
          lost (ground arith) a.0.streak (λ h. a.0.reachable) (λ h d. absurd (ground arith)),
          a.1,
        )
      ]

  pub check_gateway6-Checked :
      (m : Monitor sys)
      → Checked m.v6 (check_gateway6 sys m).v6 × ((check_gateway6 sys m).v4 ≡ m.v4)
  unfolding check_gateway6
  check_gateway6-Checked m =
      let r = resolve_once sys m.v6 sys.nl.af_inet6 m in
      let m2 = set_v6 sys r.0 r.1 in
      ground (arith, resolve_once-Alike m.v6 sys.nl.af_inet6 m, ping6-tracks r.0.gateway_ip m2)

  pub lost6-TrackStep :
      (m : Monitor sys)
      → is_active m.v6 ≡ true
      → Kept m.v6 (lost6 sys m).v6 × TrackStep m.v6 (lost6 sys m).v6 × ((lost6 sys m).v4 ≡ m.v4)
  unfolding lost6
  lost6-TrackStep m active =
      let streak = m.v6.fail_streak + 1 in
      let m1 = set_v6 sys (record m.v6 { fail_streak = streak }) m in
      let m2 = if streak % 10 == 0 then open_socket6 sys m1 else m1 in
      let a : Alike m1.v6 m2.v6 × (m2.v4 ≡ m.v4) = ground (arith, open_socket6-Alike m1) in
      let c = check_gateway6-Checked m2 in
      elim (Bool-cases (leb 10 streak)) [
        | inl due ↦ rw due (
          record {
            configured = c.0.configured ∙ a.0.configured;
            target_ip = c.0.target_ip ∙ a.0.target_ip;
            mode = c.0.mode ∙ a.0.mode;
            address = λ h. c.0.address ∙ a.0.address ∙ h;
          },
          lost (ground arith) (c.0.streak ∙ a.0.streak) (λ h. absurd (ground arith))
              (λ h d. c.0.off (ground arith)),
          c.1 ∙ a.1,
        )
        | inr early ↦ rw early (
          record {
            configured = a.0.configured;
            target_ip = a.0.target_ip;
            mode = a.0.mode;
            address = λ h. a.0.address ∙ h;
          },
          lost (ground arith) a.0.streak (λ h. a.0.reachable) (λ h d. absurd (ground arith)),
          a.1,
        )
      ]
