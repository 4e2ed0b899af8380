-- ===== src/Ping/Fallback/State.antt =====
-- A protocol whose gateway can be asked.
use conwatch.Prelude.{
  ℕ, ◌+◌, ◌≤◌, ◌≡◌, ◌⊎◌, refl, true, false, not, ◌||◌, ltb, some, Text, Bool-cases, inl, inr,
}
use conwatch.Gateway.Lookup.{resolve_gateway}
use conwatch.Ping.{System, Monitor, ProtoTrack}
use conwatch.Ping.Sockets.{is_open}
use conwatch.Ping.Tick.{is_disabled, maybe_recheck_local_address}
use conwatch.Ping.Track.{is_active}

-- The address of the gateway is known, or is found as soon as the routes are asked.
abbrev pub Located : (sys : System) → ProtoTrack → Text → ℕ → Text → Type 0
Located sys t iface family gateway =
    ((t.gateway_resolved ≡ true) × (t.gateway_ip ≡ gateway))
    ⊎ ((t.gateway_resolved ≡ false)
        × ((w : sys.World)
            → (resolve_gateway sys.nl sys.addresses.ntop4 sys.addresses.ntop6 sys.World sys.route
                sys.close iface family w).0
              ≡ some gateway))

-- The protocol is ready to be pinged, and its gateway to be asked.
pub record Poised (sys : System) (t : ProtoTrack) (iface : Text) (family : ℕ)
    (target gateway : Text) : Type 0 where
  pub opened : is_open t.sock ≡ true
  pub target_ip : t.target_ip ≡ target
  pub located : Located sys t iface family gateway
  pub enabled : is_disabled t.gateway_mode ≡ false

-- One more loss, behind which the gateway counts as reachable from the tenth on.
pub record LostButReached (t t' : ProtoTrack) : Type 0 where
  pub active : is_active t' ≡ true
  pub streak : t'.fail_streak ≡ t.fail_streak + 1
  pub reached : 10 ≤ t'.fail_streak → t'.gateway_reachable ≡ true

pub recheck-Poised :
    (sys : System) (t : ProtoTrack) (iface : Text) (family : ℕ) (target gateway : Text)
    (m : Monitor sys)
    → Poised sys t iface family target gateway
    → let t' = (maybe_recheck_local_address sys t family m).0 in
      Poised sys t' iface family target gateway × (t'.fail_streak ≡ t.fail_streak)
unfolding maybe_recheck_local_address
recheck-Poised sys t iface family target gateway m p =
    elim (Bool-cases (not t.configured || t.has_local_address)) [
      | inl settled ↦ rw settled (p, refl)
      | inr open_question ↦ elim (Bool-cases (ltb 0 t.recheck_ticks_left)) [
        | inl waits ↦
            rw (open_question, waits)
              (
                record {
                  opened = p.opened;
                  target_ip = p.target_ip;
                  located = p.located;
                  enabled = p.enabled;
                },
                refl,
              )
        | inr asks ↦
            rw (open_question, asks)
              (
                record {
                  opened = p.opened;
                  target_ip = p.target_ip;
                  located = p.located;
                  enabled = p.enabled;
                },
                refl,
              )
      ]
    ]
