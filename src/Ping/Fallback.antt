-- ===== src/Ping/Fallback.antt =====
-- How an outage comes to be shown behind which the gateway still answers.
pub mod State
pub mod V4
pub mod V6
pub mod Run4
pub mod Run6
use conwatch.Prelude.{
  ℕ, zero, suc, ◌+◌, ◌≤◌, ◌≡◌, ◌⊎◌, refl, sym, ap, ◌∙◌, subst, Bool, true, false, not, ◌&&◌, ◌||◌,
  Text, is_empty, arith, inl, inr,
}
use conwatch.Ping.{System, Monitor, ProtoTrack, Severity, blue}
use conwatch.Ping.Setup.{Arguments, construct}
use conwatch.Ping.Tick.{is_disabled, tick_v4}
use conwatch.Ping.Status.{is_blue}
use conwatch.Ping.Track.{is_active}
use conwatch.Ping.Outcome.{tick_v4-TrackStep}
use conwatch.Ping.History.{ticks, ticks-fail_streak}
use conwatch.Ping.Rules.{is_answering, is_behind_gateway}
use conwatch.Ping.Redraw.{ticks-FollowsRules}
use conwatch.Ping.Untouched.{tick_v4-SameTray}
use conwatch.Ping.Addressed.{IsFresh, HasAddress, recheck-finds, construct-IsFresh}
use conwatch.Ping.Recovery.{construct-opened}
use conwatch.Ping.Fallback.State.{Located, Poised}
use conwatch.Ping.Fallback.V4.{OnlyGateway4}
use conwatch.Ping.Fallback.V6.{OnlyGateway6}
use conwatch.Ping.Fallback.Run4.{Ready4, ticks-Down4}
use conwatch.Ping.Fallback.Run6.{Ready6, ticks-Down6}

is_blue-blue : (s : Severity) → is_blue s ≡ true → s ≡ blue
is_blue-blue s h = ground arith

behind-not_answering : (t : ProtoTrack) → is_behind_gateway t ≡ true → is_answering t ≡ false
behind-not_answering t h = ground (arith, h)

module _ (sys : System) (is_letter is_digit : ℕ → Bool) where
  -- IPv4 has a target and an address, its gateway is known or found, and only that answers.
  pub record OneWay4 (a : Arguments) (pid : ℕ) (world : sys.World) (gateway : Text) : Type 0 where
    pub configured : (construct sys is_letter is_digit a pid world).v4.configured ≡ true
    pub has_address : HasAddress sys a.iface sys.nl.af_inet
    pub enabled : is_disabled (construct sys is_letter is_digit a pid world).v4.gateway_mode ≡ false
    pub located :
        Located sys (construct sys is_letter is_digit a pid world).v4 a.iface sys.nl.af_inet gateway
    pub net :
        OnlyGateway4 sys
          (construct sys is_letter is_digit a pid world).pid
          (construct sys is_letter is_digit a pid world).v4.target_ip
          gateway

  -- IPv6 has a target and an address, its gateway is known or found, and only that answers.
  pub record OneWay6 (a : Arguments) (pid : ℕ) (world : sys.World) (gateway : Text) : Type 0 where
    pub configured : (construct sys is_letter is_digit a pid world).v6.configured ≡ true
    pub has_address : HasAddress sys a.iface sys.nl.af_inet6
    pub enabled : is_disabled (construct sys is_letter is_digit a pid world).v6.gateway_mode ≡ false
    pub located :
        Located sys
          (construct sys is_letter is_digit a pid world).v6
          a.iface
          sys.nl.af_inet6
          gateway
    pub net :
        OnlyGateway6 sys
          (construct sys is_letter is_digit a pid world).pid
          (construct sys is_letter is_digit a pid world).v6.target_ip
          gateway

  behind4 :
      (a : Arguments) (pid : ℕ) (world : sys.World) (n : ℕ) (gateway : Text)
      → OneWay4 a pid world gateway
      → is_empty gateway ≡ false
      → 10 ≤ n
      → is_behind_gateway (ticks sys n (construct sys is_letter is_digit a pid world)).v4 ≡ true
  behind4 a pid world zero gateway one some_ip late = absurd (omega (arith, late))
  behind4 a pid world (suc n) gateway one some_ip late =
      let m = construct sys is_letter is_digit a pid world in
      let on = one.configured in
      let has = one.has_address in
      let f = construct-IsFresh sys is_letter is_digit a pid world in
      let active =
        recheck-finds sys m.v4 sys.nl.af_inet m f.0 on
          (subst (λ i. HasAddress sys i sys.nl.af_inet) (sym f.2) has) in
      let p : Ready4 sys m.v4.target_ip gateway m.iface m.v4 = record {
        opened = (construct-opened sys is_letter is_digit a pid world).0 one.net.opens on;
        target_ip = refl;
        located = subst (λ i. Located sys m.v4 i sys.nl.af_inet gateway) (sym f.2) one.located;
        enabled = one.enabled;
      } in
      let d = ticks-Down4 sys m.v4.target_ip gateway n m one.net some_ip active p in
      let none_yet = (ticks-fail_streak sys is_letter is_digit a pid world 0).0 in
      let u = ticks sys (suc n) m in
      let lost : 10 ≤ u.v4.fail_streak = omega (arith, d.streak, late) in
      ground (arith, d.active, d.reached lost, lost)

  behind6 :
      (a : Arguments) (pid : ℕ) (world : sys.World) (n : ℕ) (gateway : Text)
      → OneWay6 a pid world gateway
      → is_empty gateway ≡ false
      → 10 ≤ n
      → is_behind_gateway (ticks sys n (construct sys is_letter is_digit a pid world)).v6 ≡ true
  behind6 a pid world zero gateway one some_ip late = absurd (omega (arith, late))
  behind6 a pid world (suc n) gateway one some_ip late =
      let m = construct sys is_letter is_digit a pid world in
      let on = one.configured in
      let has = one.has_address in
      let f = construct-IsFresh sys is_letter is_digit a pid world in
      let m' = tick_v4 sys m in
      let kept = (tick_v4-TrackStep sys m).2 in
      let iface' : m'.iface ≡ a.iface = (tick_v4-SameTray sys m).iface ∙ f.2 in
      let active =
        recheck-finds sys m'.v6 sys.nl.af_inet6 m' (subst IsFresh (sym kept) f.1)
          (ap (λ t. t.configured) kept ∙ on)
          (subst (λ i. HasAddress sys i sys.nl.af_inet6) (sym iface') has) in
      let p : Ready6 sys m.v6.target_ip gateway m.iface m.v6 = record {
        opened = (construct-opened sys is_letter is_digit a pid world).1 one.net.opens on;
        target_ip = refl;
        located = subst (λ i. Located sys m.v6 i sys.nl.af_inet6 gateway) (sym f.2) one.located;
        enabled = one.enabled;
      } in
      let d = ticks-Down6 sys m.v6.target_ip gateway n m one.net some_ip active p in
      let none_yet = (ticks-fail_streak sys is_letter is_digit a pid world 0).1 in
      let u = ticks sys (suc n) m in
      let lost : 10 ≤ u.v6.fail_streak = omega (arith, d.streak, late) in
      ground (arith, d.active, d.reached lost, lost)

  -- Where the target is lost and its gateway still answers, the tray is blue from the tenth tick on:
  -- for a monitor made by the constructor, and for one of the protocols a target that never answers
  -- a ping, a gateway that answers every ping, whose check is not disabled, and which is configured
  -- or is the default route, and an address of the interface; where the sockets of that protocol
  -- open and its pings of the gateway go out whole, and at any tick behind which the other
  -- protocol's last ping, if it is pinged at all, was lost. The tray is blue then also where the
  -- other protocol has lost fewer than ten pings, for which the README's order would give yellow.
  pub ticks-blue :
      (a : Arguments) (pid : ℕ) (world : sys.World) (n : ℕ) (gateway : Text)
      → let u = ticks sys n (construct sys is_letter is_digit a pid world) in
        (OneWay4 a pid world gateway × (is_answering u.v6 ≡ false))
          ⊎ (OneWay6 a pid world gateway × (is_answering u.v4 ≡ false))
        → is_empty gateway ≡ false
        → 10 ≤ n
        → u.current_severity ≡ blue
  ticks-blue a pid world n gateway way some_ip late =
      let u = ticks sys n (construct sys is_letter is_digit a pid world) in
      let rules = ticks-FollowsRules sys is_letter is_digit a pid world n in
      let is_it : is_blue u.current_severity ≡ true = elim way [
        | inl (one, lost) ↦
            let b = behind4 a pid world n gateway one some_ip late in
            rules.blue_rule ∙ ground (arith, b, behind-not_answering u.v4 b, lost)
        | inr (one, lost) ↦
            let b = behind6 a pid world n gateway one some_ip late in
            rules.blue_rule ∙ ground (arith, b, behind-not_answering u.v6 b, lost)
      ] in
      is_blue-blue u.current_severity is_it
