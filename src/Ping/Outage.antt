-- ===== src/Ping/Outage.antt =====
-- How an outage comes to be shown.
use conwatch.Prelude.{
  ℕ, zero, suc, Bool-cases, ◌+◌, ◌-◌, ◌≤◌, ◌≡◌, ◌⊎◌, refl, sym, ap, ◌∙◌, subst, Bool, true, false,
  not, ◌&&◌, ◌||◌, [], Text, arith, inl, inr, ℤ, is_empty,
}
use conwatch.Ping.{System, Monitor, ProtoTrack, Severity, red}
use conwatch.Ping.Setup.{Arguments, construct}
use conwatch.Ping.Tick.{tick_v4, tick_v6}
use conwatch.Ping.Status.{tick}
use conwatch.Ping.Track.{is_active}
use conwatch.Ping.Outcome.{tick_v4-TrackStep, tick_v6-TrackStep, tick_protocols-TrackStep}
use conwatch.Ping.History.{ticks, tick-tracks, ticks-BothSound}
use conwatch.Ping.Rules.{down_if_active, is_red, both_inactive, colour, glyph, glyph_lem}
use conwatch.Ping.Redraw.{ticks-shown, ticks-FollowsRules}
use conwatch.Ping.Untouched.{tick_v4-SameTray}
use conwatch.Ping.Addressed.{IsFresh, HasAddress, tick_v4-finds, tick_v6-finds, construct-IsFresh}
use conwatch.Ping.Silence.{Lost, tick_v4-Lost, tick_v6-Lost}

-- A protocol that is pinged, or has no target and never will be.
abbrev pub IsSettled : ProtoTrack → Type 0
IsSettled t = (is_active t ≡ true) ⊎ (t.configured ≡ false)

is_red-red : (s : Severity) → is_red s ≡ true → s ≡ red
is_red-red s h = ground arith

is_empty-[] : (xs : Text) → is_empty xs ≡ true → xs ≡ []
is_empty-[] xs h = ground arith

module _ (sys : System) where
  ticks_add : (n k : ℕ) (m : Monitor sys) → ticks sys n (ticks sys k m) ≡ ticks sys (n + k) m
  unfolding ticks
  ticks_add zero k m = ap (λ j. ticks sys j m) (omega arith)
  ticks_add (suc n) k m =
      let shift : suc n + k ≡ suc (n + k) = omega arith in
      ap (tick sys) (ticks_add n k m) ∙ ap (λ j. ticks sys j m) (sym shift)

  pub ticks-configured :
      (n : ℕ) (m : Monitor sys)
      → ((ticks sys n m).v4.configured ≡ m.v4.configured)
        × ((ticks sys n m).v6.configured ≡ m.v6.configured)
  unfolding ticks
  ticks-configured zero m = (refl, refl)
  ticks-configured (suc n) m =
      let m' = ticks sys n m in
      let o = tick_protocols-TrackStep sys m' in
      let t = tick-tracks sys m' in
      let ih = ticks-configured n m in
      (
        ap (λ p. p.configured) t.0 ∙ o.0.configured ∙ ih.0,
        ap (λ p. p.configured) t.1 ∙ o.2.configured ∙ ih.1,
      )

  module _ (silent : (s : ℤ) (w : sys.World) → sys.datagrams s w ≡ []) where
    tick-Lost4 : (m : Monitor sys) → is_active m.v4 ≡ true → Lost sys silent m.v4 (tick sys m).v4
    tick-Lost4 m on =
        let kept = (tick_v6-TrackStep sys (tick_v4 sys m)).2 in
        subst (Lost sys silent m.v4) (sym ((tick-tracks sys m).0 ∙ kept))
          (tick_v4-Lost sys silent m on)

    tick-Lost6 : (m : Monitor sys) → is_active m.v6 ≡ true → Lost sys silent m.v6 (tick sys m).v6
    tick-Lost6 m on =
        let kept = (tick_v4-TrackStep sys m).2 in
        subst (Lost sys silent m.v6) (sym (tick-tracks sys m).1) (
          subst (λ t. Lost sys silent t (tick_v6 sys (tick_v4 sys m)).v6) kept
            (tick_v6-Lost sys silent (tick_v4 sys m) (ap is_active kept ∙ on)))

    ticks-down4 :
        (n : ℕ) (m : Monitor sys)
        → is_active m.v4 ≡ true
        → (is_active (ticks sys n m).v4 ≡ true)
          × ((ticks sys n m).v4.fail_streak ≡ m.v4.fail_streak + n)
          × (10 ≤ n → (ticks sys n m).v4.gateway_reachable ≡ false)
    unfolding ticks
    ticks-down4 zero m on = (on, omega arith, λ h. absurd (omega (arith, h)))
    ticks-down4 (suc n) m on =
        let ih = ticks-down4 n m on in
        let l = tick-Lost4 (ticks sys n m) ih.0 in
        (
          l.active,
          omega (arith, l.streak, ih.1),
          λ h. l.unreachable (omega (arith, h, l.streak, ih.1)),
        )

    ticks-down6 :
        (n : ℕ) (m : Monitor sys)
        → is_active m.v6 ≡ true
        → (is_active (ticks sys n m).v6 ≡ true)
          × ((ticks sys n m).v6.fail_streak ≡ m.v6.fail_streak + n)
          × (10 ≤ n → (ticks sys n m).v6.gateway_reachable ≡ false)
    unfolding ticks
    ticks-down6 zero m on = (on, omega arith, λ h. absurd (omega (arith, h)))
    ticks-down6 (suc n) m on =
        let ih = ticks-down6 n m on in
        let l = tick-Lost6 (ticks sys n m) ih.0 in
        (
          l.active,
          omega (arith, l.streak, ih.1),
          λ h. l.unreachable (omega (arith, h, l.streak, ih.1)),
        )

    settled-down :
        (t t' : ProtoTrack) (n : ℕ)
        → IsSettled t
        → 10 ≤ n
        → t'.configured ≡ t.configured
        → (is_active t ≡ true
            → (is_active t' ≡ true)
              × (t'.fail_streak ≡ t.fail_streak + n)
              × (10 ≤ n → t'.gateway_reachable ≡ false))
        → (down_if_active t' ≡ true) × (is_active t' ≡ is_active t)
    settled-down t t' n (inl on) late c dark = let d = dark on in ground (arith, d.0, d.1, d.2 late)
    settled-down t t' n (inr off) late c dark = ground arith

    module _ (is_letter is_digit : ℕ → Bool) where
      -- The outage, from a tick behind which each protocol is settled.
      settled-red :
          (a : Arguments) (pid : ℕ) (world : sys.World) (k n : ℕ)
          → IsSettled (ticks sys k (construct sys is_letter is_digit a pid world)).v4
          → IsSettled (ticks sys k (construct sys is_letter is_digit a pid world)).v6
          → both_inactive
              (ticks sys k (construct sys is_letter is_digit a pid world)).v4
              (ticks sys k (construct sys is_letter is_digit a pid world)).v6
            ≡ false
          → 10 ≤ n
          → let m = ticks sys (n + k) (construct sys is_letter is_digit a pid world) in
            (m.current_severity ≡ red) × (m.current_glyph ≡ [])
      settled-red a pid world k n s4 s6 some late =
          let m0 = construct sys is_letter is_digit a pid world in
          let mk = ticks sys k m0 in
          let m = ticks sys (n + k) m0 in
          let same = ticks_add n k m0 in
          let c = ticks-configured n mk in
          let d4 : (down_if_active m.v4 ≡ true) × (is_active m.v4 ≡ is_active mk.v4) =
            subst (λ u. (down_if_active u.v4 ≡ true) × (is_active u.v4 ≡ is_active mk.v4)) same
              (settled-down mk.v4 (ticks sys n mk).v4 n s4 late c.0 (ticks-down4 n mk)) in
          let d6 : (down_if_active m.v6 ≡ true) × (is_active m.v6 ≡ is_active mk.v6) =
            subst (λ u. (down_if_active u.v6 ≡ true) × (is_active u.v6 ≡ is_active mk.v6)) same
              (settled-down mk.v6 (ticks sys n mk).v6 n s6 late c.1 (ticks-down6 n mk)) in
          let rules = ticks-FollowsRules sys is_letter is_digit a pid world (n + k) in
          let shown = ticks-shown sys is_letter is_digit a pid world (n + k) in
          let sound = ticks-BothSound sys is_letter is_digit a pid world (n + k) in
          let is_it : is_red m.current_severity ≡ true =
            rules.red_rule ∙ ground (arith, d4, d6, some) in
          let now_red : m.current_severity ≡ red = is_red-red m.current_severity is_it in
          let gone : is_red (colour m.v4 m.v6) && not (is_empty (glyph m.v4 m.v6)) ≡ false =
            (glyph_lem m.v4 m.v6 sound.0 sound.1).1 in
          let painted : is_red (colour m.v4 m.v6) ≡ true = ap is_red (sym shown.0) ∙ is_it in
          let no_glyph : is_empty (glyph m.v4 m.v6) ≡ true = ground (arith, gone, painted) in
          (now_red, shown.1 ∙ is_empty-[] (glyph m.v4 m.v6) no_glyph)

      IsSettled-once : (t : ProtoTrack) → (t.configured ≡ true → is_active t ≡ true) → IsSettled t
      IsSettled-once t h = elim (Bool-cases t.configured) [
        | inl on ↦ inl (h on)
        | inr off ↦ inr off
      ]

      -- Every protocol that has a target is pinged from the first tick on.
      first-active :
          (a : Arguments) (pid : ℕ) (world : sys.World)
          → let m = construct sys is_letter is_digit a pid world in
            (m.v4.configured ≡ true → HasAddress sys a.iface sys.nl.af_inet)
            → (m.v6.configured ≡ true → HasAddress sys a.iface sys.nl.af_inet6)
            → (m.v4.configured ≡ true → is_active (tick sys m).v4 ≡ true)
              × (m.v6.configured ≡ true → is_active (tick sys m).v6 ≡ true)
      first-active a pid world has4 has6 =
          let m = construct sys is_letter is_digit a pid world in
          let f = construct-IsFresh sys is_letter is_digit a pid world in
          let t = tick-tracks sys m in
          let m' = tick_v4 sys m in
          let kept = tick_v4-TrackStep sys m in
          let iface' : m'.iface ≡ a.iface = (tick_v4-SameTray sys m).iface ∙ f.2 in
          (
            λ on.
                ap is_active (t.0 ∙ (tick_v6-TrackStep sys m').2)
                ∙ tick_v4-finds sys m f.0 on
                    (subst (λ i. HasAddress sys i sys.nl.af_inet) (sym f.2) (has4 on)),
            λ on.
                ap is_active t.1
                ∙ tick_v6-finds sys m' (subst IsFresh (sym kept.2) f.1)
                    (ap (λ p. p.configured) kept.2 ∙ on)
                    (subst (λ i. HasAddress sys i sys.nl.af_inet6) (sym iface') (has6 on)),
          )

      -- A network that never answers turns the tray red within eleven ticks and takes its glyph
      -- away, for good: for a monitor made by the constructor, with a target for at least one
      -- protocol and an address of the interface for each protocol that has a target.
      pub ticks-red :
          (a : Arguments) (pid : ℕ) (world : sys.World) (n : ℕ)
          → let m = construct sys is_letter is_digit a pid world in
            let m' = ticks sys n m in
            m.v4.configured || m.v6.configured ≡ true
            → (m.v4.configured ≡ true → HasAddress sys a.iface sys.nl.af_inet)
            → (m.v6.configured ≡ true → HasAddress sys a.iface sys.nl.af_inet6)
            → 11 ≤ n
            → (m'.current_severity ≡ red) × (m'.current_glyph ≡ [])
      unfolding ticks
      ticks-red a pid world n some has4 has6 late =
          let m = construct sys is_letter is_digit a pid world in
          let on = first-active a pid world has4 has6 in
          let c = ticks-configured 1 m in
          let enough : n ≡ (n - 1) + 1 = omega (arith, late) in
          let active : both_inactive (tick sys m).v4 (tick sys m).v6 ≡ false =
            ground (arith, some, on, c) in
          subst
            (λ j. let m' = ticks sys j m in (m'.current_severity ≡ red) × (m'.current_glyph ≡ []))
            (sym enough)
            (settled-red a pid world 1 (n - 1)
              (IsSettled-once (tick sys m).v4 (λ h. on.0 (sym c.0 ∙ h)))
              (IsSettled-once (tick sys m).v6 (λ h. on.1 (sym c.1 ∙ h))) active
              (omega (arith, late)))
