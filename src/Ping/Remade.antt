-- ===== src/Ping/Remade.antt =====
-- How often a tick makes the sockets anew.
pub mod Count
pub mod V4
pub mod V6
use conwatch.Prelude.{
  ℕ, zero, suc, ◌+◌, ◌*◌, ◌%◌, ◌≤◌, ◌≡◌, refl, sym, ap, ◌∙◌, subst, Bool, arith, ltb, if◌then◌else◌,
  ◌==◌, Bool-cases, inl, inr,
}
use conwatch.Ping.{System, Monitor, ProtoTrack}
use conwatch.Ping.Setup.{Arguments, construct}
use conwatch.Ping.Tick.{tick_v4, tick_v6}
use conwatch.Ping.Status.{tick}
use conwatch.Ping.Track.{TrackStep, skipped, answered, lost}
use conwatch.Ping.Outcome.{tick_v4-TrackStep, tick_v6-TrackStep, tick_protocols-TrackStep}
use conwatch.Ping.History.{ticks, tick-tracks, ticks-fail_streak}
use conwatch.Ping.Unseen.{tick-world}
use conwatch.Ping.Remade.Count.{Tally, IsTally, tenth, remade}
use conwatch.Ping.Remade.V4.{tick_v4-tally}
use conwatch.Ping.Remade.V6.{tick_v6-tally}

-- From `old` to `now` sockets were made for each full ten of the streak, and at most one in ten of
-- the n ticks.
pub record Paced (old now streak n : ℕ) : Type 0 where
  pub made : ℕ
  pub counted : now ≡ old + made
  pub often : streak ≤ 10 * made + streak % 10
  pub seldom : 10 * made + streak % 10 ≤ n

Paced-none : (old streak : ℕ) → streak ≤ 0 → Paced old old streak 0
Paced-none old streak h = record {
  made = 0;
  counted = omega arith;
  often = omega (arith, h);
  seldom = omega (arith, h);
}

Paced-step :
    (old now : ℕ) (t t' : ProtoTrack) (n : ℕ)
    → TrackStep t t'
    → Paced old now t.fail_streak n
    → Paced old (now + remade t t') t'.fail_streak (suc n)
Paced-step old now t t' n (skipped a e f) p = record {
  made = p.made;
  counted = ground (arith, e, p.counted);
  often = omega (arith, e, p.often);
  seldom = omega (arith, e, p.seldom);
}
Paced-step old now t t' n (answered a e f) p = record {
  made = p.made;
  counted = ground (arith, e, p.counted);
  often = omega (arith, e);
  seldom = omega (arith, e, p.seldom);
}
Paced-step old now t t' n (lost a e f g) p =
    let k = tenth t'.fail_streak in
    let now' : remade t t' ≡ k = ground (arith, e) in
    elim (Bool-cases (t'.fail_streak % 10 == 0)) [
      | inl due ↦
          let one : k ≡ 1 = rw due refl in
          record {
            made = p.made + 1;
            counted = omega (arith, now', one, p.counted);
            often = ground (arith, e, due, p.often);
            seldom = ground (arith, e, due, p.seldom);
          }
      | inr early ↦
          let no : k ≡ 0 = rw early refl in
          record {
            made = p.made;
            counted = omega (arith, now', no, p.counted);
            often = ground (arith, e, early, p.often);
            seldom = ground (arith, e, early, p.seldom);
          }
    ]

module _ (sys : System) (tally : sys.World → Tally) (lawful : IsTally sys tally) where
  -- A tick makes a new socket for a protocol exactly if it brings its streak to a multiple of ten.
  tick-tally :
      (m : Monitor sys)
      → let m' = tick sys m in
        tally m'.world
        ≡ ((tally m.world).0 + remade m.v4 m'.v4, (tally m.world).1 + remade m.v6 m'.v6)
  tick-tally m =
      let a = tick_v4 sys m in
      let b = tick_v6 sys a in
      let t = tick-tracks sys m in
      let v4 : (tick sys m).v4 ≡ a.v4 = t.0 ∙ (tick_v6-TrackStep sys a).2 in
      let v6 : a.v6 ≡ m.v6 = (tick_v4-TrackStep sys m).2 in
      let first = tick_v4-tally sys tally lawful m in
      let second = tick_v6-tally sys tally lawful a in
      ap tally (tick-world sys m) ∙ second ∙ (rw (v4, t.1, first, v6) refl)

  BothPaced : Tally → ℕ → Monitor sys → Type 0
  BothPaced old n m =
      Paced old.0 (tally m.world).0 m.v4.fail_streak n
      × Paced old.1 (tally m.world).1 m.v6.fail_streak n

  tick-Paced :
      (old : Tally) (n : ℕ) (m : Monitor sys)
      → BothPaced old n m
      → BothPaced old (suc n) (tick sys m)
  unfolding BothPaced
  tick-Paced old n m p =
      let m' = tick sys m in
      let o = tick_protocols-TrackStep sys m in
      let t = tick-tracks sys m in
      let made = tick-tally m in
      let s4 : TrackStep m.v4 m'.v4 = subst (TrackStep m.v4) (sym t.0) o.1 in
      let s6 : TrackStep m.v6 m'.v6 = subst (TrackStep m.v6) (sym t.1) o.3 in
      (
        subst (λ k. Paced old.0 k m'.v4.fail_streak (suc n)) (sym (ap (λ x. x.0) made))
            (Paced-step old.0 (tally m.world).0 m.v4 m'.v4 n s4 p.0),
        subst (λ k. Paced old.1 k m'.v6.fail_streak (suc n)) (sym (ap (λ x. x.1) made))
            (Paced-step old.1 (tally m.world).1 m.v6 m'.v6 n s6 p.1),
      )

  module _ (is_letter is_digit : ℕ → Bool) where
    -- The socket of a protocol is made anew for every ten losses in a row, and not more often: after
    -- n ticks of a monitor made by the constructor, the calls of socket(2) that the ticks have made
    -- for a protocol are at least its present streak divided by ten and rounded down, and ten times
    -- their number, with the last digit of the streak, is at most n. The tally of socket(2) is taken
    -- to be touched by no other call.
    pub ticks-Paced :
        (a : Arguments) (pid : ℕ) (world : sys.World) (n : ℕ)
        → let m = construct sys is_letter is_digit a pid world in
          let u = ticks sys n m in
          Paced (tally m.world).0 (tally u.world).0 u.v4.fail_streak n
          × Paced (tally m.world).1 (tally u.world).1 u.v6.fail_streak n
    unfolding BothPaced ticks
    ticks-Paced a pid world zero =
        let m = construct sys is_letter is_digit a pid world in
        let h = ticks-fail_streak sys is_letter is_digit a pid world 0 in
        (
          Paced-none (tally m.world).0 m.v4.fail_streak h.0,
          Paced-none (tally m.world).1 m.v6.fail_streak h.1,
        )
    ticks-Paced a pid world (suc n) =
        let m = construct sys is_letter is_digit a pid world in
        tick-Paced (tally m.world) n (ticks sys n m) (ticks-Paced a pid world n)
