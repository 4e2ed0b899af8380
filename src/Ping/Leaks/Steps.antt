-- ===== src/Ping/Leaks/Steps.antt =====
-- What a monitor owns, and the steps that leave it alone.
use conwatch.Prelude.{◌≡◌, ◌∙◌, Bool, ℤ}
use conwatch.Ping.{System, Monitor}
use conwatch.Ping.Owned.{Owns}
use conwatch.Ping.Descriptors.{IsLawful}

module _ (sys : System) (held : sys.World → ℤ → Bool) (lawful : IsLawful sys held) where
  -- What neither makes nor ends a socket.
  pub record Quiet (m m' : Monitor sys) : Type 0 where
    pub sock4 : m'.v4.sock ≡ m.v4.sock
    pub sock6 : m'.v6.sock ≡ m.v6.sock
    pub same : (d : ℤ) → held m'.world d ≡ held m.world d

  -- The monitor's sockets are open, and nothing else but what was open before it.
  abbrev pub OwnsBoth : (ℤ → Bool) → Monitor sys → Type 0
  OwnsBoth base m = Owns base (held m.world) m.v4.sock m.v6.sock

  pub Quiet-OwnsBoth :
      (base : ℤ → Bool) (m m' : Monitor sys) → Quiet m m' → OwnsBoth base m → OwnsBoth base m'
  Quiet-OwnsBoth base m m' q o =
      rw (q.sock4, q.sock6)
        (record {
          apart = o.apart;
          new = o.new;
          new_other = o.new_other;
          all = λ d. q.same d ∙ o.all d;
        })

  pub Quiet-trans : {a b c : Monitor sys} → Quiet a b → Quiet b c → Quiet a c
  Quiet-trans p q = record {
    sock4 = q.sock4 ∙ p.sock4;
    sock6 = q.sock6 ∙ p.sock6;
    same = λ d. q.same d ∙ p.same d;
  }
