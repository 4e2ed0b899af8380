-- ===== src/Ping/Remade/Count.antt =====
-- How often the sockets of the two protocols are made.
use conwatch.Prelude.{ℕ, ◌+◌, ◌%◌, ◌≡◌, ◌==◌, List, Text, ℤ, ltb, arith, if◌then◌else◌}
use conwatch.Ping.{System, Monitor, ProtoTrack}
use conwatch.Ping.Tick.{maybe_recheck_local_address}
use conwatch.Ping.Unseen.{Unseen}

-- The sockets that were asked for, over IPv4 and over IPv6.
abbrev pub Tally : Type 0
Tally = ℕ × ℕ

-- `tally w` counts the calls of socket(2) before w: no other call changes it.
pub record IsTally (sys : System) (tally : sys.World → Tally) : Type 0 where
  pub unseen : Unseen sys tally
  pub made4 : (w : sys.World) → tally (sys.socket4 w).1 ≡ ((tally w).0 + 1, (tally w).1)
  pub made6 : (w : sys.World) → tally (sys.socket6 w).1 ≡ ((tally w).0, (tally w).1 + 1)
  pub sent :
      (s : ℤ) (packet : List ℕ) (to : Text) (w : sys.World)
      → tally (sys.sendto s packet to w).1 ≡ tally w

abbrev pub tenth : ℕ → ℕ
tenth streak = if streak % 10 == 0 then 1 else 0

-- One socket where the streak has grown to a multiple of ten.
abbrev pub remade : ProtoTrack → ProtoTrack → ℕ
remade t t' = if ltb t.fail_streak t'.fail_streak then tenth t'.fail_streak else 0

pub recheck-streak :
    (sys : System) (t : ProtoTrack) (family : ℕ) (m : Monitor sys)
    → (maybe_recheck_local_address sys t family m).0.fail_streak ≡ t.fail_streak
unfolding maybe_recheck_local_address
recheck-streak sys t family m = ground arith
