-- ===== src/Processes/Tests.antt =====
-- Two children on a concrete table, and the theorems of the process manager at it.
use conwatch.Prelude.{ℕ, List, arith, some, ◌↔◌, ◌≡◌, refl, [], ◌∷◌, pos, codes}
use conwatch.Prelude.Map.{nat_key, lookup, insert}
use conwatch.Processes.{ProcessManager, TrackedProcess, Launch, empty, start, track}
use conwatch.Processes.Pairing.{IsPaired, empty-IsPaired, track-IsPaired, start-IsPaired}
use conwatch.Processes.Table.{
  view, Operation, launched, not_launched, stopped, reaping, operate_all, promise_all, NewPids,
  operate_all-view,
}

abbrev wifi : TrackedProcess
wifi = record { pid = 41; iface = codes "wlan0" }

abbrev vpn_launch : Launch
vpn_launch = record {
  iface = codes "wg0";
  target = codes "10.10.0.1";
  target6 = [];
  label = codes "VPN";
  gateway_ip_override4 = [];
  gateway_ip_override6 = codes "none";
}

abbrev one : ProcessManager
one = record { by_ifindex = (3, wifi) ∷ []; ifindex_by_pid = (41, 3) ∷ []; terminated = [] }

abbrev two : ProcessManager
two = record {
  by_ifindex = (3, wifi) ∷ (5, record { pid = 42; iface = codes "wg0" }) ∷ [];
  ifindex_by_pid = (41, 3) ∷ (42, 5) ∷ [];
  terminated = [];
}

one-IsPaired : IsPaired one
unfolding track insert
one-IsPaired =
    track-IsPaired 3 wifi empty empty-IsPaired (unfold lookup in refl) (unfold lookup in refl)

two-IsPaired : IsPaired two
unfolding start lookup insert
two-IsPaired = start-IsPaired 5 vpn_launch 41 one two one-IsPaired refl refl

-- Both come up, the first is stopped, and the second exits.
abbrev calls : List Operation
calls =
    launched 3 (record vpn_launch { iface = codes "wlan0" }) 40
    ∷ launched 5 vpn_launch 41
    ∷ not_launched 6 vpn_launch 10
    ∷ stopped 3
    ∷ reaping (pos 41 ∷ pos 42 ∷ pos 0 ∷ [])
    ∷ []

calls-NewPids : NewPids calls (view empty)
unfolding lookup
calls-NewPids =
    (λ j t h. absurd (ground (arith, h)), ((λ j t h e. ground (arith, h, e)), (tt, (tt, (tt, tt)))))

operate_all-view_example :
    (view (operate_all calls empty) ≡ promise_all calls (view empty))
    × ((p i : ℕ)
        → (lookup p (operate_all calls empty).ifindex_by_pid ≡ some i) ↔ (
            (t : TrackedProcess) × ((promise_all calls (view empty)).child_of i ≡ some t)
            × (t.pid ≡ p)))
operate_all-view_example = operate_all-view calls calls-NewPids
