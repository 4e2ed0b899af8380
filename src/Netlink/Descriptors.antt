-- ===== src/Netlink/Descriptors.antt =====
-- What is open in the kernel before and behind a NetlinkWatcher.
use conwatch.Prelude.{
  is_negative, ◌≡◌, refl, ap, ◌∙◌, Bool, true, false, not, ◌&&◌, ◌||◌, Bool-cases, inl, inr, ℕ, ℤ,
  pos, negsuc, arith, ◌==◌,
}
use conwatch.Netlink.Socket.{
  Kernel, DumpRequest, dump_request, NetlinkWatcher, request_dump, bind_new, open_netlink, destroy,
}

abbrev pub same_fd : ℤ → ℤ → Bool
same_fd (pos a) (pos b) = a == b
same_fd (negsuc a) (negsuc b) = a == b
same_fd _ _ = false

-- `is_open w d` says that the descriptor d is open. A call that makes one makes one that was not
-- open, and nothing but close ends one.
pub record IsLawful (k : Kernel) (is_open : k.World → ℤ → Bool) : Type 0 where
  pub made :
      (w : k.World)
      → let (s, w') = k.socket_route w in
        is_negative s ≡ false
        → (is_open w s ≡ false) × ((d : ℤ) → is_open w' d ≡ same_fd d s || is_open w d)
  pub not_made :
      (w : k.World)
      → let (s, w') = k.socket_route w in
        is_negative s ≡ true → (d : ℤ) → is_open w' d ≡ is_open w d
  pub bound : (s : ℤ) (f g : ℕ) (w : k.World) (d : ℤ) → is_open (k.bind s f g w).1 d ≡ is_open w d
  pub sent :
      (s : ℤ) (r : DumpRequest) (w : k.World) (d : ℤ) → is_open (k.sendto s r w).1 d ≡ is_open w d
  pub closed :
      (s : ℤ) (w : k.World) (d : ℤ) → is_open (k.close s w) d ≡ not (same_fd d s) && is_open w d

pub same_fd-true : (d s : ℤ) → same_fd d s ≡ true → d ≡ s
same_fd-true (pos a) (pos b) e = ground (arith, e)
same_fd-true (negsuc a) (negsuc b) e = ground (arith, e)
same_fd-true (pos a) (negsuc b) e = absurd (ground (arith, e))
same_fd-true (negsuc a) (pos b) e = absurd (ground (arith, e))

-- To open a descriptor and to close it again is to do nothing.
pub made_closed :
    (was is_now then_is : ℤ → Bool) (s : ℤ)
    → was s ≡ false
    → ((d : ℤ) → is_now d ≡ same_fd d s || was d)
    → ((d : ℤ) → then_is d ≡ not (same_fd d s) && is_now d)
    → (d : ℤ) → then_is d ≡ was d
made_closed was is_now then_is s fresh made closed d = elim (Bool-cases (same_fd d s)) [
  | inl same ↦ ground (arith, closed d, same, ap was (same_fd-true d s same) ∙ fresh)
  | inr differ ↦ ground (arith, closed d, made d, differ)
]

module _ (k : Kernel) (is_open : k.World → ℤ → Bool) (lawful : IsLawful k is_open) where
  -- A watcher that is opened and destroyed leaves the same descriptors open as before, whether
  -- opening it succeeds or fails at either call; only one that succeeds keeps a descriptor.
  pub open_netlink-destroy :
      (w : k.World)
      → let o = open_netlink k w in
        ((d : ℤ) → is_open (destroy k o.netlink o.world) d ≡ is_open w d)
        × (is_negative o.netlink.fd ≡ not o.ok)
  unfolding open_netlink bind_new destroy request_dump
  open_netlink-destroy w =
      let (s, w1) = k.socket_route w in
      let n : NetlinkWatcher = record { fd = s } in
      let (b, w2) = k.bind s k.af_netlink k.rtmgrp_link w1 in
      let w3 = request_dump k n w2 in
      let after_bind = lawful.bound s k.af_netlink k.rtmgrp_link w1 in
      elim (Bool-cases (is_negative s)) [
        | inl failed ↦ rw (failed, failed) (lawful.not_made w failed, refl)
        | inr got ↦ elim (Bool-cases (is_negative b)) [
          | inl unbound ↦
              rw (got, unbound)
                (
                  made_closed (is_open w) (is_open w2) (is_open (k.close s w2)) s
                      (lawful.made w got).0 (λ d. after_bind d ∙ (lawful.made w got).1 d)
                      (lawful.closed s w2),
                  refl,
                )
          | inr done ↦
              rw (got, done, got)
                (
                  made_closed (is_open w) (is_open w3) (is_open (k.close s w3)) s
                      (lawful.made w got).0
                      (λ d.
                        lawful.sent s (dump_request k) w2 d
                        ∙ after_bind d
                        ∙ (lawful.made w got).1 d)
                      (lawful.closed s w3),
                  refl,
                )
        ]
      ]
