-- ===== src/Rtnetlink.antt =====
-- What src/watcher/netlink.cpp and src/shared/gateway_resolver.cpp take from <linux/netlink.h> and
-- <linux/rtnetlink.h>: the macros over a received buffer, the header fields and the constants. They
-- are a parameter; its two laws say that NLMSG_NEXT and RTA_NEXT use up bytes of the buffer, as
-- they do where the kernel has aligned the last message too.
pub mod Sample
mod Tests
use conwatch.Prelude.{
  ℕ, zero, suc, ◌<◌, ◌≤◌, ◌≡◌, refl, ◌∙◌, Bool, true, false, List, [], ◌∷◌, Text, arith,
  if◌then◌else◌, Bool-cases, inl, inr,
}

-- `Messages` is a header pointer with the bytes that are left, `Attrs` an attribute pointer with
-- the attribute bytes that are left. `rta_data` is the payload of the attribute.
pub record Rtnetlink : Type 1 where
  pub Messages : Type 0
  pub nlmsg_ok : Messages → Bool
  pub nlmsg_next : Messages → Messages
  pub nlmsg_left : Messages → ℕ
  pub nlmsg_next_shrinks :
      (m : Messages) → nlmsg_ok m ≡ true → nlmsg_left (nlmsg_next m) < nlmsg_left m
  pub nlmsg_type : Messages → ℕ
  pub Attrs : Type 0
  pub rta_ok : Attrs → Bool
  pub rta_next : Attrs → Attrs
  pub rta_left : Attrs → ℕ
  pub rta_next_shrinks : (a : Attrs) → rta_ok a ≡ true → rta_left (rta_next a) < rta_left a
  pub rta_type : Attrs → ℕ
  pub rta_data : Attrs → Text
  pub ifi_index : Messages → ℕ
  pub ifi_flags : Messages → ℕ
  pub ifla_rta : Messages → Attrs
  pub rtm_family : Messages → ℕ
  pub rtm_dst_len : Messages → ℕ
  pub rtm_rta : Messages → Attrs
  pub nlmsg_done : ℕ
  pub nlmsg_error : ℕ
  pub rtm_newlink : ℕ
  pub rtm_dellink : ℕ
  pub rtm_newroute : ℕ
  pub ifla_ifname : ℕ
  pub rta_oif : ℕ
  pub rta_gateway : ℕ
  pub iff_up : ℕ
  pub iff_running : ℕ
  pub iff_lower_up : ℕ
  pub af_inet : ℕ
  pub af_inet6 : ℕ

-- `for (c = start; ok(c); c = next(c))`: the positions that the body sees.
unfoldable pub walk {ℓ} : {C : Type ℓ} → (C → Bool) → (C → C) → ℕ → C → List C
walk ok next zero c = []
walk ok next (suc n) c = let rest = c ∷ walk ok next n (next c) in if ok c then rest else []

module _ {ℓ} {C : Type ℓ} (ok : C → Bool) (next : C → C) (left : C → ℕ)
    (shrinks : (c : C) → ok c ≡ true → left (next c) < left c) where
  -- As many rounds as there are bytes left are enough.
  pub walk_enough :
      (n k : ℕ) (c : C) → left c ≤ n → left c ≤ k → walk ok next n c ≡ walk ok next k c
  unfolding walk
  walk_enough zero zero c h g = refl
  walk_enough zero (suc k) c h g = elim (Bool-cases (ok c)) [
    | inl more ↦ absurd (omega (arith, shrinks c more))
    | inr end ↦ rw end
  ]
  walk_enough (suc n) zero c h g = elim (Bool-cases (ok c)) [
    | inl more ↦ absurd (omega (arith, shrinks c more))
    | inr end ↦ rw end
  ]
  walk_enough (suc n) (suc k) c h g = elim (Bool-cases (ok c)) [
    | inl more ↦ rw (
      more,
      walk_enough n k (next c) (omega (arith, shrinks c more)) (omega (arith, shrinks c more)),
    )
    | inr end ↦ rw end
  ]

  -- A loop over a buffer ends where every step uses up bytes: as many rounds as there are bytes left
  -- give the loop's own equation, so that no round is missing.
  pub walk_lem :
      (c : C)
      → walk ok next (left c) c ≡ (if ok c then c ∷ walk ok next (left (next c)) (next c) else [])
  unfolding walk
  walk_lem c =
      walk_enough (left c) (suc (left c)) c (omega arith) (omega arith)
      ∙ (elim (Bool-cases (ok c)) [
        | inl more ↦ rw (
          more,
          walk_enough (left c) (left (next c)) (next c) (omega (arith, shrinks c more))
              (omega arith),
        )
        | inr end ↦ rw end
      ])

module _ (nl : Rtnetlink) where
  unfoldable pub messages : nl.Messages → List nl.Messages
  messages m = walk nl.nlmsg_ok nl.nlmsg_next (nl.nlmsg_left m) m

  unfoldable pub attributes : nl.Attrs → List nl.Attrs
  attributes a = walk nl.rta_ok nl.rta_next (nl.rta_left a) a

  -- The positions of a buffer's messages, and of its attributes, are those of the source's loops: the
  -- first position if it is good, followed by the positions from the next one on, and none otherwise.
  pub messages_attributes_lem :
      (m : nl.Messages) (a : nl.Attrs)
      → (messages m ≡ (if nl.nlmsg_ok m then m ∷ messages (nl.nlmsg_next m) else []))
        × (attributes a ≡ (if nl.rta_ok a then a ∷ attributes (nl.rta_next a) else []))
  unfolding messages attributes
  messages_attributes_lem m a = (
    walk_lem nl.nlmsg_ok nl.nlmsg_next nl.nlmsg_left nl.nlmsg_next_shrinks m,
    walk_lem nl.rta_ok nl.rta_next nl.rta_left nl.rta_next_shrinks a,
  )
