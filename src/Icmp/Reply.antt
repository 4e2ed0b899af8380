-- ===== src/Icmp/Reply.antt =====
-- Which datagrams count as a reply.
use conwatch.Prelude.{
  ℕ, ◌+◌, ◌*◌, ◌%◌, ◌<◌, ◌≤◌, ◌≡◌, refl, true, ◌&&◌, ◌==◌, List, [], ◌∷◌, ◌++◌, arith, length,
  get_or, length-append, get_or-append,
}
use conwatch.Icmp.{echo_packet, is_matching_reply4, is_matching_reply6}

-- An IPv4 header without or with options: its length is that of its first byte's low half.
abbrev pub IsHeader4 : List ℕ → Type 0
IsHeader4 [] = ⊥
IsHeader4 (b ∷ bs) = length (b ∷ bs) ≡ b % 16 * 4

echo_fields :
    (ty sum id seq : ℕ)
    → id < 65536
    → (length (echo_packet ty sum id seq) ≡ 24)
      × (get_or (echo_packet ty sum id seq) 0 0 ≡ ty)
      × (get_or (echo_packet ty sum id seq) 4 0 + 256 * get_or (echo_packet ty sum id seq) 5 0 ≡ id)
unfolding echo_packet
echo_fields ty sum id seq h = (refl, refl, omega arith)

-- Behind any IPv4 header, an echo packet is taken as the reply exactly if it is an echo reply with
-- this process's identifier, whatever its checksum and its sequence number.
pub is_matching_reply4_lem :
    (header : List ℕ) (ty sum id seq pid : ℕ)
    → IsHeader4 header
    → id < 65536
    → is_matching_reply4 (header ++ echo_packet ty sum id seq) pid ≡ (ty == 0) && (id == pid)
unfolding is_matching_reply4
is_matching_reply4_lem [] ty sum id seq pid h fits = absurd h
is_matching_reply4_lem (b ∷ bs) ty sum id seq pid h fits =
    let packet = echo_packet ty sum id seq in
    let (len, kind, ident) = echo_fields ty sum id seq fits in
    ground (
      arith,
      length-append bs packet,
      get_or-append (b ∷ bs) packet 0 0,
      get_or-append (b ∷ bs) packet 4 0,
      get_or-append (b ∷ bs) packet 5 0,
    )

-- A datagram that is taken as the reply holds the whole ICMP header behind its IP header, so every
-- byte that decided it was received.
pub is_matching_reply4_bounds :
    (buf : List ℕ) (pid : ℕ)
    → is_matching_reply4 buf pid ≡ true
    → get_or buf 0 0 % 16 * 4 + 8 ≤ length buf
unfolding is_matching_reply4
is_matching_reply4_bounds buf pid h = ground arith

-- An ICMPv6 socket delivers no IP header: an echo packet is taken as the reply exactly if it is an
-- ICMPv6 echo reply with this process's identifier, whatever its checksum and sequence number.
pub is_matching_reply6_lem :
    (ty sum id seq pid : ℕ)
    → id < 65536
    → is_matching_reply6 (echo_packet ty sum id seq) pid ≡ (ty == 129) && (id == pid)
unfolding is_matching_reply6
is_matching_reply6_lem ty sum id seq pid fits =
    let (len, kind, ident) = echo_fields ty sum id seq fits in ground arith
